-- ===== src/Safety/Session/Decisions.antt =====
-- What a decision promises to the server, which reads its tier, action, class and severity.
use finchat.Base.{
  ◌≡◌, ◌≢◌, refl, ◌⊎◌, inl, inr, some, none, List, [], ◌∷◌, String, append-cons_ne-nil, if-intro,
}
use finchat.Safety.Signals.{Thresholds, TurnSignals}
use finchat.Safety.State.{
  Action, Severity, Decision, SessionState, Reason, no_action, quarantine, handoff_crisis,
  handoff_fraud, info, warning, error, critical,
}
use finchat.Safety.Evaluate.{
  evaluate, product_action, with_review, review, opening, stay_locked, act, reaches_lock, breached,
  in_crisis, defrauded,
}

-- Tier 0 does nothing, tier 1 acts on the product, tier 2 asks for a review.
pub data IsCoherent (d : Decision) : Type 0 where
  quiet : d.tier ≡ 0 → d.action ≡ no_action → d.cls ≡ none → d.severity ≡ info → IsCoherent d
  acted :
      d.tier ≡ 1
      → (d.action ≡ quarantine) ⊎ (d.action ≡ handoff_crisis) ⊎ (d.action ≡ handoff_fraud)
      → d.cls ≢ none
      → (d.severity ≡ error) ⊎ (d.severity ≡ critical)
      → d.reasons ≢ []
      → IsCoherent d
  reviewed :
      d.tier ≡ 2
      → d.action ≡ no_action
      → d.cls ≢ none
      → d.severity ≡ warning
      → d.reasons ≢ []
      → IsCoherent d

some_ne-none : (s : String) → some s ≢ none
some_ne-none s e = cc

module _ (t : Thresholds) (turn : TurnSignals) (s : SessionState) (d : Decision) where
  act-IsCoherent :
      (action : Action) (cls : String) (severity : Severity) (r : Reason) (filters : List String)
      → (action ≡ quarantine) ⊎ (action ≡ handoff_crisis) ⊎ (action ≡ handoff_fraud)
      → (severity ≡ error) ⊎ (severity ≡ critical)
      → IsCoherent (act action cls severity r filters d)
  unfolding act
  act-IsCoherent a cls severity r filters known high =
      acted refl known (some_ne-none cls) high (append-cons_ne-nil d.reasons r [])

  product_action-IsCoherent : IsCoherent d → IsCoherent (product_action t turn s d)
  unfolding product_action
  product_action-IsCoherent h =
      if-intro IsCoherent (breached t turn) (act-IsCoherent _ _ _ _ _ (inl refl) (inr refl)) (
        if-intro IsCoherent (reaches_lock t turn s) (act-IsCoherent _ _ _ _ _ (inl refl) (inl refl))
          (if-intro IsCoherent (in_crisis t turn s)
            (act-IsCoherent _ _ _ _ _ (inr (inl refl)) (inl refl))
            (if-intro IsCoherent (defrauded t turn s)
              (act-IsCoherent _ _ _ _ _ (inr (inr refl)) (inl refl)) h)))

stay_locked-IsCoherent : (d : Decision) → IsCoherent (stay_locked d)
unfolding stay_locked
stay_locked-IsCoherent d =
    acted refl (inl refl) (some_ne-none _) (inl refl) (append-cons_ne-nil d.reasons _ [])

with_review-IsCoherent :
    (t : Thresholds) (turn : TurnSignals) (rs : List Reason) (d : Decision)
    → IsCoherent d
    → IsCoherent (with_review t turn rs d)
unfolding with_review
with_review-IsCoherent t turn [] d h = h
with_review-IsCoherent t turn (r ∷ rs) d (quiet tier action cls severity) =
    rw tier (reviewed refl action (some_ne-none _) refl (append-cons_ne-nil d.reasons r rs))
with_review-IsCoherent t turn (r ∷ rs) d (acted tier action cls severity reasons) =
    rw tier (acted refl action cls severity (append-cons_ne-nil d.reasons r rs))
with_review-IsCoherent t turn (r ∷ rs) d (reviewed tier action cls severity reasons) =
    rw tier (reviewed refl action cls severity (append-cons_ne-nil d.reasons r rs))

-- Every decision is of one of three kinds: tier 0 with no action, no class and INFO; tier 1 with
-- a quarantine or a hand-off, a class, a reason and ERROR or CRITICAL; tier 2 with no action, a
-- class, a reason and WARNING.
pub evaluate-IsCoherent :
    (t : Thresholds) (turn : TurnSignals) (s : SessionState) → IsCoherent (evaluate t turn s)
unfolding evaluate opening
evaluate-IsCoherent t turn s =
    if-intro IsCoherent s.quarantined (stay_locked-IsCoherent (opening t turn)) (
      with_review-IsCoherent t turn (review t turn s) (product_action t turn s (opening t turn))
        (product_action-IsCoherent t turn s (opening t turn) (quiet refl refl refl refl)))
