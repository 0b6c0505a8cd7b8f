-- ===== src/Process/Routing/Chosen.antt =====
-- Which mode a question is routed to.
use finchat.Base.{
  ℕ, ◌≤◌, ◌<◌, ◌≡◌, refl, ◌∙◌, sym, ◌⊎◌, inl, inr, String, Bool, true, false, ◌&&◌, not, Option,
  none, some, List, [], ◌∷◌, ◌++◌, arith, All, if◌then◌else◌, ltb, Bool-cases, member,
}
use finchat.Process.Routing.{
  best_of, heuristic_of, scores, heuristic_intent, parse_intent, contains, or_empty, named_mode,
  Reply, classify_from, classify, modes,
}

abbrev pub Occurs : String × ℕ → List (String × ℕ) → Type 0
Occurs entry [] = ⊥
Occurs entry (e ∷ es) = (e ≡ entry) ⊎ Occurs entry es

-- The mode has the highest score and some keyword matched, or none matched and it is the default.
abbrev pub IsBest : List (String × ℕ) → String → Type 0
IsBest es mode =
    ((mode ≡ "analytics") × All (λ e. e.1 ≤ 0) es)
    ⊎ ((n : ℕ) × Occurs (mode, n) es × All (λ e. e.1 ≤ n) es × (0 < n))

record IsTop (entry : String × ℕ) (es : List (String × ℕ)) : Type 0 where
  occurs : Occurs entry es
  highest : All (λ e. e.1 ≤ entry.1) es

best_of_ge : (top : String × ℕ) (es : List (String × ℕ)) → top.1 ≤ (best_of top es).1
unfolding best_of
best_of_ge top [] = omega arith
best_of_ge top (e ∷ es) = ground (arith, best_of_ge top es, best_of_ge e es)

raise-IsTop :
    (top e : String × ℕ) (es : List (String × ℕ))
    → top.1 < e.1
    → IsTop (best_of e es) (e ∷ es)
    → IsTop (best_of e es) (top ∷ e ∷ es)
raise-IsTop top e es less h = record {
  occurs = inr h.occurs;
  highest = (omega (arith, less, best_of_ge e es), h.highest);
}

skip-IsTop :
    (top e : String × ℕ) (es : List (String × ℕ))
    → e.1 ≤ top.1
    → IsTop (best_of top es) (top ∷ es)
    → IsTop (best_of top es) (top ∷ e ∷ es)
skip-IsTop top e es less h = record {
  occurs = elim h.occurs [ inl first ↦ inl first | inr later ↦ inr (inr later) ];
  highest = (best_of_ge top es, (omega (arith, less, best_of_ge top es), h.highest.1));
}

best_of-IsTop : (top : String × ℕ) (es : List (String × ℕ)) → IsTop (best_of top es) (top ∷ es)
unfolding best_of
best_of-IsTop top [] = record { occurs = inl refl; highest = (omega arith, tt) }
best_of-IsTop top (e ∷ es) = elim (Bool-cases (ltb top.1 e.1)) [
  | inl less ↦ rw less (raise-IsTop top e es (ground arith) (best_of-IsTop e es))
  | inr more ↦ rw more (skip-IsTop top e es (ground arith) (best_of-IsTop top es))
]

All-le_zero :
    (n : ℕ) (es : List (String × ℕ)) → n ≤ 0 → All (λ e. e.1 ≤ n) es → All (λ e. e.1 ≤ 0) es
All-le_zero n [] h all = tt
All-le_zero n (e ∷ es) h all = (omega (arith, h, all.0), All-le_zero n es h all.1)

Occurs-as : (a b : String × ℕ) (es : List (String × ℕ)) → b ≡ a → Occurs a es → Occurs b es
Occurs-as a b [] same h = h
Occurs-as a b (e ∷ es) same h = elim h [
  | inl here ↦ inl (here ∙ sym same)
  | inr later ↦ inr (Occurs-as a b es same later)
]

matched :
    (e : String × ℕ) (es : List (String × ℕ)) (mode : String)
    → mode ≡ (best_of e es).0
    → 0 < (best_of e es).1
    → IsBest (e ∷ es) mode
matched e es mode same some_match =
    let top = best_of-IsTop e es in
    let entry : (mode, (best_of e es).1) ≡ best_of e es = rw same refl in
    inr (
      (best_of e es).1,
      Occurs-as (best_of e es) (mode, (best_of e es).1) (e ∷ es) entry top.occurs,
      top.highest,
      some_match,
    )

unmatched :
    (e : String × ℕ) (es : List (String × ℕ)) (mode : String)
    → mode ≡ "analytics"
    → (best_of e es).1 ≤ 0
    → IsBest (e ∷ es) mode
unmatched e es mode same no_match =
    let top = best_of-IsTop e es in
    inl (same, All-le_zero (best_of e es).1 (e ∷ es) no_match top.highest)

heuristic_of-IsBest : (es : List (String × ℕ)) → IsBest es (heuristic_of es)
unfolding heuristic_of
heuristic_of-IsBest [] = inl (refl, tt)
heuristic_of-IsBest (e ∷ es) = elim (Bool-cases (ltb 0 (best_of e es).1)) [
  | inl some_match ↦ matched e es _ (rw some_match refl) (ground arith)
  | inr no_match ↦ unmatched e es _ (rw no_match refl) (ground arith)
]

module _ (lower upper : String → String) (routing_prompt : String → String) where
  -- The keyword heuristic routes a question to a mode with the highest weighted number of matches, if
  -- any keyword matches, and to analytics if none does.
  pub heuristic_intent-IsBest :
      (q : String) → IsBest (scores (lower q)) (heuristic_intent lower upper routing_prompt q)
  unfolding heuristic_intent
  heuristic_intent-IsBest q = heuristic_of-IsBest (scores (lower q))

  -- The classifiers are asked in their order: those that raise or name no mode change nothing, and
  -- the first that names one decides, whatever comes after it; without one the keyword heuristic
  -- does.
  pub classify_first :
      (question : String) (dead rest : List (String → Reply)) (call : String → Reply)
      (mode : String)
      → All (λ c. named_mode lower upper routing_prompt (c (routing_prompt question)) ≡ none) dead
      → named_mode lower upper routing_prompt (call (routing_prompt question)) ≡ some mode
      → (classify lower upper routing_prompt question (dead ++ call ∷ rest) ≡ mode)
        × (classify lower upper routing_prompt question dead
            ≡ heuristic_intent lower upper routing_prompt question)
  unfolding classify classify_from
  classify_first question [] rest call mode silent names = (rw names refl, refl)
  classify_first question (c ∷ dead) rest call mode silent names =
      let later = classify_first question dead rest call mode silent.1 names in
      (rw (silent.0) later.0, rw (silent.0) later.1)

  parse_intent-modes :
      (answer : Option String) (mode : String)
      → parse_intent lower upper routing_prompt answer ≡ some mode
      → member mode modes ≡ true
  unfolding parse_intent
  parse_intent-modes answer mode e =
      let txt = upper (or_empty answer) in
      go (contains "PLATFORM" txt) (contains "SEMANTIC" txt)
        (contains "KB" txt && not (contains "ANALYTIC" txt)) (contains "ANALYTIC" txt) e
    where
      go :
          (a b c d : Bool)
          → (if a
              then some "platform"
              else if b
              then some "semantics"
              else if c
              then some "kb"
              else if d
              then some "analytics"
              else none)
            ≡ some mode
          → member mode modes ≡ true
      go true b c d e = cc
      go false true c d e = cc
      go false false true d e = cc
      go false false false true e = cc
      go false false false false e = cc
