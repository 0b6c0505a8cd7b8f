-- ===== src/Steward/Ranked.antt =====
-- The order of the steward's plan.
use finchat.Base.{
  ◌≡◌, refl, ◌∙◌, Bool, true, List, [], ◌∷◌, arith, All, count, Bool-cases, inl, inr,
}
use finchat.Steward.{Finding, is_before, insert_finding, plan}

-- Each finding is before all behind it.
abbrev pub IsRanked : List Finding → Type 0
IsRanked [] = Unit
IsRanked (f ∷ fs) = All (λ g. is_before f g ≡ true) fs × IsRanked fs

before_trans :
    (f g : Finding) (gs : List Finding)
    → is_before f g ≡ true
    → All (λ h. is_before g h ≡ true) gs
    → All (λ h. is_before f h ≡ true) gs
before_trans f g [] e h = tt
before_trans f g (x ∷ xs) e h = (ground (arith, h.0), before_trans f g xs e h.1)

All-insert_finding :
    (g f : Finding) (fs : List Finding)
    → is_before g f ≡ true
    → All (λ h. is_before g h ≡ true) fs
    → All (λ h. is_before g h ≡ true) (insert_finding f fs)
unfolding insert_finding
All-insert_finding g f [] e h = (e, tt)
All-insert_finding g f (x ∷ xs) e h = elim (Bool-cases (is_before f x)) [
  | inl early ↦ rw early (e, h)
  | inr late ↦ rw late (h.0, All-insert_finding g f xs e h.1)
]

insert_finding-IsRanked :
    (f : Finding) (fs : List Finding) → IsRanked fs → IsRanked (insert_finding f fs)
unfolding insert_finding
insert_finding-IsRanked f [] h = (tt, tt)
insert_finding-IsRanked f (x ∷ xs) h = elim (Bool-cases (is_before f x)) [
  | inl early ↦ rw early ((early, before_trans f x xs early h.0), h)
  | inr late ↦
      let other : is_before x f ≡ true = ground arith in
      rw late (All-insert_finding x f xs other h.0, insert_finding-IsRanked f xs h.1)
]

pub plan-IsRanked : (fs : List Finding) → IsRanked (plan fs)
unfolding plan
plan-IsRanked [] = tt
plan-IsRanked (f ∷ fs) = insert_finding-IsRanked f (plan fs) (plan-IsRanked fs)

count-insert_finding :
    (p : Finding → Bool) (f : Finding) (fs : List Finding)
    → count p (insert_finding f fs) ≡ count p (f ∷ fs)
unfolding insert_finding
count-insert_finding p f [] = refl
count-insert_finding p f (x ∷ xs) = ground (arith, count-insert_finding p f xs)

pub count-plan : (p : Finding → Bool) (fs : List Finding) → count p (plan fs) ≡ count p fs
unfolding plan
count-plan p [] = refl
count-plan p (f ∷ fs) = count-insert_finding p f (plan fs) ∙ (ground (arith, count-plan p fs))
