-- ===== src/Loans/Risk/Reasons.antt =====
-- What the principal reasons of a score say.
use finchat.Base.{
  ℕ, zero, suc, ◌+◌, ◌≤◌, ◌<◌, ◌≡◌, refl, ◌∙◌, sym, List, [], ◌∷◌, arith, All, ltb, leb, Bool-cases,
  inl, inr, length, select, take,
}
use finchat.Loans.Risk.{
  CreditProfile, Factor, total, factors_of, score_risk, insert_ranked, ranked, principal,
  RiskResult,
}
use finchat.Loans.Risk.Score.{score_risk-total}

-- No factor stands behind one with fewer points.
abbrev pub IsRanked : List Factor → Type 0
IsRanked [] = Unit
IsRanked (f ∷ fs) = All (λ g. g.points ≤ f.points) fs × IsRanked fs

abbrev pub Raises : Factor → Type 0
Raises f = 0 < f.points

total-insert_ranked :
    (f : Factor) (fs : List Factor) → total (insert_ranked f fs) ≡ f.points + total fs
unfolding total insert_ranked
total-insert_ranked f [] = refl
total-insert_ranked f (g ∷ gs) = ground (arith, total-insert_ranked f gs)

total-ranked : (fs : List Factor) → total (ranked fs) ≡ total fs
unfolding total ranked
total-ranked [] = refl
total-ranked (f ∷ fs) = total-insert_ranked f (ranked fs) ∙ rw (total-ranked fs) refl

length-insert_ranked :
    (f : Factor) (fs : List Factor) → length (insert_ranked f fs) ≡ suc (length fs)
unfolding insert_ranked
length-insert_ranked f [] = refl
length-insert_ranked f (g ∷ gs) = ground (arith, length-insert_ranked f gs)

length-ranked : (fs : List Factor) → length (ranked fs) ≡ length fs
unfolding ranked
length-ranked [] = refl
length-ranked (f ∷ fs) = length-insert_ranked f (ranked fs) ∙ rw (length-ranked fs) refl

module _ (P : Factor → Type 0) where
  All-insert_ranked : (f : Factor) (fs : List Factor) → P f → All P fs → All P (insert_ranked f fs)
  unfolding insert_ranked
  All-insert_ranked f [] p h = (p, tt)
  All-insert_ranked f (g ∷ gs) p h = elim (Bool-cases (leb g.points f.points)) [
    | inl first ↦ rw first (p, h)
    | inr later ↦ rw later (h.0, All-insert_ranked f gs p h.1)
  ]

All-le_trans :
    (a b : ℕ) (fs : List Factor) → a ≤ b → All (λ g. g.points ≤ a) fs → All (λ g. g.points ≤ b) fs
All-le_trans a b [] h all = tt
All-le_trans a b (f ∷ fs) h all = (omega (arith, all.0), All-le_trans a b fs h all.1)

insert_ranked-IsRanked :
    (f : Factor) (fs : List Factor) → IsRanked fs → IsRanked (insert_ranked f fs)
unfolding insert_ranked
insert_ranked-IsRanked f [] h = (tt, tt)
insert_ranked-IsRanked f (g ∷ gs) h = elim (Bool-cases (leb g.points f.points)) [
  | inl first ↦
      let le : g.points ≤ f.points = ground arith in
      rw first ((le, All-le_trans g.points f.points gs le h.0), h)
  | inr later ↦
      let le : f.points ≤ g.points = ground arith in
      rw later
        (All-insert_ranked (λ x. x.points ≤ g.points) f gs le h.0, insert_ranked-IsRanked f gs h.1)
]

ranked-IsRanked : (fs : List Factor) → IsRanked (ranked fs)
unfolding ranked
ranked-IsRanked [] = tt
ranked-IsRanked (f ∷ fs) = insert_ranked-IsRanked f (ranked fs) (ranked-IsRanked fs)

ranked-Raises : (fs : List Factor) → All Raises fs → All Raises (ranked fs)
unfolding ranked
ranked-Raises [] h = tt
ranked-Raises (f ∷ fs) h = All-insert_ranked Raises f (ranked fs) h.0 (ranked-Raises fs h.1)

select-Raises : (fs : List Factor) → All Raises (select (λ f. ltb 0 f.points) fs)
select-Raises [] = tt
select-Raises (f ∷ fs) = elim (Bool-cases (ltb 0 f.points)) [
  | inl raises ↦ rw raises (ground arith, select-Raises fs)
  | inr not ↦ rw not (select-Raises fs)
]

total-select : (fs : List Factor) → total (select (λ f. ltb 0 f.points) fs) ≡ total fs
unfolding total
total-select [] = refl
total-select (f ∷ fs) = ground (arith, total-select fs)

length-select : (fs : List Factor) → length (select (λ f. ltb 0 f.points) fs) ≤ length fs
length-select [] = omega arith
length-select (f ∷ fs) = ground (arith, length-select fs)

take_all : (n : ℕ) (fs : List Factor) → length fs ≤ n → take n fs ≡ fs
take_all zero [] h = refl
take_all zero (f ∷ fs) h = absurd (omega (arith, h))
take_all (suc n) [] h = refl
take_all (suc n) (f ∷ fs) h = rw (take_all n fs (omega (arith, h))) refl

principal-ranked :
    (r : RiskResult)
    → length r.factors ≤ 4
    → principal r ≡ ranked (select (λ f. ltb 0 f.points) r.factors)
unfolding principal
principal-ranked r h = take_all 4 (ranked (select (λ f. ltb 0 f.points) r.factors)) (
    rw (length-ranked (select (λ f. ltb 0 f.points) r.factors))
      (omega (arith, length-select r.factors, h)))

-- The principal reasons of a loan explain its whole score: they stand in the order of their points,
-- the highest first, each of them raises the risk, and their points add up to the score.
pub principal_exact :
    (p : CreditProfile) (amount events : ℕ)
    → let r = score_risk p amount events in
      IsRanked (principal r) × All Raises (principal r) × (total (principal r) ≡ r.risk_score)
unfolding score_risk factors_of
principal_exact p amount events =
    let r = score_risk p amount events in
    let fs = select (λ f. ltb 0 f.points) r.factors in
    rw (principal-ranked r (omega arith)) (
      ranked-IsRanked fs,
      ranked-Raises fs (select-Raises r.factors),
      total-ranked fs ∙ (total-select r.factors ∙ sym (score_risk-total p amount events).0),
    )
