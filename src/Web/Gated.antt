-- ===== src/Web/Gated.antt =====
-- Whom the backend is told as the approver of a loan.
use finchat.Base.{
  ℕ, ◌+◌, ◌≡◌, refl, ◌∙◌, sym, String, Bool, true, false, ◌&&◌, Option, none, some, [], ◌∷◌, arith,
  All, if◌then◌else◌, if-intro, if-cases, ltb, str_eq, eq_iff, member, length, Bool-cases, inl, inr,
}
use finchat.Base.Dict.{Dict, lookup, insert}
use finchat.Oauth.Config.{filled, rstrip_slash}
use finchat.Web.{
  Settings, auth_enabled, persona_for, Info, User, Headers, Answer, denied, forwarded, is_persona,
  is_privileged, Cache, remember, resolved, looked_up, verify_user, admits, require_any, told,
  as_approver, gated, loan_proxy,
}

module _ (google : String → ℕ → Option Info) (cfg : Settings) where
  -- Google verified the token, with a verified e-mail, as this user.
  pub record Vouched (tok : String) (u : User) : Type 0 where
    pub at : ℕ
    pub info : Info
    pub verified : google tok at ≡ some info
    pub confirmed : info.email_verified ≡ true
    pub email : u.email ≡ info.email
    pub persona : u.persona ≡ persona_for cfg info.email

  abbrev pub IsCache : Cache google cfg → Type 0
  IsCache cache = All (λ (e : String × User). Vouched e.0 e.1) cache

  IsCache-insert :
      (tok : String) (u : User) (cache : Dict User)
      → Vouched tok u
      → IsCache cache
      → IsCache (insert tok u cache)
  unfolding insert
  IsCache-insert tok u [] v h = (v, tt)
  IsCache-insert tok u ((j, w) ∷ cache) v h = elim (Bool-cases (str_eq j tok)) [
    | inl same ↦ rw same (rw (sym ((eq_iff j tok).0 same)) at v, h.1)
    | inr other ↦ rw other (h.0, IsCache-insert tok u cache v h.1)
  ]

  IsCache-lookup :
      (tok : String) (u : User) (cache : Dict User)
      → IsCache cache
      → lookup tok cache ≡ some u
      → Vouched tok u
  unfolding lookup
  IsCache-lookup tok u [] h e = cc
  IsCache-lookup tok u ((j, w) ∷ cache) h e = elim (Bool-cases (str_eq j tok)) [
    | inl same ↦ let found : w ≡ u = cc (rw same at e) in rw ((eq_iff j tok).0 same, found) at h.0
    | inr other ↦ IsCache-lookup tok u cache h.1 (rw other at e)
  ]

  remember-IsCache :
      (tok : String) (u : User) (cache : Dict User)
      → Vouched tok u
      → IsCache cache
      → IsCache (remember google cfg tok u cache)
  unfolding remember
  remember-IsCache tok u cache v h =
      IsCache-insert tok u (if ltb 500 (length cache) then [] else cache) v
        (if-intro (λ (c : Dict User). IsCache c) (ltb 500 (length cache)) tt h)

  abbrev IsKnown : String → Option User → Type 0
  IsKnown tok none = Unit
  IsKnown tok (some u) = Vouched tok u

  record Known (tok : String) (r : Option User × Dict User) : Type 0 where
    known : IsKnown tok r.0
    cache : IsCache r.1

  resolved-Known :
      (tok : String) (now : ℕ) (found : Option Info) (cache : Dict User)
      → google tok now ≡ found
      → IsCache cache
      → Known tok (resolved google cfg tok now found cache)
  unfolding resolved
  resolved-Known tok now none cache e h = record { known = tt; cache = h }
  resolved-Known tok now (some info) cache e h =
      if-cases (Known tok) info.email_verified
        (λ confirmed.
          let v : Vouched tok _ = record {
            at = now;
            info = info;
            verified = e;
            confirmed = confirmed;
            email = refl;
            persona = refl;
          } in
          record { known = v; cache = remember-IsCache tok _ cache v h })
        (λ other. record { known = tt; cache = h })

  looked_up-Known :
      (tok : String) (now : ℕ) (found : Option User) (cache : Dict User)
      → lookup tok cache ≡ found
      → IsCache cache
      → Known tok (looked_up google cfg tok now found cache)
  unfolding looked_up
  looked_up-Known tok now none cache e h = resolved-Known tok now _ cache refl h
  looked_up-Known tok now (some u) cache e h =
      if-intro (Known tok) (ltb (now + 30) u.exp)
        (record { known = IsCache-lookup tok u cache h e; cache = h })
        (resolved-Known tok now _ cache refl h)

  verify_user-Known :
      (tok : String) (now : ℕ) (cache : Dict User)
      → IsCache cache
      → Known tok (verify_user google cfg tok now cache)
  unfolding verify_user
  verify_user-Known tok now cache h =
      if-intro (Known tok) (filled tok && filled cfg.client_id)
        (looked_up-Known tok now (lookup tok cache) cache refl h) (record { known = tt; cache = h })

  -- An approver: Google verified the token as this listed e-mail.
  pub record IsApprover (tok a : String) : Type 0 where
    pub at : ℕ
    pub info : Info
    pub verified : google tok at ≡ some info
    pub confirmed : info.email_verified ≡ true
    pub email : info.email ≡ a
    pub listed : member a cfg.approver_emails ≡ true

  employee-listed :
      (email : String)
      → is_persona ("employee" ∷ []) (persona_for cfg email) ≡ true
      → member email cfg.approver_emails ≡ true
  unfolding is_persona persona_for
  employee-listed email h = ground arith

  -- What a request may become, by whether its route is privileged.
  abbrev pub IsGated : Bool → String → Answer → Type 0
  IsGated privileged tok (forwarded (some a)) = (privileged ≡ true) × IsApprover tok a
  IsGated privileged tok (forwarded none) = privileged ≡ false
  IsGated privileged tok _ = privileged ≡ true

  pub record Guarded (privileged : Bool) (tok : String) (r : Answer × Dict User) : Type 0 where
    pub gated : IsGated privileged tok r.0
    pub cache : IsCache r.1

  module _
      (stable : (tok : String) (t t' : ℕ) (i i' : Info)
        → google tok t ≡ some i
        → google tok t' ≡ some i'
        → i.email ≡ i'.email) where
    gated-Guarded :
        (h : Headers) (first second : Option User × Dict User)
        → Known h.user_token first
        → Known h.user_token second
        → Guarded true h.user_token (
            if admits google cfg ("employee" ∷ []) first.0
            then (as_approver google cfg h second.0, second.1)
            else (denied, first.1))
    unfolding admits as_approver told
    gated-Guarded h (none, c) second k l = record { gated = refl; cache = k.cache }
    gated-Guarded h (some u, c) (none, d) k l =
        if-intro (Guarded true h.user_token) (is_persona ("employee" ∷ []) u.persona)
          (record { gated = refl; cache = l.cache }) (record { gated = refl; cache = k.cache })
    gated-Guarded h (some u, c) (some v, d) k l =
        if-cases (Guarded true h.user_token) (is_persona ("employee" ∷ []) u.persona)
          (λ in_.
            let same = stable h.user_token _ _ _ _ k.known.verified l.known.verified in
            let listed = employee-listed k.known.info.email (rw k.known.persona at in_) in
            let email : k.known.info.email ≡ v.email = same ∙ sym l.known.email in
            record {
              gated = (
                refl,
                record {
                  at = l.known.at;
                  info = l.known.info;
                  verified = l.known.verified;
                  confirmed = l.known.confirmed;
                  email = sym l.known.email;
                  listed = rw email at listed;
                },
              );
              cache = l.cache;
            })
          (λ out. record { gated = refl; cache = k.cache })

    -- With sign-in on, the loan API is told an approver only on the routes for decisions, audits and
    -- the queue, and then always: the e-mail that Google verified for the token of the request, with
    -- an address on the list of approvers, and never what the client sent. Without such a token
    -- those routes are denied or fail, and the other routes carry no approver. One token has one
    -- e-mail, and the cache of users holds verified ones at the start; it does so at the end.
    pub loan_proxy-Guarded :
        (path method : String) (h : Headers) (now later : ℕ) (cache : Dict User)
        → auth_enabled cfg ≡ true
        → IsCache cache
        → Guarded
            (is_privileged (rstrip_slash path) method)
            h.user_token
            (loan_proxy google cfg path method h now later cache)
    unfolding loan_proxy gated require_any told
    loan_proxy-Guarded path method h now later cache on k =
        let first = verify_user-Known h.user_token now cache k in
        let second = verify_user-Known h.user_token later _ first.cache in
        elim (Bool-cases (is_privileged (rstrip_slash path) method)) [
          | inl yes_ ↦ rw (yes_, on) (gated-Guarded h _ _ first second)
          | inr no_ ↦ rw (no_, on) (record { gated = refl; cache = k })
        ]
