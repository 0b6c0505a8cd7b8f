-- ===== src/Mcp/Caller/Identity.antt =====
-- Where the identity of a caller comes from, and how long it is remembered.
use finchat.Base.{
  ℕ, ◌-◌, ◌≤◌, ◌≡◌, refl, sym, String, Option, none, some, List, [], ◌∷◌, arith, All, Bool-cases,
  if-intro, ltb, str_eq, eq_iff, inl, inr, length, drop,
}
use finchat.Base.Dict.{Dict, lookup, insert, length-insert}
use finchat.Oauth.Config.{filled}
use finchat.Mcp.Token.{Jwt}
use finchat.Mcp.Auth.{
  Settings, enabled, Verified, Outcome, unauthorized, verified, KeySet, Cache, verify,
}
use finchat.Mcp.Caller.{
  Caller, Memory, remember, cache_size, bearer, claimed_id, caller_of, recalled, identified,
  current_token, current_bearer, current,
}

module _ (jwt : Jwt) (lower strip : String → String) (cfg : Settings) where
  -- `verify` accepted a token with this id as the caller's, now or before.
  pub data Vouched (jti : String) (caller : Caller) : Type 0 where
    vouched :
        (now : ℕ) (token : String) (fetch refetch : Option (KeySet jwt lower cfg))
        (jwks jwks' : Cache jwt lower cfg) (v : Verified)
        → verify jwt lower cfg now token fetch refetch jwks ≡ (verified v, jwks')
        → caller ≡ caller_of jwt lower strip cfg v
        → jti ≡ caller.jti
        → Vouched jti caller

  abbrev pub Entries : Dict Caller → Type 0
  Entries seen = All (λ (e : String × Caller). Vouched e.0 e.1) seen

  -- Each remembered caller was vouched for under its id, and there are not too many.
  pub record IsMemory (m : Memory jwt lower strip cfg) : Type 0 where
    pub entries : Entries m.seen
    pub bounded : length m.seen ≤ cache_size

  Entries-insert :
      (k : String) (c : Caller) (seen : Dict Caller)
      → Vouched k c
      → Entries seen
      → Entries (insert k c seen)
  unfolding insert
  Entries-insert k c [] v h = (v, tt)
  Entries-insert k c ((j, d) ∷ seen) v h = elim (Bool-cases (str_eq j k)) [
    | inl same ↦ rw same (rw (sym ((eq_iff j k).0 same)) at v, h.1)
    | inr other ↦ rw other (h.0, Entries-insert k c seen v h.1)
  ]

  Entries-drop : (seen : Dict Caller) → Entries seen → Entries (drop 1 seen)
  Entries-drop [] h = tt
  Entries-drop (e ∷ seen) h = h.1

  Entries-lookup :
      (k : String) (seen : Dict Caller) (c : Caller)
      → Entries seen
      → lookup k seen ≡ some c
      → Vouched k c
  unfolding lookup
  Entries-lookup k [] c h e = cc
  Entries-lookup k ((j, d) ∷ seen) c h e = elim (Bool-cases (str_eq j k)) [
    | inl same ↦ let found : d ≡ c = cc (rw same at e) in rw ((eq_iff j k).0 same, found) at h.0
    | inr other ↦ Entries-lookup k seen c h.1 (rw other at e)
  ]

  length-drop_one : (seen : Dict Caller) → length (drop 1 seen) ≡ length seen - 1
  length-drop_one [] = omega arith
  length-drop_one (e ∷ seen) = omega arith

  record Remembers (seen : Dict Caller) : Type 0 where
    entries : Entries seen
    bounded : length seen ≤ cache_size

  remember-Remembers :
      (c : Caller) (seen : Dict Caller)
      → Vouched c.jti c
      → Remembers seen
      → Remembers (remember c seen)
  unfolding remember
  remember-Remembers c seen v h =
      let grown = insert c.jti c seen in
      let entries = Entries-insert c.jti c seen v h.entries in
      let size = length-insert c.jti c seen in
      if-intro Remembers (filled c.jti)
        (elim (Bool-cases (ltb cache_size (length grown))) [
          | inl full ↦ rw full (record {
            entries = Entries-drop grown entries;
            bounded = omega (arith, length-drop_one grown, size, h.bounded);
          })
          | inr room ↦ rw room (record { entries = entries; bounded = ground arith })
        ])
        h

  -- A caller that is named was vouched for, and the memory stays sound.
  abbrev pub IsKnown : Option Caller → Type 0
  IsKnown none = Unit
  IsKnown (some c) = (jti : String) × Vouched jti c

  pub record Sound (r : Option Caller × Memory jwt lower strip cfg) : Type 0 where
    pub known : IsKnown r.0
    pub memory : IsMemory r.1

  nobody : (m : Memory jwt lower strip cfg) → IsMemory m → Sound (none, m)
  nobody m h = record { known = tt; memory = h }

  identified-Sound :
      (now : ℕ) (token : String) (fetch refetch : Option (KeySet jwt lower cfg))
      (jwks : Cache jwt lower cfg) (r : Outcome × Cache jwt lower cfg) (seen : Dict Caller)
      → verify jwt lower cfg now token fetch refetch jwks ≡ r
      → Remembers seen
      → Sound (identified jwt lower strip cfg r seen)
  unfolding identified
  identified-Sound now token fetch refetch jwks (unauthorized d, jwks') seen e h = record {
    known = tt;
    memory = record { entries = h.entries; bounded = h.bounded };
  }
  identified-Sound now token fetch refetch jwks (verified v, jwks') seen e h =
      let c = caller_of jwt lower strip cfg v in
      let voucher : Vouched c.jti c = vouched now token fetch refetch jwks jwks' v e refl refl in
      let kept = remember-Remembers c seen voucher h in
      record {
        known = (c.jti, voucher);
        memory = record { entries = kept.entries; bounded = kept.bounded };
      }

  current_token-Sound :
      (jti : String) (now : ℕ) (token : String) (fetch refetch : Option (KeySet jwt lower cfg))
      (m : Memory jwt lower strip cfg)
      → IsMemory m
      → (found : Option Caller) → recalled jwt lower strip cfg jti m.seen ≡ found
      → Sound (current_token jwt lower strip cfg found now token fetch refetch m)
  unfolding current_token recalled
  current_token-Sound jti now token fetch refetch m h (some c) e = elim (Bool-cases (filled jti)) [
    | inl given ↦ record {
      known = (jti, Entries-lookup jti m.seen c h.entries (rw given at e));
      memory = h;
    }
    | inr blank ↦ cc (rw blank at e)
  ]
  current_token-Sound jti now token fetch refetch m h none e =
      identified-Sound now token fetch refetch m.jwks
        (verify jwt lower cfg now token fetch refetch m.jwks) m.seen refl
        (record { entries = h.entries; bounded = h.bounded })

  current_bearer-Sound :
      (found : Option String) (now : ℕ) (fetch refetch : Option (KeySet jwt lower cfg))
      (m : Memory jwt lower strip cfg)
      → IsMemory m
      → Sound (current_bearer jwt lower strip cfg found now fetch refetch m)
  unfolding current_bearer
  current_bearer-Sound none now fetch refetch m h = nobody m h
  current_bearer-Sound (some token) now fetch refetch m h =
      current_token-Sound (claimed_id jwt lower strip cfg (jwt.unverified token)) now token fetch
        refetch m h _ refl

  pub current-Sound :
      (request : Option String) (now : ℕ) (fetch refetch : Option (KeySet jwt lower cfg))
      (m : Memory jwt lower strip cfg)
      → IsMemory m
      → Sound (current jwt lower strip cfg request now fetch refetch m)
  unfolding current
  current-Sound none now fetch refetch m h = nobody m h
  current-Sound (some header) now fetch refetch m h =
      if-intro Sound (enabled cfg)
        (current_bearer-Sound (bearer jwt lower strip cfg header) now fetch refetch m h)
        (nobody m h)

  -- A call of a tool: the authorization header of its request, if any, the instant, and what the
  -- fetches of the keys would give.
  pub record Call : Type 0 where
    pub request : Option String
    pub now : ℕ
    pub fetch : Option (KeySet jwt lower cfg)
    pub refetch : Option (KeySet jwt lower cfg)

  unfoldable pub callers :
      List Call → Memory jwt lower strip cfg → List (Option Caller) × Memory jwt lower strip cfg
  callers [] m = ([], m)
  callers (call ∷ calls) m =
      let (who, m') = current jwt lower strip cfg call.request call.now call.fetch call.refetch m in
      let (others, m'') = callers calls m' in (who ∷ others, m'')

  -- In any sequence of tool calls, each caller that is identified is one whose token `verify`
  -- accepted in this call or an earlier one, and the memory of callers never holds more than 512;
  -- if it was so at the start.
  pub callers-IsKnown :
      (calls : List Call) (m : Memory jwt lower strip cfg)
      → IsMemory m
      → All IsKnown (callers calls m).0 × IsMemory (callers calls m).1
  unfolding callers
  callers-IsKnown [] m h = (tt, h)
  callers-IsKnown (call ∷ calls) m h =
      let step = current-Sound call.request call.now call.fetch call.refetch m h in
      let rest = callers-IsKnown calls _ step.memory in ((step.known, rest.0), rest.1)
