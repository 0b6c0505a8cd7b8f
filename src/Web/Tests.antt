-- ===== src/Web/Tests.antt =====
-- The gates at concrete requests.
use finchat.Base.{ℕ, ◌≡◌, refl, String, true, Option, none, some, [], ◌∷◌, if◌then◌else◌, str_eq}
use finchat.Base.Dict.{lookup, insert}
use finchat.Oauth.Config.{rstrip_slash}
use finchat.Web.{
  Settings, Info, Headers, forwarded, auth_enabled, is_privileged, loan_proxy, steward_proxy,
}
use finchat.Web.Gated.{Guarded, loan_proxy-Guarded}

abbrev cfg : Settings
cfg = record {
  client_id = "client";
  approver_emails = "officer@example.org" ∷ [];
  analyst_emails = [];
  admin_emails = "admin@example.org" ∷ [];
}

abbrev officer : Info
officer = record { email_verified = true; email = "officer@example.org"; exp = some 900 }

abbrev admin : Info
admin = record { email_verified = true; email = "admin@example.org"; exp = some 900 }

abbrev google : String → ℕ → Option Info
google tok now =
    if str_eq tok "officer" then some officer else if str_eq tok "admin" then some admin else none

google_stable :
    (tok : String) (t t' : ℕ) (i i' : Info)
    → google tok t ≡ some i
    → google tok t' ≡ some i'
    → i.email ≡ i'.email
google_stable tok t t' i i' e f = cc (e, f)

abbrev headers : String → Headers
headers tok = record { user_token = tok; persona = "employee"; approver = "anybody@example.org" }

loan_proxy-Guarded_example :
    Guarded google cfg
      (is_privileged (rstrip_slash "v1/loans/LN-1/decision") "POST")
      "officer"
      (loan_proxy google cfg "v1/loans/LN-1/decision" "POST" (headers "officer") 100 101 [])
unfolding auth_enabled
loan_proxy-Guarded_example =
    loan_proxy-Guarded google cfg google_stable "v1/loans/LN-1/decision" "POST" (headers "officer")
      100 101 [] refl tt

-- A review by somebody who is an admin and no approver reaches the steward, in the admin's name.
admin_review_forwarded :
    (steward_proxy google cfg "runs/w1/review" (headers "admin") 100 101 []).0
    ≡ forwarded (some "admin@example.org")
unfolding steward_proxy auth_enabled rstrip_slash lookup insert
admin_review_forwarded = refl
