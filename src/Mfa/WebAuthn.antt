-- ===== src/Mfa/WebAuthn.antt =====
-- mfa.service.ts: completing a login with a security key.
use secure_auth_x_pro.Prelude.{ℕ, Bool, true, false, List, map, Option, none, some, String}
use secure_auth_x_pro.Schema.{
  CeremonyKind, register, authenticate, WebAuthnCeremonyState, WebAuthnCredential,
}
use secure_auth_x_pro.Prisma.{Prisma}
use secure_auth_x_pro.World.{World}
use secure_auth_x_pro.Http.{RequestContext}
use secure_auth_x_pro.Exec.{
  Action, app, unauthorized, pure, gets, draw, or_throw, or_reject, ◌>>=◌, ◌>>◌,
}
use secure_auth_x_pro.Repositories.Mfa
use secure_auth_x_pro.Cache.{delete_challenge, set_ceremony, get_ceremony, delete_ceremony}
use secure_auth_x_pro.Mfa.Challenges.{get_challenge_user, challenge_invalid}
use secure_auth_x_pro.Mfa.Devices.{trust_if}
use secure_auth_x_pro.Mfa.Verification.{VerifiedLogin, reject_login}

-- The options for the browser, as far as the server reads them back: the challenge, and the ids
-- of the credentials allowed or excluded.
pub record CeremonyOptions : Type 0 where
  pub challenge : String
  pub credential_ids : List String

-- AuthenticationResponseJSON: the credential's id, and the signed response.
pub record Assertion : Type 0 where
  pub id : String
  pub response : String

-- `!ceremony || ceremony.kind !== kind`
abbrev pub of_kind : CeremonyKind → Option WebAuthnCeremonyState → Option WebAuthnCeremonyState
of_kind kind none = none
of_kind register (some c) = elim c.kind [ register ↦ some c | authenticate ↦ none ]
of_kind authenticate (some c) = elim c.kind [ register ↦ none | authenticate ↦ some c ]

-- The new counter of a response that verified.
abbrev pub when_verified : Bool × ℕ → Option ℕ
when_verified (true, counter) = some counter
when_verified (false, counter) = none

module _ (db : Prisma) (w : World) where
  unfoldable pub begin_webauthn_login : String → Action CeremonyOptions
  begin_webauthn_login challenge_id = do
    user_id ← get_challenge_user challenge_id
    credentials ← Mfa.list_credentials db user_id
    challenge ← draw w.webauthn_challenge
    now ← gets (λ s. s.now)
    set_ceremony w.mfa_challenge_ttl challenge_id (record {
      kind = authenticate;
      user_id = user_id;
      login_challenge_id = some challenge_id;
      expected_challenge = challenge;
      expected_origin = w.webauthn_origin;
      expected_rp_id = w.webauthn_rp_id;
      created_at = now;
    })
    pure (record {
      challenge = challenge;
      credential_ids = map (λ (c : WebAuthnCredential). c.credential_id) credentials;
    })

  unfoldable pub verify_webauthn_login :
      String → Assertion → Bool → RequestContext → Action VerifiedLogin
  verify_webauthn_login challenge_id credential remember_device req = do
    user_id ← get_challenge_user challenge_id
    pending ← get_ceremony challenge_id
    ceremony ← or_throw (of_kind authenticate pending) challenge_invalid
    found ← Mfa.get_credential_for_user db user_id credential.id
    stored ← or_reject found (
        reject_login db w user_id req "webauthn" "unknown_credential"
          (app (unauthorized "Invalid security key.")))
    verification ←
        or_reject
          (w.verify_assertion credential.response ceremony.expected_challenge
            ceremony.expected_origin ceremony.expected_rp_id stored.sign_count stored.public_key)
          (reject_login db w user_id req "webauthn" "verification_error"
            (app (unauthorized "Security key verification failed.")))
    counter ← or_reject (when_verified verification) (
        reject_login db w user_id req "webauthn" "signature_invalid"
          (app (unauthorized "Security key verification failed.")))
    Mfa.update_credential_counter db stored.credential_id counter
    delete_ceremony challenge_id
    delete_challenge challenge_id
    device_token ← trust_if db w remember_device user_id req
    pure (record { user_id = user_id; device_token = device_token })
