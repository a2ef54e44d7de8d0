-- ===== src/Mfa/Challenges.antt =====
-- mfa.service.ts: the lifecycle of a login challenge.
pub mod Pending
use secure_auth_x_pro.Prelude.{
  ℕ, ◌+◌, ◌*◌, Bool, List, [], ◌∷◌, ◌++◌, head?, String, get_or, if◌then◌else◌,
}
use secure_auth_x_pro.Schema.{User, MfaMethod, totp, webauthn, recovery}
use secure_auth_x_pro.Prisma.{Prisma}
use secure_auth_x_pro.World.{World}
use secure_auth_x_pro.Exec.{
  Action, Failure, app, unauthorized, pure, gets, draw, or_throw, ◌>>=◌, ◌>>◌,
}
use secure_auth_x_pro.Repositories.Users
use secure_auth_x_pro.Cache.{set_challenge, get_challenge}

-- What `issueLoginChallenge` returns.
pub record IssuedChallenge : Type 0 where
  pub challenge_id : String
  pub method : MfaMethod
  pub available_methods : List MfaMethod
  pub expires_at : ℕ

-- The pushes onto `availableMethods`.
unfoldable pub available_methods_of : User → List MfaMethod
available_methods_of user =
    (if user.totp_enabled then totp ∷ [] else [])
    ++ ((if user.webauthn_enabled then webauthn ∷ [] else []) ++ recovery ∷ [])

abbrev pub account_gone : Failure
account_gone = app (unauthorized "Account no longer exists.")

abbrev pub challenge_invalid : Failure
challenge_invalid = app (unauthorized "MFA challenge is invalid or has expired.")

module _ (db : Prisma) (w : World) where
  unfoldable pub issue_login_challenge : String → Bool → Action IssuedChallenge
  issue_login_challenge user_id remember_me = do
    user ← (Users.find_by_id db user_id >>= λ found. or_throw found account_gone)
    let methods = available_methods_of user
    challenge_id ← draw w.random_uuid
    now ← gets (λ s. s.now)
    set_challenge w.mfa_challenge_ttl challenge_id (record {
      user_id = user_id;
      remember_me = remember_me;
      available_methods = methods;
      created_at = now;
    })
    pure (record {
      challenge_id = challenge_id;
      method = get_or (head? methods) recovery;
      available_methods = methods;
      expires_at = now + w.mfa_challenge_ttl * 1000;
    })

-- The user bound to a pending challenge.
unfoldable pub get_challenge_user : String → Action String
get_challenge_user challenge_id = do
  found ← get_challenge challenge_id
  state ← or_throw found challenge_invalid
  pure state.user_id
