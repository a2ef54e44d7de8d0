-- ===== src/Auth/Tokens/Issue.antt =====
-- auth.service.ts, issueTokens: the one session that it makes.
use secure_auth_x_pro.Prelude.{
  ◌+◌, ◌*◌, ◌≡◌, Bool, true, false, some, [], ◌∷◌, ◌++◌, any, String, Bool-cases, inl, inr,
}
use secure_auth_x_pro.Schema.{Store, User, Session, SessionStatus}
use secure_auth_x_pro.Prisma.{Prisma, IsPrisma}
use secure_auth_x_pro.World.{World}
use secure_auth_x_pro.Exec.{ok, err, unique_violation}
use secure_auth_x_pro.Exec.Inversion.{Returns, refused, returned_value, returned_store}
use secure_auth_x_pro.Repositories.Sessions.{clashes}
use secure_auth_x_pro.Repositories.Effects
use secure_auth_x_pro.Jwt.{create_access_token, create_refresh_token}
use secure_auth_x_pro.Auth.Responses.{AuthTokens}
use secure_auth_x_pro.Auth.Tokens.{Device, issue_tokens, refresh_ttl}

module _ (w : World) (user : User) (device : Device) (remember_me : Bool) where
  abbrev pub refresh_token_of : Store → String
  refresh_token_of s =
      create_refresh_token w user.id (w.random_uuid s.draws) (some (refresh_ttl w remember_me))
        (w.random_uuid (s.draws + 1)) s.now

  abbrev pub tokens_of : Store → AuthTokens
  tokens_of s = record {
    access_token =
        create_access_token w
          (record {
            user_id = user.id;
            email = user.email;
            role = user.role;
            session_id = w.random_uuid s.draws;
          })
          s.now;
    refresh_token = refresh_token_of s;
    csrf_token = w.random_hex (s.draws + 1 + 1);
    expires_in = refresh_ttl w remember_me;
    token_type = "Bearer";
  }

  abbrev pub session_of : Store → Session
  session_of s = record {
    id = w.random_uuid s.draws;
    user_id = user.id;
    refresh_token_hash = w.sha256 (refresh_token_of s);
    ip_address = device.ip;
    user_agent = device.user_agent;
    device_name = w.describe_device device.user_agent;
    device_fingerprint = some (w.device_fingerprint device.user_agent device.ip);
    status = SessionStatus.active;
    expires_at = s.now + refresh_ttl w remember_me * 1000;
    last_active_at = s.now;
    created_at = s.now;
  }

  abbrev pub with_session : Store → Store
  with_session s = record s {
    sessions = s.sessions ++ session_of s ∷ [];
    draws = s.draws + 1 + 1 + 1;
  }

  module _ {db : Prisma} (laws : IsPrisma db) where
    pub issue_tokens_runs :
        (s : Store)
        → any (clashes (session_of s)) s.sessions ≡ false
        → issue_tokens db w user device remember_me s ≡ (ok (tokens_of s), with_session s)
    unfolding issue_tokens
    issue_tokens_runs s apart = rw (
      issue_tokens,
      Effects.create_session_runs laws (session_of s) (record s { draws = s.draws + 1 + 1 + 1 })
          apart,
    )

    pub issue_tokens_taken :
        (s : Store)
        → any (clashes (session_of s)) s.sessions ≡ true
        → issue_tokens db w user device remember_me s
          ≡ (err unique_violation, record s { draws = s.draws + 1 + 1 + 1 })
    unfolding issue_tokens
    issue_tokens_taken s clash = rw (
      issue_tokens,
      Effects.create_session_taken laws (session_of s) (record s { draws = s.draws + 1 + 1 + 1 })
          clash,
    )

    -- What an issue that returned has made.
    pub issue_tokens_inv :
        (s : Store) {a : AuthTokens} {t : Store}
        → Returns (issue_tokens db w user device remember_me) s a t
        → (any (clashes (session_of s)) s.sessions ≡ false)
          × (a ≡ tokens_of s)
          × (t ≡ with_session s)
    unfolding issue_tokens
    issue_tokens_inv s ran = elim (Bool-cases (any (clashes (session_of s)) s.sessions)) [
      | inl clash ↦ absurd (refused (issue_tokens_taken s clash) ran)
      | inr apart ↦ (
        apart,
        returned_value ran (issue_tokens_runs s apart),
        returned_store ran (issue_tokens_runs s apart),
      )
    ]
