-- ===== src/Auth/Login/Grants/Steps.antt =====
-- auth.service.ts, login: what a sign-in and a pending challenge grant.
use secure_auth_x_pro.Prelude.{
  ◌+◌, ◌≡◌, refl, ap, Bool, true, false, none, some, [], ◌∷◌, ◌++◌, any, head?, ◌*◌, String, get_or,
  ◌⊎◌, inl, inr, Bool-cases, Option-cases,
}
use secure_auth_x_pro.Schema.{
  Store, User, Session, is_active, LoginChallengeState, info, flag, text, recovery,
}
use secure_auth_x_pro.Cache.{get_challenge}
use secure_auth_x_pro.Cache.Laws.{stored, set_challenge_runs, get_challenge-stored}
use secure_auth_x_pro.Repositories.Sessions.{clashes}
use secure_auth_x_pro.Prisma.{Prisma, IsPrisma}
use secure_auth_x_pro.Prisma.Table.{find_first}
use secure_auth_x_pro.World.{World}
use secure_auth_x_pro.Http.{RequestContext, get_client_ip, get_user_agent}
use secure_auth_x_pro.Exec.{ok, err, unique_violation}
use secure_auth_x_pro.Exec.Inversion.{Returns, refused, returned}
use secure_auth_x_pro.Repositories.Users.{with_id}
use secure_auth_x_pro.Repositories.Effects
use secure_auth_x_pro.Repositories.Effects.{logged}
use secure_auth_x_pro.Mfa.Challenges.{
  IssuedChallenge, account_gone, available_methods_of, issue_login_challenge,
}
use secure_auth_x_pro.Mfa.Devices.Trust.{IsTrusted}
use secure_auth_x_pro.Auth.Responses.{
  LoginResponse, SignedIn, signed_in, mfa_required, to_auth_user,
}
use secure_auth_x_pro.Auth.Tokens.{Device}
use secure_auth_x_pro.Auth.Tokens.Issue
use secure_auth_x_pro.Auth.Login.{sign_in, challenge_second_factor, method_name}

module _ (w : World) where
  -- The session that a sign-in adds.
  pub record AddsSession (user : User) (token : String) (s t : Store) : Type 0 where
    pub new : Session
    pub added : t.sessions ≡ s.sessions ++ new ∷ []
    pub owned : new.user_id ≡ user.id
    pub hashed : new.refresh_token_hash ≡ w.sha256 token
    pub in_use : is_active new.status ≡ true

  -- What a login returned, with the store before and after it.
  abbrev pub Grants : User → RequestContext → Store → LoginResponse → Store → Type 0
  Grants user req s (signed_in x) t =
      ((user.mfa_enabled ≡ false) ⊎ IsTrusted w user.id req s)
      × (x.user ≡ to_auth_user user)
      × AddsSession user x.tokens.refresh_token s t
  Grants user req s (mfa_required c) t =
      (user.mfa_enabled ≡ true)
      × (t.sessions ≡ s.sessions)
      × ((state : LoginChallengeState) × ((get_challenge c.challenge_id t).0 ≡ ok (some state))
          × (state.user_id ≡ user.id))

module _ {db : Prisma} (laws : IsPrisma db) (w : World) where
  abbrev device_of : RequestContext → Device
  device_of req = record { ip = get_client_ip req; user_agent = get_user_agent req }

  module _ (user : User) (remember_me : Bool) (req : RequestContext) where
    abbrev new_session : Store → Session
    new_session u = Issue.session_of w user (device_of req) remember_me u

    abbrev answer : Store → SignedIn
    answer u = record {
      user = to_auth_user user;
      tokens = Issue.tokens_of w user (device_of req) remember_me u;
    }

    sign_in_taken :
        (u : Store)
        → any (clashes (new_session u)) u.sessions ≡ true
        → sign_in db w user remember_me req u
          ≡ (err unique_violation, record u { draws = u.draws + 1 + 1 + 1 })
    unfolding sign_in
    sign_in_taken u clash =
        rw (sign_in, Issue.issue_tokens_taken w user (device_of req) remember_me laws u clash)

    sign_in_runs :
        (u : Store)
        → any (clashes (new_session u)) u.sessions ≡ false
        → sign_in db w user remember_me req u ≡ (
          ok (signed_in (answer u)),
          logged
              (some user.id)
              "auth.login_success"
              info
              req
              (("rememberMe", flag remember_me) ∷ [])
              (Issue.with_session w user (device_of req) remember_me u),
        )
    unfolding sign_in
    sign_in_runs u apart = rw (
      sign_in,
      Issue.issue_tokens_runs w user (device_of req) remember_me laws u apart,
      Effects.log_runs laws,
    )

    pub sign_in_inv :
        (s u : Store) {r : LoginResponse} {t : Store}
        → u.sessions ≡ s.sessions
        → (user.mfa_enabled ≡ false) ⊎ IsTrusted w user.id req s
        → Returns (sign_in db w user remember_me req) u r t
        → Grants w user req s r t
    sign_in_inv s u same why ran = elim (Bool-cases (any (clashes (new_session u)) u.sessions)) [
      | inl clash ↦ absurd (refused (sign_in_taken u clash) ran)
      | inr apart ↦
          let (er, et) = returned ran (sign_in_runs u apart) in
          rw (er, et)
            (
              why,
              refl,
              record {
                new = new_session u;
                added = ap (λ rows. rows ++ new_session u ∷ []) same;
                owned = refl;
                hashed = refl;
                in_use = refl;
              },
            )
    ]

    abbrev challenged : Store → User → LoginChallengeState
    challenged u found = record {
      user_id = user.id;
      remember_me = remember_me;
      available_methods = available_methods_of found;
      created_at = u.now;
    }

    abbrev issued : Store → User → IssuedChallenge
    issued u found = record {
      challenge_id = w.random_uuid u.draws;
      method = get_or (head? (available_methods_of found)) recovery;
      available_methods = available_methods_of found;
      expires_at = u.now + w.mfa_challenge_ttl * 1000;
    }

    challenge_gone :
        (u : Store)
        → find_first (with_id user.id) u.users ≡ none
        → challenge_second_factor db w user remember_me req u ≡ (err account_gone, u)
    unfolding challenge_second_factor issue_login_challenge
    challenge_gone u gone =
        rw (challenge_second_factor, issue_login_challenge, Effects.find_by_id_runs laws, gone)

    challenge_runs :
        (u : Store) {found : User}
        → find_first (with_id user.id) u.users ≡ some found
        → challenge_second_factor db w user remember_me req u ≡ (
          ok (mfa_required (issued u found)),
          logged
              (some user.id)
              "mfa.challenge_issued"
              info
              req
              (("method", text (method_name (issued u found).method)) ∷ [])
              (record u {
                draws = u.draws + 1;
                cache = stored w.mfa_challenge_ttl (w.random_uuid u.draws) (challenged u found) u;
              }),
        )
    unfolding challenge_second_factor issue_login_challenge
    challenge_runs u {found} there = rw (
      challenge_second_factor,
      issue_login_challenge,
      Effects.find_by_id_runs laws,
      there,
      set_challenge_runs w.mfa_challenge_ttl (w.random_uuid u.draws) (challenged u found)
          (record u { draws = u.draws + 1 }),
      Effects.log_runs laws,
    )

    pub challenge_inv :
        (s u : Store) {r : LoginResponse} {t : Store}
        → u.sessions ≡ s.sessions
        → user.mfa_enabled ≡ true
        → Returns (challenge_second_factor db w user remember_me req) u r t
        → Grants w user req s r t
    challenge_inv s u same on ran = elim (Option-cases (find_first (with_id user.id) u.users)) [
      | inl gone ↦ absurd (refused (challenge_gone u gone) ran)
      | inr (found, there) ↦
          let (er, et) = returned ran (challenge_runs u there) in
          rw (er, et)
            (
              on,
              same,
              (
                challenged u found,
                get_challenge-stored w.mfa_challenge_ttl (w.random_uuid u.draws)
                    (challenged u found) u
                    (logged (some user.id) "mfa.challenge_issued" info req
                      (("method", text (method_name (issued u found).method)) ∷ [])
                      (record u {
                        draws = u.draws + 1;
                        cache =
                            stored w.mfa_challenge_ttl (w.random_uuid u.draws) (challenged u found)
                              u;
                      }))
                    refl refl,
                refl,
              ),
            )
    ]
