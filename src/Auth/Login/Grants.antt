-- ===== src/Auth/Login/Grants.antt =====
-- auth.service.ts, login after the password: what a sign-in and a challenge grant.
mod Steps
pub use Steps.*
use secure_auth_x_pro.Prelude.{
  ◌+◌, ◌≡◌, refl, ap, subst, Bool, true, false, none, some, [], ◌∷◌, ◌++◌, any, head?, ◌*◌, String,
  get_or, ◌⊎◌, inl, inr, Bool-cases, Option-cases, if◌then◌else◌,
}
use secure_auth_x_pro.Schema.{
  Store, User, Session, is_active, LoginChallengeState, info, flag, text, recovery,
}
use secure_auth_x_pro.Cache.{get_challenge}
use secure_auth_x_pro.Cache.Laws.{stored, set_challenge_runs, get_challenge-stored}
use secure_auth_x_pro.Repositories.Sessions.{clashes}
use secure_auth_x_pro.Prisma.{Prisma, IsPrisma}
use secure_auth_x_pro.Prisma.Table.{find_first}
use secure_auth_x_pro.World.{World}
use secure_auth_x_pro.Http.{RequestContext, get_client_ip, get_user_agent}
use secure_auth_x_pro.Exec.{Action, ◌>>=◌, ok, err, unique_violation}
use secure_auth_x_pro.Exec.Inversion.{Returns, refused, returned, bind_inv, if_inv}
use secure_auth_x_pro.Repositories.Users.{with_id}
use secure_auth_x_pro.Repositories.Effects
use secure_auth_x_pro.Repositories.Effects.{logged}
use secure_auth_x_pro.Mfa.Challenges.{
  IssuedChallenge, account_gone, available_methods_of, issue_login_challenge,
}
use secure_auth_x_pro.Mfa.Devices.{is_device_trusted}
use secure_auth_x_pro.Mfa.Devices.Trust.{IsTrusted, is_device_trusted_inv, touched}
use secure_auth_x_pro.Auth.Responses.{
  LoginResponse, SignedIn, signed_in, mfa_required, to_auth_user,
}
use secure_auth_x_pro.Auth.Tokens.{Device}
use secure_auth_x_pro.Auth.Tokens.Issue
use secure_auth_x_pro.Auth.Login.{finish_password, sign_in, challenge_second_factor, method_name}

module _ {db : Prisma} (laws : IsPrisma db) (w : World) where
  module _ (user : User) (remember_me : Bool) (req : RequestContext) where
    -- Where MFA is on.
    abbrev by_device : Bool → Action LoginResponse
    by_device trusted =
        if trusted
        then sign_in db w user remember_me req
        else challenge_second_factor db w user remember_me req

    abbrev second_factor : Action LoginResponse
    second_factor = is_device_trusted db w user.id req >>= by_device

    moved :
        (b c : Bool) (u v : Store) {r : LoginResponse} {t : Store}
        → b ≡ c
        → u ≡ v
        → Returns (by_device b) u r t
        → Returns (by_device c) v r t
    moved b c u v {r} {t} eb eu h =
        subst (λ x. Returns (by_device x) v r t) eb (subst (λ x. Returns (by_device b) x r t) eu h)

    as_before :
        {s u : Store}
        → IsTrusted w user.id req u
        → u.trusted_devices ≡ s.trusted_devices
        → IsTrusted w user.id req s
    as_before h same = record {
      token = h.token;
      device = h.device;
      carried = h.carried;
      named = h.named;
      known = rw (← same) h.known;
    }

    second_factor_inv :
        (s u : Store) {r : LoginResponse} {t : Store}
        → u.sessions ≡ s.sessions
        → u.trusted_devices ≡ s.trusted_devices
        → user.mfa_enabled ≡ true
        → Returns second_factor u r t
        → Grants w user req s r t
    second_factor_inv s u {r} {t} same devices on ran =
        let step = bind_inv (is_device_trusted db w user.id req) by_device u ran in
        elim (is_device_trusted_inv laws w user.id req u step.ran) [
          | inl (untrusted, kept) ↦
              challenge_inv laws w user remember_me req s u same on
                (moved step.value false step.store u untrusted kept step.rest)
          | inr (granted, h, kept) ↦
              sign_in_inv laws w user remember_me req s (touched laws w user.id h.device u) same
                (inr (as_before h devices))
                (moved step.value true step.store (touched laws w user.id h.device u) granted kept
                  step.rest)
        ]

    pub finish_inv :
        (s u : Store) {r : LoginResponse} {t : Store}
        → u.sessions ≡ s.sessions
        → u.trusted_devices ≡ s.trusted_devices
        → Returns (finish_password db w user remember_me req) u r t
        → Grants w user req s r t
    unfolding finish_password
    finish_inv s u same devices ran =
        elim (if_inv user.mfa_enabled second_factor (sign_in db w user remember_me req) u ran) [
          | inl (on, went) ↦ second_factor_inv s u same devices on went
          | inr (off, went) ↦ sign_in_inv laws w user remember_me req s u same (inl off) went
        ]
