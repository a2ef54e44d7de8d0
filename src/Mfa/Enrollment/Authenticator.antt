-- ===== src/Mfa/Enrollment/Authenticator.antt =====
-- mfa.service.ts, beginTotpEnrollment and completeTotpEnrollment: what the code of an enrolment is
-- checked against, and what it turns on.
use secure_auth_x_pro.Prelude.{
  ℕ, ◌+◌, ◌≡◌, refl, Bool, true, false, Option, some, none, List, [], ◌∷◌, ◌++◌, String, eq_refl,
  eq_iff, any, All, length, inl, inr, Option-cases, Bool-cases, arith,
}
use secure_auth_x_pro.Schema.{Store, User, TotpSecret, info, text}
use secure_auth_x_pro.Prisma.{Prisma, IsPrisma, listing_as, listing_as-IsPrisma, at_client}
use secure_auth_x_pro.Prisma.Table
use secure_auth_x_pro.Prisma.Rows
use secure_auth_x_pro.Prisma.Append.{find_first-append}
use secure_auth_x_pro.World.{World}
use secure_auth_x_pro.Http.{RequestContext}
use secure_auth_x_pro.Exec.{Result, ok, err, app, bad_request, library_error}
use secure_auth_x_pro.Repositories.Users.{with_id}
use secure_auth_x_pro.Repositories.Mfa
use secure_auth_x_pro.Repositories.Mfa.{secret_of}
use secure_auth_x_pro.Repositories.Effects
use secure_auth_x_pro.Cipher.{encrypt, decrypt, iv_bytes}
use secure_auth_x_pro.Cipher.RoundTrip.{IsSound, decrypt-encrypt}
use secure_auth_x_pro.Totp.{verify_totp, generate_totp_secret}
use secure_auth_x_pro.Mfa.RecoveryCodes.{ensure_recovery_codes}
use secure_auth_x_pro.Mfa.Verification.{totp_drift_steps}
use secure_auth_x_pro.Mfa.Enrollment.{begin_totp_enrollment, complete_totp_enrollment}

module _ {A : Type 0} (p : A → Bool) where
  absent-All : (t : List A) → Table.find_first p t ≡ none → All (λ x. p x ≡ false) t
  unfolding Table.find_first
  absent-All [] h = tt
  absent-All (b ∷ t) h = elim (Bool-cases (p b)) [
    | inl here ↦ absurd (ground arith)
    | inr there ↦ (there, absent-All t (rw there at h))
  ]

  absent-any : (t : List A) → All (λ x. p x ≡ false) t → any p t ≡ false
  absent-any [] h = refl
  absent-any (b ∷ t) (hb, h) = rw hb (absent-any t h)

-- The row of an enrolment that is not confirmed.
abbrev pub pending_secret : String → String → TotpSecret
pending_secret user_id encrypted = record {
  user_id = user_id;
  secret = encrypted;
  verified = false;
  enabled = false;
}

abbrev pend : String → TotpSecret → TotpSecret
pend encrypted x = record x { secret = encrypted; verified = false; enabled = false }

-- The table after the upsert, where the user's row is the pending one.
upsert_runs :
    (db : Prisma) (user_id encrypted : String) (s : Store)
    → (t : List TotpSecret) × (Mfa.upsert_pending_totp_secret (listing_as db) user_id encrypted s
        ≡ (ok tt, record s { totp_secrets = t }))
      × (Table.find_first (secret_of user_id) t ≡ some (pending_secret user_id encrypted))
unfolding Mfa.upsert_pending_totp_secret Mfa.insert_totp_secret Mfa.write_totp_secret Table.create
upsert_runs db user_id encrypted s =
    elim (Option-cases (Table.find_first (secret_of user_id) s.totp_secrets)) [
      | inl absent ↦
          let all = absent-All (secret_of user_id) s.totp_secrets absent in
          (
            s.totp_secrets ++ pending_secret user_id encrypted ∷ [],
            rw
                (
                  Mfa.upsert_pending_totp_secret,
                  absent,
                  Mfa.insert_totp_secret,
                  Table.create,
                  absent-any (secret_of user_id) s.totp_secrets all,
                )
                refl,
            find_first-append (secret_of user_id) s.totp_secrets (pending_secret user_id encrypted)
                all (eq_refl user_id),
          )
      | inr (x, found) ↦
          let mine : x.user_id ≡ user_id =
            (eq_iff x.user_id user_id).0
              (Rows.find_first-holds (secret_of user_id) s.totp_secrets found) in
          (
            Table.set_first (secret_of user_id) (pend encrypted) s.totp_secrets,
            rw
                (
                  Mfa.upsert_pending_totp_secret,
                  found,
                  Mfa.write_totp_secret,
                  Rows.update-found (secret_of user_id) (pend encrypted) s.totp_secrets found,
                )
                refl,
            rw mine at (
                Rows.find_first-set_first (secret_of user_id) (pend encrypted) s.totp_secrets found
                  (Rows.find_first-holds (secret_of user_id) s.totp_secrets found)),
          )
    ]

abbrev confirm : TotpSecret → TotpSecret
confirm x = record x { verified = true; enabled = true }

abbrev turn_on : User → User
turn_on u = record u { totp_enabled = true; mfa_enabled = true }

-- The end of an enrolment: with a right code, the row of the secret is confirmed and the user has the
-- second factor, before recovery codes are issued where there are none; else nothing is written.
abbrev pub Decided :
    Prisma
    → World
    → String
    → User
    → TotpSecret
    → RequestContext
    → Store
    → Option Bool
    → Result (List String) × Store
    → Type 0
Decided db w user_id user row req u (some true) out =
    (v : Store) × (out ≡ ensure_recovery_codes db w user_id req v)
    × (Table.find_first (secret_of user_id) v.totp_secrets ≡ some (confirm row))
    × (Table.find_first (with_id user_id) v.users ≡ some (turn_on user))
    × (v.sessions ≡ u.sessions)
Decided db w user_id user row req u (some false) out =
    out ≡ (err (app (bad_request "The code is incorrect or has expired. Try again.")), u)
Decided db w user_id user row req u none out = out ≡ (err library_error, u)

module _ {db : Prisma} (laws : IsPrisma db) (w : World) (user_id : String)
    (req : RequestContext) where
  begin_runs :
      (s : Store) (user : User)
      → Table.find_first (with_id user_id) s.users ≡ some user
      → let secret = generate_totp_secret w s.draws in
        (t : List TotpSecret) × (begin_totp_enrollment (listing_as db) w user_id s
          ≡ (ok secret, record s { totp_secrets = t; draws = s.draws + 1 + 1 }))
        × (Table.find_first (secret_of user_id) t
            ≡ some
                (pending_secret user_id (encrypt w secret (w.random_bytes iv_bytes (s.draws + 1)))))
  unfolding begin_totp_enrollment
  begin_runs s user known =
      let (t, ran, row) =
        upsert_runs db user_id
          (encrypt w (generate_totp_secret w s.draws) (w.random_bytes iv_bytes (s.draws + 1)))
          (record s { draws = s.draws + 1 + 1 }) in
      (
        t,
        rw
            (
              begin_totp_enrollment,
              Effects.find_by_id_runs (listing_as-IsPrisma laws) user_id s,
              known,
              ran,
            )
            refl,
        row,
      )

  module _ (u : Store) (user : User) (row : TotpSecret) (secret code : String)
      (known : Table.find_first (with_id user_id) u.users ≡ some user)
      (stored : Table.find_first (secret_of user_id) u.totp_secrets ≡ some row)
      (opened : decrypt w row.secret ≡ some secret) where
    abbrev confirmed : Store
    confirmed = record u {
      totp_secrets = Table.set_first (secret_of user_id) confirm u.totp_secrets;
    }

    abbrev enrolled : Store
    enrolled =
        Effects.logged (some user_id) "mfa.totp_enabled" info req (("method", text "totp") ∷ [])
          (Effects.user_written user_id turn_on confirmed)

    complete_runs :
        (o : Option Bool)
        → verify_totp w secret code totp_drift_steps u.now ≡ o
        → Decided
            (listing_as db)
            w
            user_id
            user
            row
            req
            u
            o
            (complete_totp_enrollment (listing_as db) w user_id code req u)
    unfolding complete_totp_enrollment Mfa.get_totp_secret Mfa.enable_totp Mfa.write_totp_secret
    complete_runs none h =
        rw (complete_totp_enrollment, Mfa.get_totp_secret, stored, opened, h) refl
    complete_runs (some false) h =
        rw (complete_totp_enrollment, Mfa.get_totp_secret, stored, opened, h) refl
    complete_runs (some true) h =
        let mine = Rows.find_first-holds (secret_of user_id) u.totp_secrets stored in
        let own = Rows.find_first-holds (with_id user_id) u.users known in
        (
          enrolled,
          rw
              (
                complete_totp_enrollment,
                Mfa.get_totp_secret,
                stored,
                opened,
                h,
                Mfa.enable_totp,
                Mfa.write_totp_secret,
                Rows.update-found (secret_of user_id) confirm u.totp_secrets stored,
                Effects.update_user_runs (listing_as-IsPrisma laws) user_id turn_on confirmed known,
                Effects.log_runs (listing_as-IsPrisma laws),
              )
              refl,
          Rows.find_first-set_first (secret_of user_id) confirm u.totp_secrets stored mine,
          Rows.find_first-set_first (with_id user_id) turn_on u.users known own,
          refl,
        )

-- The start of an enrolment returns the secret, and what a code comes to at a later time is decided by
-- that secret.
abbrev pub Enrolls : Prisma → World → String → String → RequestContext → Store → ℕ → User → Type 0
Enrolls db w user_id code req s later user =
    let secret = generate_totp_secret w s.draws in
    (t : Store) × (begin_totp_enrollment db w user_id s ≡ (ok secret, t))
    × Decided db w user_id user
        (pending_secret user_id (encrypt w secret (w.random_bytes iv_bytes (s.draws + 1)))) req
        (record t { now = later }) (verify_totp w secret code totp_drift_steps later)
        (complete_totp_enrollment db w user_id code req (record t { now = later }))

-- An enrolment of an authenticator app by an existing user answers with a fresh secret; over packages
-- that decrypt what they encrypted, whenever a code is then sent and whatever the code: it is checked
-- against that secret at that time. A right code confirms the secret and turns the second factor on,
-- and is answered as the issue of recovery codes is; a wrong one is a bad request, one that cannot be
-- checked an exception, and these write nothing.
pub begin-complete_totp_enrollment :
    {db : Prisma}
    → IsPrisma db
    → (w : World) (user_id code : String) (req : RequestContext) (s : Store) (later : ℕ)
      (user : User)
    → Table.find_first (with_id user_id) s.users ≡ some user
    → IsSound w (generate_totp_secret w s.draws) (w.random_bytes iv_bytes (s.draws + 1))
    → length (w.random_bytes iv_bytes (s.draws + 1)) ≡ iv_bytes
    → Enrolls db w user_id code req s later user
begin-complete_totp_enrollment is w user_id code req s later user known sound size =
    let secret = generate_totp_secret w s.draws in
    let iv = w.random_bytes iv_bytes (s.draws + 1) in
    let (t, ran, stored) = begin_runs is w user_id req s user known in
    let u = record s { totp_secrets = t; draws = s.draws + 1 + 1; now = later } in
    at_client (λ db. Enrolls db w user_id code req s later user) is
      (
        _,
        ran,
        complete_runs is w user_id req u user (pending_secret user_id (encrypt w secret iv)) secret
            code known stored (decrypt-encrypt w secret iv sound size)
            (verify_totp w secret code totp_drift_steps later) refl,
      )
