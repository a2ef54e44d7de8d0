-- ===== src/Auth/Registration/Verifying.antt =====
-- auth.service.ts: a verification token from its issue to its use.
use secure_auth_x_pro.Prelude.{
  ℕ, ◌+◌, ◌*◌, ◌≡◌, refl, true, false, some, none, List, [], ◌∷◌, ◌++◌, any, String, eq_refl, inl,
  inr, Bool-cases, arith,
}
use secure_auth_x_pro.Schema.{Store, EmailVerification, info}
use secure_auth_x_pro.Prisma.{Prisma, IsPrisma}
use secure_auth_x_pro.Prisma.Table
use secure_auth_x_pro.Prisma.Rows
use secure_auth_x_pro.Prisma.Append.{any-All, find_first-append, count-append}
use secure_auth_x_pro.World.{World}
use secure_auth_x_pro.Http.{RequestContext}
use secure_auth_x_pro.Exec.{ok, err, unique_violation}
use secure_auth_x_pro.Exec.Inversion.{Returns, refused, returned_store}
use secure_auth_x_pro.Repositories.EmailVerifications
use secure_auth_x_pro.Repositories.EmailVerifications.{clashes, is_pending, with_hash, with_id}
use secure_auth_x_pro.Repositories.Effects
use secure_auth_x_pro.Repositories.Effects.{logged, user_written}
use secure_auth_x_pro.Auth.Registration.{issue_verification_token, Mode, sent_action}

abbrev pub used : ℕ → EmailVerification → EmailVerification
used now v = record v { used_at = some now }

module _ (w : World) (user_id email : String) where
  -- The user's earlier tokens are spent.
  abbrev pub earlier : Store → List EmailVerification
  earlier s = Table.set_all (is_pending user_id) (used s.now) s.email_verifications

  abbrev pub new_token : Store → EmailVerification
  new_token s = record {
    id = w.random_uuid (s.draws + 1);
    user_id = user_id;
    token_hash = w.sha256 (w.random_base64url s.draws);
    expires_at = s.now + w.email_verification_ttl * 1000;
    used_at = none;
  }

  abbrev pub issued : Mode → RequestContext → Store → Store
  issued mode req s = logged (some user_id) (sent_action mode) info req [] (record s {
    email_verifications = earlier s ++ new_token s ∷ [];
    draws = s.draws + 1 + 1;
    outbox = record { to = email; token = w.random_base64url s.draws } ∷ s.outbox;
  })

  module _ {db : Prisma} (laws : IsPrisma db) where
    revoke_pending_runs :
        (s : Store)
        → EmailVerifications.revoke_pending db user_id s
          ≡ (ok tt, record s { email_verifications = earlier s })
    unfolding EmailVerifications.revoke_pending Table.update_many
    revoke_pending_runs s = rw laws.updates_many

    issue_runs :
        (mode : Mode) (req : RequestContext) (s : Store)
        → any (clashes (new_token s)) (earlier s) ≡ false
        → issue_verification_token db w user_id email req mode s ≡ (ok tt, issued mode req s)
    unfolding issue_verification_token EmailVerifications.create Table.create
    issue_runs mode req s apart = rw (
      issue_verification_token,
      revoke_pending_runs s,
      EmailVerifications.create,
      laws.creates,
      Table.create,
      apart,
      Effects.log_runs laws,
    )

    taken_runs :
        (mode : Mode) (req : RequestContext) (s : Store)
        → any (clashes (new_token s)) (earlier s) ≡ true
        → issue_verification_token db w user_id email req mode s ≡ (
          err unique_violation,
          record s { email_verifications = earlier s; draws = s.draws + 1 + 1 },
        )
    unfolding issue_verification_token EmailVerifications.create Table.create
    taken_runs mode req s clash = rw (
      issue_verification_token,
      revoke_pending_runs s,
      EmailVerifications.create,
      laws.creates,
      Table.create,
      clash,
    )

    pub issue_inv :
        (mode : Mode) (req : RequestContext) (s : Store) {t : Store}
        → Returns (issue_verification_token db w user_id email req mode) s tt t
        → (any (clashes (new_token s)) (earlier s) ≡ false) × (t ≡ issued mode req s)
    issue_inv mode req s ran = elim (Bool-cases (any (clashes (new_token s)) (earlier s))) [
      | inl clash ↦ absurd (refused (taken_runs mode req s clash) ran)
      | inr apart ↦ (apart, returned_store ran (issue_runs mode req s apart))
    ]

    none_pending : (s : Store) → Table.count (is_pending user_id) (earlier s) ≡ 0
    none_pending s = Rows.count-none (is_pending user_id) (earlier s) (
        Rows.set_all-All (is_pending user_id) (used s.now) s.email_verifications
          (λ v. ground arith))

    one_pending : (s : Store) → Table.count (is_pending user_id) (earlier s ++ new_token s ∷ []) ≡ 1
    unfolding Table.count
    one_pending s =
        rw (
          count-append (is_pending user_id) (earlier s) (new_token s ∷ []),
          none_pending s,
          eq_refl,
        )

    -- After a verification token was issued, the user has exactly one pending token, whatever was
    -- pending before, and it is the token that was mailed.
    pub issue_verification_token-is_pending :
        (mode : Mode) (req : RequestContext) (s : Store) {t : Store}
        → Returns (issue_verification_token db w user_id email req mode) s tt t
        → (Table.count (is_pending user_id) t.email_verifications ≡ 1)
          × (t.outbox ≡ record { to = email; token = w.random_base64url s.draws } ∷ s.outbox)
          × (Table.find_first
                (with_hash (w.sha256 (w.random_base64url s.draws)))
                t.email_verifications
              ≡ some (new_token s))
    issue_verification_token-is_pending mode req s ran =
        let (apart, et) = issue_inv mode req s ran in
        rw et (
          one_pending s,
          refl,
          find_first-append (with_hash (w.sha256 (w.random_base64url s.draws))) (earlier s)
              (new_token s)
              (any-All (clashes (new_token s)) (with_hash (w.sha256 (w.random_base64url s.draws)))
                (earlier s) (λ v h. ground arith) apart)
              (eq_refl (w.sha256 (w.random_base64url s.draws))),
        )
