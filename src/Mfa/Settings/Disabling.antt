-- ===== src/Mfa/Settings/Disabling.antt =====
-- mfa.service.ts, disable: what it leaves of a user's second factors.
use secure_auth_x_pro.Prelude.{
  ◌≡◌, refl, Bool, true, false, not, ◌&&◌, ◌||◌, none, some, List, [], ◌∷◌, String, ◌==◌, eq_refl,
  any, All, All-weaken, length, get_or, inl, inr, ◌⊎◌, Bool-cases, Option-cases, arith,
}
use secure_auth_x_pro.Schema.{Store, User, WebAuthnCredential, info, text, number}
use secure_auth_x_pro.Prisma.{Prisma, IsPrisma}
use secure_auth_x_pro.Prisma.Table
use secure_auth_x_pro.Prisma.Rows
use secure_auth_x_pro.Prisma.Listing.{IsListing-All, delete_many-left}
use secure_auth_x_pro.World.{World}
use secure_auth_x_pro.Http.{RequestContext}
use secure_auth_x_pro.Exec.{Failure, app, ok, err, forbidden, not_found}
use secure_auth_x_pro.Jwt.{verify_password}
use secure_auth_x_pro.Repositories.Users.{with_id}
use secure_auth_x_pro.Repositories.Mfa
use secure_auth_x_pro.Repositories.Mfa.{
  secret_of, code_of, credential_of, own_credential, device_of,
}
use secure_auth_x_pro.Repositories.Effects
use secure_auth_x_pro.Repositories.Effects.{logged, user_written}
use secure_auth_x_pro.Mfa.Settings.{disable, delete_each}

abbrev pub cleared : User → User
cleared u = record u { totp_enabled = false; webauthn_enabled = false; mfa_enabled = false }

abbrev pub user_missing : Failure
user_missing = app (not_found "User not found.")

abbrev pub incorrect_password : Failure
incorrect_password = app (forbidden "Incorrect password.")

-- No second factor of the user is left: no row of the four tables, and no flag of the user's row.
pub record HasNoFactor (user_id : String) (user : User) (t : Store) : Type 0 where
  pub no_secret : All (λ x. secret_of user_id x ≡ false) t.totp_secrets
  pub no_code : All (λ x. code_of user_id x ≡ false) t.recovery_codes
  pub no_credential : All (λ x. credential_of user_id x ≡ false) t.credentials
  pub no_device : All (λ x. device_of user_id x ≡ false) t.trusted_devices
  pub no_flag : Table.find_first (with_id user_id) t.users ≡ some (cleared user)

-- The rows that the loop leaves.
unfoldable purge :
    String → List WebAuthnCredential → List WebAuthnCredential → List WebAuthnCredential
purge user_id [] t = t
purge user_id (c ∷ cs) t =
    purge user_id cs (Table.delete_many (own_credential user_id c.credential_id) t)

abbrev same_key : WebAuthnCredential → WebAuthnCredential → Bool
same_key c x = x.credential_id == c.credential_id

-- The user's keys that are not on a list.
abbrev unlisted : String → List WebAuthnCredential → WebAuthnCredential → Bool
unlisted user_id cs x = credential_of user_id x && not (any (λ c. same_key c x) cs)

deleted_first :
    (mine first later : Bool)
    → (mine && not (first || later)) ≡ false
    → (mine && first) ≡ false
    → (mine && not later) ≡ false
deleted_first mine first later h k = ground arith

purge-All :
    (user_id : String) (cs t : List WebAuthnCredential)
    → All (λ x. unlisted user_id cs x ≡ false) t
    → All (λ x. credential_of user_id x ≡ false) (purge user_id cs t)
unfolding purge
purge-All user_id [] t h =
    All-weaken t (λ x (e : (credential_of user_id x && true) ≡ false). ground arith) h
purge-All user_id (c ∷ cs) t h =
    let left = Table.delete_many (own_credential user_id c.credential_id) t in
    purge-All user_id cs left (
      All-weaken left
        (λ x (e, k).
          deleted_first (credential_of user_id x) (same_key c x) (any (λ d. same_key d x) cs) e k)
        (delete_many-left (λ x. unlisted user_id (c ∷ cs) x ≡ false)
          (own_credential user_id c.credential_id) t h))

module _ {db : Prisma} (laws : IsPrisma db) where
  delete_each_runs :
      (w : World) (user_id : String) (cs : List WebAuthnCredential) (s : Store)
      → delete_each db w user_id cs s
        ≡ (ok tt, record s { credentials = purge user_id cs s.credentials })
  unfolding delete_each purge Mfa.delete_credential
  delete_each_runs w user_id [] s = refl
  delete_each_runs w user_id (c ∷ cs) s =
      rw (delete_each, Mfa.delete_credential, laws.deletes_many)
        (delete_each_runs w user_id cs (record s {
          credentials = Table.delete_many (own_credential user_id c.credential_id) s.credentials;
        }))

  module _ (w : World) (user_id password : String) (req : RequestContext) (s : Store) where
    abbrev listed : List WebAuthnCredential
    listed =
        db.find_many WebAuthnCredential (λ c. c.created_at) (credential_of user_id) s.credentials

    abbrev emptied : Store
    emptied = record s {
      totp_secrets = Table.delete_many (secret_of user_id) s.totp_secrets;
      recovery_codes = Table.delete_many (code_of user_id) s.recovery_codes;
      credentials = purge user_id listed s.credentials;
      trusted_devices = Table.delete_many (device_of user_id) s.trusted_devices;
    }

    abbrev stripped : Store
    stripped =
        logged (some user_id) "mfa.totp_disabled" info req
          (("reason", text "mfa_disabled") ∷ ("removedCredentials", number (length listed)) ∷ [])
          (user_written user_id cleared emptied)

    forget_secret :
        (t : Store)
        → Mfa.delete_totp_secret db user_id t ≡ (
          ok tt,
          record t { totp_secrets = Table.delete_many (secret_of user_id) t.totp_secrets },
        )
    unfolding Mfa.delete_totp_secret
    forget_secret t = rw laws.deletes_many

    forget_codes :
        (t : Store)
        → Mfa.delete_recovery_codes db user_id t ≡ (
          ok tt,
          record t { recovery_codes = Table.delete_many (code_of user_id) t.recovery_codes },
        )
    unfolding Mfa.delete_recovery_codes
    forget_codes t = rw laws.deletes_many

    list_keys :
        (t : Store)
        → Mfa.list_credentials db user_id t ≡ (
          ok (
              db.find_many WebAuthnCredential
                (λ c. c.created_at)
                (credential_of user_id)
                t.credentials),
          t,
        )
    unfolding Mfa.list_credentials
    list_keys t = refl

    forget_devices :
        (t : Store)
        → Mfa.revoke_all_trusted_devices db user_id t ≡ (
          ok tt,
          record t { trusted_devices = Table.delete_many (device_of user_id) t.trusted_devices },
        )
    unfolding Mfa.revoke_all_trusted_devices
    forget_devices t = rw laws.deletes_many

    disable_missing :
        Table.find_first (with_id user_id) s.users ≡ none
        → disable db w user_id password req s ≡ (err user_missing, s)
    unfolding disable
    disable_missing missing = rw (disable, Effects.find_by_id_runs laws, missing)

    disable_rejected :
        {user : User}
        → Table.find_first (with_id user_id) s.users ≡ some user
        → verify_password w password (get_or user.password_hash "") ≡ false
        → disable db w user_id password req s ≡ (err incorrect_password, s)
    unfolding disable
    disable_rejected found wrong = rw (disable, Effects.find_by_id_runs laws, found, wrong)

    disable_runs :
        {user : User}
        → Table.find_first (with_id user_id) s.users ≡ some user
        → verify_password w password (get_or user.password_hash "") ≡ true
        → disable db w user_id password req s ≡ (ok tt, stripped)
    unfolding disable
    disable_runs found right = rw (
      disable,
      Effects.find_by_id_runs laws,
      found,
      right,
      forget_secret s,
      forget_codes (record s { totp_secrets = emptied.totp_secrets }),
      list_keys (record s {
        totp_secrets = emptied.totp_secrets;
        recovery_codes = emptied.recovery_codes;
      }),
      delete_each_runs w,
      forget_devices,
      Effects.update_user_runs laws user_id cleared emptied found,
      Effects.log_runs laws,
    )

    stripped-HasNoFactor :
        {user : User}
        → Table.find_first (with_id user_id) s.users ≡ some user
        → HasNoFactor user_id user stripped
    stripped-HasNoFactor {user} found = record {
      no_secret = Rows.delete_many-All (secret_of user_id) s.totp_secrets;
      no_code = Rows.delete_many-All (code_of user_id) s.recovery_codes;
      no_credential = purge-All user_id listed s.credentials (
          IsListing-All (λ c. c.created_at) (credential_of user_id) same_key s.credentials listed
            (laws.finds_many WebAuthnCredential (λ c. c.created_at) (credential_of user_id)
              s.credentials)
            (λ x. eq_refl x.credential_id));
      no_device = Rows.delete_many-All (device_of user_id) s.trusted_devices;
      no_flag =
          Rows.find_first-set_first (with_id user_id) cleared s.users found
            (Rows.find_first-holds (with_id user_id) s.users found);
    }

    -- A request to disable MFA throws and writes nothing exactly where there is no such user, or the
    -- password is not the user's. Any other returns, and leaves the user without a TOTP secret,
    -- recovery code, security key or trusted device, with the three flags of the user's row cleared.
    pub disable-HasNoFactor :
        ((Table.find_first (with_id user_id) s.users ≡ none)
          × (disable db w user_id password req s ≡ (err user_missing, s)))
        ⊎ ((user : User) × (Table.find_first (with_id user_id) s.users ≡ some user)
            × (((verify_password w password (get_or user.password_hash "") ≡ false)
                  × (disable db w user_id password req s ≡ (err incorrect_password, s)))
                ⊎ ((verify_password w password (get_or user.password_hash "") ≡ true)
                    × ((disable db w user_id password req s).0 ≡ ok tt)
                    × HasNoFactor user_id user (disable db w user_id password req s).1)))
    disable-HasNoFactor = elim (Option-cases (Table.find_first (with_id user_id) s.users)) [
      | inl missing ↦ inl (missing, disable_missing missing)
      | inr (user, found) ↦
          elim (Bool-cases (verify_password w password (get_or user.password_hash ""))) [
            | inl right ↦ inr (
              user,
              found,
              inr (
                right,
                rw (disable_runs found right) refl,
                rw (disable_runs found right) (stripped-HasNoFactor found),
              ),
            )
            | inr wrong ↦ inr (user, found, inl (wrong, disable_rejected found wrong))
          ]
    ]
