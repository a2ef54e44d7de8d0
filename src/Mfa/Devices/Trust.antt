-- ===== src/Mfa/Devices/Trust.antt =====
-- mfa.service.ts, isDeviceTrusted: what a device needs to skip the second factor.
use secure_auth_x_pro.Prelude.{
  refl, ℕ, [], ◌∷◌, ◌∙◌, List, ◌≡◌, sym, subst, Bool, true, false, some, String, is_empty, lookup,
  ◌⊎◌, inl, inr, Bool-cases, Option-cases, arith, eq_iff,
}
use secure_auth_x_pro.Schema.{Store, TrustedDevice, CacheItem, Session, info, text}
use secure_auth_x_pro.Prisma.{Prisma, IsPrisma}
use secure_auth_x_pro.Prisma.Table
use secure_auth_x_pro.Prisma.Rows
use secure_auth_x_pro.World.{World}
use secure_auth_x_pro.Http.{RequestContext, trusted_device_cookie, get_client_ip}
use secure_auth_x_pro.Exec.{ok, pure, ◌>>◌}
use secure_auth_x_pro.Exec.Inversion.{Returns, returned}
use secure_auth_x_pro.Exec.Keeps.{Keeps, proceed-Keeps}
use secure_auth_x_pro.Repositories.Effects
use secure_auth_x_pro.Repositories.Audits
use secure_auth_x_pro.Repositories.Mfa
use secure_auth_x_pro.Repositories.Mfa.{own_device}
use secure_auth_x_pro.Mfa.Devices.{
  is_device_trusted, cookie_trusted, known_device, trust_device, trust_if,
}

-- The request carries a token whose hash is a trusted device of the user.
pub record IsTrusted (w : World) (user_id : String) (req : RequestContext) (s : Store)
    : Type 0 where
  pub token : String
  pub device : TrustedDevice
  pub carried : lookup trusted_device_cookie req.cookies ≡ some token
  pub named : is_empty token ≡ false
  pub known : Table.find_first (own_device user_id (w.sha256 token)) s.trusted_devices ≡ some device

module _ {db : Prisma} (laws : IsPrisma db) (w : World) where
  abbrev pub touched : String → TrustedDevice → Store → Store
  touched user_id device s = record s {
    trusted_devices =
        Table.set_first (own_device user_id device.device_fingerprint)
          (λ d. record d { last_used_at = s.now }) s.trusted_devices;
  }

  named_again :
      (user_id : String) (req : RequestContext) (s : Store) (h : IsTrusted w user_id req s)
      → Table.find_first (own_device user_id h.device.device_fingerprint) s.trusted_devices
        ≡ some h.device
  named_again user_id req s h =
      let holds =
        Rows.find_first-holds (own_device user_id (w.sha256 h.token)) s.trusted_devices h.known in
      let same : h.device.device_fingerprint ≡ w.sha256 h.token =
        ground (arith, eq_iff h.device.device_fingerprint (w.sha256 h.token)) in
      subst (λ f. Table.find_first (own_device user_id f) s.trusted_devices ≡ some h.device)
        (sym same) h.known

  pub trusted_runs :
      (user_id : String) (req : RequestContext) (s : Store) (h : IsTrusted w user_id req s)
      → is_device_trusted db w user_id req s ≡ (ok true, touched user_id h.device s)
  unfolding is_device_trusted cookie_trusted known_device Mfa.get_trusted_device
      Mfa.touch_trusted_device
  trusted_runs user_id req s h = rw (
    is_device_trusted,
    h.carried,
    cookie_trusted,
    h.named,
    Mfa.get_trusted_device,
    laws.finds_first TrustedDevice (own_device user_id (w.sha256 h.token)) s.trusted_devices,
    h.known,
    known_device,
    Mfa.touch_trusted_device,
    laws.updates,
    Rows.update-found _ (λ (d : TrustedDevice). record d { last_used_at = s.now }) _
        (named_again user_id req s h),
  )

  -- Trust is decided by the cookie alone.
  pub is_device_trusted_inv :
      (user_id : String) (req : RequestContext) (s : Store) {b : Bool} {t : Store}
      → Returns (is_device_trusted db w user_id req) s b t
      → ((b ≡ false) × (t ≡ s))
        ⊎ ((b ≡ true) × (h : IsTrusted w user_id req s) × (t ≡ touched user_id h.device s))
  unfolding is_device_trusted cookie_trusted known_device Mfa.get_trusted_device
  is_device_trusted_inv user_id req s ran =
      elim (Option-cases (lookup trusted_device_cookie req.cookies)) [
        | inl absent ↦ inl (returned ran (rw (is_device_trusted, absent, cookie_trusted)))
        | inr (token, carried) ↦ elim (Bool-cases (is_empty token)) [
          | inl empty ↦ inl (returned ran (rw (is_device_trusted, carried, cookie_trusted, empty)))
          | inr named ↦
              elim (Option-cases
                (Table.find_first (own_device user_id (w.sha256 token)) s.trusted_devices)) [
                  | inl unknown ↦ inl (
                      returned ran (
                        rw (
                          is_device_trusted,
                          carried,
                          cookie_trusted,
                          named,
                          Mfa.get_trusted_device,
                          laws.finds_first TrustedDevice (own_device user_id (w.sha256 token))
                              s.trusted_devices,
                          unknown,
                          known_device,
                        )))
                  | inr (device, known) ↦
                      let h : IsTrusted w user_id req s = record {
                        token = token;
                        device = device;
                        carried = carried;
                        named = named;
                        known = known;
                      } in
                      let (eb, et) = returned ran (trusted_runs user_id req s h) in inr (eb, h, et)
                ]
        ]
      ]

-- What remembering a device does not write.
abbrev pub rest_of : Store → List (String × CacheItem) × List Session × ℕ
rest_of s = (s.cache, s.sessions, s.now)

module _ {db : Prisma} (laws : IsPrisma db) (w : World) where
  touch_row : Store → TrustedDevice → TrustedDevice
  touch_row s d = record d { last_used_at = s.now }

  upsert-Keeps : (new : TrustedDevice) → Keeps rest_of (Mfa.trust_device db new)
  unfolding Mfa.trust_device touch_row
  upsert-Keeps new s =
      let row = own_device new.user_id new.device_fingerprint in
      elim (Option-cases (Table.update row (touch_row s) s.trusted_devices)) [
        | inl absent ↦
            elim (Option-cases (
              Table.create row (record new { trusted_at = s.now; last_used_at = s.now })
                s.trusted_devices)) [
                  | inl clash ↦ rw (Mfa.trust_device, laws.updates, absent, laws.creates, clash)
                  | inr (rows, made) ↦
                      rw (Mfa.trust_device, laws.updates, absent, laws.creates, made)
                ]
        | inr ((d, rows), there) ↦ rw (Mfa.trust_device, laws.updates, there)
      ]

  log-Keeps :
      (user_id : String) (req : RequestContext) (token : String)
      → Keeps rest_of (
          Audits.log db
            (some user_id)
            "device.trusted"
            info
            req
            (("ip", text (get_client_ip req)) ∷ [])
          >> pure token)
  log-Keeps user_id req token s = rw (Effects.log_runs laws)

  trust_device-Keeps :
      (user_id : String) (req : RequestContext) → Keeps rest_of (trust_device db w user_id req)
  unfolding trust_device
  trust_device-Keeps user_id req s =
      proceed-Keeps rest_of _ _ _ (λ a. log-Keeps _ _ _) ∙ upsert-Keeps _ _

  -- Remembering a device touches no pending challenge, no session and no clock.
  pub trust_if-Keeps :
      (remember : Bool) (user_id : String) (req : RequestContext)
      → Keeps rest_of (trust_if db w remember user_id req)
  unfolding trust_if
  trust_if-Keeps true user_id req s =
      proceed-Keeps rest_of _ _ _ (λ a u. refl) ∙ trust_device-Keeps user_id req s
  trust_if-Keeps false user_id req s = refl
