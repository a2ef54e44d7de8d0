-- ===== src/Examples/Parts.antt =====
-- The limiter, the pages, the cipher, the cache and the administrator's changes on small inputs.
use secure_auth_x_pro.Prelude.{
  ℕ, lookup, ◌+◌, ◌-◌, ◌*◌, ◌≤◌, ◌<◌, ◌≡◌, ◌⊎◌, ◌↔◌, refl, min, some, false, true, List, [], ◌∷◌,
  ◌++◌, String, arith,
}
use secure_auth_x_pro.Prisma.{reference, reference-IsPrisma}
use secure_auth_x_pro.Prisma.Table.{find_first}
use secure_auth_x_pro.World.{World}
use secure_auth_x_pro.Schema.{
  UserStatus, LoginChallengeState, WebAuthnCeremonyState, authenticate, totp,
}
use secure_auth_x_pro.Exec.{ok, err, app}
use secure_auth_x_pro.RateLimit
use secure_auth_x_pro.RateLimit.Window.{Hit, passed, requests, passed_in_window}
use secure_auth_x_pro.Pagination.{whole, resolve_pagination, build_pagination_meta}
use secure_auth_x_pro.Pagination.Pages.{resolve_pagination_bounds, build_pagination_meta_lem}
use secure_auth_x_pro.Cipher.{encrypt, decrypt}
use secure_auth_x_pro.Cipher.RoundTrip.{IsSound, decrypt-encrypt}
use secure_auth_x_pro.Cache.{
  set_challenge, get_challenge, set_ceremony, get_ceremony, delete_ceremony,
}
use secure_auth_x_pro.Cache.Laws.{get-set_challenge, get_challenge-ceremony}
use secure_auth_x_pro.Admin.{set_user_status, own_account, no_transition, status_update}
use secure_auth_x_pro.Admin.Transitions.{CanBecome, status_changed, set_user_status_lem}
use secure_auth_x_pro.Examples.{zeros, world, alice, store, request}

-- Four more requests within the window, one of them of another client.
abbrev hits : List Hit
hits = (10, "a") ∷ (20, "b") ∷ (30, "a") ∷ (40, "a") ∷ []

passed_in_window_example :
    passed "a" 1000 3 ((5, "a") ∷ hits) [] ≡ 1 + min (3 - 1) (requests "a" hits)
unfolding RateLimit.sweep lookup
passed_in_window_example = passed_in_window "a" 1000 3 5 hits [] refl (omega arith)

resolve_pagination_bounds_example :
    let r = resolve_pagination (some (whole 3)) (some (whole 500)) in
    (1 ≤ r.page)
    × (1 ≤ r.page_size)
    × (r.page_size ≤ 100)
    × (r.take ≡ r.page_size)
    × (r.skip + r.take ≡ r.page * r.page_size)
resolve_pagination_bounds_example = resolve_pagination_bounds (some (whole 3)) (some (whole 500))

build_pagination_meta_lem_example :
    let m = build_pagination_meta 2 20 45 in
    (45 ≤ m.total_pages * 20)
    × ((◌≡◌ {A = ℕ} 45 0) ⊎ ((m.total_pages - 1) * 20 < 45))
    × ((m.has_next_page ≡ true) ↔ (2 * 20 < 45))
build_pagination_meta_lem_example = build_pagination_meta_lem 2 20 45 (omega arith)

-- AES with a tag of zeros, for one secret.
abbrev cipher_world : World
cipher_world = record world {
  gcm_seal = λ k iv x. (zeros 16, 7 ∷ []);
  gcm_open = λ k iv tag c. some "JBSWY3DP";
  from_base64 = λ x. zeros 28 ++ 7 ∷ [];
}

cipher-IsSound : IsSound cipher_world "JBSWY3DP" (zeros 12)
cipher-IsSound = record { tag_length = refl; opens = refl; decodes = refl }

decrypt-encrypt_example :
    decrypt cipher_world (encrypt cipher_world "JBSWY3DP" (zeros 12)) ≡ some "JBSWY3DP"
decrypt-encrypt_example = decrypt-encrypt cipher_world "JBSWY3DP" (zeros 12) cipher-IsSound refl

abbrev pending : LoginChallengeState
pending = record {
  user_id = "u1";
  remember_me = false;
  available_methods = totp ∷ [];
  created_at = 1000;
}

get-set_challenge_example :
    let t = (set_challenge 300 "c1" pending store).1 in
    (get_challenge "c1" (record t { now = 301000 })).0 ≡ ok (some pending)
get-set_challenge_example = get-set_challenge 300 "c1" pending store 301000 (omega arith)

abbrev ceremony : WebAuthnCeremonyState
ceremony = record {
  kind = authenticate;
  user_id = "u1";
  login_challenge_id = some "c1";
  expected_challenge = "challenge";
  expected_origin = "http://localhost:3000";
  expected_rp_id = "localhost";
  created_at = 1000;
}

get_challenge-ceremony_example :
    ((get_challenge "c1" (set_ceremony 300 "c1" ceremony store).1).0 ≡ (get_challenge "c1" store).0)
    × ((get_challenge "c1" (delete_ceremony "c1" store).1).0 ≡ (get_challenge "c1" store).0)
    × ((get_challenge "c1" (get_ceremony "c1" store).1).0 ≡ (get_challenge "c1" store).0)
get_challenge-ceremony_example = get_challenge-ceremony 300 "c1" "c1" ceremony store

set_user_status_lem_example :
    ((◌≡◌ {A = String} "u1" "admin")
      × (UserStatus.locked ≡ UserStatus.disabled)
      × (set_user_status reference "admin" "u1" UserStatus.locked request store
          ≡ (err (app own_account), store)))
    ⊎ ((¬ CanBecome UserStatus.active UserStatus.locked)
        × (set_user_status reference "admin" "u1" UserStatus.locked request store
            ≡ (err (app no_transition), store)))
    ⊎ (CanBecome UserStatus.active UserStatus.locked
        × (¬ ((◌≡◌ {A = String} "u1" "admin") × (UserStatus.locked ≡ UserStatus.disabled)))
        × (set_user_status reference "admin" "u1" UserStatus.locked request store ≡ (
          ok (status_update UserStatus.locked alice),
          status_changed "admin" "u1" alice UserStatus.locked request store,
        )))
unfolding find_first
set_user_status_lem_example =
    set_user_status_lem reference-IsPrisma "admin" "u1" UserStatus.locked request store refl
