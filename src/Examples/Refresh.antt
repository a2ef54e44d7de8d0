-- ===== src/Examples/Refresh.antt =====
-- Refreshes of the example session.
use secure_auth_x_pro.Prelude.{ℕ, ◌≡◌, ◌↔◌, refl, some, String, eq_iff, arith}
use secure_auth_x_pro.Prisma.{reference, reference-IsPrisma}
use secure_auth_x_pro.Prisma.Table
use secure_auth_x_pro.Exec.{err}
use secure_auth_x_pro.Exec.Inversion.{Returns}
use secure_auth_x_pro.Jwt
use secure_auth_x_pro.Jwt.{verify_refresh_token}
use secure_auth_x_pro.Auth.Refresh.{refresh, session_reused, session_inactive}
use secure_auth_x_pro.Auth.Refresh.Rotation
use secure_auth_x_pro.Auth.Refresh.Reuse.{
  refresh_lem, refresh-refresh, refresh-refresh-refresh, IsAccepted, rotated_store,
}
use secure_auth_x_pro.Examples.{world, alice, session, refresh_payload, store, request}

issued_apart : (◌≡◌ {A = String} "issued" "rotated") → ⊥
issued_apart e = ground (arith, eq_iff "issued" "rotated")

rotated_apart : (◌≡◌ {A = String} "rotated" "issued") → ⊥
rotated_apart e = ground (arith, eq_iff "rotated" "issued")

-- A token that verifies and names the session.
presented :
    (token : String)
    → verify_refresh_token world token 1000 ≡ some refresh_payload
    → Rotation.Presented world token store
unfolding Table.find_first
presented token verified = record {
  payload = refresh_payload;
  session = session;
  user = alice;
  verified = verified;
  found = refl;
  owned = refl;
}

issued_verifies : (now : ℕ) → verify_refresh_token world "issued" now ≡ some refresh_payload
unfolding verify_refresh_token
issued_verifies now = refl

rotated_verifies : (now : ℕ) → verify_refresh_token world "rotated" now ≡ some refresh_payload
unfolding verify_refresh_token
rotated_verifies now = refl

exchanged : Rotation.Presented world "issued" store
exchanged = presented "issued" (issued_verifies 1000)

exchanged-IsAccepted : IsAccepted world "issued" store exchanged
unfolding presented exchanged
exchanged-IsAccepted = record { current = refl; in_time = refl; enabled = refl }

refresh_lem_example :
    Returns
      (refresh reference world "issued" request)
      store
      (Rotation.answer world exchanged)
      (rotated_store request exchanged)
    ↔ ((c : Rotation.Presented world "issued" store) × IsAccepted world "issued" store c
        × (Rotation.answer world exchanged ≡ Rotation.answer world c)
        × (rotated_store request exchanged ≡ rotated_store request c))
refresh_lem_example =
    refresh_lem reference-IsPrisma world "issued" request store (tt, tt)
      (Rotation.answer world exchanged) (rotated_store request exchanged)

stale : Rotation.Presented world "rotated" store
stale = presented "rotated" (rotated_verifies 1000)

refresh-refresh_example :
    ((refresh reference world "rotated" request store).0 ≡ err session_reused)
    × ((refresh reference world "issued" request
          (record (refresh reference world "rotated" request store).1 { now = 1500 })).0
        ≡ err session_inactive)
unfolding presented stale
refresh-refresh_example =
    refresh-refresh reference-IsPrisma world "rotated" request store stale (tt, tt)
      (λ e. absurd (issued_apart e)) "issued" request 1500 (issued_verifies 1500) refl

exchange-Returns :
    Returns
      (refresh reference world "issued" request)
      store
      (Rotation.answer world exchanged)
      (rotated_store request exchanged)
exchange-Returns = refresh_lem_example.1 (exchanged, exchanged-IsAccepted, refl, refl)

refresh-refresh-refresh_example :
    let u = record (rotated_store request exchanged) { now = 1500 } in
    let v = (refresh reference world "issued" request u).1 in
    ((refresh reference world "issued" request u).0 ≡ err session_reused)
    × ((refresh reference world "rotated" request (record v { now = 1600 })).0
        ≡ err session_inactive)
unfolding presented exchanged Jwt.create_refresh_token
refresh-refresh-refresh_example =
    refresh-refresh-refresh reference-IsPrisma world "issued" request store exchanged (tt, tt)
      exchange-Returns (λ e. absurd (rotated_apart e)) request 1500 (issued_verifies 1500) request
      1600 (rotated_verifies 1600) refl
