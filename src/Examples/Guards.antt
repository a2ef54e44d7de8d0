-- ===== src/Examples/Guards.antt =====
-- Requests of the example installation that meet the guards.
use secure_auth_x_pro.Prelude.{◌≡◌, refl, ◌∷◌, [], ◌↔◌, arith, lookup}
use secure_auth_x_pro.Text.{strip_prefix, trim}
use secure_auth_x_pro.Prisma.{reference, reference-IsPrisma}
use secure_auth_x_pro.Prisma.Table.{find_first}
use secure_auth_x_pro.Schema.{Store, SessionStatus}
use secure_auth_x_pro.Http.{RequestContext, resolve_access_token, single}
use secure_auth_x_pro.Jwt.{verify_access_token, verify_refresh_token}
use secure_auth_x_pro.Exec.{Failure, err}
use secure_auth_x_pro.Exec.Inversion.{Returns}
use secure_auth_x_pro.Auth.Refresh.{refresh, session_inactive}
use secure_auth_x_pro.System.Ended.{Reachable-refresh}
use secure_auth_x_pro.System.Reachable.{Reachable, here, after, waits}
use secure_auth_x_pro.Api.Guards.{authenticate, to_authenticated}
use secure_auth_x_pro.Api.Guards.Access.{Authorized, authenticate_lem, Reachable-authenticate}
use secure_auth_x_pro.Examples.{world, store, alice, session, request, refresh_payload}

abbrev with_token : RequestContext
with_token = record request { headers = ("authorization", single "Bearer issued") ∷ [] }

authenticate_lem_example :
    Returns (authenticate reference world with_token) store (to_authenticated alice) store ↔ (
      (c : Authorized world with_token store) × (to_authenticated alice ≡ to_authenticated c.user)
      × (store ≡ store))
authenticate_lem_example =
    authenticate_lem reference-IsPrisma world with_token store (to_authenticated alice) store

-- The session was ended, and a second passes.
abbrev ended_store : Store
ended_store = record store { sessions = record session { status = SessionStatus.revoked } ∷ [] }

abbrev later_store : Store
later_store = record ended_store { now = 2000 }

abbrev time_passed : Reachable reference world ended_store later_store
time_passed = after ended_store later_store request here (waits 2000 (omega arith))

Reachable-authenticate_example :
    (e : Failure) × (authenticate reference world with_token later_store ≡ (err e, later_store))
unfolding find_first resolve_access_token verify_access_token lookup strip_prefix trim
Reachable-authenticate_example =
    Reachable-authenticate reference-IsPrisma world ended_store later_store "s1" (tt, tt) refl
      time_passed with_token {token = "issued"} {p = refresh_payload} refl refl refl

Reachable-refresh_example :
    refresh reference world "issued" request later_store ≡ (err session_inactive, later_store)
unfolding find_first verify_refresh_token
Reachable-refresh_example =
    Reachable-refresh reference-IsPrisma world ended_store later_store "s1" (tt, tt) refl
      time_passed request "issued" {p = refresh_payload} refl refl
