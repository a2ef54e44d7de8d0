-- ===== src/Examples/Accounts.antt =====
-- Ending sessions and confirming emails of example accounts.
use secure_auth_x_pro.Prelude.{◌≡◌, ◌⊎◌, refl, some, none, false, true, [], ◌∷◌, String, arith}
use secure_auth_x_pro.Prisma.{reference, reference-IsPrisma}
use secure_auth_x_pro.Prisma.Table
use secure_auth_x_pro.Schema.{Store, User, UserStatus, Session}
use secure_auth_x_pro.Http.{RequestContext, non_empty}
use secure_auth_x_pro.Exec.{ok, err, record_missing}
use secure_auth_x_pro.Exec.Inversion.{Returns}
use secure_auth_x_pro.Jwt.{verify_refresh_token}
use secure_auth_x_pro.Repositories.Users
use secure_auth_x_pro.Repositories.Sessions
use secure_auth_x_pro.Repositories.EmailVerifications.{with_hash, is_pending}
use secure_auth_x_pro.Auth.Refresh.{refresh, session_inactive}
use secure_auth_x_pro.Auth.Logout.{logout, logout_target}
use secure_auth_x_pro.Auth.Logout.Ending.{outcome, audited, logout_lem}
use secure_auth_x_pro.Repositories.Effects.{session_written, revoked_session}
use secure_auth_x_pro.System.Lifecycle.{UniqueIds, phase, over}
use secure_auth_x_pro.System.Reachable.{here, after, waits}
use secure_auth_x_pro.Auth.Registration.{issue_verification_token, verify_email, sent}
use secure_auth_x_pro.Auth.Registration.Verifying.{
  issued, new_token, issue_verification_token-is_pending,
}
use secure_auth_x_pro.Auth.Registration.Confirming.{
  confirmed, verify_email-issue_verification_token,
}
use secure_auth_x_pro.Admin.{set_user_status, status_update}
use secure_auth_x_pro.Admin.Closing.{set_user_status-refresh}
use secure_auth_x_pro.Examples.{world, alice, session, refresh_payload, store, request}

abbrev carol : User
carol = record alice {
  id = "u2";
  email = "carol@example.com";
  email_verified = false;
  status = UserStatus.pending_verification;
}

abbrev second_session : Session
second_session = record session { id = "s2"; user_id = "u2"; refresh_token_hash = "other" }

abbrev two_accounts : Store
two_accounts = record store { users = alice ∷ carol ∷ []; sessions = session ∷ second_session ∷ [] }

abbrev locked_store : Store
locked_store = (set_user_status reference "admin" "u1" UserStatus.locked request two_accounts).1

locked-Returns :
    Returns
      (set_user_status reference "admin" "u1" UserStatus.locked request)
      two_accounts
      (status_update UserStatus.locked alice)
      locked_store
unfolding set_user_status Users.find_by_id Table.find_first secure_auth_x_pro.Admin.includes
    secure_auth_x_pro.Admin.allowed_transitions Users.update Table.update
    Sessions.revoke_all_for_user secure_auth_x_pro.Repositories.Audits.log Table.create
locked-Returns = refl

locked_time : locked_store.now ≡ 1000
unfolding set_user_status Users.find_by_id Table.find_first secure_auth_x_pro.Admin.includes
    secure_auth_x_pro.Admin.allowed_transitions Users.update Table.update
    Sessions.revoke_all_for_user secure_auth_x_pro.Repositories.Audits.log Table.create
locked_time = refl

two_accounts-UniqueIds : UniqueIds two_accounts
two_accounts-UniqueIds = ((refl, tt), (tt, tt))

abbrev much_later : Store
much_later = record locked_store { now = 9000 }

set_user_status-refresh_example :
    refresh reference world "issued" request much_later ≡ (err session_inactive, much_later)
unfolding Table.find_first verify_refresh_token
set_user_status-refresh_example =
    set_user_status-refresh reference-IsPrisma world "admin" "u1" UserStatus.locked request
      two_accounts two_accounts-UniqueIds refl locked-Returns "s1" {x = session} refl refl
      {v = much_later}
      (after locked_store much_later request here (waits 9000 (omega (arith, locked_time))))
      "issued" request {p = refresh_payload} refl refl

abbrev cookie_request : RequestContext
cookie_request = record request { cookies = ("sax_refresh_token", "issued") ∷ [] }

logout_lem_example :
    let target = logout_target world cookie_request 1000 in
    ((non_empty target.session_id ≡ none)
      × (logout reference world cookie_request store ≡ (ok (outcome target), store)))
    ⊎ ((id : String) × (non_empty target.session_id ≡ some id)
        × (((Table.find_first (Sessions.with_id id) store.sessions ≡ none)
              × (logout reference world cookie_request store ≡ (err record_missing, store)))
            ⊎ ((x : Session) × (Table.find_first (Sessions.with_id id) store.sessions ≡ some x)
                × (logout reference world cookie_request store ≡ (
                  ok (outcome target),
                  audited
                      (non_empty target.user_id)
                      cookie_request
                      (session_written id revoked_session store),
                ))
                × (phase id (logout reference world cookie_request store).1.sessions ≡ over))))
logout_lem_example = logout_lem reference-IsPrisma world cookie_request store

issued-Returns :
    Returns
      (issue_verification_token reference world "u2" "carol@example.com" request sent)
      two_accounts
      tt
      (issued world "u2" "carol@example.com" sent request two_accounts)
unfolding issue_verification_token secure_auth_x_pro.Repositories.EmailVerifications.revoke_pending
    secure_auth_x_pro.Repositories.EmailVerifications.create Table.create Table.update_many
    secure_auth_x_pro.Repositories.Audits.log
issued-Returns = refl

issue_verification_token-is_pending_example :
    let t = issued world "u2" "carol@example.com" sent request two_accounts in
    (Table.count (is_pending "u2") t.email_verifications ≡ 1)
    × (t.outbox ≡ record { to = "carol@example.com"; token = "token" } ∷ [])
    × (Table.find_first (with_hash "token") t.email_verifications
        ≡ some (new_token world "u2" "carol@example.com" two_accounts))
issue_verification_token-is_pending_example =
    issue_verification_token-is_pending world "u2" "carol@example.com" reference-IsPrisma sent
      request two_accounts issued-Returns

carol-found : Table.find_first (Users.with_id "u2") two_accounts.users ≡ some carol
unfolding Table.find_first
carol-found = refl

verify_email-issue_verification_token_example :
    let u = record (issued world "u2" "carol@example.com" sent request two_accounts) {
      now = 86000000;
    } in
    let verified = verify_email reference world "token" request u in
    (verified.0 ≡ ok (record { email = "carol@example.com"; verified = true }))
    × (Table.find_first (Users.with_id "u2") verified.1.users ≡ some (confirmed 86000000 carol))
verify_email-issue_verification_token_example =
    verify_email-issue_verification_token reference-IsPrisma world sent request two_accounts
      carol-found refl issued-Returns request 86000000 (omega arith)
