-- ===== src/Examples/SecondFactor.antt =====
-- Second factors of the example account: a TOTP secret of zeros, and one recovery code.
use secure_auth_x_pro.Prelude.{
  ℕ, zero, suc, ◌+◌, ◌≤◌, ◌≡◌, ◌↔◌, refl, some, none, Option, false, true, List, [], ◌∷◌, String,
  arith,
}
use secure_auth_x_pro.Prisma.{reference, reference-IsPrisma}
use secure_auth_x_pro.Prisma.Table
use secure_auth_x_pro.World.{World}
use secure_auth_x_pro.Schema.{Store, TotpSecret, RecoveryCode, LoginChallengeState, challenge, totp}
use secure_auth_x_pro.Exec.{err}
use secure_auth_x_pro.Exec.Inversion.{Returns}
use secure_auth_x_pro.Text
use secure_auth_x_pro.Totp
use secure_auth_x_pro.Totp.{verify_totp, generate_hmac_otp, is_well_formed}
use secure_auth_x_pro.Totp.Window.{verify_totp_lem}
use secure_auth_x_pro.Mfa.Challenges.{challenge_invalid}
use secure_auth_x_pro.Mfa.RecoveryCodes.{code_hash}
use secure_auth_x_pro.Mfa.Verification.{VerifiedLogin, verify_totp_login, verify_recovery_login}
use secure_auth_x_pro.Mfa.Verification.Code.{IsChecked, verify_totp_login-IsChecked}
use secure_auth_x_pro.Mfa.Verification.Recovery.{
  redeemed, unused_codes, recovery_invalid, verify_recovery_login_lem,
  verify_recovery_login-verify_recovery_login,
}
use secure_auth_x_pro.Cache.Laws.{pending}
use secure_auth_x_pro.Auth.Responses.{MfaLoginCompletion, to_auth_user}
use secure_auth_x_pro.Auth.Completion.{complete_mfa_totp, complete_mfa_recovery}
use secure_auth_x_pro.Auth.Completion.SecondFactor.{
  AddsSession, complete_mfa_totp-AddsSession, complete_mfa_recovery-AddsSession,
}
use secure_auth_x_pro.Examples.{zeros, world, alice, store, request}

-- HMAC and AES give zeros; the secret that AES opens is "AA".
abbrev mfa_world : World
mfa_world = record world {
  hmac_sha1 = λ k m. zeros 20;
  gcm_open = λ k iv tag c. some "AA";
  from_base64 = λ x. zeros 28;
}

every_code : (j : ℕ) → (c : String) × (generate_hmac_otp mfa_world "AA" j 6 ≡ some c)
unfolding generate_hmac_otp
every_code j = ("000000", refl)

code_formed : is_well_formed mfa_world (Text.trim "000000") ≡ true
unfolding is_well_formed Text.trim
code_formed = refl

verify_totp_lem_example : (verify_totp mfa_world "AA" "000000" 1 100000 ≡ some true) ↔ (
    (j : ℕ) × (3 ≤ j + 1)
    × (j ≤ 3 + 1)
    × (generate_hmac_otp mfa_world "AA" j 6 ≡ some (Text.trim "000000")))
unfolding Totp.time_to_counter
verify_totp_lem_example =
    verify_totp_lem mfa_world "AA" "000000" 1 100000 (omega arith) (omega arith) code_formed
      every_code

abbrev pending_login : LoginChallengeState
pending_login = record {
  user_id = "u1";
  remember_me = true;
  available_methods = totp ∷ [];
  created_at = 1000;
}

abbrev secret_row : TotpSecret
secret_row = record { user_id = "u1"; secret = "v1:x"; verified = true; enabled = true }

abbrev recovery_row : RecoveryCode
recovery_row = record { user_id = "u1"; code_hash = "abcd"; used_at = none }

abbrev pub mfa_store : Store
mfa_store = record store {
  totp_secrets = secret_row ∷ [];
  recovery_codes = recovery_row ∷ [];
  cache =
      ("mfa:login-challenge:c1", record { value = challenge pending_login; expires_at = none })
      ∷ ("mfa:login-challenge:c2", record { value = challenge pending_login; expires_at = none })
      ∷ [];
  now = 100000;
}

abbrev completion : MfaLoginCompletion
completion = record {
  user = to_auth_user alice;
  tokens = record {
    access_token = "rotated";
    refresh_token = "rotated";
    csrf_token = "0123456789abcdef";
    expires_in = 1800;
    token_type = "Bearer";
  };
  device_token = none;
}

abbrev verified_login : VerifiedLogin
verified_login = record { user_id = "u1"; device_token = none }

code-Returns :
    Returns
      (verify_totp_login reference mfa_world "c1" "000000" false request)
      mfa_store
      verified_login
      (verify_totp_login reference mfa_world "c1" "000000" false request mfa_store).1
unfolding verify_totp_login secure_auth_x_pro.Mfa.Challenges.get_challenge_user
    secure_auth_x_pro.Cache.get_challenge secure_auth_x_pro.Prelude.lookup
    secure_auth_x_pro.Cache.key Text.concat secure_auth_x_pro.Repositories.Mfa.get_totp_secret
    Table.find_first secure_auth_x_pro.Cipher.decrypt verify_totp Totp.match_from generate_hmac_otp
    secure_auth_x_pro.Cache.delete_challenge secure_auth_x_pro.Mfa.Devices.trust_if
code-Returns = refl

completed-Returns :
    Returns
      (complete_mfa_totp reference mfa_world "c1" "000000" false request)
      mfa_store
      completion
      (complete_mfa_totp reference mfa_world "c1" "000000" false request mfa_store).1
unfolding complete_mfa_totp verify_totp_login secure_auth_x_pro.Mfa.Challenges.get_challenge_user
    secure_auth_x_pro.Cache.get_challenge secure_auth_x_pro.Prelude.lookup
    secure_auth_x_pro.Cache.key Text.concat secure_auth_x_pro.Repositories.Mfa.get_totp_secret
    Table.find_first secure_auth_x_pro.Cipher.decrypt verify_totp Totp.match_from generate_hmac_otp
    secure_auth_x_pro.Cache.delete_challenge secure_auth_x_pro.Mfa.Devices.trust_if
    secure_auth_x_pro.Auth.Completion.finish_mfa_login
    secure_auth_x_pro.Repositories.Users.find_by_id to_auth_user
    secure_auth_x_pro.Auth.Tokens.issue_tokens secure_auth_x_pro.Auth.Tokens.refresh_ttl
    secure_auth_x_pro.Jwt.create_access_token secure_auth_x_pro.Jwt.create_refresh_token
    secure_auth_x_pro.Prelude.delete_key secure_auth_x_pro.Repositories.Audits.log
    secure_auth_x_pro.Repositories.Sessions.create Table.create
completed-Returns = refl

recovered-Returns :
    Returns
      (complete_mfa_recovery reference mfa_world "c1" "AB-CD" request)
      mfa_store
      completion
      (complete_mfa_recovery reference mfa_world "c1" "AB-CD" request mfa_store).1
unfolding complete_mfa_recovery verify_recovery_login
    secure_auth_x_pro.Mfa.Challenges.get_challenge_user secure_auth_x_pro.Cache.get_challenge
    secure_auth_x_pro.Prelude.lookup secure_auth_x_pro.Cache.key Text.concat
    secure_auth_x_pro.Repositories.Mfa.get_totp_secret Table.find_first
    secure_auth_x_pro.Cipher.decrypt verify_totp Totp.match_from generate_hmac_otp
    secure_auth_x_pro.Cache.delete_challenge secure_auth_x_pro.Mfa.Devices.trust_if
    secure_auth_x_pro.Auth.Completion.finish_mfa_login
    secure_auth_x_pro.Repositories.Users.find_by_id to_auth_user
    secure_auth_x_pro.Auth.Tokens.issue_tokens secure_auth_x_pro.Auth.Tokens.refresh_ttl
    secure_auth_x_pro.Jwt.create_access_token secure_auth_x_pro.Jwt.create_refresh_token
    secure_auth_x_pro.Prelude.delete_key secure_auth_x_pro.Repositories.Audits.log
    secure_auth_x_pro.Repositories.Sessions.create Table.create
    secure_auth_x_pro.Mfa.RecoveryCodes.code_hash
    secure_auth_x_pro.Repositories.Mfa.consume_recovery_code Table.update_many
recovered-Returns = refl

redeemed-Returns :
    Returns
      (verify_recovery_login reference mfa_world "c1" "AB-CD" request)
      mfa_store
      "u1"
      (redeemed mfa_world "c1" "AB-CD" request mfa_store pending_login)
unfolding verify_recovery_login secure_auth_x_pro.Mfa.Challenges.get_challenge_user
    secure_auth_x_pro.Cache.get_challenge secure_auth_x_pro.Prelude.lookup
    secure_auth_x_pro.Cache.key Text.concat secure_auth_x_pro.Repositories.Mfa.get_totp_secret
    Table.find_first secure_auth_x_pro.Cipher.decrypt verify_totp Totp.match_from generate_hmac_otp
    secure_auth_x_pro.Cache.delete_challenge secure_auth_x_pro.Mfa.Devices.trust_if
    secure_auth_x_pro.Auth.Completion.finish_mfa_login
    secure_auth_x_pro.Repositories.Users.find_by_id to_auth_user
    secure_auth_x_pro.Auth.Tokens.issue_tokens secure_auth_x_pro.Auth.Tokens.refresh_ttl
    secure_auth_x_pro.Jwt.create_access_token secure_auth_x_pro.Jwt.create_refresh_token
    secure_auth_x_pro.Prelude.delete_key secure_auth_x_pro.Repositories.Audits.log
    secure_auth_x_pro.Repositories.Sessions.create Table.create
    secure_auth_x_pro.Mfa.RecoveryCodes.code_hash
    secure_auth_x_pro.Repositories.Mfa.consume_recovery_code Table.update_many
redeemed-Returns = refl

verify_totp_login-IsChecked_example :
    let t = (verify_totp_login reference mfa_world "c1" "000000" false request mfa_store).1 in
    IsChecked mfa_world "c1" "000000" mfa_store "u1"
    × (pending "c1" (record t { now = 130000 }) ≡ none)
    × (t.sessions ≡ mfa_store.sessions)
    × (t.now ≡ 100000)
verify_totp_login-IsChecked_example =
    verify_totp_login-IsChecked reference-IsPrisma mfa_world "c1" "000000" false request mfa_store
      code-Returns 130000

complete_mfa_totp-AddsSession_example :
    let t = (complete_mfa_totp reference mfa_world "c1" "000000" false request mfa_store).1 in
    IsChecked mfa_world "c1" "000000" mfa_store completion.user.id
    × AddsSession mfa_world completion.user.id completion.tokens.refresh_token mfa_store t
    × (pending "c1" (record t { now = 130000 }) ≡ none)
complete_mfa_totp-AddsSession_example =
    complete_mfa_totp-AddsSession reference-IsPrisma mfa_world request "c1" "000000" false mfa_store
      completed-Returns 130000

complete_mfa_recovery-AddsSession_example :
    let t = (complete_mfa_recovery reference mfa_world "c1" "AB-CD" request mfa_store).1 in
    ((state : LoginChallengeState) × (pending "c1" mfa_store ≡ some state)
      × (state.user_id ≡ completion.user.id)
      × (unused_codes mfa_world state.user_id "AB-CD" mfa_store ≡ 1))
    × AddsSession mfa_world completion.user.id completion.tokens.refresh_token mfa_store t
    × (pending "c1" (record t { now = 130000 }) ≡ none)
complete_mfa_recovery-AddsSession_example =
    complete_mfa_recovery-AddsSession reference-IsPrisma mfa_world request "c1" "AB-CD" mfa_store
      recovered-Returns 130000

verify_recovery_login_lem_example :
    Returns
      (verify_recovery_login reference mfa_world "c1" "AB-CD" request)
      mfa_store
      "u1"
      (redeemed mfa_world "c1" "AB-CD" request mfa_store pending_login)
    ↔ ((state : LoginChallengeState) × (pending "c1" mfa_store ≡ some state)
        × (unused_codes mfa_world state.user_id "AB-CD" mfa_store ≡ 1)
        × (◌≡◌ {A = String} "u1" state.user_id)
        × (redeemed mfa_world "c1" "AB-CD" request mfa_store pending_login
            ≡ redeemed mfa_world "c1" "AB-CD" request mfa_store state))
verify_recovery_login_lem_example =
    verify_recovery_login_lem reference-IsPrisma mfa_world "c1" "AB-CD" request mfa_store "u1"
      (redeemed mfa_world "c1" "AB-CD" request mfa_store pending_login)

second-pending :
    pending "c2"
      (record (redeemed mfa_world "c1" "AB-CD" request mfa_store pending_login) { now = 110000 })
    ≡ some pending_login
unfolding secure_auth_x_pro.Prelude.lookup secure_auth_x_pro.Prelude.delete_key
    secure_auth_x_pro.Cache.key Text.concat
second-pending = refl

same_hash : code_hash mfa_world "abcd" ≡ code_hash mfa_world "AB-CD"
unfolding code_hash
same_hash = refl

verify_recovery_login-verify_recovery_login_example :
    let t = redeemed mfa_world "c1" "AB-CD" request mfa_store pending_login in
    ((verify_recovery_login reference mfa_world "c2" "abcd" request (record t { now = 110000 })).0
      ≡ err recovery_invalid)
    × ((verify_recovery_login reference mfa_world "c1" "9999" request (record t { now = 110000 })).0
        ≡ err challenge_invalid)
verify_recovery_login-verify_recovery_login_example =
    verify_recovery_login-verify_recovery_login reference-IsPrisma mfa_world "c1" "AB-CD" request
      mfa_store redeemed-Returns "c2" "abcd" "9999" request 110000 second-pending refl same_hash
