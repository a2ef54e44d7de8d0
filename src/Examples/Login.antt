-- ===== src/Examples/Login.antt =====
-- Logins to the example account.
use secure_auth_x_pro.Prelude.{◌≡◌, refl, some, get_or, false, true, [], ◌∷◌, arith}
use secure_auth_x_pro.Prisma.{reference, reference-IsPrisma}
use secure_auth_x_pro.Prisma.Table.{find_first}
use secure_auth_x_pro.Exec.{app, err}
use secure_auth_x_pro.Schema.{Store, User, UserStatus}
use secure_auth_x_pro.Prisma.Table
use secure_auth_x_pro.Repositories.Users
use secure_auth_x_pro.Repositories.Sessions
use secure_auth_x_pro.Repositories.Audits
use secure_auth_x_pro.Jwt.{verify_password, create_access_token, create_refresh_token}
use secure_auth_x_pro.Auth.Login.{
  LoginInput, login, login_user, check_lock, check_verified, check_password, finish_password,
  sign_in, invalid_credentials, account_locked,
}
use secure_auth_x_pro.Auth.Tokens.{issue_tokens}
use secure_auth_x_pro.Exec.Inversion.{Returns}
use secure_auth_x_pro.Auth.Responses.{SignedIn, signed_in, to_auth_user}
use secure_auth_x_pro.Auth.Login.Grants.{Grants}
use secure_auth_x_pro.Auth.Login.Admission.{login-Grants}
use secure_auth_x_pro.Auth.Login.Branches.{ReachesPassword}
use secure_auth_x_pro.Auth.Login.Lockout.{login-login_locked}
use secure_auth_x_pro.Auth.Login.Attempts.{tries-counts, Finds, counted, tries}
use secure_auth_x_pro.Examples.{world, alice, store, request}

abbrev wrong_input : LoginInput
wrong_input = record { email = "alice@example.com"; password = "guess"; remember_me = false }

abbrev right_input : LoginInput
right_input = record {
  email = "alice@example.com";
  password = "correct horse";
  remember_me = false;
}

-- One wrong password was counted before.
abbrev tried : User
tried = record alice { failed_login_attempts = 1 }

abbrev tried_store : Store
tried_store = record store { users = tried ∷ [] }

tried-ReachesPassword : ReachesPassword wrong_input tried_store tried
unfolding find_first
tried-ReachesPassword = record {
  distinct = (tt, tt);
  found = refl;
  enabled = refl;
  free = refl;
  is_verified = refl;
}

wrong_password : verify_password world "guess" "correct horse" ≡ false
unfolding verify_password
wrong_password = refl

login-login_locked_example :
    ((login reference world wrong_input request tried_store).0 ≡ err invalid_credentials)
    × ((login reference world right_input request
          (record (login reference world wrong_input request tried_store).1 { now = 2000 })).0
        ≡ err (app (account_locked 899)))
login-login_locked_example =
    login-login_locked reference-IsPrisma world wrong_input request tried_store
      tried-ReachesPassword wrong_password (omega arith) right_input request 2000 refl (omega arith)

-- The first login of the account.
abbrev first_answer : SignedIn
first_answer = record {
  user = to_auth_user alice;
  tokens = record {
    access_token = "rotated";
    refresh_token = "rotated";
    csrf_token = "0123456789abcdef";
    expires_in = 1800;
    token_type = "Bearer";
  };
}

signs_in :
    Returns
      (login reference world right_input request)
      store
      (signed_in first_answer)
      (login reference world right_input request store).1
unfolding login login_user check_lock check_verified check_password finish_password sign_in
    issue_tokens Users.find_by_email find_first verify_password Users.mark_login_success
    Table.update Sessions.create Table.create create_refresh_token Audits.log create_access_token
signs_in = refl

alice-Finds : Finds "alice@example.com" (counted alice 0) 1000 store
unfolding find_first
alice-Finds = record { distinct = (tt, tt); found = refl; at_time = refl }

login-Grants_example :
    (user : User) × ReachesPassword right_input store user
    × (verify_password world "correct horse" (get_or user.password_hash "") ≡ true)
    × Grants world user request store
        (signed_in first_answer)
        (login reference world right_input request store).1
login-Grants_example =
    login-Grants reference-IsPrisma world right_input request store (tt, tt) signs_in

tries-counts_example :
    Finds "alice@example.com"
      (counted alice 1)
      1000
      (tries reference world wrong_input request 1 store)
    × Finds "alice@example.com"
        (record (counted alice 2) { status = UserStatus.locked; locked_until = some 901000 })
        1000
        (tries reference world wrong_input request 2 store)
tries-counts_example =
    tries-counts reference-IsPrisma world wrong_input request alice 1000 store wrong_password
      alice-Finds 1 1 refl (omega arith)
