-- ===== src/Examples/Enrollment.antt =====
-- The example account sets up an authenticator app.
use secure_auth_x_pro.Prelude.{◌≡◌, refl, true, some, [], ◌∷◌, ◌++◌}
use secure_auth_x_pro.Prisma.{reference, reference-IsPrisma}
use secure_auth_x_pro.Prisma.Table
use secure_auth_x_pro.World.{World}
use secure_auth_x_pro.Cipher.RoundTrip.{IsSound}
use secure_auth_x_pro.Totp
use secure_auth_x_pro.Totp.{verify_totp, generate_totp_secret}
use secure_auth_x_pro.Mfa.Enrollment.Authenticator.{Enrolls, begin-complete_totp_enrollment}
use secure_auth_x_pro.Examples.{zeros, world, alice, store, request}

-- Random bytes, tags and digests are zeros.
abbrev app_world : World
app_world = record world {
  random_bytes = λ k n. zeros k;
  hmac_sha1 = λ k m. zeros 20;
  gcm_seal = λ k iv x. (zeros 16, 7 ∷ []);
  gcm_open = λ k iv tag c. some "AAAAAAAAAAAAAAAAAAAAAAAAAAAAAAAA";
  from_base64 = λ x. zeros 28 ++ 7 ∷ [];
}

code_accepted :
    verify_totp app_world "AAAAAAAAAAAAAAAAAAAAAAAAAAAAAAAA" "000000" 1 100000 ≡ some true
unfolding verify_totp Totp.match_from Totp.generate_hmac_otp
code_accepted = refl

app-IsSound : IsSound app_world (generate_totp_secret app_world 0) (zeros 12)
unfolding generate_totp_secret
app-IsSound = record { tag_length = refl; opens = refl; decodes = refl }

begin-complete_totp_enrollment_example :
    Enrolls reference app_world "u1" "000000" request store 100000 alice
unfolding Table.find_first
begin-complete_totp_enrollment_example =
    begin-complete_totp_enrollment reference-IsPrisma app_world "u1" "000000" request store 100000
      alice refl app-IsSound refl
