-- ===== src/Mfa/RecoveryCodes.antt =====
-- mfa.service.ts: issuing recovery codes.
use Prim.Native.String.{[] as empty_text, ◌∷◌ as put}
use secure_auth_x_pro.Prelude.{
  ℕ, zero, suc, List, [], ◌∷◌, map, some, String, ltb, get_or, if◌then◌else◌,
}
use secure_auth_x_pro.Schema.{info}
use secure_auth_x_pro.Prisma.{Prisma}
use secure_auth_x_pro.World.{World}
use secure_auth_x_pro.Text.{concat, normalize_code}
use secure_auth_x_pro.Http.{RequestContext}
use secure_auth_x_pro.Exec.{
  Action, app, not_found, forbidden, pure, draw, require, or_throw, ◌>>=◌, ◌>>◌,
}
use secure_auth_x_pro.Repositories.Users
use secure_auth_x_pro.Repositories.Audits
use secure_auth_x_pro.Repositories.Mfa
use secure_auth_x_pro.Jwt.{verify_password}

-- MFA_CONFIG.RECOVERY_CODES_COUNT
abbrev pub recovery_codes_count : ℕ
recovery_codes_count = 10

-- `hex.slice(from, from + n)`
unfoldable pub slice : ℕ → ℕ → String → String
slice from n empty_text = empty_text
slice zero zero (put c s) = empty_text
slice zero (suc n) (put c s) = put c (slice zero n s)
slice (suc from) n (put c s) = slice from n s

-- formatRecoveryCode: the first 12 of 16 hexadecimal digits, in groups of 4
unfoldable pub format_recovery_code : String → String
unfolding slice
format_recovery_code hex =
    concat (slice 0 4 hex) (concat "-" (concat (slice 4 4 hex) (concat "-" (slice 8 4 hex))))

module _ (w : World) where
  -- The hash that is stored and looked up: of the code in lower case, without its dashes.
  unfoldable pub code_hash : String → String
  unfolding normalize_code
  code_hash code = w.sha256 (normalize_code code)

  -- The loop: `n` codes, each of a fresh random value.
  unfoldable pub draw_codes : ℕ → Action (List String)
  draw_codes zero = pure []
  draw_codes (suc n) = do
    hex ← draw w.random_hex
    codes ← draw_codes n
    pure (format_recovery_code hex ∷ codes)

module _ (db : Prisma) (w : World) where
  unfoldable pub regenerate_recovery_codes : String → RequestContext → Action (List String)
  unfolding code_hash
  regenerate_recovery_codes user_id req = do
    codes ← draw_codes w recovery_codes_count
    Mfa.delete_recovery_codes db user_id
    Mfa.create_recovery_codes db user_id (map (code_hash w) codes)
    Audits.log db (some user_id) "mfa.recovery_codes_generated" info req []
    pure codes

  -- Only when the user has none left.
  unfoldable pub ensure_recovery_codes : String → RequestContext → Action (List String)
  ensure_recovery_codes user_id req = do
    remaining ← Mfa.count_unused_recovery_codes db user_id
    if ltb 0 remaining then pure [] else regenerate_recovery_codes user_id req

  unfoldable pub regenerate_recovery_codes_with_password :
      String → String → RequestContext → Action (List String)
  regenerate_recovery_codes_with_password user_id password req = do
    found ← Users.find_by_id db user_id
    user ← or_throw found (app (not_found "User not found."))
    require (verify_password w password (get_or user.password_hash ""))
        (forbidden "Incorrect password.")
    regenerate_recovery_codes user_id req
