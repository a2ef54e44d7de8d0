-- ===== src/Totp/Window.antt =====
-- verifyTotp: which codes are accepted.
use secure_auth_x_pro.Prelude.{
  ℕ, zero, suc, ◌+◌, ◌-◌, ◌/◌, ◌≤◌, ◌<◌, ◌≡◌, Bool, true, some, none, String, ◌==◌, eq_iff, ◌↔◌,
  inl, inr, Bool-cases, Option-cases, ltb, le→ltb, arith,
}
use secure_auth_x_pro.World.{World}
use secure_auth_x_pro.Text.{trim}
use secure_auth_x_pro.Totp.{
  generate_hmac_otp, match_from, verify_totp, is_well_formed, time_to_counter, default_digits,
  default_step_seconds,
}

not_some : {b : Bool} → none ≡ some b → ⊥
not_some h = cc

later : (i n : ℕ) → i ≤ n → (i ≡ n → ⊥) → i + 1 ≤ n
later i n h apart = elim (Bool-cases (ltb i n)) [
  | inl less ↦ ground arith
  | inr not_less ↦ absurd (apart (ground arith))
]

module _ (w : World) (secret : String) where
  -- Some counter among `rounds` from `i` on has that code.
  record IsMatch (supplied : String) (rounds i : ℕ) : Type 0 where
    at : ℕ
    after : i ≤ at
    before : at < i + rounds
    code : generate_hmac_otp w secret at default_digits ≡ some supplied

  match_from-IsMatch :
      (supplied : String) (rounds i : ℕ)
      → match_from w secret supplied rounds i ≡ some true
      → IsMatch supplied rounds i
  unfolding match_from
  match_from-IsMatch supplied zero i h = cc
  match_from-IsMatch supplied (suc rounds) i h =
      elim (Option-cases (generate_hmac_otp w secret i default_digits)) [
        | inl failed ↦ absurd (not_some (rw (match_from, failed) at h))
        | inr (candidate, given) ↦ elim (Bool-cases (candidate == supplied)) [
          | inl same ↦ record {
            at = i;
            after = omega arith;
            before = omega arith;
            code = rw ((eq_iff candidate supplied).0 same) at given;
          }
          | inr differs ↦
              let m =
                match_from-IsMatch supplied rounds (i + 1) (rw (match_from, given, differs) at h) in
              record {
                at = m.at;
                after = omega (arith, m.after);
                before = omega (arith, m.before);
                code = m.code;
              }
        ]
      ]

  same_code :
      {i j : ℕ} {a b : String}
      → i ≡ j
      → generate_hmac_otp w secret i default_digits ≡ some a
      → generate_hmac_otp w secret j default_digits ≡ some b
      → a ≡ b
  same_code same ha hb = let there = rw same at ha in cc

  IsMatch-match_from :
      (supplied : String) (rounds i : ℕ)
      → ((j : ℕ) → (c : String) × (generate_hmac_otp w secret j default_digits ≡ some c))
      → IsMatch supplied rounds i
      → match_from w secret supplied rounds i ≡ some true
  unfolding match_from
  IsMatch-match_from supplied zero i codes m = absurd (omega (arith, m.after, m.before))
  IsMatch-match_from supplied (suc rounds) i codes m =
      let (candidate, given) = codes i in
      elim (Bool-cases (candidate == supplied)) [
        | inl same ↦ rw (match_from, given, same)
        | inr differs ↦
            rw (match_from, given, differs)
              (IsMatch-match_from supplied rounds (i + 1) codes (record {
                at = m.at;
                after = later i m.at m.after (λ same.
                    ground (arith, eq_iff candidate supplied, same_code same given m.code));
                before = omega (arith, m.before);
                code = m.code;
              }))
      ]

  -- With a window of at most 10 steps, not before as many steps since the epoch, and a secret that
  -- gives codes, a text of six digits (spaces around it apart) is accepted exactly when it is the
  -- code of some counter within the window around the current one.
  pub verify_totp_lem :
      (supplied : String) (window now : ℕ)
      → window ≤ 10
      → window ≤ time_to_counter (now / 1000) default_step_seconds
      → is_well_formed w (trim supplied) ≡ true
      → ((j : ℕ) → (c : String) × (generate_hmac_otp w secret j default_digits ≡ some c))
      → let counter = time_to_counter (now / 1000) default_step_seconds in
        (verify_totp w secret supplied window now ≡ some true) ↔ (
          (j : ℕ) × (counter ≤ j + window)
          × (j ≤ counter + window)
          × (generate_hmac_otp w secret j default_digits ≡ some (trim supplied)))
  unfolding verify_totp
  verify_totp_lem supplied window now small late formed codes =
      let counter = time_to_counter (now / 1000) default_step_seconds in
      let n = window + window + 1 in
      let start = counter - window in
      (
        λ h.
            let m =
              match_from-IsMatch (trim supplied) n start (
                rw (verify_totp, le→ltb 10 window small, formed, le→ltb counter window late) at
                  h) in
            (m.at, omega (arith, m.after), omega (arith, m.before), m.code),
        λ (j, low, high, code).
            rw (verify_totp, le→ltb 10 window small, formed, le→ltb counter window late)
              (IsMatch-match_from (trim supplied) n start codes
                (record { at = j; after = omega arith; before = omega arith; code = code })),
      )
