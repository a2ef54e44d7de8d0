-- ===== src/Text/Split.antt =====
-- `split`, and `indexOf` with `slice`, at a separator of one character.
use Prim.Native.Char.{code, Char}
use secure_auth_x_pro.Prelude.{
  ℕ, ◌≡◌, refl, Bool, true, not, Option, none, some, List, [], ◌∷◌, String, if◌then◌else◌, arith,
}
use secure_auth_x_pro.Text.{same_number, every, concat, trim_start, trim_end, trim, is_space}

-- A character before the first part.
abbrev to_first : Char → List String → List String
to_first c [] = String.◌∷◌ c String.[] ∷ []
to_first c (s ∷ ss) = String.◌∷◌ c s ∷ ss

-- `s.split(sep)`
unfoldable pub split : ℕ → String → List String
unfolding same_number
split sep String.[] = String.[] ∷ []
split sep (String.◌∷◌ c s) =
    let parts = split sep s in
    if same_number (code c) sep then String.[] ∷ parts else to_first c parts

abbrev before_first : Char → Option (String × String) → Option (String × String)
before_first c none = none
before_first c (some (a, b)) = some (String.◌∷◌ c a, b)

-- `s.slice(0, i)` and `s.slice(i + 1)` for `i = s.indexOf(sep)`, null where `sep` does not occur.
unfoldable pub cut : ℕ → String → Option (String × String)
unfolding same_number
cut sep String.[] = none
cut sep (String.◌∷◌ c s) =
    let rest = cut sep s in
    if same_number (code c) sep then some (String.[], s) else before_first c rest

-- The separator does not occur.
abbrev pub lacks : ℕ → String → Bool
lacks sep s = every (λ c. not (same_number (code c) sep)) s

pub split_lacking : (sep : ℕ) (s : String) → lacks sep s ≡ true → split sep s ≡ s ∷ []
unfolding split every
split_lacking sep String.[] h = refl
split_lacking sep (String.◌∷◌ c s) h = ground (arith, split_lacking sep s)

module _ (sep : ℕ) (d : Char) (is_sep : same_number (code d) sep ≡ true) where
  pub split-concat :
      (s t : String) → lacks sep s ≡ true → split sep (concat s (String.◌∷◌ d t)) ≡ s ∷ split sep t
  unfolding split every concat
  split-concat String.[] t h = rw is_sep
  split-concat (String.◌∷◌ c s) t h = ground (arith, split-concat s t)

  pub cut-concat :
      (s t : String) → lacks sep s ≡ true → cut sep (concat s (String.◌∷◌ d t)) ≡ some (s, t)
  unfolding cut every concat
  cut-concat String.[] t h = rw is_sep
  cut-concat (String.◌∷◌ c s) t h = ground (arith, cut-concat s t)

-- No white space.
abbrev pub is_dense : String → Bool
is_dense s = every (λ c. not (is_space (code c))) s

trim_end_dense : (s : String) → is_dense s ≡ true → trim_end s ≡ s
unfolding trim_end every
trim_end_dense String.[] h = refl
trim_end_dense (String.◌∷◌ c s) h = ground (arith, trim_end_dense s)

trim_start_dense : (s : String) → is_dense s ≡ true → trim_start s ≡ s
unfolding trim_start every
trim_start_dense String.[] h = refl
trim_start_dense (String.◌∷◌ c s) h = ground arith

pub trim_dense : (s : String) → is_dense s ≡ true → trim s ≡ s
unfolding trim
trim_dense s h = rw (trim_start_dense s h, trim_end_dense s h)

-- A space in front goes.
pub trim-space : (s : String) → trim (String.◌∷◌ " " s) ≡ trim s
unfolding trim trim_start
trim-space s = refl
