-- ===== src/Text/Regex.antt =====
-- The regular expressions of the program, with `fullmatch` by derivatives. None of them captures,
-- so only membership in the language matters.
pub mod Language
pub mod Classes
use aws_ssm_kit.Base.{
  ℕ, zero, suc, ◌-◌, Bool, true, false, ◌&&◌, ◌||◌, List, [], ◌∷◌, ◌==◌, if◌then◌else◌,
}
use aws_ssm_kit.Text.{Text}

pub data Regex : Type 0 where
  never empty : Regex
  one_of : (ℕ → Bool) → Regex
  seq alt : Regex → Regex → Regex
  star : Regex → Regex

unfoldable pub nullable : Regex → Bool
nullable never = false
nullable empty = true
nullable (one_of p) = false
nullable (seq r q) = nullable r && nullable q
nullable (alt r q) = nullable r || nullable q
nullable (star r) = true

unfoldable pub deriv : ℕ → Regex → Regex
unfolding nullable
deriv c never = never
deriv c empty = never
deriv c (one_of p) = if p c then empty else never
deriv c (seq r q) = alt (seq (deriv c r) q) (if nullable r then deriv c q else never)
deriv c (alt r q) = alt (deriv c r) (deriv c q)
deriv c (star r) = seq (deriv c r) (star r)

unfoldable pub fullmatch : Regex → Text → Bool
unfolding deriv
fullmatch r [] = nullable r
fullmatch r (c ∷ s) = fullmatch (deriv c r) s

-- `c`
abbrev pub char : ℕ → Regex
char c = one_of (λ d. d == c)

-- `r+`, `r?`, `r{n}`, `r{lo,hi}` with `hi = lo + extra`, and a literal text
abbrev pub plus : Regex → Regex
plus r = seq r (star r)

abbrev pub optional : Regex → Regex
optional r = alt empty r

abbrev pub times : ℕ → Regex → Regex
times zero r = empty
times (suc n) r = seq r (times n r)

abbrev pub up_to : ℕ → Regex → Regex
up_to zero r = empty
up_to (suc n) r = alt empty (seq r (up_to n r))

abbrev pub between : ℕ → ℕ → Regex → Regex
between lo extra r = seq (times lo r) (up_to extra r)

abbrev pub word : Text → Regex
word [] = empty
word (c ∷ s) = seq (char c) (word s)
