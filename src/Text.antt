-- ===== src/Text.antt =====
-- Python's `str`, as its list of code points, with the methods that the program calls.
-- The character tables and the address parser of the standard library are the parameter `Runtime`.
pub mod Strip
pub mod Search
pub mod Digits
pub mod Regex
use Prim.Native.Char.{code}
use aws_ssm_kit.Base.{
  ℕ, ◌+◌, ◌*◌, String, Bool, true, false, not, ◌&&◌, ◌||◌, Option, none, some, List, [], ◌∷◌, ◌++◌,
  ◌==◌, leb, ltb, length, zero, suc, ◌/◌, ◌%◌, all, any, if◌then◌else◌,
}

abbrev pub Text : Type 0
Text = List ℕ

-- The code points of a literal.
abbrev pub codes : String → Text
codes String.[] = []
codes (String.◌∷◌ c s) = code c ∷ codes s

-- The tables behind `str.strip`, `\d`, `str.isdigit` and the case methods, and whether
-- `ipaddress.ip_address` accepts a text.
pub record Runtime : Type 0 where
  pub is_space : ℕ → Bool
  -- the value of a decimal digit, category Nd
  pub decimal : ℕ → Option ℕ
  pub is_digit : ℕ → Bool
  pub upper : ℕ → Text
  pub lower : ℕ → Text
  pub casefold : ℕ → Text
  pub is_ip_address : Text → Bool

abbrev pub is_decimal : Runtime → ℕ → Bool
is_decimal u c = elim (u.decimal c) [ none ↦ false | some _ ↦ true ]

-- `not s`
abbrev pub is_empty : Text → Bool
is_empty [] = true
is_empty (_ ∷ _) = false

unfoldable pub same : Text → Text → Bool
same [] [] = true
same (a ∷ s) (b ∷ t) = a == b && same s t
same _ _ = false

-- `s.lstrip(chars)`
unfoldable pub lstrip : (ℕ → Bool) → Text → Text
lstrip p [] = []
lstrip p (c ∷ s) = if p c then lstrip p s else c ∷ s

-- `s.rstrip(chars)`
unfoldable pub rstrip : (ℕ → Bool) → Text → Text
rstrip p [] = []
rstrip p (c ∷ s) = let rest = rstrip p s in if p c && is_empty rest then [] else c ∷ rest

-- `s.strip(chars)`
unfoldable pub strip : (ℕ → Bool) → Text → Text
unfolding lstrip rstrip
strip p s = rstrip p (lstrip p s)

-- `s.strip()`
abbrev pub trim : Runtime → Text → Text
trim u s = strip u.is_space s

-- `s.startswith(prefix)`
unfoldable pub starts_with : Text → Text → Bool
starts_with [] s = true
starts_with (a ∷ prefix) (b ∷ s) = a == b && starts_with prefix s
starts_with _ _ = false

-- `part in s`
unfoldable pub has_part : Text → Text → Bool
unfolding starts_with
has_part part [] = is_empty part
has_part part (c ∷ s) = starts_with part (c ∷ s) || has_part part s

-- `c in s` for one character
unfoldable pub has_char : ℕ → Text → Bool
has_char c [] = false
has_char c (d ∷ s) = d == c || has_char c s

-- `s.endswith(c)` for one character
unfoldable pub ends_with : ℕ → Text → Bool
ends_with c [] = false
ends_with c (d ∷ []) = d == c
ends_with c (d ∷ e ∷ s) = ends_with c (e ∷ s)

-- `s.split(c)` for one character: always at least one part.
abbrev pub cons_head : ℕ → List Text → List Text
cons_head c [] = (c ∷ []) ∷ []
cons_head c (part ∷ parts) = (c ∷ part) ∷ parts

unfoldable pub split : ℕ → Text → List Text
split c [] = [] ∷ []
split c (d ∷ s) = let rest = split c s in if d == c then [] ∷ rest else cons_head d rest

-- `s.replace(a, b)` for one character each
unfoldable pub replace_char : ℕ → ℕ → Text → Text
replace_char a b [] = []
replace_char a b (c ∷ s) = (if c == a then b else c) ∷ replace_char a b s

-- `s.upper()` and `s.lower()`
unfoldable pub map_text : (ℕ → Text) → Text → Text
map_text f [] = []
map_text f (c ∷ s) = f c ++ map_text f s

-- The value of a text of decimal digits.
unfoldable pub decimal_value : Runtime → ℕ → Text → Option ℕ
decimal_value u acc [] = some acc
decimal_value u acc (c ∷ s) = elim (u.decimal c) [
  | none ↦ none
  | some d ↦ decimal_value u (acc * 10 + d) s
]

-- `s[:-1]`
unfoldable pub drop_last : Text → Text
drop_last [] = []
drop_last (c ∷ []) = []
drop_last (c ∷ d ∷ s) = c ∷ drop_last (d ∷ s)

-- `s.split(c)[0]`
unfoldable pub first_part : ℕ → Text → Text
first_part c [] = []
first_part c (d ∷ s) = if d == c then [] else d ∷ first_part c s

-- `s.rpartition(c)[0]`, where `c` is in the text
unfoldable pub before_last : ℕ → Text → Option Text
before_last c [] = none
before_last c (d ∷ s) = elim (before_last c s) [
  | some before ↦ some (d ∷ before)
  | none ↦ if d == c then some [] else none
]

-- `s.rsplit(c, 1)[-1]`
unfoldable pub last_part : ℕ → Text → Text
last_part c [] = []
last_part c (d ∷ s) =
    let rest = last_part c s in
    if any (λ e. e == c) (d ∷ s)
    then (if d == c && not (any (λ e. e == c) s) then s else rest)
    else d ∷ s

-- `int(s)`, which raises `ValueError` also on a text of more than 4300 digits
unfoldable pub int_value : Runtime → Text → Option ℕ
unfolding decimal_value
int_value u s = if ltb 4300 (length s) then none else decimal_value u 0 s

-- `str(n)` for a natural number, with fuel for its digits
unfoldable pub digits : ℕ → ℕ → Text
digits zero n = []
digits (suc fuel) n =
    let rest = digits fuel (n / 10) in
    if ltb n 10 then (48 + n) ∷ [] else rest ++ ((48 + n % 10) ∷ [])

unfoldable pub decimal_text : ℕ → Text
unfolding digits
decimal_text n = digits (n + 1) n
