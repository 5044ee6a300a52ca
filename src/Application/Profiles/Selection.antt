-- ===== src/Application/Profiles/Selection.antt =====
-- When the resolution of a selector raises an untyped error.
use aws_ssm_kit.Base.{ℕ, ◌≤◌, ◌⊎◌, ◌≡◌, true, none, some}
use aws_ssm_kit.Text.{Runtime, int_value}
use aws_ssm_kit.Store.Profiles
use aws_ssm_kit.Application.Profiles.{Selector, is_digits}

-- An id that is too large for the driver, or a text that `int` refuses, or reads as such an id,
-- although `isdigit` holds of it.
abbrev pub Unreadable : Runtime → Selector → Type 0
Unreadable u Selector.default_profile = ⊥
Unreadable u (Selector.by_id k) = 9223372036854775808 ≤ k
Unreadable u (Selector.by_text s) =
    (is_digits u s ≡ true)
    × ((int_value u s ≡ none) ⊎ ((k : ℕ) × (int_value u s ≡ some k) × (9223372036854775808 ≤ k)))
