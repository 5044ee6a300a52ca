-- ===== src/Domain/S3Drive/Validity.antt =====
-- What the constructor of a drive accepts, and the path that it stands for.
use aws_ssm_kit.Base.{
  ℕ, ◌≤◌, ◌≡◌, refl, ◌⊎◌, inl, inr, false, true, [], ◌∷◌, arith, any, ◌==◌, if◌then◌else◌,
}
use aws_ssm_kit.Errors.{ok, then_do-eq-ok}
use aws_ssm_kit.Text.{Text, Runtime, is_empty, split, has_char, replace_char, ends_with, rstrip}
use aws_ssm_kit.Text.Search.{
  has_char-strip, has_char-replace_char, split-replace_char, ends_with-rstrip,
}
use aws_ssm_kit.Domain.S3Location.Validity.{s3_location-IsValid}
use aws_ssm_kit.Domain.S3Location.{s3_location}
use aws_ssm_kit.Domain.S3Drive.{S3Drive, s3_drive, bad_part, local_form, is_letter, drive_location}

-- The invariant of a drive: a letter from D to Z, and a relative local path whose parts Windows
-- accepts.
pub record IsValid (u : Runtime) (d : S3Drive) : Type 0 where
  pub lettered : (c : ℕ) × (d.letter ≡ c ∷ []) × (b'D' ≤ c) × (c ≤ b'Z')
  pub owned : 1 ≤ d.profile_id
  pub named : is_empty d.name ≡ false
  pub prefix_open : ends_with b'/' d.prefix ≡ false
  pub local_relative : has_char 92 d.local_prefix ≡ false
  pub local_parts : (d.local_prefix ≡ []) ⊎ (any (bad_part u) (split b'/' d.local_prefix) ≡ false)

is_letter_sound : (s : Text) → is_letter s ≡ true → (c : ℕ) × (s ≡ c ∷ []) × (b'D' ≤ c) × (c ≤ b'Z')
unfolding is_letter
is_letter_sound [] h = cc
is_letter_sound (c ∷ []) h = (c, refl, ground arith, ground arith)
is_letter_sound (c ∷ d ∷ s) h = cc

local_form-relative : (s : Text) → has_char 92 (local_form s) ≡ false
unfolding local_form
local_form-relative s = has_char-strip 92 _ _ (has_char-replace_char 92 b'/' s (omega arith))

parts_checked :
    (u : Runtime) (s : Text)
    → any (bad_part u) (if is_empty s then [] else split b'/' s) ≡ false
    → (s ≡ []) ⊎ (any (bad_part u) (split b'/' s) ≡ false)
parts_checked u [] h = inl refl
parts_checked u (c ∷ s) h = inr h

-- A drive that the constructor returns is valid, and its path in the Windows spelling has the same
-- parts as its local prefix.
pub s3_drive-IsValid :
    (u : Runtime) (d : S3Drive) {q : S3Drive}
    → s3_drive u d ≡ ok q
    → IsValid u q × (split 92 (replace_char b'/' 92 q.local_prefix) ≡ split b'/' q.local_prefix)
unfolding s3_drive
s3_drive-IsValid u d {q} h =
    let (l, made, rest) = then_do-eq-ok (s3_location u (drive_location d)) _ h in
    let (v, _, owner, _) = s3_location-IsValid u (drive_location d) made in
    let relative = local_form-relative d.local_prefix in
    let local : q.local_prefix ≡ local_form d.local_prefix = ground arith in
    let letter : is_letter q.letter ≡ true = ground arith in
    let prefix : q.prefix ≡ rstrip (λ c. c == b'/') l.prefix = ground arith in
    (
      record {
        lettered = is_letter_sound q.letter letter;
        owned = ground arith;
        named = ground arith;
        prefix_open = rw prefix (ends_with-rstrip b'/' l.prefix);
        local_relative = rw local relative;
        local_parts = rw local (parts_checked u (local_form d.local_prefix) (ground arith));
      },
      rw local (split-replace_char b'/' 92 (local_form d.local_prefix) relative),
    )
