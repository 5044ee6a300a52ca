-- ===== src/Text/Search.antt =====
-- What the text tests mean.
use aws_ssm_kit.Base.{
  ℕ, ◌≡◌, refl, Bool, true, false, [], ◌∷◌, ◌++◌, ◌≢◌, ◌==◌, ◌&&◌, if◌then◌else◌, arith,
}
use aws_ssm_kit.Text.{
  Text, is_empty, starts_with, has_char, lstrip, rstrip, strip, replace_char, split, ends_with,
}

pub starts_with_sound :
    (prefix s : Text) → starts_with prefix s ≡ true → (rest : Text) × (s ≡ prefix ++ rest)
unfolding starts_with
starts_with_sound [] s h = (s, refl)
starts_with_sound (a ∷ prefix) [] h = cc
starts_with_sound (a ∷ prefix) (b ∷ s) h =
    let (rest, e) = starts_with_sound prefix s (ground arith) in (rest, ground arith)

pub starts_with_append : (prefix rest : Text) → starts_with prefix (prefix ++ rest) ≡ true
unfolding starts_with
starts_with_append [] rest = refl
starts_with_append (a ∷ prefix) rest = ground (arith, starts_with_append prefix rest)

pub has_char-lstrip :
    (c : ℕ) (p : ℕ → Bool) (s : Text) → has_char c s ≡ false → has_char c (lstrip p s) ≡ false
unfolding has_char lstrip
has_char-lstrip c p [] h = h
has_char-lstrip c p (d ∷ s) h = ground (arith, has_char-lstrip c p s)

has_char-rstrip :
    (c : ℕ) (p : ℕ → Bool) (s : Text) → has_char c s ≡ false → has_char c (rstrip p s) ≡ false
unfolding has_char rstrip
has_char-rstrip c p [] h = h
has_char-rstrip c p (d ∷ s) h = ground (arith, has_char-rstrip c p s)

pub has_char-strip :
    (c : ℕ) (p : ℕ → Bool) (s : Text) → has_char c s ≡ false → has_char c (strip p s) ≡ false
unfolding strip
has_char-strip c p s h = has_char-rstrip c p (lstrip p s) (has_char-lstrip c p s h)

-- A replaced character is gone.
pub has_char-replace_char : (a b : ℕ) (s : Text) → a ≢ b → has_char a (replace_char a b s) ≡ false
unfolding has_char replace_char
has_char-replace_char a b [] h = refl
has_char-replace_char a b (c ∷ s) h = ground (arith, has_char-replace_char a b s)

-- Exchanging a separator for one that the text lacks keeps the parts.
pub split-replace_char :
    (a b : ℕ) (s : Text) → has_char b s ≡ false → split b (replace_char a b s) ≡ split a s
unfolding split replace_char has_char
split-replace_char a b [] h = refl
split-replace_char a b (c ∷ s) h = ground (arith, split-replace_char a b s)

ends_with-nil : (c : ℕ) → ends_with c [] ≡ false
unfolding ends_with
ends_with-nil c = refl

ends_with-cons :
    (c d : ℕ) (s : Text)
    → ends_with c s ≡ false
    → ends_with c (if d == c && is_empty s then [] else d ∷ s) ≡ false
unfolding ends_with
ends_with-cons c d [] h = ground arith
ends_with-cons c d (e ∷ s) h = ground arith

-- Nothing to strip is left at the end.
pub ends_with-rstrip : (c : ℕ) (s : Text) → ends_with c (rstrip (λ d. d == c) s) ≡ false
unfolding rstrip
ends_with-rstrip c [] = ends_with-nil c
ends_with-rstrip c (d ∷ s) = ends_with-cons c d (rstrip (λ e. e == c) s) (ends_with-rstrip c s)
