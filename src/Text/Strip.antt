-- ===== src/Text/Strip.antt =====
-- What stripping leaves.
use aws_ssm_kit.Base.{ℕ, ◌≡◌, refl, ap, ◌∙◌, Bool, true, false, [], ◌∷◌, ◌≤◌, ◌<◌, length, arith}
use aws_ssm_kit.Text.{Text, lstrip, rstrip, strip}

-- Whether the first character is one to strip.
abbrev pub leads : (ℕ → Bool) → Text → Bool
leads p [] = false
leads p (c ∷ s) = p c

pub lstrip-leads : (p : ℕ → Bool) (s : Text) → leads p (lstrip p s) ≡ false
unfolding lstrip
lstrip-leads p [] = refl
lstrip-leads p (c ∷ s) = ground (arith, lstrip-leads p s)

pub lstrip_of_leads : (p : ℕ → Bool) (s : Text) → leads p s ≡ false → lstrip p s ≡ s
unfolding lstrip
lstrip_of_leads p [] h = refl
lstrip_of_leads p (c ∷ s) h = ground arith

rstrip-leads : (p : ℕ → Bool) (s : Text) → leads p s ≡ false → leads p (rstrip p s) ≡ false
unfolding rstrip
rstrip-leads p [] h = refl
rstrip-leads p (c ∷ s) h = ground arith

pub rstrip_idem : (p : ℕ → Bool) (s : Text) → rstrip p (rstrip p s) ≡ rstrip p s
unfolding rstrip
rstrip_idem p [] = refl
rstrip_idem p (c ∷ s) = ground (arith, rstrip_idem p s)

pub strip-leads : (p : ℕ → Bool) (s : Text) → leads p (strip p s) ≡ false
unfolding strip
strip-leads p s = rstrip-leads p (lstrip p s) (lstrip-leads p s)

-- Stripping what is stripped changes nothing.
pub strip_idem : (p : ℕ → Bool) (s : Text) → strip p (strip p s) ≡ strip p s
unfolding strip
strip_idem p s =
    ap (rstrip p) (lstrip_of_leads p (strip p s) (strip-leads p s)) ∙ rstrip_idem p (lstrip p s)

-- What is left of the front of a text has its stripped end.
rstrip-lstrip : (p q : ℕ → Bool) (s : Text) → rstrip p s ≡ s → rstrip p (lstrip q s) ≡ lstrip q s
unfolding rstrip lstrip
rstrip-lstrip p q [] h = refl
rstrip-lstrip p q (c ∷ s) h = ground (arith, rstrip-lstrip p q s)

-- Stripping the front by another class keeps the stripped ends, where the new front is clean.
pub strip-lstrip :
    (p q : ℕ → Bool) (s : Text)
    → leads p (lstrip q (strip p s)) ≡ false
    → strip p (lstrip q (strip p s)) ≡ lstrip q (strip p s)
unfolding strip
strip-lstrip p q s h =
    ap (rstrip p) (lstrip_of_leads p _ h)
    ∙ rstrip-lstrip p q (rstrip p (lstrip p s)) (rstrip_idem p (lstrip p s))

pub length-lstrip : (p : ℕ → Bool) (s : Text) → length (lstrip p s) ≤ length s
unfolding lstrip
length-lstrip p [] = omega arith
length-lstrip p (c ∷ s) = ground (arith, length-lstrip p s)

length-rstrip : (p : ℕ → Bool) (s : Text) → length (rstrip p s) ≤ length s
unfolding rstrip
length-rstrip p [] = omega arith
length-rstrip p (c ∷ s) = ground (arith, length-rstrip p s)

-- Stripping a text that leads with a stripped character shortens it.
pub length-strip_of_leads :
    (p : ℕ → Bool) (s : Text) → leads p s ≡ true → length (strip p s) < length s
unfolding strip
length-strip_of_leads p [] h = cc
length-strip_of_leads p (c ∷ s) h =
    ground (arith, length-rstrip p (lstrip p (c ∷ s)), length-lstrip p s)
