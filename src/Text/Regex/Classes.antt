-- ===== src/Text/Regex/Classes.antt =====
-- The characters of a text that an expression accepts.
use mathlib.Core.Path.{subst}
use aws_ssm_kit.Base.{ℕ, zero, suc, ◌≡◌, true, [], ◌∷◌, ◌++◌, All, sym, ==_iff}
use aws_ssm_kit.Text.{Text}
use aws_ssm_kit.Text.Regex.{
  Regex, never, empty, one_of, seq, alt, star, times, up_to, word, fullmatch,
}
use aws_ssm_kit.Text.Regex.Language.{
  Matches, nothing, single, join, left, right, stop, more, fullmatch_iff,
}

-- Every class of the expression has the property.
abbrev pub Uses : (ℕ → Type 0) → Regex → Type 0
Uses P never = Unit
Uses P empty = Unit
Uses P (one_of p) = (c : ℕ) → p c ≡ true → P c
Uses P (seq r q) = Uses P r × Uses P q
Uses P (alt r q) = Uses P r × Uses P q
Uses P (star r) = Uses P r

module _ (P : ℕ → Type 0) where
  All-append : (s t : Text) → All P s → All P t → All P (s ++ t)
  All-append [] t hs ht = ht
  All-append (c ∷ s) t hs ht = (hs.0, All-append s t hs.1 ht)

  Matches-All : {r : Regex} {s : Text} → Uses P r → Matches r s → All P s
  Matches-All h (nothing z) = rw z tt
  Matches-All h (single c e z) = rw z (h c e, tt)
  Matches-All h (join a b m n z) = rw z (All-append a b (Matches-All h.0 m) (Matches-All h.1 n))
  Matches-All h (left m) = Matches-All h.0 m
  Matches-All h (right m) = Matches-All h.1 m
  Matches-All h (stop z) = rw z tt
  Matches-All h (more a b m n z) = rw z (All-append a b (Matches-All h m) (Matches-All h n))

  pub fullmatch-All : (r : Regex) (s : Text) → Uses P r → fullmatch r s ≡ true → All P s
  fullmatch-All r s h e = Matches-All h ((fullmatch_iff r s).0 e)

  pub Uses-times : (n : ℕ) (r : Regex) → Uses P r → Uses P (times n r)
  Uses-times zero r h = tt
  Uses-times (suc n) r h = (h, Uses-times n r h)

  pub Uses-up_to : (n : ℕ) (r : Regex) → Uses P r → Uses P (up_to n r)
  Uses-up_to zero r h = tt
  Uses-up_to (suc n) r h = (tt, (h, Uses-up_to n r h))

  pub Uses-word : (s : Text) → All P s → Uses P (word s)
  Uses-word [] h = tt
  Uses-word (c ∷ s) h = (λ d e. subst P (sym ((==_iff d c).0 e)) h.0, Uses-word s h.1)
