-- ===== src/Text/Regex/Language.antt =====
-- `fullmatch` decides the language of an expression, which is given here as a relation.
use aws_ssm_kit.Base.{
  ℕ, zero, suc, ◌≡◌, refl, sym, ap, ◌∙◌, Bool, true, false, ◌↔◌, ◌⊎◌, inl, inr, [], ◌∷◌, ◌++◌,
  arith, Bool-cases, length, All, if◌then◌else◌,
}
use aws_ssm_kit.Text.{Text}
use aws_ssm_kit.Text.Regex.{
  Regex, never, empty, one_of, seq, alt, star, nullable, deriv, fullmatch, times,
}

pub data Matches : Regex → Text → Type 0 where
  nothing : {s : Text} → s ≡ [] → Matches empty s
  single : {p : ℕ → Bool} {s : Text} (c : ℕ) → p c ≡ true → s ≡ c ∷ [] → Matches (one_of p) s
  join :
      {r q : Regex} {s : Text} (a b : Text)
      → Matches r a
      → Matches q b
      → s ≡ a ++ b
      → Matches (seq r q) s
  left : {r q : Regex} {s : Text} → Matches r s → Matches (alt r q) s
  right : {r q : Regex} {s : Text} → Matches q s → Matches (alt r q) s
  stop : {r : Regex} {s : Text} → s ≡ [] → Matches (star r) s
  more :
      {r : Regex} {s : Text} (a b : Text)
      → Matches r a
      → Matches (star r) b
      → s ≡ a ++ b
      → Matches (star r) s

nullable_sound : (r : Regex) → nullable r ≡ true → Matches r []
unfolding nullable
nullable_sound never h = cc
nullable_sound empty h = nothing refl
nullable_sound (one_of p) h = cc
nullable_sound (seq r q) h =
    join [] [] (nullable_sound r (ground arith)) (nullable_sound q (ground arith)) refl
nullable_sound (alt r q) h = elim (Bool-cases (nullable r)) [
  | inl e ↦ left (nullable_sound r e)
  | inr e ↦ right (nullable_sound q (ground arith))
]
nullable_sound (star r) h = stop refl

not-Matches-never : {s : Text} → Matches never s → ⊥
not-Matches-never m = elim m [ ]

if_sound :
    (b : Bool) (r q : Regex) {s : Text}
    → Matches (if b then r else q) s
    → ((b ≡ true) × Matches r s) ⊎ ((b ≡ false) × Matches q s)
if_sound true r q m = inl (refl, m)
if_sound false r q m = inr (refl, m)

-- A derivative's language holds the rests of the words that begin with the character.
deriv_sound : (c : ℕ) (r : Regex) {s : Text} → Matches (deriv c r) s → Matches r (c ∷ s)
unfolding deriv
deriv_sound c never m = absurd (not-Matches-never m)
deriv_sound c empty m = absurd (not-Matches-never m)
deriv_sound c (one_of p) m = elim (if_sound (p c) empty never m) [
  | inl (e, nothing z) ↦ single c e (ap (λ t. c ∷ t) z)
  | inr (e, f) ↦ absurd (not-Matches-never f)
]
deriv_sound c (seq r q) (left (join a b ma mb e)) =
    join (c ∷ a) b (deriv_sound c r ma) mb (ap (λ t. c ∷ t) e)
deriv_sound c (seq r q) {s} (right m) = elim (if_sound (nullable r) (deriv c q) never m) [
  | inl (e, f) ↦ join [] (c ∷ s) (nullable_sound r e) (deriv_sound c q f) refl
  | inr (e, f) ↦ absurd (not-Matches-never f)
]
deriv_sound c (alt r q) (left m) = left (deriv_sound c r m)
deriv_sound c (alt r q) (right m) = right (deriv_sound c q m)
deriv_sound c (star r) (join a b ma mb e) =
    more (c ∷ a) b (deriv_sound c r ma) mb (ap (λ t. c ∷ t) e)

nil_of_append : (a b : Text) → [] ≡ a ++ b → (a ≡ []) × (b ≡ [])
nil_of_append [] b h = (refl, sym h)
nil_of_append (c ∷ a) b h = cc

nullable_complete : {r : Regex} {s : Text} → Matches r s → s ≡ [] → nullable r ≡ true
unfolding nullable
nullable_complete (nothing z) h = refl
nullable_complete (single c e z) h = cc
nullable_complete (join a b ma mb e) h =
    let n = nil_of_append a b (cc) in
    ground (arith, nullable_complete ma n.0, nullable_complete mb n.1)
nullable_complete (left m) h = ground (arith, nullable_complete m h)
nullable_complete (right m) h = ground (arith, nullable_complete m h)
nullable_complete (stop z) h = refl
nullable_complete (more a b ma mb e) h = refl

deriv_complete :
    (c : ℕ) {t : Text} {r : Regex} {s : Text} → Matches r s → s ≡ c ∷ t → Matches (deriv c r) t
unfolding deriv
deriv_complete c (nothing z) h = cc
deriv_complete c {t} (single {p} d e z) h = let q : p c ≡ true = cc in rw q (nothing (cc))
deriv_complete c (join [] b ma mb e) h =
    right (rw (nullable_complete ma refl) (deriv_complete c mb (sym e ∙ h)))
deriv_complete c (join (d ∷ a) b ma mb e) h = left (join a b (deriv_complete c ma (cc)) mb (cc))
deriv_complete c (left m) h = left (deriv_complete c m h)
deriv_complete c (right m) h = right (deriv_complete c m h)
deriv_complete c (stop z) h = cc
deriv_complete c (more [] b ma mb e) h = deriv_complete c mb (sym e ∙ h)
deriv_complete c (more (d ∷ a) b ma mb e) h = join a b (deriv_complete c ma (cc)) mb (cc)

fullmatch_sound : (r : Regex) (s : Text) → fullmatch r s ≡ true → Matches r s
unfolding fullmatch
fullmatch_sound r [] h = nullable_sound r h
fullmatch_sound r (c ∷ s) h = deriv_sound c r (fullmatch_sound (deriv c r) s h)

fullmatch_complete : {r : Regex} (s : Text) → Matches r s → fullmatch r s ≡ true
unfolding fullmatch
fullmatch_complete [] m = nullable_complete m refl
fullmatch_complete (c ∷ s) m = fullmatch_complete s (deriv_complete c m refl)

-- `fullmatch` accepts a text exactly when the text is in the language of the expression.
pub fullmatch_iff : (r : Regex) (s : Text) → (fullmatch r s ≡ true) ↔ Matches r s
fullmatch_iff r s = (fullmatch_sound r s, fullmatch_complete s)

-- `c{n}` matches the texts of `n` characters of the class, and no other.
pub Matches-times :
    (n : ℕ) (p : ℕ → Bool) {s : Text}
    → Matches (times n (one_of p)) s
    → (length s ≡ n) × All (λ c. p c ≡ true) s
Matches-times zero p (nothing z) = rw z (refl, tt)
Matches-times (suc n) p (join a b (single c e z) mb h) =
    let rest = Matches-times n p mb in rw (h, z) (ap suc rest.0, (e, rest.1))

pub times-Matches :
    (n : ℕ) (p : ℕ → Bool) (s : Text)
    → length s ≡ n
    → All (λ c. p c ≡ true) s
    → Matches (times n (one_of p)) s
times-Matches zero p [] h k = nothing refl
times-Matches zero p (c ∷ s) h k = absurd (omega arith)
times-Matches (suc n) p [] h k = absurd (omega arith)
times-Matches (suc n) p (c ∷ s) h k =
    join (c ∷ []) s (single c k.0 refl) (times-Matches n p s (omega arith) k.1) refl
