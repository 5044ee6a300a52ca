-- ===== src/Store/Named/Unique.antt =====
-- The names of the rows of a profile.
use aws_ssm_kit.Base.{
  ℕ, ◌≡◌, refl, ◌∙◌, Bool, false, ◌||◌, none, some, [], ◌∷◌, ◌==◌, arith, Bool-cases, inl, inr,
}
use aws_ssm_kit.Base.Dict.{Dict, lookup, erase, alter, append_row, drop_where, NodupKeys}
use aws_ssm_kit.Text.{Text, same}
use aws_ssm_kit.Store.Named.{Named, is_named, find_named, taken}

same_sym : (s t : Text) → same s t ≡ same t s
unfolding same
same_sym [] [] = refl
same_sym [] (b ∷ t) = refl
same_sym (a ∷ s) [] = refl
same_sym (a ∷ s) (b ∷ t) = ground (arith, same_sym s t)

module _ {R : Type 0} (n : Named R) where
  unfoldable pub has_named : ℕ → Text → Dict R → Bool
  has_named owner label [] = false
  has_named owner label ((_, row) ∷ rows) = is_named n owner label row || has_named owner label rows

  -- No two rows of a profile have one name.
  abbrev pub IsUnique : Dict R → Type 0
  IsUnique [] = Unit
  IsUnique ((_, row) ∷ rows) = (has_named (n.owner row) (n.label row) rows ≡ false) × IsUnique rows

  is_named_sym :
      (a b : R) → is_named n (n.owner a) (n.label a) b ≡ is_named n (n.owner b) (n.label b) a
  is_named_sym a b = ground (arith, same_sym (n.label a) (n.label b))

  has_named-append_row :
      (owner : ℕ) (label : Text) (k : ℕ) (row : R) (d : Dict R)
      → has_named owner label (append_row k row d)
        ≡ (has_named owner label d || is_named n owner label row)
  unfolding has_named append_row
  has_named-append_row owner label k row [] = ground arith
  has_named-append_row owner label k row ((i, w) ∷ d) =
      ground (arith, has_named-append_row owner label k row d)

  -- where no row has the key, the pair is taken exactly when a row has it
  has_named-taken :
      (k owner : ℕ) (label : Text) (d : Dict R)
      → lookup k d ≡ none
      → has_named owner label d ≡ taken n k owner label d
  unfolding has_named taken lookup
  has_named-taken k owner label [] h = refl
  has_named-taken k owner label ((i, w) ∷ d) h = ground (arith, has_named-taken k owner label d)

  append_free :
      (k : ℕ) (row : R) (d : Dict R)
      → has_named (n.owner row) (n.label row) d ≡ false
      → IsUnique d
      → IsUnique (append_row k row d)
  unfolding append_row has_named
  append_free k row [] h u = (refl, tt)
  append_free k row ((i, w) ∷ d) h u = ground (
    arith,
    append_free k row d,
    has_named-append_row (n.owner w) (n.label w) k row d,
    is_named_sym w row,
  )

  -- An insert whose pair is free keeps the names unique.
  pub append_row-IsUnique :
      (k : ℕ) (row : R) (d : Dict R)
      → lookup k d ≡ none
      → taken n k (n.owner row) (n.label row) d ≡ false
      → IsUnique d
      → IsUnique (append_row k row d)
  append_row-IsUnique k row d new free u =
      append_free k row d (has_named-taken k (n.owner row) (n.label row) d new ∙ free) u

  has_named-drop_where :
      (owner : ℕ) (label : Text) (p : ℕ → R → Bool) (d : Dict R)
      → has_named owner label d ≡ false
      → has_named owner label (drop_where p d) ≡ false
  unfolding has_named drop_where
  has_named-drop_where owner label p [] h = refl
  has_named-drop_where owner label p ((i, w) ∷ d) h =
      ground (arith, has_named-drop_where owner label p d)

  pub drop_where-IsUnique : (p : ℕ → R → Bool) (d : Dict R) → IsUnique d → IsUnique (drop_where p d)
  unfolding drop_where
  drop_where-IsUnique p [] u = tt
  drop_where-IsUnique p ((i, w) ∷ d) u = elim (Bool-cases (p i w)) [
    | inl e ↦ rw e (drop_where-IsUnique p d u.1)
    | inr e ↦
        rw e (has_named-drop_where (n.owner w) (n.label w) p d u.0, drop_where-IsUnique p d u.1)
  ]

  has_named-erase :
      (owner : ℕ) (label : Text) (k : ℕ) (d : Dict R)
      → has_named owner label d ≡ false
      → has_named owner label (erase k d) ≡ false
  unfolding has_named erase
  has_named-erase owner label k [] h = refl
  has_named-erase owner label k ((i, w) ∷ d) h = ground (arith, has_named-erase owner label k d)

  pub erase-IsUnique : (k : ℕ) (d : Dict R) → IsUnique d → IsUnique (erase k d)
  unfolding erase
  erase-IsUnique k [] u = tt
  erase-IsUnique k ((i, w) ∷ d) u = elim (Bool-cases (i == k)) [
    | inl e ↦ rw e (erase-IsUnique k d u.1)
    | inr e ↦ rw e (has_named-erase (n.owner w) (n.label w) k d u.0, erase-IsUnique k d u.1)
  ]

  has_named-alter :
      (owner : ℕ) (label : Text) (k : ℕ) (row : R) (d : Dict R)
      → has_named owner label d ≡ false
      → is_named n owner label row ≡ false
      → has_named owner label (alter k (λ _. row) d) ≡ false
  unfolding has_named alter
  has_named-alter owner label k row [] h e = refl
  has_named-alter owner label k row ((i, w) ∷ d) h e =
      ground (arith, has_named-alter owner label k row d)

  alter_missing : (k : ℕ) (f : R → R) (d : Dict R) → lookup k d ≡ none → alter k f d ≡ d
  unfolding lookup alter
  alter_missing k f [] h = refl
  alter_missing k f ((i, w) ∷ d) h = ground (arith, alter_missing k f d)

  alter_free :
      (k : ℕ) (row : R) (d : Dict R)
      → NodupKeys d
      → taken n k (n.owner row) (n.label row) d ≡ false
      → IsUnique d
      → IsUnique (alter k (λ _. row) d)
  unfolding alter taken
  alter_free k row [] keys free u = tt
  alter_free k row ((i, w) ∷ d) keys free u = elim (Bool-cases (i == k)) [
    | inl e ↦
        let same_key : i ≡ k = ground arith in
        let gone : lookup k d ≡ none = rw same_key at keys.0 in
        rw (e, alter_missing k (λ _. row) d gone)
          (has_named-taken k (n.owner row) (n.label row) d gone ∙ ground arith, u.1)
    | inr e ↦ rw e (
      has_named-alter (n.owner w) (n.label w) k row d u.0 (is_named_sym w row ∙ ground arith),
      alter_free k row d keys.1 (ground arith) u.1,
    )
  ]

  alter_found :
      (k : ℕ) (f : R → R) (row : R) (d : Dict R)
      → NodupKeys d
      → lookup k d ≡ some row
      → alter k f d ≡ alter k (λ _. f row) d
  unfolding lookup alter
  alter_found k f row [] keys h = refl
  alter_found k f row ((i, w) ∷ d) keys h = elim (Bool-cases (i == k)) [
    | inl e ↦
        let same_key : i ≡ k = ground arith in
        let gone : lookup k d ≡ none = rw same_key at keys.0 in
        let same_row : w ≡ row = ground arith in
        rw (e, same_row, alter_missing k f d gone, alter_missing k (λ _. f row) d gone) refl
    | inr e ↦
        let rest : lookup k d ≡ some row = ground arith in
        rw (e, alter_found k f row d keys.1 rest) refl
  ]

  -- An update whose new pair is free keeps the names unique.
  pub alter-IsUnique :
      (k : ℕ) (f : R → R) (row : R) (d : Dict R)
      → NodupKeys d
      → lookup k d ≡ some row
      → taken n k (n.owner (f row)) (n.label (f row)) d ≡ false
      → IsUnique d
      → IsUnique (alter k f d)
  alter-IsUnique k f row d keys found free u =
      rw (alter_found k f row d keys found) (alter_free k (f row) d keys free u)

  module _ (f : R → R) (same_owner : (w : R) → n.owner (f w) ≡ n.owner w)
      (same_label : (w : R) → n.label (f w) ≡ n.label w) where
    has_named-alter_other :
        (owner : ℕ) (label : Text) (k : ℕ) (d : Dict R)
        → has_named owner label (alter k f d) ≡ has_named owner label d
    unfolding has_named alter
    has_named-alter_other owner label k [] = refl
    has_named-alter_other owner label k ((i, w) ∷ d) =
        ground (arith, has_named-alter_other owner label k d, same_owner w, same_label w)

    -- An update of other columns keeps the names unique.
    pub alter_other-IsUnique : (k : ℕ) (d : Dict R) → IsUnique d → IsUnique (alter k f d)
    unfolding alter
    alter_other-IsUnique k [] u = tt
    alter_other-IsUnique k ((i, w) ∷ d) u = ground (
      arith,
      alter_other-IsUnique k d,
      has_named-alter_other (n.owner w) (n.label w) k d,
      same_owner w,
      same_label w,
    )

  -- The row that a name finds stands under some key.
  pub find_named-lookup :
      (owner : ℕ) (label : Text) (row : R) (d : Dict R)
      → NodupKeys d
      → find_named n owner label d ≡ some row
      → (k : ℕ) × (lookup k d ≡ some row)
  unfolding find_named lookup
  find_named-lookup owner label row [] keys h = absurd (cc)
  find_named-lookup owner label row ((i, w) ∷ d) keys h =
      elim (Bool-cases (is_named n owner label w)) [
        | inl e ↦ (i, ground arith)
        | inr e ↦
            let (k, found) = find_named-lookup owner label row d keys.1 (ground arith) in
            (
              k,
              elim (Bool-cases (i == k)) [
                | inl q ↦ let at : i ≡ k = ground arith in absurd (ground (arith, rw at at keys.0))
                | inr q ↦ rw q found
              ],
            )
      ]
