-- ===== src/Store/Named/Sound.antt =====
-- The invariant of a table with names.
use aws_ssm_kit.Base.{
  ℕ, ◌+◌, ◌<◌, ◌≡◌, ◌∙◌, refl, Bool, Bool-cases, inl, inr, ◌==◌, false, Option, none, some, arith,
}
use aws_ssm_kit.Base.Dict.{
  Dict, lookup, erase, alter, append_row, drop_where, NodupKeys, lookup-alter, lookup-erase,
  lookup-append_row, alter-NodupKeys, append_row-NodupKeys, erase-NodupKeys, drop_where-NodupKeys,
  drop_where-lookup, drop_where-found,
}
use aws_ssm_kit.Store.Named.{Named, taken}
use aws_ssm_kit.Store.Named.Unique.{
  IsUnique, append_row-IsUnique, erase-IsUnique, drop_where-IsUnique, alter-IsUnique,
  alter_other-IsUnique,
}

module _ {R : Type 0} (n : Named R) where
  pub record IsKept (rows : Dict R) (last : ℕ) : Type 0 where
    pub keys_once : NodupKeys rows
    pub keys_given : (k : ℕ) → last < k → lookup k rows ≡ none
    pub keyed : (k : ℕ) (row : R) → lookup k rows ≡ some row → n.key row ≡ some k
    pub names_once : IsUnique n rows

  pub append_row-IsKept :
      (row : R) (rows : Dict R) (last : ℕ)
      → n.key row ≡ some (last + 1)
      → taken n (last + 1) (n.owner row) (n.label row) rows ≡ false
      → IsKept rows last
      → IsKept (append_row (last + 1) row rows) (last + 1)
  append_row-IsKept row rows last own free v =
      let unused : lookup (last + 1) rows ≡ none = v.keys_given (last + 1) (omega arith) in
      record {
        keys_once = append_row-NodupKeys (last + 1) row rows unused v.keys_once;
        keys_given =
            λ j h. ground (arith, lookup-append_row j (last + 1) row rows unused, v.keys_given j);
        keyed = λ j r h.
            ground (arith, lookup-append_row j (last + 1) row rows unused, v.keyed j r, own);
        names_once = append_row-IsUnique n (last + 1) row rows unused free v.names_once;
      }

  pub erase-IsKept :
      (k : ℕ) (rows : Dict R) (last : ℕ) → IsKept rows last → IsKept (erase k rows) last
  erase-IsKept k rows last v = record {
    keys_once = erase-NodupKeys k rows v.keys_once;
    keys_given = λ j h. ground (arith, lookup-erase j k rows, v.keys_given j h);
    keyed = λ j r h. ground (arith, lookup-erase j k rows, v.keyed j r);
    names_once = erase-IsUnique n k rows v.names_once;
  }

  pub drop_where-IsKept :
      (p : ℕ → R → Bool) (rows : Dict R) (last : ℕ)
      → IsKept rows last
      → IsKept (drop_where p rows) last
  drop_where-IsKept p rows last v = record {
    keys_once = drop_where-NodupKeys p rows v.keys_once;
    keys_given = λ j h. drop_where-lookup p j rows (v.keys_given j h);
    keyed = λ j r h. v.keyed j r (drop_where-found p j r rows v.keys_once h);
    names_once = drop_where-IsUnique n p rows v.names_once;
  }

  altered :
      (k : ℕ) (f : R → R) (rows : Dict R) (last : ℕ)
      → IsKept rows last
      → ((w : R) → lookup k rows ≡ some w → n.key (f w) ≡ some k)
      → IsUnique n (alter k f rows)
      → IsKept (alter k f rows) last
  altered k f rows last v own u = record {
    keys_once = alter-NodupKeys k f rows v.keys_once;
    keys_given = λ j h. ground (arith, lookup-alter j k f rows, v.keys_given j h);
    keyed = λ j r h. altered_key j r h (lookup j rows) refl;
    names_once = u;
  }
    where
      altered_key :
          (j : ℕ) (r : R)
          → lookup j (alter k f rows) ≡ some r
          → (o : Option R) → lookup j rows ≡ o
          → n.key r ≡ some j
      altered_key j r h none e = absurd (ground (arith, lookup-alter j k f rows))
      altered_key j r h (some w) e = elim (Bool-cases (j == k)) [
        | inl q ↦
            let at : j ≡ k = ground arith in
            let kept : lookup k rows ≡ some w = rw at at e in
            rw at (ground (arith, lookup-alter j k f rows, own w kept))
        | inr q ↦ ground (arith, lookup-alter j k f rows, v.keyed j w e)
      ]

  pub alter-IsKept :
      (k : ℕ) (f : R → R) (row : R) (rows : Dict R) (last : ℕ)
      → lookup k rows ≡ some row
      → n.key (f row) ≡ some k
      → taken n k (n.owner (f row)) (n.label (f row)) rows ≡ false
      → IsKept rows last
      → IsKept (alter k f rows) last
  alter-IsKept k f row rows last found own free v =
      altered k f rows last v (λ w h. the_row w h)
        (alter-IsUnique n k f row rows v.keys_once found free v.names_once)
    where
      the_row : (w : R) → lookup k rows ≡ some w → n.key (f w) ≡ some k
      the_row w h = let same_row : w ≡ row = cc in rw same_row own

  pub alter_other-IsKept :
      (k : ℕ) (f : R → R) (rows : Dict R) (last : ℕ)
      → ((w : R) → n.key (f w) ≡ n.key w)
      → ((w : R) → n.owner (f w) ≡ n.owner w)
      → ((w : R) → n.label (f w) ≡ n.label w)
      → IsKept rows last
      → IsKept (alter k f rows) last
  alter_other-IsKept k f rows last same_key o l v =
      altered k f rows last v (λ w h. same_key w ∙ v.keyed k w h)
        (alter_other-IsUnique n f o l k rows v.names_once)

  -- The last key may grow.
  pub IsKept-later : (rows : Dict R) (last : ℕ) → IsKept rows last → IsKept rows (last + 1)
  IsKept-later rows last v = record {
    keys_once = v.keys_once;
    keys_given = λ k h. v.keys_given k (omega arith);
    keyed = v.keyed;
    names_once = v.names_once;
  }
