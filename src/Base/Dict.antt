-- ===== src/Base/Dict.antt =====
-- A Python dict keyed by numbers, in insertion order.
use Prim.Native.Nat.{ℕ, ◌+◌, ◌≤◌}
use mathlib.Core.Path.{◌≡◌, refl, subst}
use mathlib.Core.Logic.{inl, inr}
use mathlib.Core.Bool.{Bool, false}
use mathlib.Core.Option.{Option, none, some}
use mathlib.Core.List.{List, [], ◌∷◌}
use native.Mathlib.Omega.{arith}
use aws_ssm_kit.Base.Compare.{◌==◌, Bool-cases, if◌then◌else◌}
use aws_ssm_kit.Base.Lists.{length}

abbrev pub Dict {ℓ} : Type ℓ → Type ℓ
Dict V = List (ℕ × V)

module _ {ℓ} {V : Type ℓ} where
  -- `d.get(k)`
  unfoldable pub lookup : ℕ → Dict V → Option V
  lookup k [] = none
  lookup k ((j, v) ∷ d) = if j == k then some v else lookup k d

  -- `d[k] = v`
  unfoldable pub insert : ℕ → V → Dict V → Dict V
  insert k v [] = (k, v) ∷ []
  insert k v ((j, w) ∷ d) = if j == k then (k, v) ∷ d else (j, w) ∷ insert k v d

  -- `d.pop(k, None)`
  unfoldable pub erase : ℕ → Dict V → Dict V
  erase k [] = []
  erase k ((j, w) ∷ d) = let rest = erase k d in if j == k then rest else (j, w) ∷ rest

  -- What is left when each entry that passes the test is popped.
  unfoldable pub drop_where : (ℕ → V → Bool) → Dict V → Dict V
  drop_where p [] = []
  drop_where p ((j, w) ∷ d) = let rest = drop_where p d in if p j w then rest else (j, w) ∷ rest

  -- Every key is listed once.
  abbrev pub NodupKeys : Dict V → Type ℓ
  NodupKeys [] = Unit
  NodupKeys ((k, _) ∷ d) = (lookup k d ≡ none) × NodupKeys d

  pub lookup-nil : (k : ℕ) → lookup k [] ≡ none
  unfolding lookup
  lookup-nil k = refl

  pub lookup-insert :
      (j k : ℕ) (v : V) (d : Dict V)
      → lookup j (insert k v d) ≡ (if k == j then some v else lookup j d)
  unfolding lookup insert
  lookup-insert j k v [] = refl
  lookup-insert j k v ((i, w) ∷ d) = ground (arith, lookup-insert j k v d)

  pub lookup-erase :
      (j k : ℕ) (d : Dict V) → lookup j (erase k d) ≡ (if k == j then none else lookup j d)
  unfolding lookup erase
  lookup-erase j k [] = ground arith
  lookup-erase j k ((i, w) ∷ d) = ground (arith, lookup-erase j k d)

  pub length-insert : (k : ℕ) (v : V) (d : Dict V) → length (insert k v d) ≤ length d + 1
  unfolding insert
  length-insert k v [] = omega arith
  length-insert k v ((i, w) ∷ d) = ground (arith, length-insert k v d)

  pub length-erase : (k : ℕ) (d : Dict V) → length (erase k d) ≤ length d
  unfolding erase
  length-erase k [] = omega arith
  length-erase k ((i, w) ∷ d) = ground (arith, length-erase k d)

  pub length-insert_new :
      (k : ℕ) (v : V) (d : Dict V) → lookup k d ≡ none → length (insert k v d) ≡ length d + 1
  unfolding insert lookup
  length-insert_new k v [] h = omega arith
  length-insert_new k v ((i, w) ∷ d) h = ground (arith, length-insert_new k v d)

  pub length-erase_missing :
      (k : ℕ) (d : Dict V) → lookup k d ≡ none → length (erase k d) ≡ length d
  unfolding erase lookup
  length-erase_missing k [] h = refl
  length-erase_missing k ((i, w) ∷ d) h = ground (arith, length-erase_missing k d)

  pub length-erase_found :
      (k : ℕ) (v : V) (d : Dict V)
      → NodupKeys d
      → lookup k d ≡ some v
      → length (erase k d) + 1 ≡ length d
  unfolding erase lookup
  length-erase_found k v [] n h = cc
  length-erase_found k v ((i, w) ∷ d) n h =
      ground (arith, length-erase_found k v d n.1, length-erase_missing i d n.0)

  -- the sum of a number of each value
  unfoldable pub total : (V → ℕ) → Dict V → ℕ
  total f [] = 0
  total f ((_, v) ∷ d) = f v + total f d

  pub total-insert_new :
      (f : V → ℕ) (k : ℕ) (v : V) (d : Dict V)
      → lookup k d ≡ none
      → total f (insert k v d) ≡ total f d + f v
  unfolding insert lookup total
  total-insert_new f k v [] h = omega arith
  total-insert_new f k v ((i, w) ∷ d) h = ground (arith, total-insert_new f k v d)

  total-erase_missing :
      (f : V → ℕ) (k : ℕ) (d : Dict V) → lookup k d ≡ none → total f (erase k d) ≡ total f d
  unfolding erase lookup total
  total-erase_missing f k [] h = refl
  total-erase_missing f k ((i, w) ∷ d) h = ground (arith, total-erase_missing f k d)

  pub total-erase_found :
      (f : V → ℕ) (k : ℕ) (v : V) (d : Dict V)
      → NodupKeys d
      → lookup k d ≡ some v
      → total f (erase k d) + f v ≡ total f d
  unfolding erase lookup total
  total-erase_found f k v [] n h = absurd (cc)
  total-erase_found f k v ((i, w) ∷ d) n h = elim (Bool-cases (i == k)) [
    | inl e ↦
        let at : i ≡ k = ground arith in
        let gone : lookup k d ≡ none = rw at at n.0 in
        let same_value : w ≡ v = ground arith in
        rw (e, same_value, total-erase_missing f k d gone) (omega arith)
    | inr e ↦
        let found : lookup k d ≡ some v = ground arith in
        rw e (omega (arith, total-erase_found f k v d n.1 found))
  ]

  pub length-drop_where : (p : ℕ → V → Bool) (d : Dict V) → length (drop_where p d) ≤ length d
  unfolding drop_where
  length-drop_where p [] = omega arith
  length-drop_where p ((i, w) ∷ d) = ground (arith, length-drop_where p d)

  -- An entry is left exactly when it was there and fails the test.
  pub drop_where-keeps :
      (p : ℕ → V → Bool) (k : ℕ) (v : V) (d : Dict V)
      → lookup k d ≡ some v
      → p k v ≡ false
      → lookup k (drop_where p d) ≡ some v
  unfolding lookup drop_where
  drop_where-keeps p k v [] h e = h
  drop_where-keeps p k v ((i, w) ∷ d) h e = ground (arith, drop_where-keeps p k v d)

  pub drop_where-lookup :
      (p : ℕ → V → Bool) (k : ℕ) (d : Dict V) → lookup k d ≡ none → lookup k (drop_where p d) ≡ none
  unfolding lookup drop_where
  drop_where-lookup p k [] h = h
  drop_where-lookup p k ((i, w) ∷ d) h = ground (arith, drop_where-lookup p k d)

  -- What is left was there.
  pub drop_where-found :
      (p : ℕ → V → Bool) (k : ℕ) (v : V) (d : Dict V)
      → NodupKeys d
      → lookup k (drop_where p d) ≡ some v
      → lookup k d ≡ some v
  unfolding lookup drop_where
  drop_where-found p k v [] n h = h
  drop_where-found p k v ((i, w) ∷ d) n h =
      ground (arith, drop_where-found p k v d n.1, drop_where-lookup p k d)

  pub drop_where-NodupKeys :
      (p : ℕ → V → Bool) (d : Dict V) → NodupKeys d → NodupKeys (drop_where p d)
  unfolding drop_where
  drop_where-NodupKeys p [] h = h
  drop_where-NodupKeys p ((i, w) ∷ d) h =
      ground (arith, drop_where-NodupKeys p d h.1, drop_where-lookup p i d h.0)

  pub insert-NodupKeys : (k : ℕ) (v : V) (d : Dict V) → NodupKeys d → NodupKeys (insert k v d)
  unfolding insert
  insert-NodupKeys k v [] h = (lookup-nil k, tt)
  insert-NodupKeys k v ((i, w) ∷ d) h =
      ground (arith, insert-NodupKeys k v d h.1, lookup-insert i k v d)

  pub erase-NodupKeys : (k : ℕ) (d : Dict V) → NodupKeys d → NodupKeys (erase k d)
  unfolding erase
  erase-NodupKeys k [] h = h
  erase-NodupKeys k ((i, w) ∷ d) h = ground (arith, erase-NodupKeys k d h.1, lookup-erase i k d)

  -- `UPDATE … SET f WHERE key = k`
  unfoldable pub alter : ℕ → (V → V) → Dict V → Dict V
  alter k f [] = []
  alter k f ((j, w) ∷ d) = (j, if j == k then f w else w) ∷ alter k f d

  -- `UPDATE … SET f`
  unfoldable pub alter_all : (V → V) → Dict V → Dict V
  alter_all f [] = []
  alter_all f ((j, w) ∷ d) = (j, f w) ∷ alter_all f d

  -- A new row at the end of a table.
  unfoldable pub append_row : ℕ → V → Dict V → Dict V
  append_row k v [] = (k, v) ∷ []
  append_row k v (e ∷ d) = e ∷ append_row k v d

  pub lookup-alter :
      (j k : ℕ) (f : V → V) (d : Dict V)
      → lookup j (alter k f d)
        ≡ (if j == k then elim (lookup j d) [ none ↦ none | some v ↦ some (f v) ] else lookup j d)
  unfolding lookup alter
  lookup-alter j k f [] = ground arith
  lookup-alter j k f ((i, w) ∷ d) = ground (arith, lookup-alter j k f d)

  pub lookup-alter_all :
      (j : ℕ) (f : V → V) (d : Dict V)
      → lookup j (alter_all f d) ≡ elim (lookup j d) [ none ↦ none | some v ↦ some (f v) ]
  unfolding lookup alter_all
  lookup-alter_all j f [] = refl
  lookup-alter_all j f ((i, w) ∷ d) = ground (arith, lookup-alter_all j f d)

  pub lookup-append_row :
      (j k : ℕ) (v : V) (d : Dict V)
      → lookup k d ≡ none
      → lookup j (append_row k v d) ≡ (if k == j then some v else lookup j d)
  unfolding lookup append_row
  lookup-append_row j k v [] h = refl
  lookup-append_row j k v ((i, w) ∷ d) h = ground (arith, lookup-append_row j k v d)

  pub alter-NodupKeys : (k : ℕ) (f : V → V) (d : Dict V) → NodupKeys d → NodupKeys (alter k f d)
  unfolding alter
  alter-NodupKeys k f [] h = h
  alter-NodupKeys k f ((i, w) ∷ d) h =
      ground (arith, alter-NodupKeys k f d h.1, lookup-alter i k f d)

  pub alter_all-NodupKeys : (f : V → V) (d : Dict V) → NodupKeys d → NodupKeys (alter_all f d)
  unfolding alter_all
  alter_all-NodupKeys f [] h = h
  alter_all-NodupKeys f ((i, w) ∷ d) h =
      ground (arith, alter_all-NodupKeys f d h.1, lookup-alter_all i f d)

  pub append_row-NodupKeys :
      (k : ℕ) (v : V) (d : Dict V) → lookup k d ≡ none → NodupKeys d → NodupKeys (append_row k v d)
  unfolding append_row lookup
  append_row-NodupKeys k v [] h n = (refl, tt)
  append_row-NodupKeys k v ((i, w) ∷ d) h n =
      ground (arith, append_row-NodupKeys k v d, lookup-append_row i k v d)

-- A predicate at every value.
abbrev pub AllValues {ℓ κ} : {V : Type ℓ} → (V → Type κ) → Dict V → Type κ
AllValues P [] = Unit
AllValues P ((_, v) ∷ d) = P v × AllValues P d

module _ {ℓ κ} {V : Type ℓ} (P : V → Type κ) where
  pub AllValues-drop_where :
      (p : ℕ → V → Bool) (d : Dict V) → AllValues P d → AllValues P (drop_where p d)
  unfolding drop_where
  AllValues-drop_where p [] h = h
  AllValues-drop_where p ((i, w) ∷ d) h = elim (Bool-cases (p i w)) [
    | inl e ↦ rw e (AllValues-drop_where p d h.1)
    | inr e ↦ rw e (h.0, AllValues-drop_where p d h.1)
  ]

  pub AllValues-erase : (k : ℕ) (d : Dict V) → AllValues P d → AllValues P (erase k d)
  unfolding erase
  AllValues-erase k [] h = h
  AllValues-erase k ((i, w) ∷ d) h = elim (Bool-cases (i == k)) [
    | inl e ↦ rw e (AllValues-erase k d h.1)
    | inr e ↦ rw e (h.0, AllValues-erase k d h.1)
  ]

  pub AllValues-insert :
      (k : ℕ) (v : V) (d : Dict V) → P v → AllValues P d → AllValues P (insert k v d)
  unfolding insert
  AllValues-insert k v [] pv h = (pv, h)
  AllValues-insert k v ((i, w) ∷ d) pv h = elim (Bool-cases (i == k)) [
    | inl e ↦ rw e (pv, h.1)
    | inr e ↦ rw e (h.0, AllValues-insert k v d pv h.1)
  ]

  pub AllValues-lookup : (k : ℕ) (v : V) (d : Dict V) → AllValues P d → lookup k d ≡ some v → P v
  unfolding lookup
  AllValues-lookup k v [] h e = absurd (cc)
  AllValues-lookup k v ((i, w) ∷ d) h e = elim (Bool-cases (i == k)) [
    | inl q ↦ subst P (ground arith) h.0
    | inr q ↦ AllValues-lookup k v d h.1 (ground arith)
  ]
