-- ===== src/Application/S3/Parts.antt =====
-- Lists of reports that grow by an item at a time.
use mathlib.Core.List.{Perm, append_assoc, perm_append_singleton, perm_middle}
use mathlib.Core.List.Perm
use aws_ssm_kit.Base.{sym, Bool, not, List, [], ◌∷◌, ◌++◌, map, keep, Bool-cases, inl, inr}

module _ {A : Type 0} where
  -- one more item at the end of the second list
  pub Perm-add_right :
      (done skipped rest : List A) (x : A)
      → Perm ((done ++ (skipped ++ (x ∷ []))) ++ rest) ((done ++ skipped) ++ (x ∷ rest))
  Perm-add_right done skipped rest x =
      rw (sym (append_assoc done skipped (x ∷ [])), append_assoc (done ++ skipped) (x ∷ []) rest)
        (Perm.refl _)

  -- one more item at the end of the first list
  pub Perm-add_left :
      (done skipped rest : List A) (x : A)
      → Perm (((done ++ (x ∷ [])) ++ skipped) ++ rest) ((done ++ skipped) ++ (x ∷ rest))
  Perm-add_left done skipped rest x =
      Perm.trans (Perm.append_right rest (moved done)) (Perm-add_right done skipped rest x)
    where
      moved : (l : List A) → Perm ((l ++ (x ∷ [])) ++ skipped) (l ++ (skipped ++ (x ∷ [])))
      moved l =
          rw (append_assoc l (x ∷ []) skipped)
            (Perm.append_left l (Perm.symm (perm_append_singleton x skipped)))

module _ {A B : Type 0} (f : A → B) (test : A → Bool) where
  -- the items that pass a test, and those that do not
  pub Perm-keep :
      (items : List A)
      → Perm (map f (keep test items) ++ map f (keep (λ a. not (test a)) items)) (map f items)
  Perm-keep [] = Perm.refl []
  Perm-keep (a ∷ items) = elim (Bool-cases (test a)) [
    | inl passes ↦ rw passes (Perm.cons (f a) (Perm-keep items))
    | inr fails ↦ rw fails (
        Perm.trans (perm_middle {a = f a} (map f (keep test items)) _)
          (Perm.cons (f a) (Perm-keep items)))
  ]
