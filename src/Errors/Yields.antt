-- ===== src/Errors/Yields.antt =====
-- What a call returns, when it returns.
use aws_ssm_kit.Base.{◌≡◌, refl, Bool, true, false, Bool-cases, inl, inr, if◌then◌else◌}
use aws_ssm_kit.Errors.{
  ApplicationError, Result, ok, err, app, Failure, fail, Exec, pure, raise, rescue, rescued, ◌>>=◌,
}

module _ {A : Type 0} where
  -- a result that has a property, or no result
  abbrev pub IfOk : (A → Type 0) → Result A → Type 0
  IfOk Q (ok a) = Q a
  IfOk Q (err x) = Unit

  pub IfOk-ok : (Q : A → Type 0) {r : Result A} {a : A} → r ≡ ok a → IfOk Q r → Q a
  IfOk-ok Q e h = rw e at h

module _ {S A : Type 0} where
  pub record Yields (Q : A → Type 0) (m : Exec S A) : Type 0 where
    pub gives : (s : S) → IfOk Q (m s).0

module _ {S A : Type 0} {Q : A → Type 0} where
  pub Yields-pure : (a : A) → Q a → Yields {S = S} Q (pure a)
  unfolding pure
  Yields-pure a h = record { gives = λ s. h }

  pub Yields-fail : (x : Failure) → Yields {S = S} Q (fail x)
  unfolding fail
  Yields-fail x = record { gives = λ s. tt }

  pub Yields-raise : (e : ApplicationError) → Yields {S = S} Q (raise e)
  unfolding raise
  Yields-raise e = record { gives = λ s. tt }

  -- a test before two calls
  pub Yields-if :
      (b : Bool) (m n : Exec S A)
      → (b ≡ true → Yields Q m)
      → (b ≡ false → Yields Q n)
      → Yields Q (if b then m else n)
  Yields-if true m n first later = first refl
  Yields-if false m n first later = later refl

  pub Yields-rescue :
      (m : Exec S A) (test : ApplicationError → Bool) (handler : ApplicationError → Exec S A)
      → Yields Q m
      → ((e : ApplicationError) → Yields Q (handler e))
      → Yields Q (rescue m test handler)
  unfolding rescue
  Yields-rescue m test handler first later = record {
    gives = λ s. go (m s).0 (m s).1 (first.gives s);
  }
    where
      go : (r : Result A) (t : S) → IfOk Q r → IfOk Q (rescued test handler r t).0
      go (ok a) t h = h
      go (err (app x)) t h = elim (Bool-cases (test x)) [
        | inl accepted ↦ rw accepted ((later x).gives t)
        | inr refused ↦ rw refused tt
      ]
      go (err Failure.cancelled) t h = h
      go (err Failure.untyped) t h = h

module _ {S A B : Type 0} {R : A → Type 0} {Q : B → Type 0} where
  pub Yields-then :
      (m : Exec S A) (f : A → Exec S B)
      → Yields R m
      → ((a : A) → R a → Yields Q (f a))
      → Yields Q (m >>= f)
  unfolding ◌>>=◌
  Yields-then m f first later = record { gives = λ s. go (m s).0 (m s).1 (first.gives s) }
    where
      go : (r : Result A) (t : S) → IfOk R r → IfOk Q (((λ u. (r, t)) >>= f) t).0
      go (ok a) t h = (later a h).gives t
      go (err x) t h = tt

module _ {S A B : Type 0} {Q : B → Type 0} where
  -- where nothing is known of the first part
  pub Yields-after :
      (m : Exec S A) (f : A → Exec S B) → ((a : A) → Yields Q (f a)) → Yields Q (m >>= f)
  unfolding ◌>>=◌
  Yields-after m f later = record { gives = λ s. go (m s).0 (m s).1 }
    where
      go : (r : Result A) (t : S) → IfOk Q (((λ u. (r, t)) >>= f) t).0
      go (ok a) t = (later a).gives t
      go (err x) t = tt

module _ {S A : Type 0} {R Q : A → Type 0} where
  -- a weaker property
  pub Yields-weaken : (m : Exec S A) → ((a : A) → R a → Q a) → Yields R m → Yields Q m
  Yields-weaken m weaken k = record { gives = λ s. go (m s).0 (k.gives s) }
    where
      go : (r : Result A) → IfOk R r → IfOk Q r
      go (ok a) h = weaken a h
      go (err x) h = tt
