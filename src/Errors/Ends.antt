-- ===== src/Errors/Ends.antt =====
-- How a call ends from one state: a postcondition on its result and the state that it leaves.
use aws_ssm_kit.Base.{◌≡◌, refl, Bool, Bool-cases, inl, inr, arith}
use aws_ssm_kit.Errors.{ApplicationError, Result, ok, err, app, Failure, Exec, rescue, ◌>>=◌}

pub record Ends {S A : Type 0} (Q : Result A → S → Type 0) (m : Exec S A) (s : S) : Type 0 where
  pub holds : Q (m s).0 (m s).1

module _ {S A B : Type 0} {Q : Result B → S → Type 0} where
  pub Ends-bind :
      (m : Exec S A) (f : A → Exec S B) (s : S)
      → ((a : A) (t : S) → m s ≡ (ok a, t) → Ends Q (f a) t)
      → ((x : Failure) (t : S) → m s ≡ (err x, t) → Q (err x) t)
      → Ends Q (m >>= f) s
  unfolding ◌>>=◌
  Ends-bind m f s returned failed = record { holds = go (m s).0 refl }
    where
      go : (r : Result A) → (m s).0 ≡ r → Q ((m >>= f) s).0 ((m >>= f) s).1
      go (ok a) e =
          let same : m s ≡ (ok a, (m s).1) = ground arith in
          rw same ((returned a (m s).1 same).holds)
      go (err x) e =
          let same : m s ≡ (err x, (m s).1) = ground arith in rw same (failed x (m s).1 same)

module _ {S A : Type 0} {Q : Result A → S → Type 0} where
  pub Ends-rescue :
      (m : Exec S A) (test : ApplicationError → Bool) (handler : ApplicationError → Exec S A)
      (s : S)
      → ((a : A) (t : S) → m s ≡ (ok a, t) → Q (ok a) t)
      → ((x : ApplicationError) (t : S) → m s ≡ (err (app x), t) → Ends Q (handler x) t)
      → ((x : Failure) (t : S) → m s ≡ (err x, t) → Q (err x) t)
      → Ends Q (rescue m test handler) s
  unfolding rescue
  Ends-rescue m test handler s returned handled failed = record { holds = go (m s).0 (m s).1 refl }
    where
      go :
          (r : Result A) (t : S)
          → m s ≡ (r, t)
          → Q (rescue m test handler s).0 (rescue m test handler s).1
      go (ok a) t e = rw (e, rescue) (returned a t e)
      go (err (app x)) t e =
          rw (e, rescue)
            (elim (Bool-cases (test x)) [
              | inl accepted ↦ rw accepted ((handled x t e).holds)
              | inr refused ↦ rw refused (failed (app x) t e)
            ])
      go (err other) t e = rw (e, rescue) (failed other t e)

  -- A postcondition read off an equation.
  pub Ends-at : (m : Exec S A) (s : S) {r : Result A} {t : S} → Ends Q m s → m s ≡ (r, t) → Q r t
  Ends-at m s q e = rw e at q.holds
