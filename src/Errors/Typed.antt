-- ===== src/Errors/Typed.antt =====
-- Calls that return or raise an application error, and nothing else.
use aws_ssm_kit.Base.{◌≡◌, ap}
use aws_ssm_kit.Errors.{Result, ok, err, app, Failure, Exec, pure, attempt_all, ◌>>=◌}
use aws_ssm_kit.Errors.Ends.{Ends-bind}

module _ {A : Type 0} where
  -- a call that returned, or raised an application error
  abbrev pub Typed : Result A → Type 0
  Typed (ok a) = Unit
  Typed (err (app e)) = Unit
  Typed (err Failure.cancelled) = ⊥
  Typed (err Failure.untyped) = ⊥

module _ {S A B : Type 0} where
  pub Typed-bind :
      (m : Exec S A) (f : A → Exec S B)
      → ((s : S) → Typed (m s).0)
      → ((a : A) (s : S) → Typed (f a s).0)
      → (s : S) → Typed ((m >>= f) s).0
  Typed-bind m f first later s =
      (Ends-bind {Q = λ r t. Typed r} m f s (λ a t h. record { holds = later a t })
        (λ x t h. raised x (first s) (ap (λ r. r.0) h))).holds
    where
      raised : (x : Failure) → Typed (m s).0 → (m s).0 ≡ err x → Typed {A = B} (err x)
      raised (app e) h e' = tt
      raised Failure.cancelled h e' = rw e' at h
      raised Failure.untyped h e' = rw e' at h

module _ {S A : Type 0} where
  pub Typed-attempt_all : (m : Exec S A) (s : S) → Typed (attempt_all m s).0
  unfolding attempt_all
  Typed-attempt_all m s = tt

  pub Typed-pure : (a : A) (s : S) → Typed (pure {S = S} a s).0
  unfolding pure
  Typed-pure a s = tt
