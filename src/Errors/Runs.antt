-- ===== src/Errors/Runs.antt =====
-- Calls between a precondition and a postcondition, where `Errors.Ends` speaks of one state.
use aws_ssm_kit.Errors.{Result, ok, err, Failure, attempt_all, fail, Exec, pure, ◌>>=◌}
use aws_ssm_kit.Errors.Keeps.{Keeps}

pub record Runs {S A : Type 0} (P : S → Type 0) (m : Exec S A) (Q : Result A → S → Type 0)
    : Type 0 where
  pub from : (s : S) → P s → Q (m s).0 (m s).1

module _ {S A : Type 0} where
  -- The call returns, to a state in `P`.
  abbrev pub Returns : (S → Type 0) → Result A → S → Type 0
  Returns P (ok a) s = P s
  Returns P (err x) s = ⊥

  -- The call ends in `P`, however it ends.
  abbrev pub Ending : (S → Type 0) → Result A → S → Type 0
  Ending P r s = P s

module _ {S : Type 0} {P : S → Type 0} where
  pub Runs-Keeps : {A : Type 0} (m : Exec S A) → Keeps P m → Runs P m (Ending P)
  Runs-Keeps m k = record { from = k.at }

  pub Keeps-Runs : {A : Type 0} (m : Exec S A) → Runs P m (Ending P) → Keeps P m
  Keeps-Runs m r = record { at = r.from }

  pub Runs-pure : {A : Type 0} (a : A) → Runs P (pure a) (Returns P)
  unfolding pure
  Runs-pure a = record { from = λ s h. h }

  pub Keeps-attempt_all : {A : Type 0} (m : Exec S A) → Keeps P m → Keeps P (attempt_all m)
  unfolding attempt_all
  Keeps-attempt_all m k = record { at = k.at }

  pub Keeps-fail : {A : Type 0} (x : Failure) → Keeps P (fail {A = A} x)
  unfolding fail
  Keeps-fail x = record { at = λ s h. h }

module _ {S A : Type 0} {P : S → Type 0} where
  -- A call whose exceptions are caught returns.
  pub Runs-attempt_all :
      (m : Exec S A) (Q : S → Type 0) → Runs P m (Ending Q) → Runs P (attempt_all m) (Returns Q)
  unfolding attempt_all
  Runs-attempt_all m Q r = record { from = r.from }

module _ {S A : Type 0} {P : S → Type 0} {Q : Result A → S → Type 0} where
  -- The precondition may be stronger.
  pub Runs-before :
      (R : S → Type 0) (m : Exec S A) → ((s : S) → R s → P s) → Runs P m Q → Runs R m Q
  Runs-before R m weaken r = record { from = λ s h. r.from s (weaken s h) }

  pub Runs-after :
      (m : Exec S A) (R : Result A → S → Type 0)
      → Runs P m Q
      → ((r : Result A) (s : S) → Q r s → R r s)
      → Runs P m R
  Runs-after m R r weaken = record { from = λ s h. weaken _ _ (r.from s h) }

module _ {S A B : Type 0} (Q : Result A → S → Type 0) (R : Result B → S → Type 0) where
  rest_of_bind :
      (f : A → Exec S B)
      → ((a : A) → Runs (Q (ok a)) (f a) R)
      → ((x : Failure) (s : S) → Q (err x) s → R (err x) s)
      → (r : Result A) (s : S) → Q r s
      → R (((λ t. (r, t)) >>= f) s).0 (((λ t. (r, t)) >>= f) s).1
  unfolding ◌>>=◌
  rest_of_bind f later raised (ok a) s q = (later a).from s q
  rest_of_bind f later raised (err x) s q = raised x s q

module _ {S A B : Type 0} {P : S → Type 0} {Q : Result A → S → Type 0}
    {R : Result B → S → Type 0} where
  pub Runs-bind :
      (m : Exec S A) (f : A → Exec S B)
      → Runs P m Q
      → ((a : A) → Runs (Q (ok a)) (f a) R)
      → ((x : Failure) (s : S) → Q (err x) s → R (err x) s)
      → Runs P (m >>= f) R
  unfolding ◌>>=◌
  Runs-bind m f first later raised = record {
    from = λ s h. rest_of_bind Q R f later raised (m s).0 (m s).1 (first.from s h);
  }

module _ {S A B : Type 0} {P Q : S → Type 0} {R : Result B → S → Type 0} where
  -- after a call that returns
  pub Runs-then :
      (m : Exec S A) (f : A → Exec S B)
      → Runs P m (Returns Q)
      → ((a : A) → Runs Q (f a) R)
      → Runs P (m >>= f) R
  Runs-then m f first later = Runs-bind m f first later (λ x s h. absurd h)
