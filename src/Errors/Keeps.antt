-- ===== src/Errors/Keeps.antt =====
-- Invariants of actions: one rule for each way to build an action.
use aws_ssm_kit.Base.{Bool, true, false, Option, none, some, Bool-cases, inl, inr, if◌then◌else◌}
use aws_ssm_kit.Errors.{
  ApplicationError, Result, ok, err, app, Failure, Exec, rescue, rescued, pure, raise, lift, gets,
  or_raise, modify, raise_if, ◌>>=◌,
}

-- From a state in `P`, the action ends in `P`, whether it returns or raises.
pub record Keeps {S A : Type 0} (P : S → Type 0) (m : Exec S A) : Type 0 where
  pub at : (s : S) → P s → P (m s).1

module _ {S : Type 0} {P : S → Type 0} where
  pub Keeps-modify : (f : S → S) → ((s : S) → P s → P (f s)) → Keeps P (modify f)
  unfolding modify
  Keeps-modify f h = record { at = h }

  pub Keeps-or_raise : {A : Type 0} (o : Option A) (e : ApplicationError) → Keeps P (or_raise o e)
  unfolding or_raise
  Keeps-or_raise none e = record { at = λ s h. h }
  Keeps-or_raise (some a) e = record { at = λ s h. h }

  pub Keeps-if :
      {A : Type 0} (b : Bool) (m n : Exec S A)
      → Keeps P m
      → Keeps P n
      → Keeps P (if b then m else n)
  Keeps-if true m n km kn = km
  Keeps-if false m n km kn = kn

  pub Keeps-gets : {A : Type 0} (f : S → A) → Keeps P (gets f)
  unfolding gets
  Keeps-gets f = record { at = λ s h. h }

  pub Keeps-raise_if : (b : Bool) (e : ApplicationError) → Keeps P (raise_if b e)
  unfolding raise_if
  Keeps-raise_if b e = record { at = λ s h. h }

  Keeps-continue :
      {A B : Type 0} (r : Result A) (f : A → Exec S B)
      → ((a : A) → Keeps P (f a))
      → (s : S) → P s
      → P ((lift r >>= f) s).1
  unfolding ◌>>=◌
  Keeps-continue (ok a) f kf s h = (kf a).at s h
  Keeps-continue (err e) f kf s h = h

  pub Keeps-bind :
      {A B : Type 0} (first : Exec S A) (later : A → Exec S B)
      → Keeps P first
      → ((result : A) → Keeps P (later result))
      → Keeps P (first >>= later)
  unfolding ◌>>=◌
  Keeps-bind first later kept keep = record {
    at = λ s h. Keeps-continue (first s).0 later keep (first s).1 (kept.at s h);
  }

  pub Keeps-lift : {A : Type 0} (r : Result A) → Keeps P (lift r)
  unfolding lift
  Keeps-lift r = record { at = λ s h. h }

  -- where the result of the first part is known
  pub Keeps-lift_known :
      {A B : Type 0} (a : A) (f : A → Exec S B) → Keeps P (f a) → Keeps P (lift (ok a) >>= f)
  unfolding ◌>>=◌ lift
  Keeps-lift_known a f k = record { at = k.at }

  pub Keeps-raise : {A : Type 0} (e : ApplicationError) → Keeps P (raise {A = A} e)
  unfolding raise
  Keeps-raise e = record { at = λ s h. h }

  pub Keeps-pure : {A : Type 0} (a : A) → Keeps P (pure a)
  unfolding pure
  Keeps-pure a = record { at = λ s h. h }

module _ {S A : Type 0} {P : S → Type 0} where
  pub Keeps-rescue :
      (m : Exec S A) (test : ApplicationError → Bool) (handler : ApplicationError → Exec S A)
      → Keeps P m
      → ((e : ApplicationError) → Keeps P (handler e))
      → Keeps P (rescue m test handler)
  unfolding rescue
  Keeps-rescue m test handler km kh = record { at = λ s h. go (m s).0 (m s).1 (km.at s h) }
    where
      go : (r : Result A) (t : S) → P t → P (rescued test handler r t).1
      go (ok a) t h = h
      go (err (app x)) t h = elim (Bool-cases (test x)) [
        | inl accepted ↦ rw accepted ((kh x).at t h)
        | inr refused ↦ rw refused h
      ]
      go (err Failure.cancelled) t h = h
      go (err Failure.untyped) t h = h

pub ruleset keeps_rules = (
  Keeps-pure, Keeps-raise, Keeps-lift, Keeps-gets, Keeps-or_raise, Keeps-raise_if, Keeps-if,
  Keeps-bind,
)
