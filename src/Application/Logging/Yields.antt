-- ===== src/Application/Logging/Yields.antt =====
-- What a decorated call returns.
use aws_ssm_kit.Base.{String, Bool, true, false, arith}
use aws_ssm_kit.Errors.{Result, ok, err, app, Failure, Exec}
use aws_ssm_kit.Errors.Yields.{IfOk, Yields}
use aws_ssm_kit.Text.{Text}
use aws_ssm_kit.Application.Env.{Env, record_event}
use aws_ssm_kit.Application.Logging.{finish, logged_operation}

module _ {W A : Type 0} (Q : A → Type 0) where
  finish-IfOk :
      (feature action : String) (completion : Bool) (target : Text) (r : Result A) (e : Env W)
      → IfOk Q r
      → IfOk Q (finish feature action completion target r e).0
  unfolding finish record_event
  finish-IfOk feature action true target (ok a) e h = h
  finish-IfOk feature action false target (ok a) e h = h
  finish-IfOk feature action completion target (err Failure.cancelled) e h = tt
  finish-IfOk feature action completion target (err Failure.untyped) e h = tt
  finish-IfOk feature action completion target (err (app error)) e h = ground arith

  pub logged_operation-Yields :
      (feature action : String) (completion : Bool) (target : Text) (m : Exec (Env W) A)
      → Yields Q m
      → Yields Q (logged_operation feature action completion target m)
  unfolding logged_operation record_event
  logged_operation-Yields feature action completion target m k = record {
    gives = λ e. finish-IfOk feature action completion target (m _).0 (m _).1 (k.gives _);
  }
