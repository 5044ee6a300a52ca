-- ===== src/Application/Sessions/World.antt =====
-- What a call of the session guard keeps of the world.
use aws_ssm_kit.Base.{ℕ, Bool, true, false, Option, none, some, arith}
use aws_ssm_kit.Errors.{Result, ok, err, app, Failure, Exec}
use aws_ssm_kit.Errors.Keeps.{Keeps, Keeps-rescue, keeps_rules}
use aws_ssm_kit.Errors.Runs.{Runs, Ending}
use aws_ssm_kit.Text.{Text}
use aws_ssm_kit.Domain.Profile.{AwsProfile, PlainCredentials, SessionCredentials}
use aws_ssm_kit.Store.{Db}
use aws_ssm_kit.Application.Env.{LogRecord, Ports, Env, call, ask, query, write, record_event}
use aws_ssm_kit.Application.Logging.{finish, logged_operation}
use aws_ssm_kit.Application.Sessions.{
  assert_identity, open_session, use_session, or_none, credentials, given, require_credentials,
  delete_session, get_session,
}

-- The calls that the session guard makes keep a property of the world.
pub record KeepsWorld {W : Type 0} (p : Ports W) (P : W → Type 0) : Type 0 where
  pub now_keeps : (w : W) → P w → P (p.now w).1
  pub identity_keeps : (c : PlainCredentials) (region : Text) → Keeps P (p.get_identity c region)
  pub unprotect_keeps : (text : Text) → Keeps P (p.unprotect text)

module _ {W : Type 0} (P : W → Type 0) where
  abbrev pub Outside : Env W → Type 0
  Outside e = P e.world

  pub call-Keeps : {A : Type 0} (m : Exec W A) → Keeps P m → Keeps Outside (call m)
  unfolding call
  call-Keeps m k = record { at = λ e h. k.at e.world h }

  pub query-Keeps : {A : Type 0} (f : Db → Result A) → Keeps Outside (query f)
  unfolding query
  query-Keeps f = record { at = λ e h. h }

  pub record_event-Keeps : (r : LogRecord) → Keeps Outside (record_event r)
  unfolding record_event
  record_event-Keeps r = record { at = λ e h. h }

  pub finish-Keeps :
      {A : Type 0} (feature action : _) (completion : Bool) (target : Text) (r : Result A)
      (e : Env W)
      → Outside e
      → Outside (finish feature action completion target r e).1
  unfolding finish record_event
  finish-Keeps feature action true target (ok a) e h = h
  finish-Keeps feature action false target (ok a) e h = h
  finish-Keeps feature action completion target (err Failure.cancelled) e h = h
  finish-Keeps feature action completion target (err Failure.untyped) e h = h
  finish-Keeps feature action completion target (err (app error)) e h = ground arith

  pub logged_operation-Keeps :
      {A : Type 0} (feature action : _) (completion : Bool) (target : Text) (m : Exec (Env W) A)
      → Keeps Outside m
      → Keeps Outside (logged_operation feature action completion target m)
  unfolding logged_operation record_event
  logged_operation-Keeps feature action completion target m k = record {
    at = λ e h. finish-Keeps feature action completion target (m _).0 (m _).1 (k.at _ h);
  }

module _ {W A : Type 0} (P Q : W → Type 0) where
  -- The decorator adds no call of a port.
  pub logged_operation-Runs :
      (feature action : _) (completion : Bool) (target : Text) (m : Exec (Env W) A)
      → Runs (Outside P) m (Ending (Outside Q))
      → Runs (Outside P) (logged_operation feature action completion target m) (Ending (Outside Q))
  unfolding logged_operation record_event
  logged_operation-Runs feature action completion target m r = record {
    from = λ e h. finish-Keeps Q feature action completion target (m _).0 (m _).1 (r.from _ h);
  }

module _ {W : Type 0} (p : Ports W) (P : W → Type 0) (kept : KeepsWorld p P) where
  delete_session-Keeps : (id : ℕ) → Keeps (Outside P) (delete_session p id)
  unfolding delete_session write
  delete_session-Keeps id = record { at = λ e h. h }

  get_session-Keeps : (id : ℕ) → Keeps (Outside P) (get_session p id)
  unfolding get_session query
  get_session-Keeps id = record { at = λ e h. h }

  now-Keeps : Keeps (Outside P) (ask p.now)
  unfolding ask
  now-Keeps = record { at = λ e h. kept.now_keeps e.world h }

  identity-Keeps :
      (c : PlainCredentials) (region : Text) → Keeps (Outside P) (call (p.get_identity c region))
  identity-Keeps c region = call-Keeps P _ (kept.identity_keeps c region)

  unprotect-Keeps : (text : Text) → Keeps (Outside P) (call (p.unprotect text))
  unprotect-Keeps text = call-Keeps P _ (kept.unprotect_keeps text)

ruleset world_rules = (
  keeps_rules, Keeps-rescue, query-Keeps, delete_session-Keeps, get_session-Keeps, now-Keeps,
  identity-Keeps, unprotect-Keeps,
)

module _ {W : Type 0} (p : Ports W) (P : W → Type 0) (kept : KeepsWorld p P) where
  open_session-Keeps :
      (profile : AwsProfile) (session : SessionCredentials)
      → Keeps (Outside P) (open_session p profile session)
  unfolding open_session assert_identity
  open_session-Keeps profile session = search world_rules depth 12

  use_session-Keeps :
      (profile : AwsProfile) (id : ℕ) (session : SessionCredentials)
      → Keeps (Outside P) (use_session p profile id session)
  unfolding use_session
  use_session-Keeps profile id session = search (world_rules, open_session-Keeps) depth 10

  or_none-Keeps :
      (profile : AwsProfile) (id : ℕ) (session : Option SessionCredentials)
      → Keeps (Outside P) (or_none p profile id session)
  unfolding or_none
  or_none-Keeps profile id none = search world_rules
  or_none-Keeps profile id (some session) = use_session-Keeps profile id session

  given-Keeps : (found : Option PlainCredentials) → Keeps (Outside P) (given p found)
  unfolding given
  given-Keeps none = search world_rules
  given-Keeps (some c) = search world_rules

  -- Asking for the credentials of a profile keeps what the clock, the identity calls and the
  -- protector keep.
  pub require_credentials-Keeps : (id : ℕ) → Keeps (Outside P) (require_credentials p id)
  unfolding require_credentials credentials
  require_credentials-Keeps id = search (world_rules, or_none-Keeps, given-Keeps) depth 12
