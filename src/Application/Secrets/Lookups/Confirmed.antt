-- ===== src/Application/Secrets/Lookups/Confirmed.antt =====
-- Which commands a lookup has a relay run.
use mathlib.Core.Path.{subst}
use aws_ssm_kit.Base.{
  ℕ, ◌≡◌, refl, sym, ap, ◌∙◌, Bool, true, false, not, Option, none, some, List, ◌∷◌, ◌⊎◌, inl, inr,
  arith,
}
use aws_ssm_kit.Errors.{ApplicationError, Result, ok, err, Exec, pure, lift, raise, raise_if, ◌>>=◌}
use aws_ssm_kit.Errors.Keeps.{
  Keeps, Keeps-bind, Keeps-raise_if, Keeps-lift, Keeps-rescue, keeps_rules,
}
use aws_ssm_kit.Errors.Runs.{Runs, Ending, Runs-bind, Runs-Keeps, Runs-after}
use aws_ssm_kit.Text.{Text, Runtime, trim, is_empty}
use aws_ssm_kit.Domain.Profile.{AwsProfile, PlainCredentials, require_id}
use aws_ssm_kit.Domain.SavedSecret.{SavedSecret, SecretLookupMode}
use aws_ssm_kit.Store.{Db}
use aws_ssm_kit.Application.Env.{Ports, Env, call, ask, query, write}
use aws_ssm_kit.Application.Profiles.{Selector, resolve}
use aws_ssm_kit.Application.Sessions.{require_credentials}
use aws_ssm_kit.Application.Sessions.World.{
  KeepsWorld, Outside, call-Keeps, query-Keeps, record_event-Keeps, logged_operation-Runs,
  require_credentials-Keeps,
}
use aws_ssm_kit.Application.Secrets.Commands.{validate_remote_secret_id, supported_platform}
use aws_ssm_kit.Application.Secrets.Saved.{
  Snapshot, reread_duplicate, create_or_find, remember_candidate, remember,
}
use aws_ssm_kit.Application.Secrets.Lookups.{
  SecretPorts, SecretRelayTarget, ManagedInstance, Lookup, RetrievedSecret, relay_of, relay_on,
  find_online, check_cancelled, require_online_relay, get_via_relay, retrieve, keep_retrieved,
  get_body, get,
}

-- one call of the remote gateway
pub record RemoteCall : Type 0 where
  pub instance_id : Text
  pub platform_name : Text
  pub secret_id : Text

-- The calls of the remote gateway can be read off the world, the newest first; no other call adds
-- one.
pub record RelayLaws {W : Type 0} (p : Ports W) (s : SecretPorts W) (asked : W → List RemoteCall)
    : Type 0 where
  pub guard_keeps : (calls : List RemoteCall) → KeepsWorld p (λ w. asked w ≡ calls)
  pub direct_keeps :
      (calls : List RemoteCall) (c : PlainCredentials) (region id : Text)
      → Keeps (λ w. asked w ≡ calls) (s.get_secret_value c region id)
  pub online_keeps :
      (calls : List RemoteCall) (c : PlainCredentials) (region : Text)
      → Keeps (λ w. asked w ≡ calls) (s.list_online c region)
  pub remote_asks :
      (c : PlainCredentials) (region instance platform id : Text) (token : ℕ) (w : W)
      → asked (s.get_remote_value c region instance platform id token w).1
        ≡ record { instance_id = instance; platform_name = platform; secret_id = id } ∷ asked w

relay_on-supported :
    (u : Runtime) (id platform : Text) (t : SecretRelayTarget)
    → relay_on u id platform ≡ ok t
    → supported_platform u t.platform_name ≡ true
unfolding relay_on
relay_on-supported u id platform t h = ground arith

relay_of-supported :
    (u : Runtime) (o : Option ManagedInstance) (t : SecretRelayTarget)
    → relay_of u o ≡ ok t
    → supported_platform u t.platform_name ≡ true
unfolding relay_of
relay_of-supported u none t h = absurd (ground arith)
relay_of-supported u (some i) t h = relay_on-supported u i.instance_id _ t h

module _ {W : Type 0} (p : Ports W) (s : SecretPorts W) (asked : W → List RemoteCall)
    (laws : RelayLaws p s asked) (l : Lookup) (id : Text) (calls : List RemoteCall) where
  abbrev Before : Env W → Type 0
  Before = Outside (λ w. asked w ≡ calls)

  -- a call that may be made
  abbrev IsAllowed : RemoteCall → Type 0
  IsAllowed c =
      (c.secret_id ≡ id)
      × (validate_remote_secret_id p.runtime c.secret_id ≡ ok tt)
      × (supported_platform p.runtime c.platform_name ≡ true)
      × (l.confirmed ≡ true)

  abbrev After : List RemoteCall → Type 0
  After now = (now ≡ calls) ⊎ ((c : RemoteCall) × (now ≡ c ∷ calls) × IsAllowed c)

  abbrev Ended : Env W → Type 0
  Ended = Outside (λ w. After (asked w))

  -- a part that calls no relay, and what follows
  early :
      {A B : Type 0} (m : Exec (Env W) A) (f : A → Exec (Env W) B)
      → Keeps Before m
      → ((a : A) → Runs Before (f a) (Ending Ended))
      → Runs Before (m >>= f) (Ending Ended)
  early m f k later = Runs-bind m f (Runs-Keeps m k) later (λ x e h. inl h)

  knowing :
      {A B : Type 0} (r : Result A) (f : A → Exec (Env W) B)
      → ((a : A) → r ≡ ok a → Runs Before (f a) (Ending Ended))
      → Runs Before (lift r >>= f) (Ending Ended)
  unfolding ◌>>=◌ lift
  knowing (ok a) f later = record { from = (later a refl).from }
  knowing (err x) f later = record { from = λ e h. inl h }

  passing :
      {B : Type 0} (b : Bool) (error : ApplicationError) (f : Unit {0} → Exec (Env W) B)
      → (b ≡ false → Runs Before (f tt) (Ending Ended))
      → Runs Before (raise_if b error >>= f) (Ending Ended)
  unfolding ◌>>=◌ raise_if
  passing true error f later = record { from = λ e h. inl h }
  passing false error f later = record { from = (later refl).from }

  check_cancelled-Keeps : Keeps Before (check_cancelled p s l.context)
  unfolding check_cancelled
  check_cancelled-Keeps = record { at = λ e h. h }

  -- the command of the relay
  remote-Runs :
      (c : PlainCredentials) (region instance platform : Text)
      → validate_remote_secret_id p.runtime id ≡ ok tt
      → supported_platform p.runtime platform ≡ true
      → l.confirmed ≡ true
      → Runs Before
          (call (s.get_remote_value c region instance platform id l.context.cancellation))
          (Ending Ended)
  unfolding call
  remote-Runs c region instance platform valid supported confirmed = record {
    from = λ e h. inr (
      made,
      laws.remote_asks c region instance platform id l.context.cancellation e.world
          ∙ ap (λ rest. made ∷ rest) h,
      (refl, valid, supported, confirmed),
    );
  }
    where
      made : RemoteCall
      made = record { instance_id = instance; platform_name = platform; secret_id = id }

  relay-Runs :
      (c : PlainCredentials) (region instance : Text)
      → Runs Before (require_online_relay p s c region instance) (λ r e.
        Before e
        × ((t : SecretRelayTarget)
            → r ≡ ok t
            → supported_platform p.runtime t.platform_name ≡ true))
  unfolding require_online_relay lift
  relay-Runs c region instance =
      Runs-bind (raise_if (is_empty instance) _) _ (Runs-Keeps _ (Keeps-raise_if _ _))
        (λ u.
          Runs-bind (call (s.list_online c region)) _
            (Runs-Keeps _ (call-Keeps _ _ (laws.online_keeps calls c region)))
            (λ targets. record {
              from = λ e h.
                  (h, λ t q. relay_of-supported p.runtime (find_online instance targets) t q);
            })
            (λ x e h. (h, λ t q. absurd (cc))))
        (λ x e h. (h, λ t q. absurd (cc)))

  via_relay-Runs :
      (c : PlainCredentials) (region : Text)
      → Runs Before (get_via_relay p s c region id l) (Ending Ended)
  unfolding get_via_relay
  via_relay-Runs c region = knowing (validate_remote_secret_id p.runtime id) _ (λ t valid.
      passing (not l.confirmed) _ _ (λ unrefused.
        Runs-bind (require_online_relay p s c region _) _ (relay-Runs c region _)
          (λ relay. record {
            from = λ e h.
                (early (check_cancelled p s l.context) _ check_cancelled-Keeps (λ u.
                    remote-Runs c region relay.instance_id relay.platform_name valid
                      (h.1 relay refl) (ground arith))).from
                  e h.0;
          })
          (λ x e h. inl h.0)))

  retrieve-Runs :
      (c : PlainCredentials) (region : Text)
      → Runs Before (retrieve p s c region id l) (Ending Ended)
  unfolding retrieve
  retrieve-Runs c region = go l.mode
    where
      go :
          (mode : SecretLookupMode)
          → Runs Before
              (elim mode [
                | SecretLookupMode.direct ↦ call (s.get_secret_value c region id)
                | SecretLookupMode.via_ec2 ↦ get_via_relay p s c region id l
              ])
              (Ending Ended)
      go SecretLookupMode.direct =
          Runs-after _ _ (Runs-Keeps _ (call-Keeps _ _ (laws.direct_keeps calls c region id)))
            (λ r e h. inl h)
      go SecretLookupMode.via_ec2 = via_relay-Runs c region

  -- What follows makes no call.
  now-Ended : Keeps Ended (ask p.now)
  unfolding ask
  now-Ended = record {
    at = λ e h. subst After (sym ((laws.guard_keeps (asked e.world)).now_keeps e.world refl)) h;
  }

  write-Keeps : {A : Type 0} (m : Exec Db A) → Keeps Ended (write m)
  unfolding write
  write-Keeps m = record { at = λ e h. h }

  reread-Keeps : (row : SavedSecret) (x : ApplicationError) → Keeps Ended (reread_duplicate p row x)
  unfolding reread_duplicate
  reread-Keeps row x = Keeps-bind _ _ (query-Keeps _ _) (λ o. found o)
    where
      found :
          (o : Option SavedSecret)
          → Keeps Ended
              (elim o as (λ _. Exec (Env W) SavedSecret) [ none ↦ raise x | some r ↦ pure r ])
      found none = search keeps_rules
      found (some r) = search keeps_rules

  create-Keeps : (row : SavedSecret) (o : Option SavedSecret) → Keeps Ended (create_or_find p row o)
  unfolding create_or_find
  create-Keeps row (some r) = search keeps_rules
  create-Keeps row none = Keeps-rescue _ _ _ (write-Keeps _) (λ x. reread-Keeps row x)

  remembered-Keeps : (b : Bool) (row : SavedSecret) → Keeps Ended (remember_candidate p b row)
  unfolding remember_candidate
  remembered-Keeps true row = write-Keeps _
  remembered-Keeps false row = Keeps-bind _ _ (query-Keeps _ _) (λ o. create-Keeps row o)

  remember-Keeps :
      (name : Text) (selector : Selector) (snapshot : Snapshot)
      → Keeps Ended (remember p name selector snapshot)
  unfolding remember
  remember-Keeps name selector snapshot =
      search (keeps_rules, query-Keeps, remembered-Keeps) depth 8

  keep-Keeps :
      (selected : AwsProfile) (k : ℕ) (r : RetrievedSecret)
      → Keeps Ended (keep_retrieved p s selected k id l r)
  unfolding keep_retrieved
  keep-Keeps selected k r =
      search (keeps_rules, now-Ended, remember-Keeps, record_event-Keeps) depth 10

module _ {W : Type 0} (p : Ports W) (s : SecretPorts W) (asked : W → List RemoteCall)
    (laws : RelayLaws p s asked) (secret_id : Text) (selector : Selector) (l : Lookup) where
  -- the id that is looked up
  abbrev wanted : Text
  wanted = trim p.runtime secret_id

  module _ (calls : List RemoteCall) where
    begin :
        {A B : Type 0} (m : Exec (Env W) A) (f : A → Exec (Env W) B)
        → Keeps (Before p s asked laws l wanted calls) m
        → ((a : A)
            → Runs
                (Before p s asked laws l wanted calls)
                (f a)
                (Ending (Ended p s asked laws l wanted calls)))
        → Runs
            (Before p s asked laws l wanted calls)
            (m >>= f)
            (Ending (Ended p s asked laws l wanted calls))
    begin = early p s asked laws l wanted calls

    body-Runs :
        Runs
          (Before p s asked laws l wanted calls)
          (get_body p s secret_id selector l)
          (Ending (Ended p s asked laws l wanted calls))
    unfolding get_body
    body-Runs = begin _ _ (Keeps-raise_if _ _) (λ _.
        begin (query (resolve p.runtime selector)) _ (query-Keeps _ _) (λ selected.
          begin (lift (require_id selected)) _ (Keeps-lift _) (λ k.
            begin (require_credentials p k) _
              (require_credentials-Keeps p _ (laws.guard_keeps calls) k)
              (λ c.
                Runs-bind (retrieve p s c selected.region wanted l) _
                  (retrieve-Runs p s asked laws l wanted calls c selected.region)
                  (λ r. Runs-Keeps _ (keep-Keeps p s asked laws l wanted calls selected k r))
                  (λ x e h. h)))))

  -- A lookup of a secret has a relay run at most one command, for any mode and however the lookup
  -- ends. Where it does, the command is for the id that was asked for, the id has passed the
  -- validation, the platform of the relay is a supported one, and the lookup was confirmed. The
  -- other calls of the ports ask no relay.
  pub get_asks :
      (e : Env W)
      → let now = asked (get p s secret_id selector l e).1.world in
        (now ≡ asked e.world)
        ⊎ ((c : RemoteCall) × (now ≡ c ∷ asked e.world)
            × ((c.secret_id ≡ trim p.runtime secret_id)
                × (validate_remote_secret_id p.runtime c.secret_id ≡ ok tt)
                × (supported_platform p.runtime c.platform_name ≡ true)
                × (l.confirmed ≡ true)))
  unfolding get
  get_asks e =
      (logged_operation-Runs (λ w. asked w ≡ asked e.world)
          (λ w. After p s asked laws l wanted (asked e.world) (asked w)) "secrets" "get" false
          secret_id (get_body p s secret_id selector l) (body-Runs (asked e.world))).from
        e refl
