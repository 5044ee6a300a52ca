-- ===== src/Application/S3/Contents.antt =====
-- What S3 keeps behind the gateway: the object of each bucket and key, as a view of the world. The
-- laws say which calls change which objects; between two calls nobody else writes.
use aws_ssm_kit.Base.{ℕ, ◌≡◌, Bool, false, Option, none, some}
use aws_ssm_kit.Errors.{Result, ok, Exec}
use aws_ssm_kit.Errors.Keeps.{Keeps}
use aws_ssm_kit.Errors.Runs.{Runs}
use aws_ssm_kit.Text.{Text}
use aws_ssm_kit.Domain.Profile.{PlainCredentials}
use aws_ssm_kit.Application.Env.{Ports, Env, call}
use aws_ssm_kit.Application.Operations.{OperationContext}
use aws_ssm_kit.Application.Sessions.World.{KeepsWorld, Outside}
use aws_ssm_kit.Application.S3.{S3Ports}

module _ {W C : Type 0} (object : W → Text → Text → Option C) where
  -- The bucket has this object at the key.
  abbrev pub Has : Text → Text → C → W → Type 0
  Has bucket key value w = object w bucket key ≡ some value

  -- A call changes no object but the one of a bucket and a key.
  abbrev pub OnlyAt : {A : Type 0} → Text → Text → Exec W A → Type 0
  OnlyAt bucket key m =
      (b k : Text) (value : C) → ¬ ((b ≡ bucket) × (k ≡ key)) → Keeps (Has b k value) m

  pub record ObjectLaws (p : Ports W) (s : S3Ports W) : Type 0 where
    pub guard_keeps : (b k : Text) (value : C) → KeepsWorld p (Has b k value)
    pub exists_keeps :
        (c : PlainCredentials) (region bucket key b k : Text) (value : C)
        → Keeps (Has b k value) (s.object_exists c region bucket key)
    -- the answer "no" is true
    pub exists_true :
        (c : PlainCredentials) (region bucket key : Text) (w : W)
        → (s.object_exists c region bucket key w).0 ≡ ok false
        → object (s.object_exists c region bucket key w).1 bucket key ≡ none
    pub put_only :
        (c : PlainCredentials) (region bucket key source : Text) (context : OperationContext)
        → OnlyAt bucket key (s.put_file c region bucket key source context)
    pub multipart_only :
        (c : PlainCredentials) (region bucket key source : Text) (size parts : ℕ)
        (context : OperationContext)
        → OnlyAt bucket key (s.multipart_file c region bucket key source size parts context)
    -- a rename changes the objects of its key and of its target only
    pub rename_only :
        (c : PlainCredentials) (region bucket key target b k : Text) (value : C)
        → ¬ (k ≡ key)
        → ¬ ((b ≡ bucket) × (k ≡ target))
        → Keeps (Has b k value) (s.rename_object c region bucket key target)

module _ {W C : Type 0} (p : Ports W) (s : S3Ports W) (object : W → Text → Text → Option C)
    (laws : ObjectLaws object p s) (b k : Text) (value : C) where
  -- What an answer about an object says of the world.
  abbrev pub Answered : Text → Text → Result Bool → Env W → Type 0
  Answered bucket key r e =
      Outside (Has object b k value) e × (r ≡ ok false → object e.world bucket key ≡ none)

  pub object_exists-Runs :
      (c : PlainCredentials) (region bucket key : Text)
      → Runs
          (Outside (Has object b k value))
          (call (s.object_exists c region bucket key))
          (Answered bucket key)
  unfolding call
  object_exists-Runs c region bucket key = record {
    from = λ e h. (
      (laws.exists_keeps c region bucket key b k value).at e.world h,
      laws.exists_true c region bucket key e.world,
    );
  }

  -- An object that is there is not the one that a truthful answer misses.
  pub missing_other :
      (bucket key : Text) (w : W)
      → Has object b k value w
      → object w bucket key ≡ none
      → ¬ ((b ≡ bucket) × (k ≡ key))
  missing_other bucket key w here missing (e, q) = absurd (here-ne-none (rw (e, q) missing))
    where
      here-ne-none : ¬ (object w b k ≡ none)
      here-ne-none h = cc
