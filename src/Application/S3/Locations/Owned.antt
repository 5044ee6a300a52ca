-- ===== src/Application/S3/Locations/Owned.antt =====
-- The saved locations of a profile under the requests of another.
use aws_ssm_kit.Base.{
  ℕ, ◌+◌, ◌≡◌, ◌≢◌, refl, sym, ap, ◌∙◌, Option, none, some, arith, Bool-cases, inl, inr, ◌==◌,
  ==_iff,
}
use aws_ssm_kit.Base.Dict.{lookup, lookup-append_row, lookup-alter, lookup-erase}
use aws_ssm_kit.Errors.{Result, ok, Exec, lift, raise, ◌>>=◌, then_do-eq-ok}
use aws_ssm_kit.Errors.Runs.{Runs, Runs-bind}
use aws_ssm_kit.Text.{Runtime}
use aws_ssm_kit.Domain.S3Location.{S3Location, s3_location, require_location_id}
use aws_ssm_kit.Store.{Db}
use aws_ssm_kit.Store.Locations as Store
use aws_ssm_kit.Store.Named.Sound.{IsKept}
use aws_ssm_kit.Store.Named.Unique.{find_named-lookup}
use aws_ssm_kit.Application.Env.{Ports, Env, ask, query, write}
use aws_ssm_kit.Application.Profiles.{Selector}
use aws_ssm_kit.Application.S3.Locations.{
  SaveS3LocationRequest, LocationSelector, location_id, location_name, owner_id, find_location,
  own_location, show, requested, create, update_found, update, delete,
}

-- The table is well formed: keys, ids and names.
abbrev pub IsWellFormed : Db → Type 0
IsWellFormed db = IsKept Store.location_names db.locations db.last_location

s3_location_kept :
    (u : Runtime) (raw l : S3Location)
    → s3_location u raw ≡ ok l
    → (l.id ≡ raw.id) × (l.profile_id ≡ raw.profile_id)
unfolding s3_location
s3_location_kept u raw l h = ground arith

-- A row that is read stands in the table under its id, for its profile.
abbrev Stored : S3Location → Db → Type 0
Stored l db =
    (k : ℕ) × (raw : S3Location) × (lookup k db.locations ≡ some raw)
    × (l.id ≡ some k)
    × (l.profile_id ≡ raw.profile_id)

read_location_lem :
    (u : Runtime) (o : Option S3Location) (l : S3Location)
    → Store.read_location u o ≡ ok (some l)
    → (raw : S3Location) × (o ≡ some raw) × (s3_location u raw ≡ ok l)
unfolding Store.read_location
read_location_lem u none l h = absurd (cc)
read_location_lem u (some raw) l h =
    let (l', read, same) = then_do-eq-ok (s3_location u raw) (λ l. ok (some l)) h in
    (raw, refl, read ∙ ground arith)

find_location-Stored :
    (u : Runtime) (selector : LocationSelector) (profile_id : ℕ) (db : Db) (l : S3Location)
    → IsWellFormed db
    → find_location u selector profile_id db ≡ ok (some l)
    → Stored l db
unfolding find_location Store.get_s3_location Store.get_s3_location_by_name
find_location-Stored u (location_id k) profile_id db l v h =
    let (raw, found, read) = read_location_lem u (lookup k db.locations) l h in
    let (same_id, same_owner) = s3_location_kept u raw l read in
    (k, raw, found, same_id ∙ v.keyed k raw found, same_owner)
find_location-Stored u (location_name name) profile_id db l v h =
    let (raw, named, read) = read_location_lem u _ l h in
    let (k, found) =
      find_named-lookup Store.location_names profile_id name raw db.locations v.keys_once named in
    let (same_id, same_owner) = s3_location_kept u raw l read in
    (k, raw, found, same_id ∙ v.keyed k raw found, same_owner)

own_location_lem :
    (id : ℕ) (o : Option S3Location) (l : S3Location)
    → own_location id o ≡ ok l
    → (o ≡ some l) × (l.profile_id ≡ id)
unfolding own_location
own_location_lem id none l h = absurd (ground arith)
own_location_lem id (some l') l h = ground arith

-- What `show` returns is a stored row of the profile.
show-Stored :
    (u : Runtime) (selector : LocationSelector) (profile : Selector) (db : Db) (l : S3Location)
    → IsWellFormed db
    → show u selector profile db ≡ ok l
    → Stored l db × (owner_id u profile db ≡ ok l.profile_id)
unfolding show
show-Stored u selector profile db l v h =
    let (id, known, rest) = then_do-eq-ok (owner_id u profile db) _ h in
    let (o, found, owned) = then_do-eq-ok (find_location u selector id db) (own_location id) rest in
    let (same_row, same_owner) = own_location_lem id o l owned in
    (find_location-Stored u selector id db l v (rw (← same_row) found), rw same_owner known)

module _ {W : Type 0} (p : Ports W) (k : ℕ) (row : S3Location) where
  -- the row of another profile
  abbrev There : Db → Type 0
  There db = lookup k db.locations ≡ some row

  created_There :
      (now : ℕ) (l : S3Location) (db : Db)
      → IsWellFormed db
      → There db
      → There (Store.create_s3_location p.runtime now l db).1
  unfolding Store.create_s3_location Store.reread_location
  created_There now l db v h =
      let j = db.last_location + 1 in
      let unused : lookup j db.locations ≡ none = v.keys_given j (omega arith) in
      ground (arith, lookup-append_row k j (Store.new_location j now l) db.locations unused)

  updated_There :
      (now j : ℕ) (l : S3Location) (db : Db)
      → l.profile_id ≢ row.profile_id
      → There db
      → There (Store.update_location_at p.runtime now j l db).1
  unfolding Store.update_location_at Store.has_location Store.reread_location
  updated_There now j l db other h = elim (Bool-cases (k == j)) [
    | inl e ↦
        let at : k ≡ j = (==_iff k j).0 e in
        let held : lookup j db.locations ≡ some row = rw at at h in
        rw (held, Store.has_location) (ground arith)
    | inr e ↦ ground (arith, lookup-alter k j (Store.updated_location now l) db.locations)
  ]

  deleted_There : (j : ℕ) (db : Db) → j ≢ k → There db → There (Store.delete_s3_location j db).1
  unfolding Store.delete_s3_location
  deleted_There j db other h = ground (arith, lookup-erase k j db.locations)

update_by_id :
    (u : Runtime) (now j : ℕ) (l : S3Location) (db : Db)
    → l.id ≡ some j
    → Store.update_s3_location u now l db ≡ Store.update_location_at u now j l db
unfolding Store.update_s3_location require_location_id ◌>>=◌ lift
update_by_id u now j l db h = rw h refl

required_key : (l : S3Location) (j k : ℕ) → l.id ≡ some k → require_location_id l ≡ ok j → j ≡ k
unfolding require_location_id
required_key l j k own h = ground (arith, own)

some_same : {a b : S3Location} → some a ≡ some b → a ≡ b
some_same h = cc

module _ {W : Type 0} (p : Ports W) (k : ℕ) (row : S3Location) (db : Db) where
  abbrev Same : Env W → Type 0
  Same e = e.db ≡ db

  -- the row of the other profile, in the state of the service
  abbrev Kept : {A : Type 0} → Result A → Env W → Type 0
  Kept r e = There p k row e.db

  query-Runs : {A : Type 0} (f : Db → Result A) → Runs Same (query f) (λ r e. Same e × (f db ≡ r))
  unfolding query
  query-Runs f = record { from = λ e h. (h, rw h refl) }

  lift-Runs : {A : Type 0} (r : Result A) → Runs Same (lift r) (λ q e. Same e × (r ≡ q))
  unfolding lift
  lift-Runs r = record { from = λ e h. (h, refl) }

  ask-Runs : Runs Same (ask p.now) (λ r e. Same e)
  unfolding ask
  ask-Runs = record { from = λ e h. h }

  write-Runs :
      {A : Type 0} (m : Exec Db A)
      → There p k row (m db).1
      → Runs Same (write m) (λ r e. There p k row e.db)
  unfolding write
  write-Runs m h = record { from = λ e same. rw same h }

  module _ (v : IsWellFormed db) (here : There p k row db) where
    stays : (e : Env W) → Same e → There p k row e.db
    stays e same = rw same here

    -- a read, and what follows where it returns
    reading :
        {A B : Type 0} (f : Db → Result A) (rest : A → Exec (Env W) B)
        → ((a : A) → f db ≡ ok a → Runs Same (rest a) Kept)
        → Runs Same (query f >>= rest) Kept
    reading f rest later =
        Runs-bind (query f) rest (query-Runs f)
          (λ a. record { from = λ e h. (later a h.1).from e h.0 }) (λ x e h. stays e h.0)

    lifting :
        {A B : Type 0} (r : Result A) (rest : A → Exec (Env W) B)
        → ((a : A) → r ≡ ok a → Runs Same (rest a) Kept)
        → Runs Same (lift r >>= rest) Kept
    lifting r rest later =
        Runs-bind (lift r) rest (lift-Runs r)
          (λ a. record { from = λ e h. (later a h.1).from e h.0 }) (λ x e h. stays e h.0)

    timed :
        {B : Type 0} (rest : ℕ → Exec (Env W) B)
        → ((now : ℕ) → Runs Same (rest now) Kept)
        → Runs Same (ask p.now >>= rest) Kept
    timed rest later = Runs-bind (ask p.now) rest ask-Runs later (λ x e h. stays e h)

    create-Runs : (request : SaveS3LocationRequest) → Runs Same (create p request) Kept
    unfolding create
    create-Runs request = reading (owner_id p.runtime request.profile) _ (λ id known.
        lifting (requested p.runtime none id request) _ (λ l made. timed _ (λ now.
          write-Runs (Store.create_s3_location p.runtime now l)
            (created_There p k row now l db v here))))

    update-Runs :
        (request : SaveS3LocationRequest) (j : ℕ)
        → owner_id p.runtime request.profile db ≢ ok row.profile_id
        → Runs Same (update_found p request j) Kept
    unfolding update_found Store.update_s3_location
    update-Runs request j other =
        reading (show p.runtime (location_id j) request.profile) _ (λ current shown.
          lifting (requested p.runtime (some j) current.profile_id request) _ (λ l made.
            timed _ (λ now.
              write-Runs (Store.update_s3_location p.runtime now l)
                (updated current shown l made now))))
      where
        updated :
            (current : S3Location)
            → show p.runtime (location_id j) request.profile db ≡ ok current
            → (l : S3Location) → requested p.runtime (some j) current.profile_id request ≡ ok l
            → (now : ℕ) → There p k row (Store.update_s3_location p.runtime now l db).1
        updated current shown l made now =
            let (stored, known) =
              show-Stored p.runtime (location_id j) request.profile db current v shown in
            let (same_id, same_owner) = s3_location_kept p.runtime _ l made in
            let others : l.profile_id ≢ row.profile_id =
              λ q. other (known ∙ ap ok (sym same_owner ∙ q)) in
            rw (update_by_id p.runtime now j l db same_id)
              (updated_There p k row now j l db others here)

    delete-Runs :
        (selector : LocationSelector) (profile : Selector)
        → owner_id p.runtime profile db ≢ ok row.profile_id
        → Runs Same (delete p selector profile) Kept
    unfolding delete
    delete-Runs selector profile other = reading (show p.runtime selector profile) _ (λ l shown.
        lifting (require_location_id l) _
          (λ j known. write-Runs (Store.delete_s3_location j) (deleted l shown j known)))
      where
        deleted :
            (l : S3Location)
            → show p.runtime selector profile db ≡ ok l
            → (j : ℕ) → require_location_id l ≡ ok j
            → There p k row (Store.delete_s3_location j db).1
        deleted l shown j known =
            let ((j', raw, found, own, owner), chosen) =
              show-Stored p.runtime selector profile db l v shown in
            let same_key : j ≡ j' = required_key l j j' own known in
            deleted_There p k row j db
              (λ q.
                let at : j' ≡ k = sym same_key ∙ q in
                let held : lookup k db.locations ≡ some raw = rw at at found in
                let same_row : raw ≡ row = some_same (sym held ∙ here) in
                other (chosen ∙ ap ok (owner ∙ ap (λ r. r.profile_id) same_row)))
              here

-- What a client asks of the service.
pub data Request : Type 0 where
  create_location update_location : SaveS3LocationRequest → Request
  delete_location : LocationSelector → Selector → Request

-- the profile that the request selects
abbrev pub selected : Request → Selector
selected (create_location request) = request.profile
selected (update_location request) = request.profile
selected (delete_location selector profile) = profile

module _ {W : Type 0} (p : Ports W) where
  -- the state after a request
  pub serve : Request → Env W → Env W
  serve (create_location request) e = (create p request e).1
  serve (update_location request) e = (update p request e).1
  serve (delete_location selector profile) e = (delete p selector profile e).1

  -- A request that does not select the profile of a saved location leaves that location as it is,
  -- whether the request is a creation, an update or a deletion, by id or by name, and whether it
  -- returns or raises. The table of locations is well formed.
  pub serve_other_profiles :
      (request : Request) (k : ℕ) (row : S3Location) (e : Env W)
      → IsWellFormed e.db
      → lookup k e.db.locations ≡ some row
      → owner_id p.runtime (selected request) e.db ≢ ok row.profile_id
      → lookup k (serve request e).db.locations ≡ some row
  unfolding serve update raise
  serve_other_profiles (create_location request) k row e v here other =
      (create-Runs p k row e.db v here request).from e refl
  serve_other_profiles (update_location request) k row e v here other = go request.location_id refl
    where
      go :
          (o : Option ℕ)
          → request.location_id ≡ o
          → lookup k (update p request e).1.db.locations ≡ some row
      go none q = rw (q, update) here
      go (some j) q = rw (q, update) ((update-Runs p k row e.db v here request j other).from e refl)
  serve_other_profiles (delete_location selector profile) k row e v here other =
      (delete-Runs p k row e.db v here selector profile other).from e refl
