-- ===== src/Store/Drives/Refines.antt =====
-- `save_drive` and `delete_drive` of infrastructure/sqlite_profile_store.py against a table that is
-- a function from keys to drives.
use mathlib.Core.Path.{subst}
use aws_ssm_kit.Base.{
  ℕ, ◌+◌, ◌≡◌, ◌≢◌, refl, sym, ap, Bool, true, false, not, ◌&&◌, Option, none, some, List, [], ◌∷◌,
  ◌==◌, arith, Bool-cases, Option-cases, inl, inr, is_some, if◌then◌else◌,
}
use aws_ssm_kit.Base.Dict.{
  Dict, lookup, append_row, alter, erase, NodupKeys, lookup-append_row, lookup-alter, lookup-erase,
}
use aws_ssm_kit.Errors.{Result, err, app, raised, configuration}
use aws_ssm_kit.Text.{Runtime, same}
use aws_ssm_kit.Domain.S3Drive.{S3Drive, s3_drive}
use aws_ssm_kit.Store.{Db}
use aws_ssm_kit.Store.Drives.{
  drive_names, drive_row, save_drive, insert_drive, update_drive, delete_drive, has_drive,
}
use aws_ssm_kit.Store.Named.{taken, is_named}
use aws_ssm_kit.Store.Named.Sound.{IsKept}
use aws_ssm_kit.Store.Named.Tables.{IsNamed, save_drive-IsNamed, delete_drive-IsNamed}

-- what a client sees of the table
abbrev pub Table : Type 0
Table = ℕ → Option S3Drive

abbrev pub put : ℕ → S3Drive → Table → Table
put k row m = λ j. if k == j then some row else m j

abbrev pub without : ℕ → Table → Table
without k m = λ j. if k == j then none else m j

-- The profile of the drive uses its name for a drive with another key.
abbrev pub IsUsed : ℕ → S3Drive → Table → Type 0
IsUsed k d m =
    (j : ℕ) × (row : S3Drive) × (j ≢ k)
    × (m j ≡ some row)
    × (row.profile_id ≡ d.profile_id)
    × (same row.name d.name ≡ true)

abbrev pub refused : Result S3Drive
refused = err (app (raised configuration "drive.storage.failed" "Check drive name and profile"))

abbrev pub not_found : Result S3Drive
not_found = err (app (raised configuration "drive.not_found" "Drive update target missing"))

-- What saving a drive may answer and do to a table: it is inserted under a key that is free, or it
-- replaces the row with its id, or it is refused for a reason and nothing changes.
pub data Saves (u : Runtime) (is_profile : ℕ → Bool) (d : S3Drive) (m : Table)
    : Result S3Drive → Table → Type 0 where
  inserted :
      (k : ℕ)
      → d.id ≡ none
      → m k ≡ none
      → is_profile d.profile_id ≡ true
      → ¬ IsUsed k d m
      → Saves u is_profile d m (s3_drive u (drive_row k d)) (put k (drive_row k d) m)
  replaced :
      (k : ℕ) (row : S3Drive)
      → d.id ≡ some k
      → m k ≡ some row
      → row.profile_id ≡ d.profile_id
      → ¬ IsUsed k d m
      → Saves u is_profile d m (s3_drive u (drive_row k d)) (put k (drive_row k d) m)
  missing : (k : ℕ) → d.id ≡ some k → m k ≡ none → Saves u is_profile d m not_found m
  foreign :
      (k : ℕ) (row : S3Drive)
      → d.id ≡ some k
      → m k ≡ some row
      → row.profile_id ≢ d.profile_id
      → Saves u is_profile d m not_found m
  used_by_other :
      (k : ℕ) (row : S3Drive)
      → d.id ≡ some k
      → m k ≡ some row
      → row.profile_id ≡ d.profile_id
      → IsUsed k d m
      → Saves u is_profile d m refused m
  already_used :
      (k : ℕ) → d.id ≡ none → m k ≡ none → IsUsed k d m → Saves u is_profile d m refused m
  unknown_profile : d.id ≡ none → is_profile d.profile_id ≡ false → Saves u is_profile d m refused m

abbrev pub view : Db → Table
view db = λ k. lookup k db.drives

abbrev pub profiles_of : Db → ℕ → Bool
profiles_of db = λ k. is_some (lookup k db.profiles)

taken-IsUsed :
    (k : ℕ) (d : S3Drive) (rows : Dict S3Drive)
    → NodupKeys rows
    → taken drive_names k d.profile_id d.name rows ≡ true
    → IsUsed k d (λ j. lookup j rows)
unfolding taken lookup
taken-IsUsed k d [] keys h = absurd (ground arith)
taken-IsUsed k d ((i, w) ∷ rows) keys h =
    elim (Bool-cases (not (i == k) && is_named drive_names d.profile_id d.name w)) [
      | inl e ↦ (i, w, ground arith, ground arith, ground arith, ground arith)
      | inr e ↦
          let (j, row, other, found, owner, name) = taken-IsUsed k d rows keys.1 (ground arith) in
          (j, row, other, later j row found, owner, name)
    ]
  where
    later : (j : ℕ) (row : S3Drive) → lookup j rows ≡ some row → lookup j ((i, w) ∷ rows) ≡ some row
    later j row found = elim (Bool-cases (i == j)) [
      | inl q ↦
          let at : i ≡ j = ground arith in
          let gone : lookup j rows ≡ none = rw at at keys.0 in absurd (cc)
      | inr q ↦ rw q found
    ]

free-IsUsed :
    (k : ℕ) (d : S3Drive) (rows : Dict S3Drive)
    → taken drive_names k d.profile_id d.name rows ≡ false
    → ¬ IsUsed k d (λ j. lookup j rows)
unfolding taken lookup
free-IsUsed k d [] h (j, row, other, found, owner, name) = absurd (cc)
free-IsUsed k d ((i, w) ∷ rows) h (j, row, other, found, owner, name) = elim (Bool-cases (i == j)) [
  | inl q ↦
      let at : i ≡ j = ground arith in
      let same_row : w ≡ row = ground arith in absurd (ground (arith, same_row, at))
  | inr q ↦ free-IsUsed k d rows (ground arith) (j, row, other, ground arith, owner, name)
]

view-append_row :
    (k : ℕ) (row : S3Drive) (rows : Dict S3Drive)
    → lookup k rows ≡ none
    → put k row (λ j. lookup j rows) ≡ (λ j. lookup j (append_row k row rows))
view-append_row k row rows free = λ i j. sym (lookup-append_row j k row rows free) i

view-alter :
    (k : ℕ) (old row : S3Drive) (rows : Dict S3Drive)
    → lookup k rows ≡ some old
    → put k row (λ j. lookup j rows) ≡ (λ j. lookup j (alter k (λ _. row) rows))
view-alter k old row rows found = λ i j. each j i
  where
    each :
        (j : ℕ) → (if k == j then some row else lookup j rows) ≡ lookup j (alter k (λ _. row) rows)
    each j = elim (Bool-cases (k == j)) [
      | inl e ↦
          let at : k ≡ j = ground arith in
          let held : lookup j rows ≡ some old = rw at at found in
          ground (arith, lookup-alter j k (λ _. row) rows, held)
      | inr e ↦ ground (arith, lookup-alter j k (λ _. row) rows)
    ]

view-erase :
    (k : ℕ) (rows : Dict S3Drive) → without k (λ j. lookup j rows) ≡ (λ j. lookup j (erase k rows))
view-erase k rows = λ i j. sym (lookup-erase j k rows) i

module _ (u : Runtime) (d : S3Drive) (db : Db)
    (v : IsKept drive_names db.drives db.last_drive) where
  abbrev Saved : Result S3Drive × Db → Type 0
  Saved q = Saves u (profiles_of db) d (view db) q.0 (view q.1)

  abbrev Stores : ℕ → Table → Type 0
  Stores k m = Saves u (profiles_of db) d (view db) (s3_drive u (drive_row k d)) m

  insert_drive-Saves : d.id ≡ none → Saved (insert_drive u d db)
  unfolding insert_drive
  insert_drive-Saves new =
      let k = db.last_drive + 1 in
      let free : lookup k db.drives ≡ none = v.keys_given k (omega arith) in
      elim (Bool-cases (taken drive_names k d.profile_id d.name db.drives)) [
        | inl e ↦ rw e (already_used k new free (taken-IsUsed k d db.drives v.keys_once e))
        | inr e ↦ elim (Bool-cases (profiles_of db d.profile_id)) [
          | inl known ↦
              rw (e, known)
                (subst (Stores k) (view-append_row k (drive_row k d) db.drives free)
                  (inserted k new free known (free-IsUsed k d db.drives e)))
          | inr lost ↦ rw (e, lost) (unknown_profile new lost)
        ]
      ]

  update_drive-Saves : (k : ℕ) → d.id ≡ some k → Saved (update_drive u k d db)
  unfolding update_drive has_drive
  update_drive-Saves k own = elim (Option-cases (lookup k db.drives)) [
    | inl gone ↦ rw (gone, has_drive) (missing k own gone)
    | inr (row, found) ↦ elim (Bool-cases (row.profile_id == d.profile_id)) [
      | inr other ↦ rw (found, has_drive, other) (foreign k row own found (ground arith))
      | inl owned ↦ elim (Bool-cases (taken drive_names k d.profile_id d.name db.drives)) [
        | inl e ↦
            rw (found, has_drive, owned, e)
              (used_by_other k row own found (ground arith)
                (taken-IsUsed k d db.drives v.keys_once e))
        | inr e ↦
            rw (found, has_drive, owned, e)
              (subst (Stores k) (view-alter k row (drive_row k d) db.drives found)
                (replaced k row own found (ground arith) (free-IsUsed k d db.drives e)))
      ]
    ]
  ]

  by_id : Option ℕ → Result S3Drive × Db
  by_id o = elim o [ none ↦ insert_drive u d db | some k ↦ update_drive u k d db ]

  by_id_lem : save_drive u d db ≡ by_id d.id
  unfolding save_drive by_id
  by_id_lem = go d.id
    where
      go :
          (o : Option ℕ)
          → (elim o as (λ _. Db → Result S3Drive × Db) [
            | none ↦ insert_drive u d
            | some k ↦ update_drive u k d
          ])
              db
            ≡ elim o [ none ↦ insert_drive u d db | some k ↦ update_drive u k d db ]
      go none = refl
      go (some k) = refl

  save_drive-Saves : Saved (save_drive u d db)
  unfolding by_id
  save_drive-Saves = subst Saved (sym by_id_lem) (go d.id refl)
    where
      go : (o : Option ℕ) → d.id ≡ o → Saved (by_id o)
      go none e = insert_drive-Saves e
      go (some k) e = update_drive-Saves k e

  save_drive-profiles : (save_drive u d db).1.profiles ≡ db.profiles
  unfolding by_id insert_drive update_drive
  save_drive-profiles = subst (λ r. r.1.profiles ≡ db.profiles) (sym by_id_lem) (go d.id)
    where
      go : (o : Option ℕ) → (by_id o).1.profiles ≡ db.profiles
      go none = ground arith
      go (some k) = ground arith

-- What a client asks of the table.
pub data Request : Type 0 where
  save : S3Drive → Request
  delete : ℕ → Request

-- the table after the requests, and the answers to those that save
pub serve_all : Runtime → List Request → Db → List (Result S3Drive) × Db
serve_all u [] db = ([], db)
serve_all u (save d ∷ rest) db =
    let (answer, db') = save_drive u d db in
    let (answers, last) = serve_all u rest db' in (answer ∷ answers, last)
serve_all u (delete k ∷ rest) db = serve_all u rest (delete_drive k db).1

-- The runs of a table that is a function: a deletion takes one key out, saving a drive does one of
-- what `Saves` says.
pub data Runs (u : Runtime) (is_profile : ℕ → Bool)
    : List Request → Table → List (Result S3Drive) → Table → Type 0 where
  stopped : {m : Table} → Runs u is_profile [] m [] m
  saves :
      {m m' t : Table} {answer : Result S3Drive} {answers : List (Result S3Drive)} (d : S3Drive)
      (rest : List Request)
      → Saves u is_profile d m answer m'
      → Runs u is_profile rest m' answers t
      → Runs u is_profile (save d ∷ rest) m (answer ∷ answers) t
  deletes :
      {m t : Table} {answers : List (Result S3Drive)} (k : ℕ) (rest : List Request)
      → Runs u is_profile rest (without k m) answers t
      → Runs u is_profile (delete k ∷ rest) m answers t

delete_drive-without : (k : ℕ) (db : Db) → without k (view db) ≡ view (delete_drive k db).1
unfolding delete_drive
delete_drive-without k db = view-erase k db.drives

delete_drive-profiles : (k : ℕ) (db : Db) → profiles_of (delete_drive k db).1 ≡ profiles_of db
unfolding delete_drive
delete_drive-profiles k db = refl

-- The table of drives implements a function from keys to drives. After any sequence of requests that
-- save and delete drives, on tables that are well formed, the answers and the last table are those
-- of a run of the function: a drive without an id is inserted under a key that was free, a drive
-- with an id replaces the row of its profile under that id, both only while no other drive of the
-- profile has its name, each refusal has its cause and changes nothing, and a deletion takes out
-- one key.
pub serve_all_refines :
    (u : Runtime) (requests : List Request) (db : Db)
    → IsNamed db
    → let (answers, last) = serve_all u requests db in
      Runs u (profiles_of db) requests (view db) answers (view last)
unfolding serve_all
serve_all_refines u [] db v = stopped
serve_all_refines u (save d ∷ rest) db v = saves d rest (save_drive-Saves u d db v.drives_kept) (
    subst (λ f. Runs u f rest (view db') (serve_all u rest db').0 (view (serve_all u rest db').1))
      (ap (λ l. λ k. is_some (lookup k l)) (save_drive-profiles u d db v.drives_kept))
      (serve_all_refines u rest db' (save_drive-IsNamed u d db v)))
  where
    db' : Db
    db' = (save_drive u d db).1
serve_all_refines u (delete k ∷ rest) db v = deletes k rest (
    subst
      (λ m. Runs u (profiles_of db) rest m (serve_all u rest db').0 (view (serve_all u rest db').1))
      (sym (delete_drive-without k db))
      (subst
        (λ f. Runs u f rest (view db') (serve_all u rest db').0 (view (serve_all u rest db').1))
        (delete_drive-profiles k db) (serve_all_refines u rest db' (delete_drive-IsNamed k db v))))
  where
    db' : Db
    db' = (delete_drive k db).1
