-- ===== src/Domain/S3Drive.antt =====
-- domain/s3_drive.py: saved drive mappings.
pub mod Validity
use aws_ssm_kit.Base.{
  ℕ, Bool, true, false, not, ◌&&◌, ◌||◌, Option, none, some, List, [], ◌∷◌, ◌++◌, leb, ltb, ◌==◌,
  any, map, if◌then◌else◌, String,
}
use aws_ssm_kit.Errors.{Result, ok, ◌then_do◌, fail_with, raised, configuration}
use aws_ssm_kit.Text.{
  Text, Runtime, codes, same, is_empty, strip, rstrip, split, ends_with, first_part, replace_char,
  map_text,
}
use aws_ssm_kit.Domain.S3Location.{S3Location, s3_location}

pub data DriveState : Type 0 where
  disconnected connecting connected disconnecting error : DriveState

pub record S3Drive : Type 0 where
  pub id : Option ℕ
  pub profile_id : ℕ
  pub name : Text
  pub bucket : Text
  pub prefix : Text
  pub letter : Text
  pub local_prefix : Text

pub record DriveStatus : Type 0 where
  pub drive : S3Drive
  pub state : DriveState
  pub message_code : String

-- `[D-Z]`, in full
unfoldable pub is_letter : Text → Bool
is_letter (c ∷ []) = leb b'D' c && leb c b'Z'
is_letter _ = false

abbrev numbered : Text → List Text
numbered name =
    map (λ i. name ++ i ∷ []) (b'1' ∷ b'2' ∷ b'3' ∷ b'4' ∷ b'5' ∷ b'6' ∷ b'7' ∷ b'8' ∷ b'9' ∷ [])

abbrev reserved : List Text
reserved =
    codes "CON" ∷ codes "PRN" ∷ codes "AUX" ∷ codes "NUL" ∷ numbered (codes "COM")
    ++ numbered (codes "LPT")

-- `[<>:"|?*\x00-\x1f=]`
abbrev pub is_forbidden : ℕ → Bool
is_forbidden c =
    c == b'<'
    || c == b'>'
    || c == b':'
    || c == 34
    || c == b'|'
    || c == b'?'
    || c == b'*'
    || ltb c 32
    || c == b'='

-- one part of the local path
unfoldable pub bad_part : Runtime → Text → Bool
bad_part u p =
    is_empty p
    || same p (codes ".")
    || same p (codes "..")
    || ends_with b'.' p
    || ends_with b' ' p
    || any (same (map_text u.upper (first_part b'.' p))) reserved
    || any is_forbidden p

-- the local prefix as it is kept
unfoldable pub local_form : Text → Text
local_form local = strip (λ c. c == b'/') (replace_char 92 b'/' local)

unfoldable pub letter_form : Runtime → Text → Text
letter_form u letter = rstrip (λ c. c == b':') (map_text u.upper letter)

-- the location that checks the fields shared with one
abbrev pub drive_location : S3Drive → S3Location
drive_location d = record {
  id = none;
  profile_id = d.profile_id;
  name = d.name;
  bucket = d.bucket;
  prefix = d.prefix;
  created_at = none;
  updated_at = none;
}

-- `S3Drive(…)` with `__post_init__`
unfoldable pub s3_drive : Runtime → S3Drive → Result S3Drive
s3_drive u d = s3_location u (drive_location d) then_do λ location.
    let letter = letter_form u d.letter in
    let local = local_form d.local_prefix in
    let parts = if is_empty local then [] else split b'/' local in
    if not (is_letter letter)
    then fail_with (raised configuration "drive.letter.invalid" "Choose a drive from D: to Z:")
    else if any (bad_part u) parts
    then fail_with
        (raised configuration "drive.prefix.invalid" "Enter a valid relative Windows path")
    else if any (λ c. ltb c 32) location.prefix
    then fail_with
        (raised configuration "drive.prefix.invalid" "Control characters are not supported")
    else ok (record d {
      name = location.name;
      bucket = location.bucket;
      prefix = rstrip (λ c. c == b'/') location.prefix;
      letter = letter;
      local_prefix = local;
    })

unfoldable pub require_drive_id : S3Drive → Result ℕ
require_drive_id d = elim d.id [
  | none ↦ fail_with (raised configuration "drive.not_found" "Save the drive before connecting")
  | some id ↦ ok id
]

unfoldable pub uri : S3Drive → Text
uri d =
    codes "s3://"
    ++ (d.bucket ++ (codes "/" ++ (if is_empty d.prefix then [] else d.prefix ++ codes "/")))

unfoldable pub windows_path : S3Drive → Text
windows_path d = d.letter ++ (b':' ∷ 92 ∷ replace_char b'/' 92 d.local_prefix)
