-- ===== src/Domain/S3Location/Validity.antt =====
-- What the constructor of a location accepts, and when its result is a normal form.
use aws_ssm_kit.Base.{ℕ, ◌≤◌, ◌≡◌, ◌≢◌, Bool, ap, length, false, true, arith, ◌==◌}
use aws_ssm_kit.Errors.{ok}
use aws_ssm_kit.Text.{Runtime, is_empty, trim, has_char}
use aws_ssm_kit.Text.Strip.{
  leads, strip_idem, lstrip-leads, lstrip_of_leads, strip-lstrip, length-lstrip,
  length-strip_of_leads,
}
use aws_ssm_kit.Text.Search.{has_char-strip, has_char-lstrip}
use aws_ssm_kit.Domain.S3Location.{S3Location, s3_location, is_bucket, prefix_form}

-- The invariant of a location: stripped, named, owned, with a bucket name of S3, and a prefix that
-- begins with no slash and has no NUL.
pub record IsValid (u : Runtime) (l : S3Location) : Type 0 where
  pub name_trimmed : trim u l.name ≡ l.name
  pub named : is_empty l.name ≡ false
  pub bucket_trimmed : trim u l.bucket ≡ l.bucket
  pub bucket_named : is_bucket u l.bucket ≡ true
  pub owned : 1 ≤ l.profile_id
  pub prefix_relative : leads (λ c. c == b'/') l.prefix ≡ false
  pub prefix_plain : has_char 0 l.prefix ≡ false

-- A location that the constructor returns is valid, and has the arguments' id and profile.
pub s3_location-IsValid :
    (u : Runtime) (l : S3Location) {q : S3Location}
    → s3_location u l ≡ ok q
    → IsValid u q
      × (q.id ≡ l.id)
      × (q.profile_id ≡ l.profile_id)
      × (q.prefix ≡ prefix_form u l.prefix)
unfolding s3_location
s3_location-IsValid u l {q} h = ground (
  arith,
  strip_idem u.is_space l.name,
  strip_idem u.is_space l.bucket,
  lstrip-leads (λ c. c == b'/') (trim u l.prefix),
)

-- The constructor gives its result back unchanged where no white space followed the slashes that it
-- took off the prefix.
pub s3_location_idem :
    (u : Runtime) (l : S3Location) {q : S3Location}
    → s3_location u l ≡ ok q
    → leads u.is_space (prefix_form u l.prefix) ≡ false
    → s3_location u q ≡ ok q
unfolding s3_location
s3_location_idem u l {q} h e =
    let slash : ℕ → Bool = λ c. c == b'/' in
    ground (
      arith,
      strip_idem u.is_space l.name,
      strip_idem u.is_space l.bucket,
      strip-lstrip u.is_space slash l.prefix e,
      lstrip_of_leads slash (prefix_form u l.prefix) (lstrip-leads slash (trim u l.prefix)),
    )

-- Where white space follows those slashes, constructing the result again succeeds and changes its
-- prefix and nothing else.
pub s3_location_not_idem :
    (u : Runtime) (l : S3Location) {q : S3Location}
    → s3_location u l ≡ ok q
    → leads u.is_space (prefix_form u l.prefix) ≡ true
    → (s3_location u q ≡ ok (record q { prefix = prefix_form u q.prefix }))
      × (prefix_form u q.prefix ≢ q.prefix)
unfolding s3_location
s3_location_not_idem u l {q} h e = (again, λ kept_again. changed kept_again)
  where
    again : s3_location u q ≡ ok (record q { prefix = prefix_form u q.prefix })
    again = ground (
      arith,
      strip_idem u.is_space l.name,
      strip_idem u.is_space l.bucket,
      has_char-lstrip 0 (λ c. c == b'/') (trim u q.prefix),
      has_char-strip 0 u.is_space q.prefix,
    )

    changed : prefix_form u q.prefix ≢ q.prefix
    changed kept_again =
        let slash : ℕ → Bool = λ c. c == b'/' in
        let kept : q.prefix ≡ prefix_form u l.prefix = ground arith in
        let leading : leads u.is_space q.prefix ≡ true = rw kept e in
        omega (
          arith,
          ap length kept_again,
          length-lstrip slash (trim u q.prefix),
          length-strip_of_leads u.is_space q.prefix leading,
        )
