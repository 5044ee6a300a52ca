-- ===== src/Domain/Patterns.antt =====
-- The compiled patterns of the domain modules and of the authentication service.
use aws_ssm_kit.Base.{ℕ, Bool, ◌&&◌, ◌||◌, leb, ◌==◌}
use aws_ssm_kit.Text.{Runtime, is_decimal, codes}
use aws_ssm_kit.Text.Regex.{Regex, one_of, seq, char, plus, optional, times, up_to, between, word}

abbrev pub is_lower_az : ℕ → Bool
is_lower_az c = leb b'a' c && leb c b'z'

abbrev pub is_upper_az : ℕ → Bool
is_upper_az c = leb b'A' c && leb c b'Z'

abbrev pub is_ascii_digit : ℕ → Bool
is_ascii_digit c = leb b'0' c && leb c b'9'

abbrev pub is_alphanumeric : ℕ → Bool
is_alphanumeric c = is_lower_az c || is_upper_az c || is_ascii_digit c

abbrev is_hex : ℕ → Bool
is_hex c = is_ascii_digit c || leb b'a' c && leb c b'f' || leb b'A' c && leb c b'F'

-- `^\d{12}$`
abbrev pub account_id_pattern : Runtime → Regex
account_id_pattern u = times 12 (one_of (is_decimal u))

-- `^[a-z]{2}(?:-gov)?-[a-z]+-\d$`
abbrev pub region_pattern : Runtime → Regex
region_pattern u = seq (times 2 (one_of is_lower_az)) (
    seq (optional (word (codes "-gov")))
      (seq (char b'-') (seq (plus (one_of is_lower_az)) (seq (char b'-') (one_of (is_decimal u))))))

-- `^[A-Z0-9]{16,128}$`
abbrev pub access_key_pattern : Regex
access_key_pattern = between 16 112 (one_of (λ c. is_upper_az c || is_ascii_digit c))

-- `^\d{6}$`
abbrev pub mfa_code_pattern : Runtime → Regex
mfa_code_pattern u = times 6 (one_of (is_decimal u))

-- `^[A-Za-z0-9](?:[A-Za-z0-9-]{0,61}[A-Za-z0-9])?$`
abbrev pub host_label_pattern : Regex
host_label_pattern = seq (one_of is_alphanumeric) (
    optional
      (seq (up_to 61 (one_of (λ c. is_alphanumeric c || c == b'-'))) (one_of is_alphanumeric)))

-- `^i-[0-9a-fA-F]{8,17}$`
abbrev pub instance_id_pattern : Regex
instance_id_pattern = seq (word (codes "i-")) (between 8 9 (one_of is_hex))

abbrev is_bucket_end : ℕ → Bool
is_bucket_end c = is_lower_az c || is_ascii_digit c

-- `[a-z0-9][a-z0-9.-]{1,61}[a-z0-9]`
abbrev pub bucket_pattern : Regex
bucket_pattern = seq (one_of is_bucket_end) (
    seq (between 1 60 (one_of (λ c. is_bucket_end c || c == b'.' || c == b'-')))
      (one_of is_bucket_end))

-- `\d{1,3}(?:\.\d{1,3}){3}`, which the bucket pattern looks ahead for and refuses
abbrev pub dotted_quad_pattern : Runtime → Regex
dotted_quad_pattern u =
    let octet = between 1 2 (one_of (is_decimal u)) in seq octet (times 3 (seq (char b'.') octet))
