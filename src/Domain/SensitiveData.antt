-- ===== src/Domain/SensitiveData.antt =====
-- domain/sensitive_data.py: which names carry values that are masked.
use aws_ssm_kit.Base.{Bool, true, ◌||◌, List, [], ◌∷◌, ◌==◌, any}
use aws_ssm_kit.Text.{Text, Runtime, codes, has_part, map_text, replace_char}
use aws_ssm_kit.Text.Regex.{Regex, empty, one_of, seq, alt, star, optional, char, word, fullmatch}

abbrev pub redacted : Text
redacted = codes "***REDACTED***"

abbrev pub sensitive_parts : List Text
sensitive_parts =
    codes "token"
    ∷ codes "key"
    ∷ codes "access_key"
    ∷ codes "secret"
    ∷ codes "session_token"
    ∷ codes "sessiontoken"
    ∷ codes "tokenvalue"
    ∷ codes "streamurl"
    ∷ codes "password"
    ∷ codes "passwd"
    ∷ codes "mfa"
    ∷ codes "api_key"
    ∷ codes "apikey"
    ∷ codes "private_key"
    ∷ []

abbrev anything : Regex
anything = star (one_of (λ _. true))

-- The texts in which `search` finds `(?:^|[_\-.])key$|Key$`; `$` also stands before a last newline.
abbrev pub key_word_pattern : Regex
key_word_pattern =
    seq
      (alt
        (seq (alt empty (seq anything (one_of (λ c. c == b'_' || c == b'-' || c == b'.'))))
          (word (codes "key")))
        (seq anything (word (codes "Key"))))
      (optional (char 10))

unfoldable pub is_sensitive_name : Runtime → Text → Bool
is_sensitive_name u name =
    let normalized = replace_char b'-' b'_' (map_text u.lower name) in
    any (λ part. has_part part normalized) sensitive_parts || fullmatch key_word_pattern name
