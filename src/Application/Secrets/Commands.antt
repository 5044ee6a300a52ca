-- ===== src/Application/Secrets/Commands.antt =====
-- application/secrets_service.py: the commands that a relay runs to look a secret up.
pub mod Quoted
use aws_ssm_kit.Base.{ℕ, Bool, ◌||◌, List, [], ◌∷◌, ◌++◌, ◌==◌, any, if◌then◌else◌}
use aws_ssm_kit.Errors.{Result, ok, fail_with, raised, configuration, ◌then_do◌}
use aws_ssm_kit.Text.{Text, Runtime, is_decimal, codes, has_part, map_text}
use aws_ssm_kit.Text.Regex.{Regex, one_of, seq, alt, plus, times, between, char, word, fullmatch}
use aws_ssm_kit.Domain.Patterns.{is_alphanumeric, is_lower_az, is_ascii_digit}

-- `[A-Za-z0-9/_+=.@-]`
abbrev pub is_name_char : ℕ → Bool
is_name_char c =
    is_alphanumeric c
    || c == b'/'
    || c == b'_'
    || c == b'+'
    || c == b'='
    || c == b'.'
    || c == b'@'
    || c == b'-'

-- `_SECRET_NAME`
unfoldable pub secret_name_pattern : Regex
secret_name_pattern = between 1 511 (one_of is_name_char)

abbrev pub partition_pattern : Regex
partition_pattern =
    alt (word (codes "aws")) (alt (word (codes "aws-cn")) (word (codes "aws-us-gov")))

abbrev pub region_part_pattern : Regex
region_part_pattern = plus (one_of (λ c. is_lower_az c || is_ascii_digit c || c == b'-'))

-- `_SECRET_ARN`
unfoldable pub secret_arn_pattern : Runtime → Regex
unfolding secret_name_pattern
secret_arn_pattern u = seq (word (codes "arn:")) (
    seq partition_pattern (
      seq (word (codes ":secretsmanager:")) (
        seq region_part_pattern (
          seq (char b':') (
            seq (times 12 (one_of (is_decimal u)))
              (seq (word (codes ":secret:")) secret_name_pattern))))))

-- `_validate_remote_secret_id`
unfoldable pub validate_remote_secret_id : Runtime → Text → Result (Unit {0})
unfolding secret_name_pattern secret_arn_pattern
validate_remote_secret_id u id =
    if fullmatch secret_name_pattern id || fullmatch (secret_arn_pattern u) id
    then ok tt
    else fail_with (
        raised configuration "secret.id.remote.invalid"
          "Remote Secret ID contains unsupported characters or is not a valid ARN")

-- `_REMOTE_SECRET_COMMAND.format(secret_id=…)`
abbrev pub before_id : Text
before_id = codes "aws secretsmanager get-secret-value --secret-id '"

abbrev pub after_id : Text
after_id = codes "' --query SecretString --output text"

unfoldable pub build_remote_secret_command : Runtime → Text → Result Text
unfolding validate_remote_secret_id
build_remote_secret_command u id =
    validate_remote_secret_id u id then_do λ _. ok (before_id ++ id ++ after_id)

abbrev pub windows_shell : Text
windows_shell = codes "powershell.exe -NoLogo -NoExit -Command \""

abbrev pub unix_shell : Text
unix_shell = codes "; exec \"${SHELL:-/bin/sh}\" -l"

abbrev pub unix_names : List Text
unix_names = codes "linux" ∷ codes "ubuntu" ∷ codes "unix" ∷ []

unfoldable pub wrap_command : Runtime → Text → Text → Result Text
wrap_command u platform_name command =
    let platform = map_text u.casefold platform_name in
    if has_part (codes "windows") platform
    then ok (windows_shell ++ command ++ (b'"' ∷ []))
    else if any (λ name. has_part name platform) unix_names
    then ok (command ++ unix_shell)
    else fail_with (
        raised configuration "secret.relay.platform.unsupported"
          "The selected EC2 relay platform cannot keep an interactive command session open")

unfoldable pub build_persistent_remote_secret_command : Runtime → Text → Text → Result Text
unfolding build_remote_secret_command wrap_command
build_persistent_remote_secret_command u id platform_name =
    build_remote_secret_command u id then_do wrap_command u platform_name

-- `_supported_platform`
unfoldable pub supported_platform : Runtime → Text → Bool
supported_platform u platform_name =
    let normalized = map_text u.casefold platform_name in
    any (λ name. has_part name normalized) (codes "windows" ∷ unix_names)
