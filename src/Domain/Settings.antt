-- ===== src/Domain/Settings.antt =====
-- domain/app_settings.py: local settings.
use aws_ssm_kit.Base.{if◌then◌else◌}
use aws_ssm_kit.Errors.{Result, ok, fail_with, raised, configuration}
use aws_ssm_kit.Text.{Text, Runtime, codes, same, is_empty, trim, map_text}

pub data LogLevel : Type 0 where
  debug info warning error : LogLevel

-- `LogLevel.parse`; the text of the technical cause is left out of the model.
unfoldable pub parse : Runtime → Text → Result LogLevel
parse u value =
    let name = map_text u.upper (trim u value) in
    if same name (codes "DEBUG")
    then ok debug
    else if same name (codes "INFO")
    then ok info
    else if same name (codes "WARNING")
    then ok warning
    else if same name (codes "ERROR")
    then ok error
    else fail_with (raised configuration "settings.log_level.invalid" "Unsupported log level")

pub record AppSettings : Type 0 where
  pub log_directory : Text
  pub log_level : LogLevel

-- `AppSettings(…)` with `__post_init__`
unfoldable pub app_settings : Runtime → AppSettings → Result AppSettings
app_settings u s =
    if is_empty (trim u s.log_directory)
    then fail_with
        (raised configuration "settings.log_directory.required" "Log directory must not be empty")
    else ok s
