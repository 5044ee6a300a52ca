-- ===== src/Domain/ExecutionLog.antt =====
-- domain/execution_log.py: the enumerations of the execution history.
use aws_ssm_kit.Base.{◌||◌, if◌then◌else◌}
use aws_ssm_kit.Text.{Text, Runtime, codes, same, map_text}

pub data ExecutionLevel : Type 0 where
  debug info warning error : ExecutionLevel

pub data ExecutionResult : Type 0 where
  success warning failure cancelled : ExecutionResult

pub data ExecutionPhase : Type 0 where
  started progress completed : ExecutionPhase

unfoldable pub from_legacy : Runtime → Text → ExecutionResult
from_legacy u value =
    let name = map_text u.upper value in
    if same name (codes "FAILURE") || same name (codes "FAILED") || same name (codes "ERROR")
    then ExecutionResult.failure
    else if same name (codes "CANCELLED")
    then ExecutionResult.cancelled
    else if same name (codes "WARNING") || same name (codes "WARN") || same name (codes "NOTICE")
    then ExecutionResult.warning
    else ExecutionResult.success
