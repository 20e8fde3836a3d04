-- ===== src/A2/Errors.antt =====
-- The error codes of a2/interpreter.h and the messages of a2/interpreter.c.
use comp310_assignments.Prelude.{ℕ, Text, codes, ◌==◌, if◌then◌else◌}

-- `enum Error`, as far as it is used here, with the messages of `error_msgs`.
pub data Error : Type 0 where
  file_does_not_exist file_error scheduling_error too_many_tokens too_few_tokens bad_command
        error_cd error_mkdir :
      Error

unfoldable pub error_code : Error → ℕ
error_code file_does_not_exist = 1
error_code file_error = 2
error_code scheduling_error = 5
error_code too_many_tokens = 6
error_code too_few_tokens = 7
error_code bad_command = 9
error_code error_cd = 10
error_code error_mkdir = 11

unfoldable pub error_msg : Error → Text
error_msg file_does_not_exist = codes "file does not exist"
error_msg file_error = codes "file could not be loaded"
error_msg scheduling_error = codes "scheduling policy error"
error_msg too_many_tokens = codes "too many tokens"
error_msg too_few_tokens = codes "too few tokens"
error_msg bad_command = codes "unknown name"
error_msg error_cd = codes "cd"
error_msg error_mkdir = codes "mkdir"

-- The error of a code that process_initialize or schedule_by_policy returns.
unfoldable pub error_of : ℕ → Error
error_of c = if c == 1 then file_does_not_exist else if c == 2 then file_error else scheduling_error
