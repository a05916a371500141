-- ===== src/Hyper.antt =====
-- lib/rust/hyper/hyper.h: the constants and enums of hyper's C interface. The functions that it
-- declares are the constructors of `Calls.Call`; their answers are the fields of `Env.Env`.
pub mod Calls
pub mod Env
pub mod Ledger
pub mod Sample
pub mod Prompt
use llgoexamples.Base.{ℕ}

-- The return codes of hyper's functions, in the order of the enum.
pub data Code : Type 0 where
  ok error invalid_arg unexpected_eof aborted_by_callback : Code
  feature_not_enabled invalid_peer_message : Code

-- The enum's numbers: a code is true in an `if` unless it is HYPERE_OK, which is 0.
abbrev pub code_number : Code → ℕ
code_number ok = 0
code_number error = 1
code_number invalid_arg = 2
code_number unexpected_eof = 3
code_number aborted_by_callback = 4
code_number feature_not_enabled = 5
code_number invalid_peer_message = 6

-- What kind of value a finished task holds.
pub data TaskReturnType : Type 0 where
  task_empty task_error task_clientconn task_response task_buf : TaskReturnType

abbrev pub iter_continue : ℕ
iter_continue = 0

abbrev pub iter_break : ℕ
iter_break = 1

abbrev pub io_pending : ℕ
io_pending = 4294967295

abbrev pub io_error : ℕ
io_error = 4294967294

abbrev pub poll_ready : ℕ
poll_ready = 0

abbrev pub poll_pending : ℕ
poll_pending = 1

abbrev pub poll_error : ℕ
poll_error = 3
