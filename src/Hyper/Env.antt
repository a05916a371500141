-- ===== src/Hyper/Env.antt =====
-- What is not under this repository's C code: hyper behind lib/rust/hyper/hyper.h, the C library
-- and the system. Each answer may depend on all that was called before. `Laws` states the
-- documented behaviour that the programs rely on.
use llgoexamples.Base.{
  ℕ, ◌≡◌, ◌≢◌, ◌≤◌, Bool, true, false, Option, some, List, [], ◌∷◌, Bytes, String, SysResult, ret,
  length, null, ◌==◌, if◌then◌else◌,
}
use llgoexamples.Hyper.{Code, TaskReturnType, task_error, task_clientconn, task_response, task_buf}
use llgoexamples.Hyper.Calls.{AddrInfo, Arg, Handle, Call, Log}
use llgoexamples.Hyper.Ledger.{alive}

-- What `hyper_executor_poll` does next: it runs a callback that the program registered, returns
-- NULL because every task waits, or returns a finished task. `C` is the type of the callbacks
-- other than the transport's.
pub data Reaction (C : Type 0) : Type 0 where
  reads : ℕ → Reaction C
  writes : Bytes → Reaction C
  calls : C → Reaction C
  waits : Reaction C
  finished : ℕ → Reaction C

pub record Env (C : Type 0) : Type 0 where
  pub getaddrinfo : Log → Bytes → Bytes → Option (ℕ × List AddrInfo)
  pub socket : Log → AddrInfo → SysResult ℕ
  pub connect : Log → ℕ → AddrInfo → Bool
  pub fcntl_nonblock : Log → ℕ → Bool
  pub open_file : Log → Bytes → SysResult ℕ
  pub malloc : Log → ℕ
  pub read : Log → ℕ → ℕ → SysResult Bytes
  pub write : Log → ℕ → Bytes → SysResult ℕ
  pub select : Log → ℕ → Bool → Bool → SysResult (Bool × Bool)
  pub version : Bytes
  pub strerror : ℕ → Bytes
  pub io_new : Log → ℕ
  pub executor_new : Log → ℕ
  pub options_new : Log → ℕ
  pub executor_poll : Log → Reaction C
  pub task_type : Log → ℕ → TaskReturnType
  pub task_value : Log → ℕ → ℕ
  pub task_userdata : Log → ℕ → ℕ
  pub context_waker : Log → ℕ
  pub clientconn_handshake : Log → ℕ
  pub clientconn_send : Log → ℕ
  pub request_new : Log → ℕ
  pub request_set_method : Log → ℕ → Bytes → Code
  pub request_set_uri : Log → ℕ → Bytes → Code
  pub headers_set : Log → ℕ → Bytes → Bytes → Code
  pub executor_push : Log → ℕ → ℕ → Code
  pub response_status : Log → ℕ → ℕ
  pub response_reason_phrase : Log → ℕ → Bytes
  pub response_headers : Log → ℕ → List (Bytes × Bytes)
  pub response_body : Log → ℕ
  pub body_new : Log → ℕ
  pub body_foreach : Log → ℕ
  pub body_data : Log → ℕ
  pub buf_copy : Log → ℕ
  pub buf_bytes : Log → ℕ → Bytes
  pub error_code : Log → ℕ → Code
  pub error_print : Log → ℕ → ℕ → Bytes

-- The userdata that was last set on a task; freeing the task forgets it.
abbrev pub userdata_of : Log → ℕ → ℕ
userdata_of [] t = null
userdata_of (Call.task_set_userdata s u ∷ log) t = if s == t then u else userdata_of log t
userdata_of (Call.task_free s ∷ log) t = if s == t then null else userdata_of log t
userdata_of (_ ∷ log) t = userdata_of log t

-- The handle that the value of a task of each type is; a task with no value has none.
abbrev pub value_handle : TaskReturnType → ℕ → Option Handle
value_handle task_error p = some (Handle.error p)
value_handle task_clientconn p = some (Handle.clientconn p)
value_handle task_response p = some (Handle.response p)
value_handle task_buf p = some (Handle.buf p)
value_handle TaskReturnType.task_empty p = Option.none

-- A pointer that is handed out is not NULL, and is none that the caller still owns.
abbrev pub IsFresh : (ℕ → Handle) → (Log → ℕ) → Type 0
IsFresh kind answer = (log : Log) → (answer log ≢ null) × (alive log (kind (answer log)) ≡ false)

pub record Laws {C : Type 0} (env : Env C) : Type 0 where
  -- memory and descriptors
  pub malloc_fresh : IsFresh Handle.mem env.malloc
  pub socket_fresh :
      (log : Log) (a : AddrInfo) (s : ℕ)
      → env.socket log a ≡ ret s
      → alive log (Handle.fd s) ≡ false
  pub open_fresh :
      (log : Log) (f : Bytes) (s : ℕ)
      → env.open_file log f ≡ ret s
      → alive log (Handle.fd s) ≡ false
  pub getaddrinfo_fresh :
      (log : Log) (h p : Bytes) (a : ℕ) (l : List AddrInfo)
      → env.getaddrinfo log h p ≡ some (a, l)
      → (a ≢ null) × (alive log (Handle.addrs a) ≡ false)
  -- `read` fills at most the buffer
  pub read_fits : (log : Log) (s n : ℕ) (bs : Bytes) → env.read log s n ≡ ret bs → length bs ≤ n
  -- `write` writes at most what it is given
  pub write_fits :
      (log : Log) (s : ℕ) (bs : Bytes) (n : ℕ) → env.write log s bs ≡ ret n → n ≤ length bs
  -- `select` reports only descriptors that it was asked for
  pub select_asked :
      (log : Log) (s : ℕ) (r w a b : Bool)
      → env.select log s r w ≡ ret (a, b)
      → (a ≡ true → r ≡ true) × (b ≡ true → w ≡ true)
  -- hyper
  pub io_new_fresh : IsFresh Handle.io env.io_new
  pub executor_new_fresh : IsFresh Handle.executor env.executor_new
  pub options_new_fresh : IsFresh Handle.options env.options_new
  pub context_waker_fresh : IsFresh Handle.waker env.context_waker
  pub clientconn_handshake_fresh : IsFresh Handle.task env.clientconn_handshake
  pub clientconn_send_fresh : IsFresh Handle.task env.clientconn_send
  pub request_new_fresh : IsFresh Handle.request env.request_new
  pub response_body_fresh : IsFresh Handle.body env.response_body
  pub body_new_fresh : IsFresh Handle.body env.body_new
  pub body_foreach_fresh : IsFresh Handle.task env.body_foreach
  pub body_data_fresh : IsFresh Handle.task env.body_data
  pub buf_copy_fresh : IsFresh Handle.buf env.buf_copy
  -- the value of a finished task is new to the caller
  pub task_value_fresh :
      (log : Log) (t : ℕ) (h : Handle)
      → value_handle (env.task_type log t) (env.task_value log t) ≡ some h
      → (env.task_value log t ≢ null) × (alive log h ≡ false)
  -- printing does not change a task
  pub task_type_kept :
      (log : Log) (format : String) (args : List Arg) (t : ℕ)
      → env.task_type (Call.printf format args ∷ log) t ≡ env.task_type log t
  -- `hyper_task_userdata` gives back what `hyper_task_set_userdata` stored
  pub userdata_kept : (log : Log) (t : ℕ) → env.task_userdata log t ≡ userdata_of log t
  -- the executor hands over a task
  pub poll_returns :
      (log : Log) (t : ℕ)
      → env.executor_poll log ≡ finished t
      → (t ≢ null) × (alive log (Handle.task t) ≡ false)
