-- ===== src/Client/Prepare.antt =====
-- The types, callbacks and the set-up (163-188) of lib/rust/hyper/examples/client.c.
use llgoexamples.Base.{
  ℕ, zero, suc, Bool, not, Option, none, some, List, [], ◌∷◌, Bytes, String, null, ◌==◌,
}
use llgoexamples.Hyper.{Code, code_number, iter_continue}
use llgoexamples.Hyper.Calls.{Arg, Call, Handle}
use llgoexamples.Hyper.Env.{Env}
use llgoexamples.World.{M, pure, ◌>>=◌, ◌>>◌, call, create, set_conn, when}

-- The callback of this program that hyper calls while it polls, with the bytes of the chunk.
pub data Callback : Type 0 where
  print_each_chunk : Bytes → Callback

pub data ExampleId : Type 0 where
  not_set handshake send resp_body : ExampleId

abbrev pub example_handshake : ℕ
example_handshake = 1

abbrev pub example_send : ℕ
example_send = 2

abbrev pub example_resp_body : ℕ
example_resp_body = 3

-- The cast of a task's userdata; no case of the `switch` is for another number.
abbrev pub example_id : ℕ → Option ExampleId
example_id zero = some not_set
example_id (suc zero) = some handshake
example_id (suc (suc zero)) = some send
example_id (suc (suc (suc zero))) = some resp_body
example_id (suc (suc (suc (suc n)))) = none

-- A code is true as a condition unless it is HYPERE_OK.
abbrev pub failed : Code → Bool
failed code = not (code_number code == 0)

-- What `main` allocated before the loop: the struct conn_data and the executor.
pub record Setup : Type 0 where
  pub at : ℕ
  pub exec : ℕ

abbrev pub printf : String → List Arg → M (Unit {0})
printf format args = call (Call.printf format args)

unfoldable pub print_each_header : Bytes → Bytes → M ℕ
print_each_header name value = do
  printf "%.*s: %.*s\n" (Arg.text name ∷ Arg.text value ∷ [])
  pure iter_continue

-- `hyper_headers_foreach`: the callback at each header, until it does not return "continue".
unfoldable pub foreach_header : List (Bytes × Bytes) → M (Unit {0})
unfolding print_each_header
foreach_header [] = pure tt
foreach_header ((name, value) ∷ rest) = do
  r ← print_each_header name value
  when (r == iter_continue) (foreach_header rest)

unfoldable pub print_each_chunk_cb : Bytes → M ℕ
print_each_chunk_cb chunk = do call (Call.write_stdout chunk); pure iter_continue

-- `hyper_task_value`, cast to the pointer that `kind` names.
abbrev pub take_value : {C : Type 0} → Env C → ℕ → (ℕ → Handle) → M ℕ
take_value env task kind =
    create (λ log. env.task_value log task) (λ p. Call.task_value task (kind p))

-- From the socket to the handshake: the connection's data, the transport, the executor.
unfoldable pub set_up : {C : Type 0} → Env C → ℕ → M Setup
set_up env fd = do
  at ← create env.malloc Call.malloc
  set_conn (record { fd = fd; read_waker = null; write_waker = null })
  io ← create env.io_new Call.io_new
  call (Call.io_set_userdata io at)
  call (Call.io_set_read io)
  call (Call.io_set_write io)
  printf "http handshake (hyper v%s) ...\n" (Arg.text env.version ∷ [])
  exec ← create env.executor_new Call.executor_new
  opts ← create env.options_new Call.options_new
  call (Call.options_exec opts exec)
  task ← create env.clientconn_handshake (Call.clientconn_handshake io opts)
  call (Call.task_set_userdata task example_handshake)
  call (Call.executor_push exec task)
  pure (record { at = at; exec = exec })
