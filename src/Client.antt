-- ===== src/Client.antt =====
-- lib/rust/hyper/examples/client.c: a GET request over hyper's executor. `main` is cut where its
-- control flow branches: the handlers of the `switch`, a round of the loop, the set-up. What a
-- handler returns says whether the loop goes on.
pub mod Prepare
pub mod Handlers
pub mod Ownership
pub mod Progress
pub mod Loop
pub mod Run
pub mod Start
pub mod Main
pub mod Returns
pub mod Succeeds
mod Examples
use llgoexamples.Base.{
  ℕ, zero, suc, Bool, not, Option, none, some, List, [], ◌∷◌, Bytes, String, codes, get_or, null,
  is_null, ◌==◌,
}
use llgoexamples.Hyper.{
  Code, code_number, TaskReturnType, task_error, task_clientconn, task_response, task_empty,
  iter_continue,
}
use llgoexamples.Hyper.Calls.{Arg, Call, Handle, Headers}
use llgoexamples.Hyper.Env.{Env, Reaction}
use llgoexamples.World.{
  M, pure, ◌>>=◌, ◌>>◌, call, ask, create, set_conn, branch, when, Verdict, Outcome,
}
use llgoexamples.Conn.{read_cb, write_cb, wait_io, free_conn_data}
use llgoexamples.Connect.{connect_to}
pub use llgoexamples.Client.Prepare.{
  Callback, print_each_chunk, ExampleId, not_set, handshake, send, resp_body, example_handshake,
  example_send, example_resp_body, example_id, failed, Setup, printf, take_value,
}
unfoldable pub use llgoexamples.Client.Prepare.{
  print_each_header, foreach_header, print_each_chunk_cb, set_up,
}
unfoldable pub use llgoexamples.Client.Handlers.{
  print_error, fail, task_failed, send_request, set_uri, prepare_request, on_handshake, start_body,
  read_response, on_send, finish, on_resp_body,
}

module _ (env : Env Callback) where
  -- The `switch` over a finished task.
  unfoldable pub on_task : Bytes → Bytes → Setup → ℕ → Option ExampleId → M Verdict
  unfolding on_handshake on_send on_resp_body
  on_task host path s task (some handshake) = do
    call (Call.task_type task)
    ty ← ask (λ log. env.task_type log task)
    on_handshake env host path s task ty
  on_task host path s task (some send) = do
    call (Call.task_type task)
    ty ← ask (λ log. env.task_type log task)
    on_send env s task ty
  on_task host path s task (some resp_body) = do
    call (Call.task_type task)
    ty ← ask (λ log. env.task_type log task)
    on_resp_body env s task ty
  on_task host path s task (some not_set) = do call (Call.task_free task); pure Verdict.next
  on_task host path s task none = pure Verdict.next

  -- What the executor does when it is polled, and what the loop does with its answer.
  unfoldable pub react : Bytes → Bytes → Setup → Reaction Callback → M Verdict
  unfolding on_task read_cb write_cb wait_io print_each_chunk_cb
  react host path s (Reaction.reads n) = do _ ← read_cb env n; pure Verdict.next
  react host path s (Reaction.writes buf) = do _ ← write_cb env buf; pure Verdict.next
  react host path s (Reaction.calls (print_each_chunk chunk)) = do
    _ ← print_each_chunk_cb chunk
    pure Verdict.next
  react host path s Reaction.waits = do call (Call.executor_poll_none s.exec); wait_io env
  react host path s (Reaction.finished task) = do
    call (Call.executor_poll s.exec task)
    call (Call.task_userdata task)
    userdata ← ask (λ log. env.task_userdata log task)
    on_task host path s task (example_id userdata)

  unfoldable pub step : Bytes → Bytes → Setup → M Verdict
  unfolding react
  step host path s = do reaction ← ask env.executor_poll; react host path s reaction

  -- What `main` has returned after at most `fuel` steps of its loops.
  abbrev pub conclude : M Outcome → Verdict → M Outcome
  conclude again Verdict.next = again
  conclude again (Verdict.exit code) = pure (Outcome.exited code)
  conclude again Verdict.abort = pure Outcome.aborted

  unfoldable pub run : ℕ → Bytes → Bytes → Setup → M Outcome
  run zero host path s = pure Outcome.running
  run (suc fuel) host path s = do v ← step host path s; conclude (run fuel host path s) v

  unfoldable pub connected_main : ℕ → Bytes → Bytes → Option ℕ → M Outcome
  unfolding set_up run
  connected_main fuel host path none = pure (Outcome.exited 1)
  connected_main fuel host path (some fd) = do
    printf "connected to %s, now get %s\n" (Arg.text host ∷ Arg.text path ∷ [])
    nonblocking ← ask (λ log. env.fcntl_nonblock log fd)
    call (Call.fcntl_nonblock fd)
    branch (not nonblocking)
        (do printf "failed to set socket to non-blocking\n" []; pure (Outcome.exited 1))
        (do s ← set_up env fd; run fuel host path s)

  -- `argv` without the program's name, `argv[0]` in C.
  unfoldable pub main : ℕ → List Bytes → M Outcome
  unfolding connected_main connect_to
  main fuel argv = do
    let host = get_or argv 0 (codes "httpbin.org")
    let port = get_or argv 1 (codes "80")
    let path = get_or argv 2 (codes "/")
    printf "connecting to port %s on %s...\n" (Arg.text port ∷ Arg.text host ∷ [])
    fd ← connect_to env host port
    connected_main fuel host path fd
