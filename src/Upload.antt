-- ===== src/Upload.antt =====
-- lib/rust/hyper/examples/upload.c: a POST request whose body is a file. What the file shares word
-- for word with client.c is taken from Conn, Connect and Client.
pub mod Shared
pub mod Body
pub mod Handlers
pub mod Ownership
pub mod Progress
pub mod Loop
pub mod Run
pub mod Start
pub mod Whole
pub mod Main
pub mod Transfers
pub mod Content
pub mod Sent
pub mod Returns
pub mod Succeeds
mod Examples
use llgoexamples.Base.{
  ℕ, zero, suc, String, not, Option, none, some, List, [], ◌∷◌, Bytes, SysResult, ret, errno, codes,
  get_or, null,
}
use llgoexamples.Hyper.{
  TaskReturnType, task_error, task_clientconn, task_response, task_empty, task_buf, poll_ready,
  poll_error,
}
use llgoexamples.Hyper.Calls.{Arg, Call, Handle, Headers}
use llgoexamples.Hyper.Env.{Env, Reaction}
use llgoexamples.World.{M, pure, ◌>>=◌, ◌>>◌, call, ask, create, branch, Verdict, Outcome}
use llgoexamples.Upload.Shared.{read_cb, write_cb, wait_io, connect_to}
use llgoexamples.Client.{
  Setup, ExampleId, not_set, handshake, send, resp_body, example_send, example_resp_body,
  example_id, failed, printf, foreach_header, take_value, set_up,
}
pub use llgoexamples.Upload.Body.{
  UploadBody, Callback, poll_req_upload, print_informational, keeping,
}
unfoldable pub use llgoexamples.Upload.Body.{
  upload_result, poll_req_upload_cb, print_informational_cb,
}
unfoldable pub use llgoexamples.Upload.Handlers.{
  send_request, set_uri, prepare_request, task_failed, on_handshake, start_body, read_response,
  on_send, write_chunk, finish, on_resp_body,
}

-- What `main` read from its arguments, and opened and allocated before the loop.
pub record Context : Type 0 where
  pub host : Bytes
  pub path : Bytes
  pub upload : UploadBody
  pub setup : Setup

module _ (env : Env Callback) (x : Context) where
  -- The `switch` over a finished task.
  unfoldable pub on_task : ℕ → ℕ → Option ExampleId → M (Verdict × ℕ)
  unfolding on_handshake on_send on_resp_body
  on_task body task (some handshake) = do
    call (Call.task_type task)
    ty ← ask (λ log. env.task_type log task)
    keeping body (on_handshake env x.host x.path x.setup task ty)
  on_task body task (some send) = do
    call (Call.task_type task)
    ty ← ask (λ log. env.task_type log task)
    on_send env x.setup body task ty
  on_task body task (some resp_body) = do
    call (Call.task_type task)
    ty ← ask (λ log. env.task_type log task)
    keeping body (on_resp_body env x.upload x.setup body task ty)
  on_task body task (some not_set) = do call (Call.task_free task); pure (Verdict.next, body)
  on_task body task none = pure (Verdict.next, body)

  unfoldable pub react : ℕ → Reaction Callback → M (Verdict × ℕ)
  unfolding on_task llgoexamples.Conn.read_cb llgoexamples.Conn.write_cb llgoexamples.Conn.wait_io
      poll_req_upload_cb print_informational_cb
  react body (Reaction.reads n) = do _ ← read_cb env n; pure (Verdict.next, body)
  react body (Reaction.writes buf) = do _ ← write_cb env buf; pure (Verdict.next, body)
  react body (Reaction.calls poll_req_upload) = do
    _ ← poll_req_upload_cb env x.upload
    pure (Verdict.next, body)
  react body (Reaction.calls (print_informational http_status)) = do
    print_informational_cb http_status
    pure (Verdict.next, body)
  react body Reaction.waits = do
    call (Call.executor_poll_none x.setup.exec)
    keeping body (wait_io env)
  react body (Reaction.finished task) = do
    call (Call.executor_poll x.setup.exec task)
    call (Call.task_userdata task)
    userdata ← ask (λ log. env.task_userdata log task)
    on_task body task (example_id userdata)

  unfoldable pub step : ℕ → M (Verdict × ℕ)
  unfolding react
  step body = do reaction ← ask env.executor_poll; react body reaction

  abbrev pub conclude : (ℕ → M Outcome) → Verdict × ℕ → M Outcome
  conclude again (Verdict.next, body) = again body
  conclude again (Verdict.exit code, body) = pure (Outcome.exited code)
  conclude again (Verdict.abort, body) = pure Outcome.aborted

  unfoldable pub run : ℕ → ℕ → M Outcome
  run zero body = pure Outcome.running
  run (suc fuel) body = do v ← step body; conclude (run fuel) v

module _ (env : Env Callback) (fuel : ℕ) (host path : Bytes) where
  -- `file` is the descriptor of the opened file.
  unfoldable pub connected_main : ℕ → Option ℕ → M Outcome
  unfolding set_up run
  connected_main file none = pure (Outcome.exited 1)
  connected_main file (some fd) = do
    printf "connected to %s, now upload to %s\n" (Arg.text host ∷ Arg.text path ∷ [])
    nonblocking ← ask (λ log. env.fcntl_nonblock log fd)
    call (Call.fcntl_nonblock fd)
    branch (not nonblocking)
        (do printf "failed to set socket to non-blocking\n" []; pure (Outcome.exited 1))
        (do
          buf ← create env.malloc Call.malloc
          s ← set_up env fd
          run env
              (record {
                host = host;
                path = path;
                upload = record { fd = file; buf = buf; len = 8192 };
                setup = s;
              })
              fuel null)

  unfoldable pub opened_main : Bytes → SysResult ℕ → M Outcome
  unfolding connected_main llgoexamples.Connect.connect_to
  opened_main port (errno e) = do
    printf "error opening file to upload: %s\n" (Arg.text (env.strerror e) ∷ [])
    pure (Outcome.exited 1)
  opened_main port (ret file) = do
    printf "connecting to port %s on %s...\n" (Arg.text port ∷ Arg.text host ∷ [])
    fd ← connect_to env host port
    connected_main file fd

-- `argv` without the program's name.
unfoldable pub main : Env Callback → ℕ → List Bytes → M Outcome
unfolding opened_main
main env fuel [] = do printf "Pass a file path as the first argument.\n" []; pure (Outcome.exited 1)
main env fuel (file ∷ argv) = do
  r ← ask (λ log. env.open_file log file)
  call (Call.open_file file r)
  opened_main env fuel (get_or argv 0 (codes "httpbin.org")) (get_or argv 2 (codes "/post"))
      (get_or argv 1 (codes "80")) r
