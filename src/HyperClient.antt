-- ===== src/HyperClient.antt =====
-- rust/hyper/_demo/hyper_client/hyper.go: the port of client.c to Go, which collects the body of the
-- response. Its functions may panic, and then nothing of what follows is run.
pub mod State
pub mod Memory
pub mod Blocks
pub mod Transport
pub mod Sockets
pub mod Body
pub mod Collected
pub mod Keeps
pub mod Gathers
pub mod Agrees
pub mod Awaited
pub mod Stages
pub mod Returns
pub mod Calm
pub mod Succeeds
pub mod Printed
pub mod Unexpected
pub mod Peer
pub mod Handlers
mod Examples
use llgoexamples.Base.{
  ℕ, zero, suc, Bool, true, false, Option, none, some, [], ◌∷◌, Bytes, codes, null,
}
use llgoexamples.Hyper.Calls.{Arg, Call, Headers}
use llgoexamples.Hyper.Env.{Env, Reaction}
use llgoexamples.Client.Prepare.{
  ExampleId, not_set, handshake, send, resp_body, example_handshake, example_id, failed,
}
use llgoexamples.HyperClient.State.{
  Response, Go, ◌>>=◌, ◌>>◌, pure, panic, call, ask, create, branch, when, get_response, set_conn,
}
use llgoexamples.HyperClient.Transport.{read_call_back, write_call_back, wait_for_io}
use llgoexamples.HyperClient.Sockets.{c_string, connect_to}
use llgoexamples.HyperClient.Body.{append_to_response_body, print_body}
use llgoexamples.HyperClient.Handlers.{Callback, on_handshake, on_send, on_resp_body}

-- `&[]byte(text)[0]`
abbrev pub first_byte : Bytes → Go (Unit {0})
first_byte [] = panic "index out of range [0] with length 0" []
first_byte (b ∷ bs) = pure tt

-- What `main` does with the response; whether there is one.
unfoldable pub show : Option Response → Go Bool
unfolding print_body
show none = pure false
show (some resp) = do
  call (Call.println (Arg.int resp.status ∷ Arg.text resp.message ∷ []))
  print_body
  pure true

module _ (env : Env Callback) where
  -- The `switch` over a finished task.
  unfoldable pub on_task : ℕ → ℕ → ℕ → Option ExampleId → Go Bool
  unfolding on_handshake on_send on_resp_body
  on_task exec req task (some handshake) = on_handshake env exec req task
  on_task exec req task (some send) = on_send env exec task
  on_task exec req task (some resp_body) = on_resp_body env exec task
  on_task exec req task (some not_set) = do call (Call.task_free task); pure false
  on_task exec req task none = pure false

  -- What the executor does when it is polled, and what the loop does with its answer.
  unfoldable pub react : ℕ → ℕ → Reaction Callback → Go Bool
  unfolding on_task read_call_back write_call_back wait_for_io append_to_response_body
  react exec req (Reaction.reads n) = do _ ← read_call_back env n; pure false
  react exec req (Reaction.writes buf) = do _ ← write_call_back env buf; pure false
  react exec req (Reaction.calls (Callback.append_to_response_body chunk)) = do
    _ ← append_to_response_body env.malloc chunk
    pure false
  react exec req Reaction.waits = do
    call (Call.executor_poll_none exec)
    wait_for_io env
    pure false
  react exec req (Reaction.finished task) = do
    call (Call.executor_poll exec task)
    userdata ← ask (λ log. env.task_userdata log task)
    on_task exec req task (example_id userdata)

  unfoldable pub step : ℕ → ℕ → Go Bool
  unfolding react
  step exec req = do reaction ← ask env.executor_poll; react exec req reaction

  -- The response that `Get` has returned after at most `fuel` steps of its loops, if it has.
  unfoldable pub run : ℕ → ℕ → ℕ → Go (Option Response)
  run zero exec req = pure none
  run (suc fuel) exec req = do
    ends ← step exec req
    branch ends (do response ← get_response; pure (some response)) (run fuel exec req)

  -- The method, the URI and the headers of the request.
  unfoldable pub prepare : Bytes → Bytes → Go ℕ
  prepare host path = do
    req ← create env.request_new Call.request_new
    method_set ← ask (λ log. env.request_set_method log req (codes "GET"))
    call (Call.request_set_method req (codes "GET"))
    when (failed method_set) (panic "error setting method %s\n" (Arg.text (codes "GET") ∷ []))
    first_byte path
    uri_set ← ask (λ log. env.request_set_uri log req (c_string path))
    call (Call.request_set_uri req (c_string path))
    when (failed uri_set) (panic "error setting uri %s\n" (Arg.text path ∷ []))
    first_byte host
    host_set ← ask (λ log. env.headers_set log req (codes "Host") (c_string host))
    call (Call.headers_set (Headers.of_request req) (codes "Host") (c_string host))
    when (failed host_set) (panic "error setting headers\n" [])
    pure req

  -- The transport, the executor and the handshake.
  unfoldable pub set_up : ℕ → Go ℕ
  set_up fd = do
    set_conn (record { fd = fd; read_waker = null; write_waker = null })
    io ← create env.io_new Call.io_new
    call (Call.io_set_own_userdata io)
    call (Call.io_set_read io)
    call (Call.io_set_write io)
    exec ← create env.executor_new Call.executor_new
    opts ← create env.options_new Call.options_new
    call (Call.options_exec opts exec)
    handshake_task ← create env.clientconn_handshake (Call.clientconn_handshake io opts)
    call (Call.task_set_userdata handshake_task example_handshake)
    call (Call.executor_push exec handshake_task)
    pure exec

  unfoldable pub get : ℕ → Bytes → Bytes → Bytes → Go (Option Response)
  unfolding prepare connect_to set_up run
  get fuel host port path = do
    req ← prepare host path
    fd ← connect_to env host port
    exec ← set_up fd
    run fuel exec req

  unfoldable pub main : ℕ → Go Bool
  unfolding get show
  main fuel = do resp ← get fuel (codes "httpbin.org") (codes "80") (codes "/"); show resp
