-- ===== src/Client/Handlers.antt =====
-- The cases of the `switch` of lib/rust/hyper/examples/client.c (202-289), and its label `fail`.
use llgoexamples.Base.{ℕ, not, [], ◌∷◌, Bytes, String, codes, is_null}
use llgoexamples.Hyper.{
  code_number, TaskReturnType, task_error, task_clientconn, task_response, task_empty,
}
use llgoexamples.Hyper.Calls.{Arg, Call, Handle, Headers}
use llgoexamples.Hyper.Env.{Env}
use llgoexamples.World.{M, pure, ◌>>=◌, ◌>>◌, call, ask, create, branch, when, Verdict}
use llgoexamples.Conn.{free_conn_data}
use llgoexamples.Client.Prepare.{
  Callback, example_send, example_resp_body, failed, Setup, printf, foreach_header, take_value,
}

module _ (env : Env Callback) where
  unfoldable pub print_error : ℕ → M (Unit {0})
  print_error err = do
    code ← ask (λ log. env.error_code log err)
    call (Call.error_code err)
    printf "error code: %d\n" (Arg.int (code_number code) ∷ [])
    details ← ask (λ log. env.error_print log err 256)
    call (Call.error_print err)
    printf "details: %.*s\n" (Arg.text details ∷ [])
    call (Call.error_free err)

  -- The label `fail`.
  unfoldable pub fail : ℕ → M Verdict
  unfolding print_error
  fail err = do when (not (is_null err)) (print_error err); pure (Verdict.exit 1)

  unfoldable pub task_failed : String → ℕ → M Verdict
  unfolding fail
  task_failed message task = do printf message []; err ← take_value env task Handle.error; fail err

  unfoldable pub send_request : Bytes → Setup → ℕ → ℕ → M Verdict
  send_request host s client req = do
    call (Call.headers_set (Headers.of_request req) (codes "Host") host)
    sending ← create env.clientconn_send (Call.clientconn_send client req)
    call (Call.task_set_userdata sending example_send)
    printf "sending ...\n" []
    call (Call.executor_push s.exec sending)
    call (Call.clientconn_free client)
    pure Verdict.next

  unfoldable pub set_uri : Bytes → Bytes → Setup → ℕ → ℕ → M Verdict
  unfolding send_request
  set_uri host path s client req = do
    code ← ask (λ log. env.request_set_uri log req path)
    call (Call.request_set_uri req path)
    branch (failed code) (do printf "error setting uri\n" []; pure (Verdict.exit 1))
        (send_request host s client req)

  unfoldable pub prepare_request : Bytes → Bytes → Setup → ℕ → M Verdict
  unfolding set_uri
  prepare_request host path s task = do
    printf "preparing http request ...\n" []
    client ← take_value env task Handle.clientconn
    call (Call.task_free task)
    req ← create env.request_new Call.request_new
    code ← ask (λ log. env.request_set_method log req (codes "GET"))
    call (Call.request_set_method req (codes "GET"))
    branch (failed code) (do printf "error setting method\n" []; pure (Verdict.exit 1))
        (set_uri host path s client req)

  -- case EXAMPLE_HANDSHAKE. The clauses stand for the test of the type and the assertion.
  unfoldable pub on_handshake : Bytes → Bytes → Setup → ℕ → TaskReturnType → M Verdict
  unfolding task_failed prepare_request
  on_handshake host path s task task_error = task_failed "handshake error!\n" task
  on_handshake host path s task task_clientconn = prepare_request host path s task
  on_handshake host path s task _ = pure Verdict.abort

  -- The end of `case EXAMPLE_SEND`: start to read the body.
  unfoldable pub start_body : Setup → ℕ → M Verdict
  start_body s resp = do
    printf "\n" []
    body ← create env.response_body (Call.response_body resp)
    foreach ← create env.body_foreach (Call.body_foreach body)
    call (Call.task_set_userdata foreach example_resp_body)
    call (Call.executor_push s.exec foreach)
    call (Call.response_free resp)
    pure Verdict.next

  unfoldable pub read_response : Setup → ℕ → M Verdict
  unfolding foreach_header start_body
  read_response s task = do
    resp ← take_value env task Handle.response
    call (Call.task_free task)
    http_status ← ask (λ log. env.response_status log resp)
    call (Call.response_status resp)
    rp ← ask (λ log. env.response_reason_phrase log resp)
    call (Call.response_reason_phrase resp)
    printf "\nResponse Status: %d %.*s\n" (Arg.int http_status ∷ Arg.text rp ∷ [])
    headers ← ask (λ log. env.response_headers log resp)
    call (Call.headers_foreach (Headers.of_response resp))
    foreach_header headers
    start_body s resp

  -- case EXAMPLE_SEND
  unfoldable pub on_send : Setup → ℕ → TaskReturnType → M Verdict
  unfolding task_failed read_response
  on_send s task task_error = task_failed "send error!\n" task
  on_send s task task_response = read_response s task
  on_send s task _ = pure Verdict.abort

  unfoldable pub finish : Setup → ℕ → M Verdict
  unfolding free_conn_data
  finish s task = do
    printf "\n -- Done! -- \n" []
    call (Call.task_free task)
    call (Call.executor_free s.exec)
    free_conn_data s.at
    pure (Verdict.exit 0)

  -- case EXAMPLE_RESP_BODY
  unfoldable pub on_resp_body : Setup → ℕ → TaskReturnType → M Verdict
  unfolding task_failed finish
  on_resp_body s task task_error = task_failed "body error!\n" task
  on_resp_body s task task_empty = finish s task
  on_resp_body s task _ = pure Verdict.abort
