-- ===== src/Upload/Handlers.antt =====
-- The cases of the `switch` of lib/rust/hyper/examples/upload.c (247-359).
use llgoexamples.Base.{ℕ, String, [], ◌∷◌, Bytes, codes}
use llgoexamples.Hyper.{
  TaskReturnType, task_error, task_clientconn, task_response, task_empty, task_buf,
}
use llgoexamples.Hyper.Calls.{Arg, Call, Handle, Headers}
use llgoexamples.Hyper.Env.{Env}
use llgoexamples.World.{M, pure, ◌>>=◌, ◌>>◌, call, ask, create, branch, Verdict}
use llgoexamples.Upload.Shared.{free_conn_data}
use llgoexamples.Client.{
  Setup, example_send, example_resp_body, failed, printf, foreach_header, take_value,
}
use llgoexamples.Upload.Body.{UploadBody, Callback, keeping}

module _ (env : Env Callback) where
  unfoldable pub send_request : Bytes → Setup → ℕ → ℕ → M Verdict
  send_request host s client req = do
    call (Call.headers_set (Headers.of_request req) (codes "host") host)
    call (Call.headers_set (Headers.of_request req) (codes "expect") (codes "100-continue"))
    printf "    with expect-continue ...\n" []
    call (Call.request_on_informational req)
    body ← create env.body_new Call.body_new
    call (Call.body_set_userdata body)
    call (Call.body_set_data_func body)
    call (Call.request_set_body req body)
    sending ← create env.clientconn_send (Call.clientconn_send client req)
    call (Call.task_set_userdata sending example_send)
    printf "sending ...\n" []
    call (Call.executor_push s.exec sending)
    call (Call.clientconn_free client)
    pure Verdict.next

  unfoldable pub set_uri : Bytes → Bytes → Setup → ℕ → ℕ → M Verdict
  unfolding send_request
  set_uri host path s client req = do
    code ← ask (λ log. env.request_set_uri log req path)
    call (Call.request_set_uri req path)
    branch (failed code) (do printf "error setting uri\n" []; pure (Verdict.exit 1))
        (send_request host s client req)

  unfoldable pub prepare_request : Bytes → Bytes → Setup → ℕ → M Verdict
  unfolding set_uri
  prepare_request host path s task = do
    printf "preparing http request ...\n" []
    client ← take_value env task Handle.clientconn
    call (Call.task_free task)
    req ← create env.request_new Call.request_new
    code ← ask (λ log. env.request_set_method log req (codes "POST"))
    call (Call.request_set_method req (codes "POST"))
    branch (failed code) (do printf "error setting method\n" []; pure (Verdict.exit 1))
        (set_uri host path s client req)

  unfoldable pub task_failed : String → M Verdict
  task_failed message = do printf message []; pure (Verdict.exit 1)

  -- case EXAMPLE_HANDSHAKE
  unfoldable pub on_handshake : Bytes → Bytes → Setup → ℕ → TaskReturnType → M Verdict
  unfolding task_failed prepare_request
  on_handshake host path s task task_error = task_failed "handshake error!\n"
  on_handshake host path s task task_clientconn = prepare_request host path s task
  on_handshake host path s task _ = pure Verdict.abort

  -- The end of `case EXAMPLE_SEND`; the second result is the new `resp_body`.
  unfoldable pub start_body : Setup → ℕ → M (Verdict × ℕ)
  start_body s resp = do
    printf "\n" []
    body ← create env.response_body (Call.response_body resp)
    body_data ← create env.body_data (Call.body_data body)
    call (Call.task_set_userdata body_data example_resp_body)
    call (Call.executor_push s.exec body_data)
    call (Call.response_free resp)
    pure (Verdict.next, body)

  unfoldable pub read_response : Setup → ℕ → M (Verdict × ℕ)
  unfolding foreach_header start_body
  read_response s task = do
    resp ← take_value env task Handle.response
    call (Call.task_free task)
    http_status ← ask (λ log. env.response_status log resp)
    call (Call.response_status resp)
    printf "\nResponse Status: %d\n" (Arg.int http_status ∷ [])
    headers ← ask (λ log. env.response_headers log resp)
    call (Call.headers_foreach (Headers.of_response resp))
    foreach_header headers
    start_body s resp

  -- case EXAMPLE_SEND
  unfoldable pub on_send : Setup → ℕ → ℕ → TaskReturnType → M (Verdict × ℕ)
  unfolding task_failed read_response
  on_send s body task task_error = keeping body (task_failed "send error!\n")
  on_send s body task task_response = read_response s task
  on_send s body task _ = pure (Verdict.abort, body)

  -- A piece of the response's body is written out, and the next one asked for.
  unfoldable pub write_chunk : Setup → ℕ → ℕ → M Verdict
  write_chunk s body task = do
    chunk ← take_value env task Handle.buf
    bytes ← ask (λ log. env.buf_bytes log chunk)
    call (Call.buf_bytes chunk)
    call (Call.write_stdout bytes)
    call (Call.buf_free chunk)
    call (Call.task_free task)
    body_data ← create env.body_data (Call.body_data body)
    call (Call.task_set_userdata body_data example_resp_body)
    call (Call.executor_push s.exec body_data)
    pure Verdict.next

  unfoldable pub finish : UploadBody → Setup → ℕ → ℕ → M Verdict
  unfolding llgoexamples.Conn.free_conn_data
  finish upload s body task = do
    call (Call.task_free task)
    call (Call.body_free body)
    printf "\n -- Done! -- \n" []
    call (Call.executor_free s.exec)
    free_conn_data s.at
    call (Call.free upload.buf)
    pure (Verdict.exit 0)

  -- case EXAMPLE_RESP_BODY
  unfoldable pub on_resp_body : UploadBody → Setup → ℕ → ℕ → TaskReturnType → M Verdict
  unfolding task_failed write_chunk finish
  on_resp_body upload s body task task_error = task_failed "body error!\n"
  on_resp_body upload s body task task_buf = write_chunk s body task
  on_resp_body upload s body task task_empty = finish upload s body task
  on_resp_body upload s body task _ = pure Verdict.abort
