-- ===== src/HyperClient/Handlers.antt =====
-- The cases of the `switch` of `Get` in rust/hyper/_demo/hyper_client/hyper.go. A case says whether
-- `Get` returns.
use llgoexamples.Base.{
  ℕ, ◌^◌, Bool, true, false, not, [], ◌∷◌, Bytes, String, length, null, is_null, ◌==◌, ltb,
}
use llgoexamples.Hyper.{
  code_number, TaskReturnType, task_empty, task_error, task_clientconn, task_response, task_buf,
}
use llgoexamples.Hyper.Calls.{Arg, Call, Handle, Headers}
use llgoexamples.Hyper.Env.{Env}
use llgoexamples.Client.Prepare.{example_send, example_resp_body, failed, take_value}
use llgoexamples.HyperClient.State.{
  Go, ◌>>=◌, ◌>>◌, pure, panic, lift, call, ask, create, when, get_response, set_head,
}
use llgoexamples.HyperClient.Transport.{free_wakers}
use llgoexamples.HyperClient.Body.{each_header}

-- The callback of this program that hyper calls while it polls, with the bytes of the chunk.
pub data Callback : Type 0 where
  append_to_response_body : Bytes → Callback

abbrev pub type_number : TaskReturnType → ℕ
type_number task_empty = 0
type_number task_error = 1
type_number task_clientconn = 2
type_number task_response = 3
type_number task_buf = 4

unfoldable pub print_chars : Bytes → Go (Unit {0})
print_chars [] = pure tt
print_chars (b ∷ bs) = do call (Call.printf "%c" (Arg.int b ∷ [])); print_chars bs

unfoldable pub clean_up : ℕ → ℕ → Go Bool
unfolding free_wakers
clean_up exec task = do
  call (Call.task_free task)
  call (Call.executor_free exec)
  free_wakers
  pure true

module _ (env : Env Callback) where
  unfoldable pub report_error : ℕ → Go (Unit {0})
  unfolding print_chars
  report_error err = do
    code ← ask (λ log. env.error_code log err)
    call (Call.error_code err)
    call (Call.printf "error code: %d\n" (Arg.int (code_number code) ∷ []))
    details ← ask (λ log. env.error_print log err 256)
    call (Call.error_print err)
    call (Call.printf "details: " [])
    print_chars details
    call (Call.printf "\n" [])
    call (Call.error_free err)
    panic "request failed\n" []

  -- `fail`, which returns if there is no error.
  unfoldable pub fail : ℕ → Go (Unit {0})
  unfolding report_error
  fail err = when (not (is_null err)) (report_error err)

  -- The two tests of the type of a finished task. The error that the second passes on is nil, since
  -- the first panics with any other.
  unfoldable pub check_type : String → String → TaskReturnType → ℕ → Go (Unit {0})
  unfolding fail
  check_type failed_text unexpected_text expected task = do
    ty ← ask (λ log. env.task_type log task)
    when (type_number ty == type_number task_error) (do
      call (Call.printf failed_text [])
      err ← lift (take_value env task Handle.error)
      fail err)
    ty' ← ask (λ log. env.task_type log task)
    when (not (type_number ty' == type_number expected))
        (do call (Call.printf unexpected_text []); fail null)

  unfoldable pub send_through : ℕ → ℕ → ℕ → Go Bool
  send_through exec req task = do
    call (Call.printf "preparing http request ...\n" [])
    client ← lift (take_value env task Handle.clientconn)
    call (Call.task_free task)
    send_task ← create env.clientconn_send (Call.clientconn_send client req)
    call (Call.task_set_userdata send_task example_send)
    call (Call.printf "sending ...\n" [])
    send_res ← ask (λ log. env.executor_push log exec send_task)
    call (Call.executor_push exec send_task)
    when (failed send_res) (panic "error send\n" [])
    call (Call.clientconn_free client)
    pure false

  -- case ExampleHandshake
  unfoldable pub on_handshake : ℕ → ℕ → ℕ → Go Bool
  unfolding check_type send_through
  on_handshake exec req task = do
    check_type "handshake error!\n" "169 unexpected task type\n" task_clientconn task
    send_through exec req task

  -- The reason phrase lies in an array of 2 ^ 30 bytes.
  unfoldable pub set_response : ℕ → Bytes → Go (Unit {0})
  set_response resp rp = do
    status ← ask (λ log. env.response_status log resp)
    call (Call.response_status resp)
    old ← get_response
    set_head status old.message
    when (ltb (2 ^ 30) (length rp)) (panic "slice bounds out of range" [])
    set_head status rp

  -- The end of the case: ask for the body.
  unfoldable pub foreach_body : ℕ → ℕ → Go Bool
  foreach_body exec resp = do
    call (Call.printf "\n" [])
    resp_body ← create env.response_body (Call.response_body resp)
    foreach_task ← create env.body_foreach (Call.body_foreach resp_body)
    call (Call.task_set_userdata foreach_task example_resp_body)
    call (Call.executor_push exec foreach_task)
    call (Call.response_free resp)
    pure false

  unfoldable pub foreach_header : ℕ → ℕ → Go Bool
  unfolding each_header foreach_body
  foreach_header exec resp = do
    headers ← ask (λ log. env.response_headers log resp)
    call (Call.headers_foreach (Headers.of_response resp))
    each_header headers
    foreach_body exec resp

  unfoldable pub take_results : ℕ → ℕ → Go Bool
  unfolding set_response foreach_header
  take_results exec task = do
    resp ← lift (take_value env task Handle.response)
    call (Call.task_free task)
    rp ← ask (λ log. env.response_reason_phrase log resp)
    call (Call.response_reason_phrase resp)
    set_response resp rp
    foreach_header exec resp

  -- case ExampleSend
  unfoldable pub on_send : ℕ → ℕ → Go Bool
  unfolding check_type take_results
  on_send exec task = do
    check_type "send error!\n" "unexpected task type\n" task_response task
    take_results exec task

  -- case ExampleRespBody
  unfoldable pub on_resp_body : ℕ → ℕ → Go Bool
  unfolding check_type clean_up
  on_resp_body exec task = do
    check_type "body error!\n" "unexpected task type\n" task_empty task
    clean_up exec task
