-- ===== src/Upload/Returns/Handlers.antt =====
-- The handlers of Upload.antt make no reaction undone: what they log is counted by the next poll.
use llgoexamples.Base.{ℕ, suc, ◌≡◌, ◌≤◌, refl, Bytes, ret, errno, [], ◌∷◌, arith}
use llgoexamples.Hyper.{
  TaskReturnType, task_error, task_clientconn, task_response, task_empty, task_buf,
}
use llgoexamples.Hyper.Calls.{Arg, Call, Handle, Headers}
use llgoexamples.Hyper.Env.{Env}
use llgoexamples.World.{World, call}
use llgoexamples.Client.Returns.Handlers.{reactions-foreach_header}
use llgoexamples.Upload.{
  Callback, Context, prepare_request, on_handshake, start_body, read_response, on_send, write_chunk,
  finish, on_resp_body, upload_result, poll_req_upload_cb,
}
use llgoexamples.Exchange.Reactions.{reactions}

module _ (env : Env Callback) (x : Context) where
  reactions-prepare_request :
      (host path : Bytes) (task : ℕ) (w : World)
      → reactions (prepare_request env host path x.setup task w).1.log ≡ reactions w.log
  unfolding prepare_request
  reactions-prepare_request host path task w = ground arith

  pub reactions-on_handshake :
      (host path : Bytes) (task : ℕ) (ty : TaskReturnType) (w : World)
      → reactions (on_handshake env host path x.setup task ty w).1.log ≡ reactions w.log
  unfolding on_handshake
  reactions-on_handshake host path task task_error w = refl
  reactions-on_handshake host path task task_clientconn w =
      reactions-prepare_request host path task w
  reactions-on_handshake host path task _ w = refl

  pub reactions-on_send :
      (b task : ℕ) (ty : TaskReturnType) (w : World)
      → reactions (on_send env x.setup b task ty w).1.log ≡ reactions w.log
  unfolding on_send read_response start_body
  reactions-on_send b task task_error w = refl
  reactions-on_send b task task_response w =
      let resp = env.task_value w.log task in
      let l0 = Call.task_free task ∷ Call.task_value task (Handle.response resp) ∷ w.log in
      let args = Arg.int (env.response_status l0 resp) ∷ [] in
      let l1 = Call.printf "\nResponse Status: %d\n" args ∷ Call.response_status resp ∷ l0 in
      reactions-foreach_header (env.response_headers l1 resp)
        (record w { log = Call.headers_foreach (Headers.of_response resp) ∷ l1 })
  reactions-on_send b task _ w = refl

  -- The body's piece is written out, which is the callback's work in the other client.
  pub reactions-on_resp_body :
      (b task : ℕ) (ty : TaskReturnType) (w : World)
      → reactions w.log ≤ reactions (on_resp_body env x.upload x.setup b task ty w).1.log
  unfolding on_resp_body write_chunk finish
  reactions-on_resp_body b task task_error w = omega arith
  reactions-on_resp_body b task task_buf w = omega arith
  reactions-on_resp_body b task task_empty w = ground arith
  reactions-on_resp_body b task _ w = omega arith

  pub reactions-poll_req_upload :
      (w : World) → suc (reactions w.log) ≤ reactions (poll_req_upload_cb env x.upload w).1.log
  unfolding poll_req_upload_cb upload_result
  reactions-poll_req_upload w =
      elim (env.read w.log x.upload.fd x.upload.len)
        as (λ r.
          suc (reactions w.log)
          ≤ reactions
              (upload_result env x.upload r
                (call (Call.read_into x.upload.fd x.upload.buf x.upload.len r) w).1).1.log) [
                  | ret bs ↦
                      elim bs
                        as (λ l.
                          suc (reactions w.log)
                          ≤ reactions
                              (upload_result env x.upload (ret l)
                                (call (Call.read_into x.upload.fd x.upload.buf x.upload.len (ret l))
                                  w).1).1.log) [ [] ↦ omega arith | b ∷ rest ↦ omega arith ]
                  | errno e ↦ omega arith
                ]
