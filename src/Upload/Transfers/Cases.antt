-- ===== src/Upload/Transfers/Cases.antt =====
-- The cases of the `switch` of Upload.antt leave the request's body alone.
use llgoexamples.Base.{ℕ, Bytes, String}
use llgoexamples.Hyper.{
  TaskReturnType, task_error, task_clientconn, task_response, task_empty, task_buf,
}
use llgoexamples.Hyper.Env.{Env}
use llgoexamples.World.{M, Verdict}
use llgoexamples.Client.{Setup}
use llgoexamples.Upload.{
  Callback, UploadBody, keeping, send_request, set_uri, prepare_request, task_failed, on_handshake,
  start_body, read_response, on_send, write_chunk, finish, on_resp_body,
}
use llgoexamples.Upload.Transfers.{Quiet, quiet_rules}
use llgoexamples.Upload.Transfers.Handlers.{Quiet-free_conn_data, Quiet-foreach_header}

module _ (file : ℕ) (env : Env Callback) (s : Setup) where
  Quiet-send_request :
      (host : Bytes) (client req : ℕ) → Quiet file (send_request env host s client req)
  unfolding send_request
  Quiet-send_request host client req = search quiet_rules depth 30 fits 3000

  Quiet-set_uri :
      (host path : Bytes) (client req : ℕ) → Quiet file (set_uri env host path s client req)
  unfolding set_uri
  Quiet-set_uri host path client req = search (quiet_rules, Quiet-send_request) depth 9

  Quiet-prepare_request :
      (host path : Bytes) (task : ℕ) → Quiet file (prepare_request env host path s task)
  unfolding prepare_request
  Quiet-prepare_request host path task = search (quiet_rules, Quiet-set_uri) depth 12 fits 3000

  Quiet-task_failed : (message : String) → Quiet file (task_failed env message)
  unfolding task_failed
  Quiet-task_failed message = search quiet_rules

  pub Quiet-on_handshake :
      (host path : Bytes) (task : ℕ) (ty : TaskReturnType)
      → Quiet file (on_handshake env host path s task ty)
  unfolding on_handshake
  Quiet-on_handshake host path task task_error = Quiet-task_failed _
  Quiet-on_handshake host path task task_clientconn = Quiet-prepare_request host path task
  Quiet-on_handshake host path task _ = search quiet_rules

  Quiet-start_body : (resp : ℕ) → Quiet file (start_body env s resp)
  unfolding start_body
  Quiet-start_body resp = search quiet_rules depth 12 fits 3000

  Quiet-read_response : (task : ℕ) → Quiet file (read_response env s task)
  unfolding read_response
  Quiet-read_response task =
      search (quiet_rules, Quiet-start_body, Quiet-foreach_header) depth 14 fits 3000

  Quiet-keeping : (b : ℕ) (m : M Verdict) → Quiet file m → Quiet file (keeping b m)
  Quiet-keeping b m q = record { silent = q.silent; same_fd = q.same_fd }

  pub Quiet-on_send : (b task : ℕ) (ty : TaskReturnType) → Quiet file (on_send env s b task ty)
  unfolding on_send
  Quiet-on_send b task task_error =
      Quiet-keeping b (task_failed env "send error!\n") (Quiet-task_failed "send error!\n")
  Quiet-on_send b task task_response = Quiet-read_response task
  Quiet-on_send b task _ = search quiet_rules

  Quiet-write_chunk : (b task : ℕ) → Quiet file (write_chunk env s b task)
  unfolding write_chunk
  Quiet-write_chunk b task = search quiet_rules depth 14 fits 3000

  Quiet-finish : (upload : UploadBody) (b task : ℕ) → Quiet file (finish env upload s b task)
  unfolding finish
  Quiet-finish upload b task = search (quiet_rules, Quiet-free_conn_data) depth 12 fits 3000

  pub Quiet-on_resp_body :
      (upload : UploadBody) (b task : ℕ) (ty : TaskReturnType)
      → Quiet file (on_resp_body env upload s b task ty)
  unfolding on_resp_body
  Quiet-on_resp_body upload b task task_error = Quiet-task_failed "body error!\n"
  Quiet-on_resp_body upload b task task_buf = Quiet-write_chunk b task
  Quiet-on_resp_body upload b task task_empty = Quiet-finish upload b task
  Quiet-on_resp_body upload b task _ = search quiet_rules
