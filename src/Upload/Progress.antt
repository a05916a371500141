-- ===== src/Upload/Progress.antt =====
-- The handlers of Upload.antt move the exchange on: handshake, request, body, next piece, end.
use llgoexamples.Base.{
  ℕ, zero, suc, ◌≡◌, ◌≤◌, refl, List, [], ◌∷◌, Bytes, codes, arith, inl, inr, Bool-cases, null,
  SysResult, ret, errno,
}
use llgoexamples.Hyper.{
  TaskReturnType, task_error, task_clientconn, task_response, task_empty, task_buf,
}
use llgoexamples.Hyper.Calls.{Arg, Call, Handle, Headers, Log}
use llgoexamples.Hyper.Env.{Env, userdata_of}
use llgoexamples.World.{World, call, branch, Verdict}
use llgoexamples.Exchange.{requests, bodies, IsAt, IsKept}
use llgoexamples.Client.{failed, foreach_header}
use llgoexamples.Client.Progress.{foreach_header-IsKept}
use llgoexamples.Upload.{
  Callback, Context, send_request, set_uri, prepare_request, on_handshake, start_body,
  read_response, on_send, write_chunk, on_resp_body, upload_result, poll_req_upload_cb,
}

-- After a handler: a task with userdata `tag` is awaited, and `sent` requests were sent; after a
-- normal exit one request, after any other end at most one.
abbrev pub Moves : ℕ → ℕ → Verdict → Log → Type 0
Moves tag sent Verdict.next log = (t : ℕ) × IsAt tag t sent 0 log
Moves tag sent (Verdict.exit zero) log = requests log ≡ 1
Moves tag sent (Verdict.exit (suc n)) log = requests log ≤ 1
Moves tag sent Verdict.abort log = requests log ≤ 1

-- No task has userdata.
record IsUntagged (sent : ℕ) (log : Log) : Type 0 where
  untagged : (t : ℕ) → userdata_of log t ≡ null
  sent_requests : requests log ≡ sent
  asked_bodies : bodies log ≡ 0

module _ (env : Env Callback) (x : Context) where
  send_request-Moves :
      (host : Bytes) (client req : ℕ) (w : World)
      → IsUntagged 0 w.log
      → let after = send_request env host x.setup client req w in Moves 2 1 after.0 after.1.log
  unfolding send_request
  send_request-Moves host client req w u =
      let l1 =
        Call.request_on_informational req
        ∷ Call.printf "    with expect-continue ...\n" []
        ∷ Call.headers_set (Headers.of_request req) (codes "expect") (codes "100-continue")
        ∷ Call.headers_set (Headers.of_request req) (codes "host") host
        ∷ w.log in
      let b = env.body_new l1 in
      let l2 =
        Call.request_set_body req b
        ∷ Call.body_set_data_func b
        ∷ Call.body_set_userdata b
        ∷ Call.body_new b
        ∷ l1 in
      (
        env.clientconn_send l2,
        record {
          tagged = λ t. ground (arith, u.untagged t);
          sent_requests = ground (arith, u.sent_requests);
          asked_bodies = u.asked_bodies;
        },
      )

  set_uri-Moves :
      (host path : Bytes) (client req : ℕ) (w : World)
      → IsUntagged 0 w.log
      → let after = set_uri env host path x.setup client req w in Moves 2 1 after.0 after.1.log
  unfolding set_uri
  set_uri-Moves host path client req w u =
      elim (Bool-cases (failed (env.request_set_uri w.log req path))) [
        | inl bad ↦ rw (bad, branch) (omega (arith, u.sent_requests))
        | inr good ↦
            rw (good, branch)
              (send_request-Moves host client req (call (Call.request_set_uri req path) w).1
                (record {
                  untagged = u.untagged;
                  sent_requests = u.sent_requests;
                  asked_bodies = u.asked_bodies;
                }))
      ]

  prepare_request-Moves :
      (host path : Bytes) (task : ℕ) (w : World)
      → IsAt 1 task 0 0 w.log
      → let after = prepare_request env host path x.setup task w in Moves 2 1 after.0 after.1.log
  unfolding prepare_request
  prepare_request-Moves host path task w i =
      let v = Call.printf "preparing http request ...\n" [] ∷ w.log in
      let client = env.task_value v task in
      let v' = Call.task_free task ∷ Call.task_value task (Handle.clientconn client) ∷ v in
      let req = env.request_new v' in
      elim (Bool-cases
        (failed (env.request_set_method (Call.request_new req ∷ v') req (codes "POST")))) [
          | inl bad ↦ rw (bad, branch) (omega (arith, i.sent_requests))
          | inr good ↦
              rw (good, branch)
                (set_uri-Moves host path client req
                  (record w {
                    log = Call.request_set_method req (codes "POST") ∷ Call.request_new req ∷ v';
                  })
                  (record {
                    untagged = λ t. ground (arith, i.tagged t);
                    sent_requests = i.sent_requests;
                    asked_bodies = i.asked_bodies;
                  }))
        ]

  pub on_handshake-Moves :
      (host path : Bytes) (task : ℕ) (ty : TaskReturnType) (w : World)
      → IsAt 1 task 0 0 w.log
      → let after = on_handshake env host path x.setup task ty w in Moves 2 1 after.0 after.1.log
  unfolding on_handshake
  on_handshake-Moves host path task task_error w i = omega (arith, i.sent_requests)
  on_handshake-Moves host path task task_clientconn w i = prepare_request-Moves host path task w i
  on_handshake-Moves host path task _ w i = omega (arith, i.sent_requests)

  start_body-Moves :
      (resp : ℕ) (hs : List (Bytes × Bytes)) (w : World)
      → IsUntagged 1 w.log
      → let after = start_body env x.setup resp (foreach_header hs w).1 in
        Moves 3 1 after.0.0 after.1.log
  unfolding start_body
  start_body-Moves resp hs w u =
      let k = foreach_header-IsKept hs w in
      let v = Call.printf "\n" [] ∷ (foreach_header hs w).1.log in
      (
        env.body_data (Call.response_body resp (env.response_body v) ∷ v),
        record {
          tagged = λ t. ground (arith, u.untagged t, k.userdata t);
          sent_requests = rw k.sent_requests u.sent_requests;
          asked_bodies = rw k.asked_bodies u.asked_bodies;
        },
      )

  read_response-Moves :
      (task : ℕ) (w : World)
      → IsAt 2 task 1 0 w.log
      → let after = read_response env x.setup task w in Moves 3 1 after.0.0 after.1.log
  unfolding read_response
  read_response-Moves task w i =
      let resp = env.task_value w.log task in
      let l0 = Call.task_free task ∷ Call.task_value task (Handle.response resp) ∷ w.log in
      let args = Arg.int (env.response_status l0 resp) ∷ [] in
      let l1 = Call.printf "\nResponse Status: %d\n" args ∷ Call.response_status resp ∷ l0 in
      start_body-Moves resp (env.response_headers l1 resp)
        (record w { log = Call.headers_foreach (Headers.of_response resp) ∷ l1 })
        (record {
          untagged = λ t. ground (arith, i.tagged t);
          sent_requests = i.sent_requests;
          asked_bodies = i.asked_bodies;
        })

  pub on_send-Moves :
      (b task : ℕ) (ty : TaskReturnType) (w : World)
      → IsAt 2 task 1 0 w.log
      → let after = on_send env x.setup b task ty w in Moves 3 1 after.0.0 after.1.log
  unfolding on_send
  on_send-Moves b task task_error w i = omega (arith, i.sent_requests)
  on_send-Moves b task task_response w i = read_response-Moves task w i
  on_send-Moves b task _ w i = omega (arith, i.sent_requests)

  write_chunk-Moves :
      (b task : ℕ) (w : World)
      → IsAt 3 task 1 0 w.log
      → let after = write_chunk env x.setup b task w in Moves 3 1 after.0 after.1.log
  unfolding write_chunk
  write_chunk-Moves b task w i =
      let chunk = env.task_value w.log task in
      let bytes = env.buf_bytes (Call.task_value task (Handle.buf chunk) ∷ w.log) chunk in
      let v =
        Call.task_free task
        ∷ Call.buf_free chunk
        ∷ Call.write_stdout bytes
        ∷ Call.buf_bytes chunk
        ∷ Call.task_value task (Handle.buf chunk)
        ∷ w.log in
      (
        env.body_data v,
        record {
          tagged = λ t. ground (arith, i.tagged t);
          sent_requests = i.sent_requests;
          asked_bodies = i.asked_bodies;
        },
      )

  pub on_resp_body-Moves :
      (b task : ℕ) (ty : TaskReturnType) (w : World)
      → IsAt 3 task 1 0 w.log
      → let after = on_resp_body env x.upload x.setup b task ty w in Moves 3 1 after.0 after.1.log
  unfolding on_resp_body
  on_resp_body-Moves b task task_error w i = omega (arith, i.sent_requests)
  on_resp_body-Moves b task task_buf w i = write_chunk-Moves b task w i
  on_resp_body-Moves b task task_empty w i = ground (arith, i.sent_requests)
  on_resp_body-Moves b task _ w i = omega (arith, i.sent_requests)

  pub poll_req_upload-IsKept : (w : World) → IsKept w.log (poll_req_upload_cb env x.upload w).1.log
  unfolding poll_req_upload_cb
  poll_req_upload-IsKept w = sent (env.read w.log x.upload.fd x.upload.len)
    where
      sent :
          (r : SysResult Bytes)
          → IsKept w.log
              (upload_result env x.upload r
                (call (Call.read_into x.upload.fd x.upload.buf x.upload.len r) w).1).1.log
      sent (ret []) = record { userdata = λ t. refl; sent_requests = refl; asked_bodies = refl }
      sent (ret (c ∷ bs)) = record {
        userdata = λ t. refl;
        sent_requests = refl;
        asked_bodies = refl;
      }
      sent (errno e) = record { userdata = λ t. refl; sent_requests = refl; asked_bodies = refl }
