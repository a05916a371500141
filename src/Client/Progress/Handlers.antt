-- ===== src/Client/Progress/Handlers.antt =====
-- The handlers of Client.antt move the exchange on: handshake, request, body, end.
use llgoexamples.Base.{
  ℕ, ◌≤◌, ◌≡◌, List, [], ◌∷◌, Bytes, codes, arith, inl, inr, Bool-cases, String, null,
}
use llgoexamples.Hyper.{TaskReturnType, task_error, task_clientconn, task_response, task_empty}
use llgoexamples.Hyper.Calls.{Arg, Call, Handle, Headers, Log}
use llgoexamples.Hyper.Env.{Env, userdata_of}
use llgoexamples.World.{World, call, branch}
use llgoexamples.Client.{
  Callback, Setup, failed, send_request, set_uri, prepare_request, on_handshake, foreach_header,
  start_body, read_response, on_send, on_resp_body, task_failed, finish,
}
use llgoexamples.Exchange.{requests, bodies, IsAt}
use llgoexamples.Client.Progress.{sending, reading, Progress, foreach_header-IsKept}

-- No task has userdata.
record IsUntagged (sent asked : ℕ) (log : Log) : Type 0 where
  untagged : (t : ℕ) → userdata_of log t ≡ null
  sent_requests : requests log ≡ sent
  asked_bodies : bodies log ≡ asked

module _ (env : Env Callback) (s : Setup) where
  send_request-Progress :
      (host : Bytes) (client req : ℕ) (w : World)
      → IsUntagged 0 0 w.log
      → let after = send_request env host s client req w in Progress after.0 after.1.log
  unfolding send_request
  send_request-Progress host client req w u =
      let sent =
        env.clientconn_send
          (Call.headers_set (Headers.of_request req) (codes "Host") host ∷ w.log) in
      sending sent (record {
        tagged = λ t. ground (arith, u.untagged t);
        sent_requests = ground (arith, u.sent_requests);
        asked_bodies = u.asked_bodies;
      })

  set_uri-Progress :
      (host path : Bytes) (client req : ℕ) (w : World)
      → IsUntagged 0 0 w.log
      → let after = set_uri env host path s client req w in Progress after.0 after.1.log
  unfolding set_uri
  set_uri-Progress host path client req w u =
      elim (Bool-cases (failed (env.request_set_uri w.log req path))) [
        | inl bad ↦ rw (bad, branch) (omega arith)
        | inr good ↦
            rw (good, branch)
              (send_request-Progress host client req (call (Call.request_set_uri req path) w).1
                (record {
                  untagged = u.untagged;
                  sent_requests = u.sent_requests;
                  asked_bodies = u.asked_bodies;
                }))
      ]

  prepare_request-Progress :
      (host path : Bytes) (task : ℕ) (w : World)
      → IsAt 1 task 0 0 w.log
      → let after = prepare_request env host path s task w in Progress after.0 after.1.log
  unfolding prepare_request
  prepare_request-Progress host path task w i =
      let v = Call.printf "preparing http request ...\n" [] ∷ w.log in
      let client = env.task_value v task in
      let v' = Call.task_free task ∷ Call.task_value task (Handle.clientconn client) ∷ v in
      let req = env.request_new v' in
      elim (Bool-cases
        (failed (env.request_set_method (Call.request_new req ∷ v') req (codes "GET")))) [
          | inl bad ↦ rw (bad, branch) (omega arith)
          | inr good ↦
              rw (good, branch)
                (set_uri-Progress host path client req
                  (record w {
                    log = Call.request_set_method req (codes "GET") ∷ Call.request_new req ∷ v';
                  })
                  (record {
                    untagged = λ t. ground (arith, i.tagged t);
                    sent_requests = i.sent_requests;
                    asked_bodies = i.asked_bodies;
                  }))
        ]

  start_body-Progress :
      (resp : ℕ) (w : World)
      → IsUntagged 1 0 w.log
      → let after = start_body env s resp w in Progress after.0 after.1.log
  unfolding start_body
  start_body-Progress resp w u =
      let v = Call.printf "\n" [] ∷ w.log in
      let asked = env.body_foreach (Call.response_body resp (env.response_body v) ∷ v) in
      reading asked (record {
        tagged = λ t. ground (arith, u.untagged t);
        sent_requests = u.sent_requests;
        asked_bodies = ground (arith, u.asked_bodies);
      })

  headers-Progress :
      (resp : ℕ) (hs : List (Bytes × Bytes)) (w : World)
      → IsUntagged 1 0 w.log
      → let after = start_body env s resp (foreach_header hs w).1 in Progress after.0 after.1.log
  headers-Progress resp hs w u =
      let k = foreach_header-IsKept hs w in
      start_body-Progress resp _ (record {
        untagged = λ t. rw (k.userdata t) (u.untagged t);
        sent_requests = rw k.sent_requests u.sent_requests;
        asked_bodies = rw k.asked_bodies u.asked_bodies;
      })

  read_response-Progress :
      (task : ℕ) (w : World)
      → IsAt 2 task 1 0 w.log
      → let after = read_response env s task w in Progress after.0 after.1.log
  unfolding read_response
  read_response-Progress task w i =
      let resp = env.task_value w.log task in
      let l1 =
        Call.response_status resp
        ∷ Call.task_free task
        ∷ Call.task_value task (Handle.response resp)
        ∷ w.log in
      let args =
        Arg.int (
          env.response_status
            (Call.task_free task ∷ Call.task_value task (Handle.response resp) ∷ w.log) resp)
        ∷ Arg.text (env.response_reason_phrase l1 resp)
        ∷ [] in
      headers-Progress resp
        (env.response_headers
          (Call.printf "\nResponse Status: %d %.*s\n" args ∷ Call.response_reason_phrase resp ∷ l1)
          resp)
        (record w {
          log =
              Call.headers_foreach (Headers.of_response resp)
              ∷ Call.printf "\nResponse Status: %d %.*s\n" args
              ∷ Call.response_reason_phrase resp
              ∷ l1;
        })
        (record {
          untagged = λ t. ground (arith, i.tagged t);
          sent_requests = i.sent_requests;
          asked_bodies = i.asked_bodies;
        })

  task_failed-Progress :
      (message : String) (task : ℕ) (w : World)
      → requests w.log ≤ 1
      → let after = task_failed env message task w in Progress after.0 after.1.log
  unfolding task_failed
  task_failed-Progress message task w r = ground arith

  finish-Progress :
      (task : ℕ) (w : World)
      → IsAt 3 task 1 1 w.log
      → let after = finish env s task w in Progress after.0 after.1.log
  unfolding finish
  finish-Progress task w i = (ground (arith, i.sent_requests), ground (arith, i.asked_bodies))

  pub on_handshake-Progress :
      (host path : Bytes) (task : ℕ) (ty : TaskReturnType) (w : World)
      → IsAt 1 task 0 0 w.log
      → let after = on_handshake env host path s task ty w in Progress after.0 after.1.log
  unfolding on_handshake
  on_handshake-Progress host path task task_error w i =
      task_failed-Progress "handshake error!\n" task w (omega arith)
  on_handshake-Progress host path task task_clientconn w i =
      prepare_request-Progress host path task w i
  on_handshake-Progress host path task _ w i = omega arith

  pub on_send-Progress :
      (task : ℕ) (ty : TaskReturnType) (w : World)
      → IsAt 2 task 1 0 w.log
      → let after = on_send env s task ty w in Progress after.0 after.1.log
  unfolding on_send
  on_send-Progress task task_error w i = task_failed-Progress "send error!\n" task w (omega arith)
  on_send-Progress task task_response w i = read_response-Progress task w i
  on_send-Progress task _ w i = omega arith

  pub on_resp_body-Progress :
      (task : ℕ) (ty : TaskReturnType) (w : World)
      → IsAt 3 task 1 1 w.log
      → let after = on_resp_body env s task ty w in Progress after.0 after.1.log
  unfolding on_resp_body
  on_resp_body-Progress task task_error w i =
      task_failed-Progress "body error!\n" task w (omega arith)
  on_resp_body-Progress task task_empty w i = finish-Progress task w i
  on_resp_body-Progress task _ w i = omega arith
