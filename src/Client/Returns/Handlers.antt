-- ===== src/Client/Returns/Handlers.antt =====
-- How far each handler of Client.antt takes the exchange when the loop goes on after it.
use llgoexamples.Base.{
  ℕ, suc, ◌≡◌, ◌≤◌, ◌+◌, refl, List, [], ◌∷◌, Bytes, codes, arith, inl, inr, Bool-cases,
}
use llgoexamples.Hyper.{TaskReturnType, task_error, task_clientconn, task_response, task_empty}
use llgoexamples.Hyper.Calls.{Arg, Call, Handle, Headers, Log}
use llgoexamples.Hyper.Env.{Env}
use llgoexamples.World.{World, call, branch, Verdict}
use llgoexamples.Client.{
  Callback, Setup, failed, send_request, set_uri, prepare_request, on_handshake, foreach_header,
  start_body, read_response, on_send, on_resp_body, task_failed, finish,
}
use llgoexamples.Exchange.{requests, bodies}
use llgoexamples.Exchange.Reactions.{reactions}
use llgoexamples.Client.Progress.{foreach_header-IsKept}

-- How much of the exchange was started: the request, the body.
abbrev pub level : Log → ℕ
level log = requests log + bodies log

-- If the loop goes on after `log`, the exchange has come further than `l`, and `n` reactions are
-- not fewer.
abbrev pub Advanced : Verdict → ℕ → ℕ → Log → Type 0
Advanced Verdict.next l n log = (suc l ≤ level log) × (n ≤ reactions log)
Advanced (Verdict.exit code) l n log = Unit
Advanced Verdict.abort l n log = Unit

pub reactions-foreach_header :
    (hs : List (Bytes × Bytes)) (w : World)
    → reactions (foreach_header hs w).1.log ≡ reactions w.log
unfolding foreach_header
reactions-foreach_header [] w = refl
reactions-foreach_header ((n, v) ∷ hs) w =
    reactions-foreach_header hs
      (call (Call.printf "%.*s: %.*s\n" (Arg.text n ∷ Arg.text v ∷ [])) w).1

module _ (env : Env Callback) (s : Setup) where
  send_request-Advanced :
      (host : Bytes) (client req : ℕ) (w : World)
      → let after = send_request env host s client req w in
        Advanced after.0 (level w.log) (reactions w.log) after.1.log
  unfolding send_request
  send_request-Advanced host client req w = (omega arith, omega arith)

  set_uri-Advanced :
      (host path : Bytes) (client req : ℕ) (w : World)
      → let after = set_uri env host path s client req w in
        Advanced after.0 (level w.log) (reactions w.log) after.1.log
  unfolding set_uri
  set_uri-Advanced host path client req w =
      elim (Bool-cases (failed (env.request_set_uri w.log req path))) [
        | inl bad ↦ rw (bad, branch) tt
        | inr good ↦
            rw (good, branch)
              (send_request-Advanced host client req (call (Call.request_set_uri req path) w).1)
      ]

  prepare_request-Advanced :
      (host path : Bytes) (task : ℕ) (w : World)
      → let after = prepare_request env host path s task w in
        Advanced after.0 (level w.log) (reactions w.log) after.1.log
  unfolding prepare_request
  prepare_request-Advanced host path task w =
      let l1 = Call.printf "preparing http request ...\n" [] ∷ w.log in
      let client = env.task_value l1 task in
      let l2 = Call.task_free task ∷ Call.task_value task (Handle.clientconn client) ∷ l1 in
      let req = env.request_new l2 in
      let l3 = Call.request_new req ∷ l2 in
      elim (Bool-cases (failed (env.request_set_method l3 req (codes "GET")))) [
        | inl bad ↦ rw (bad, branch) tt
        | inr good ↦
            rw (good, branch)
              (set_uri-Advanced host path client req
                (record w { log = Call.request_set_method req (codes "GET") ∷ l3 }))
      ]

  pub on_handshake-Advanced :
      (host path : Bytes) (task : ℕ) (ty : TaskReturnType) (w : World)
      → let after = on_handshake env host path s task ty w in
        Advanced after.0 (level w.log) (reactions w.log) after.1.log
  unfolding on_handshake
  on_handshake-Advanced host path task task_error w = unfold task_failed in tt
  on_handshake-Advanced host path task task_clientconn w = prepare_request-Advanced host path task w
  on_handshake-Advanced host path task _ w = tt

  start_body-Advanced :
      (resp : ℕ) (w : World)
      → let after = start_body env s resp w in
        Advanced after.0 (level w.log) (reactions w.log) after.1.log
  unfolding start_body
  start_body-Advanced resp w = (omega arith, omega arith)

  headers-Advanced :
      (resp : ℕ) (hs : List (Bytes × Bytes)) (w : World)
      → let after = start_body env s resp (foreach_header hs w).1 in
        Advanced after.0 (level w.log) (reactions w.log) after.1.log
  unfolding start_body
  headers-Advanced resp hs w =
      let k = foreach_header-IsKept hs w in
      let same = reactions-foreach_header hs w in
      (omega (arith, k.sent_requests, k.asked_bodies), omega (arith, same))

  read_response-Advanced :
      (task : ℕ) (w : World)
      → let after = read_response env s task w in
        Advanced after.0 (level w.log) (reactions w.log) after.1.log
  unfolding read_response
  read_response-Advanced task w =
      let resp = env.task_value w.log task in
      let l1 =
        Call.response_status resp
        ∷ Call.task_free task
        ∷ Call.task_value task (Handle.response resp)
        ∷ w.log in
      let args =
        Arg.int (
          env.response_status
            (Call.task_free task ∷ Call.task_value task (Handle.response resp) ∷ w.log) resp)
        ∷ Arg.text (env.response_reason_phrase l1 resp)
        ∷ [] in
      let l2 =
        Call.printf "\nResponse Status: %d %.*s\n" args ∷ Call.response_reason_phrase resp ∷ l1 in
      headers-Advanced resp (env.response_headers l2 resp)
        (record w { log = Call.headers_foreach (Headers.of_response resp) ∷ l2 })

  pub on_send-Advanced :
      (task : ℕ) (ty : TaskReturnType) (w : World)
      → let after = on_send env s task ty w in
        Advanced after.0 (level w.log) (reactions w.log) after.1.log
  unfolding on_send
  on_send-Advanced task task_error w = unfold task_failed in tt
  on_send-Advanced task task_response w = read_response-Advanced task w
  on_send-Advanced task _ w = tt

  pub on_resp_body-Advanced :
      (task : ℕ) (ty : TaskReturnType) (w : World)
      → let after = on_resp_body env s task ty w in
        Advanced after.0 (level w.log) (reactions w.log) after.1.log
  unfolding on_resp_body
  on_resp_body-Advanced task task_error w = unfold task_failed in tt
  on_resp_body-Advanced task task_empty w = unfold finish in tt
  on_resp_body-Advanced task _ w = tt
