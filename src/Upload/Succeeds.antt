-- ===== src/Upload/Succeeds.antt =====
-- The loop of Upload.antt with a peer that reports no error.
use llgoexamples.Upload.Start.{opened_as, linked_as, IsExcused}
use llgoexamples.Base.{
  ret, some, ◌∷◌, ℕ, zero, suc, ◌≡◌, ◌≢◌, ◌≤◌, ◌+◌, ◌⊎◌, refl, ◌∙◌, List, Bytes, null, inl, inr,
  Bool-cases, arith, ◌==◌,
}
use llgoexamples.Hyper.{TaskReturnType, task_empty, task_buf, task_clientconn, task_response}
use llgoexamples.Hyper.Calls.{Call, Log}
use llgoexamples.Hyper.Env.{Env, Laws, Reaction, userdata_of}
use llgoexamples.World.{World, call, branch, Verdict, Outcome}
use llgoexamples.Client.{example_id}
use llgoexamples.Upload.{
  Callback, poll_req_upload, print_informational, Context, send_request, set_uri, prepare_request,
  on_handshake, read_response, start_body, on_send, write_chunk, finish, on_resp_body, on_task,
  react, step, conclude, run, main,
}
use llgoexamples.Exchange.{IsAt, start}
use llgoexamples.Exchange.Reactions.{IsPrompt}
use llgoexamples.Exchange.Success.{GoesWell, IsGood, wait_io-IsGood}
use llgoexamples.Upload.Ownership.{IsContext}
use llgoexamples.Upload.Loop.{Inv, handshaking, sending, streaming}
use llgoexamples.Upload.Run.{step-Ends}
use llgoexamples.Upload.Whole.{main-Holds}
use llgoexamples.Upload.Returns.{IsOver, Ends-next, run-returns}

-- A task that reads the body ends with a piece of it, or at its end.
abbrev pub IsReadable : Env Callback → Type 0
IsReadable env =
    (log : Log) (t : ℕ)
    → userdata_of log t ≡ 3
    → (env.task_type log t ≡ task_empty) ⊎ (env.task_type log t ≡ task_buf)

module _ (env : Env Callback) (laws : Laws env) (well : GoesWell env) (readable : IsReadable env)
    (x : Context) where
  set_uri-IsGood :
      (client req : ℕ) (w : World) → IsGood (set_uri env x.host x.path x.setup client req w).0
  unfolding set_uri send_request
  set_uri-IsGood client req w = rw (well.uri_set w.log req x.path, branch) tt

  prepare_request-IsGood :
      (task : ℕ) (w : World) → IsGood (prepare_request env x.host x.path x.setup task w).0
  unfolding prepare_request
  prepare_request-IsGood task w = rw (well.method_set, branch) (set_uri-IsGood _ _ _)

  on_handshake-IsGood :
      (task : ℕ) (w : World)
      → IsGood (on_handshake env x.host x.path x.setup task task_clientconn w).0
  unfolding on_handshake
  on_handshake-IsGood task w = prepare_request-IsGood task w

  on_send-IsGood :
      (b task : ℕ) (w : World) → IsGood (on_send env x.setup b task task_response w).0.0
  unfolding on_send read_response start_body
  on_send-IsGood b task w = tt

  on_resp_body-IsGood :
      (b task : ℕ) (ty : TaskReturnType) (w : World)
      → (ty ≡ task_empty) ⊎ (ty ≡ task_buf)
      → IsGood (on_resp_body env x.upload x.setup b task ty w).0
  unfolding on_resp_body write_chunk finish
  on_resp_body-IsGood b task ty w (inl e) = rw e tt
  on_resp_body-IsGood b task ty w (inr e) = rw e tt

  on_task-IsGood :
      (b task t tag sent : ℕ) (w : World)
      → (tag ≡ 1) ⊎ ((tag ≡ 2) ⊎ (tag ≡ 3))
      → IsAt tag t sent 0 w.log
      → IsGood (on_task env x b task (example_id (env.task_userdata w.log task)) w).0.0
  unfolding on_task
  on_task-IsGood b task t tag sent w which i = elim (Bool-cases (t == task)) [
    | inl same ↦
        let tagged : userdata_of w.log task ≡ tag = ground (arith, i.tagged task, same) in
        elim which [
          | inl one ↦
              let e : userdata_of w.log task ≡ 1 = tagged ∙ one in
              rw
                (
                  laws.userdata_kept w.log task,
                  e,
                  well.handshaken (Call.task_type task ∷ w.log) task e,
                )
                (on_handshake-IsGood task (call (Call.task_type task) w).1)
          | inr (inl two) ↦
              let e : userdata_of w.log task ≡ 2 = tagged ∙ two in
              rw
                (
                  laws.userdata_kept w.log task,
                  e,
                  well.answered (Call.task_type task ∷ w.log) task e,
                )
                (on_send-IsGood b task (call (Call.task_type task) w).1)
          | inr (inr three) ↦
              let e : userdata_of w.log task ≡ 3 = tagged ∙ three in
              rw (laws.userdata_kept w.log task, e)
                (let u = (call (Call.task_type task) w).1 in
                  on_resp_body-IsGood b task (env.task_type u.log task) u (readable u.log task e))
        ]
    | inr other ↦ rw (laws.userdata_kept w.log task, i.tagged task, other) tt
  ]

  react-IsGood :
      (b t tag sent : ℕ) (r : Reaction Callback) (w : World)
      → (tag ≡ 1) ⊎ ((tag ≡ 2) ⊎ (tag ≡ 3))
      → IsAt tag t sent 0 w.log
      → IsGood (react env x b r w).0.0
  unfolding react
  react-IsGood b t tag sent (Reaction.reads n) w which i = tt
  react-IsGood b t tag sent (Reaction.writes bs) w which i = tt
  react-IsGood b t tag sent (Reaction.calls poll_req_upload) w which i = tt
  react-IsGood b t tag sent (Reaction.calls (print_informational status)) w which i = tt
  react-IsGood b t tag sent Reaction.waits w which i = wait_io-IsGood env well _
  react-IsGood b t tag sent (Reaction.finished task) w which i =
      on_task-IsGood b task t tag sent
        (call (Call.task_userdata task) (call (Call.executor_poll x.setup.exec task) w).1).1 which
        (record {
          tagged = i.tagged;
          sent_requests = i.sent_requests;
          asked_bodies = i.asked_bodies;
        })

  step-IsGood : (sock b : ℕ) (w : World) → Inv x sock b w → IsGood (step env x b w).0.0
  unfolding step
  step-IsGood sock b w (handshaking t i o) =
      react-IsGood b t 1 0 (env.executor_poll w.log) w (inl refl) i
  step-IsGood sock b w (sending t i o) =
      react-IsGood b t 2 1 (env.executor_poll w.log) w (inr (inl refl)) i
  step-IsGood sock b w (streaming t r i o) =
      react-IsGood b t 3 1 (env.executor_poll w.log) w (inr (inr refl)) i

  -- A step that is good and was not the last of the program leaves a good rest.
  conclude-exit_zero :
      (fuel : ℕ) (v : Verdict) (b : ℕ) (w : World)
      → IsGood v
      → (v ≡ Verdict.next
          → (run env x fuel b w).0 ≢ Outcome.running
          → (run env x fuel b w).0 ≡ Outcome.exited 0)
      → (conclude env x (run env x fuel) (v, b) w).0 ≢ Outcome.running
      → (conclude env x (run env x fuel) (v, b) w).0 ≡ Outcome.exited 0
  conclude-exit_zero fuel Verdict.next b w g more ends = more refl ends
  conclude-exit_zero fuel (Verdict.exit zero) b w g more ends = refl
  conclude-exit_zero fuel (Verdict.exit (suc n)) b w g more ends = absurd g
  conclude-exit_zero fuel Verdict.abort b w g more ends = absurd g

  run-exit_zero :
      (sock : ℕ)
      → IsContext x
      → (fuel b : ℕ) (w : World) → Inv x sock b w
      → (run env x fuel b w).0 ≢ Outcome.running
      → (run env x fuel b w).0 ≡ Outcome.exited 0
  unfolding run
  run-exit_zero sock valid zero b w v ends = absurd (ends refl)
  run-exit_zero sock valid (suc fuel) b w v ends =
      conclude-exit_zero fuel (step env x b w).0.0 (step env x b w).0.1 (step env x b w).1
        (step-IsGood sock b w v)
        (λ next.
          run-exit_zero sock valid fuel (step env x b w).0.1 (step env x b w).1
            (Ends-next x sock _ _ _ next (step-Ends env laws x sock valid b w v)))
        ends

module _ (env : Env Callback) (laws : Laws env) (well : GoesWell env)
    (readable : IsReadable env) where
  not-IsExcused :
      (argv : List Bytes) (file sock : ℕ)
      → opened_as env argv ≡ ret file
      → linked_as env argv ≡ some sock
      → ¬ (IsExcused env argv)
  not-IsExcused argv file sock opened linked (inl (e, failed)) = cc
  not-IsExcused argv file sock opened linked (inr (inl failed)) = cc
  not-IsExcused argv file sock opened linked (inr (inr (log, fd, blocking))) =
      let set = well.nonblocking log fd in cc

  -- Within `laws`, if `open` answers a descriptor for the first argument and `connect_to` then answers
  -- a socket, no call fails and each awaited task ends with a value that it is awaited for (`well`
  -- and `readable`), hyper hands over a task with userdata whenever it has one, the calls were safe
  -- and it has reacted `most` times, and from then on the response's body is over, then after
  -- `most + 3` steps or more `main` has returned 0.
  pub upload-exits_zero :
      (most fuel : ℕ) (argv : List Bytes) (file sock : ℕ)
      → IsPrompt env most
      → IsOver env most
      → opened_as env argv ≡ ret file
      → linked_as env argv ≡ some sock
      → most + 3 ≤ fuel
      → (main env fuel argv start).0 ≡ Outcome.exited 0
  upload-exits_zero most fuel argv file sock prompt over opened linked enough =
      main-Holds env laws fuel (λ out w. out ≡ Outcome.exited 0) argv
        (λ w safe none_sent untouched excuse.
          absurd (not-IsExcused argv file sock opened linked excuse))
        (λ x s w valid entered v. run-exit_zero env laws well readable x s valid fuel null w v (
          run-returns env laws most prompt over x s valid fuel null w v (omega arith)
            (omega arith)))
