-- ===== src/Client/Succeeds.antt =====
-- The loop of Client.antt with a peer that reports no error.
use llgoexamples.Base.{
  ℕ, zero, suc, ◌≡◌, ◌≢◌, ◌≤◌, ◌+◌, refl, List, [], ◌∷◌, Bytes, null, codes, inl, inr, Bool-cases,
  arith, some, get_or, ◌==◌,
}
use llgoexamples.Hyper.{task_clientconn, task_response, task_empty}
use llgoexamples.Hyper.Calls.{Arg, Call, Log}
use llgoexamples.Hyper.Env.{Env, Laws, Reaction, userdata_of}
use llgoexamples.World.{World, M, call, branch, Verdict, Outcome}
use llgoexamples.Client.{
  Callback, print_each_chunk, Setup, example_id, send_request, set_uri, prepare_request,
  on_handshake, read_response, start_body, on_send, finish, on_resp_body, on_task, react, step,
  conclude, run, set_up, connected_main, main,
}
use llgoexamples.Exchange.{IsReady, start, connect_to-IsKept}
use llgoexamples.Connect.{connect_to}
use llgoexamples.Connect.Sockets.{Connected, connect_to-Connected}
use llgoexamples.Client.Start.{greeted, greeted-IsReady, Connected-IsReady, set_up-Inv}
use llgoexamples.Client.Progress.{Stage, handshaking, sending, reading, Stage-kept}
use llgoexamples.Client.Loop.{Inv}
use llgoexamples.Client.Run.{step-Ends}
use llgoexamples.Exchange.Reactions.{IsPrompt}
use llgoexamples.Exchange.Success.{GoesWell, IsGood, wait_io-IsGood}
use llgoexamples.Client.Returns.{Ends-next, run-returns}

-- The task that reads the body ends without an error.
abbrev pub IsComplete : Env Callback → Type 0
IsComplete env = (log : Log) (t : ℕ) → userdata_of log t ≡ 3 → env.task_type log t ≡ task_empty

module _ (env : Env Callback) (laws : Laws env) (well : GoesWell env) (complete : IsComplete env)
    (host path : Bytes) (s : Setup) where
  set_uri-IsGood : (client req : ℕ) (w : World) → IsGood (set_uri env host path s client req w).0
  unfolding set_uri send_request
  set_uri-IsGood client req w = rw (well.uri_set w.log req path, branch) tt

  prepare_request-IsGood :
      (task : ℕ) (w : World) → IsGood (prepare_request env host path s task w).0
  unfolding prepare_request
  prepare_request-IsGood task w = rw (well.method_set, branch) (set_uri-IsGood _ _ _)

  on_handshake-IsGood :
      (task : ℕ) (w : World) → IsGood (on_handshake env host path s task task_clientconn w).0
  unfolding on_handshake
  on_handshake-IsGood task w = prepare_request-IsGood task w

  on_send-IsGood : (task : ℕ) (w : World) → IsGood (on_send env s task task_response w).0
  unfolding on_send read_response start_body
  on_send-IsGood task w = tt

  on_resp_body-IsGood : (task : ℕ) (w : World) → IsGood (on_resp_body env s task task_empty w).0
  unfolding on_resp_body finish
  on_resp_body-IsGood task w = tt

  on_task-IsGood :
      (task : ℕ) (w : World)
      → Stage w.log
      → IsGood (on_task env host path s task (example_id (env.task_userdata w.log task)) w).0
  unfolding on_task
  on_task-IsGood task w (handshaking t i) = elim (Bool-cases (t == task)) [
    | inl same ↦
        let tag : userdata_of w.log task ≡ 1 = ground (arith, i.tagged task, same) in
        rw
          (
            laws.userdata_kept w.log task,
            tag,
            well.handshaken (Call.task_type task ∷ w.log) task tag,
          )
          (on_handshake-IsGood task (call (Call.task_type task) w).1)
    | inr other ↦ rw (laws.userdata_kept w.log task, i.tagged task, other) tt
  ]
  on_task-IsGood task w (sending t i) = elim (Bool-cases (t == task)) [
    | inl same ↦
        let tag : userdata_of w.log task ≡ 2 = ground (arith, i.tagged task, same) in
        rw
          (laws.userdata_kept w.log task, tag, well.answered (Call.task_type task ∷ w.log) task tag)
          (on_send-IsGood task (call (Call.task_type task) w).1)
    | inr other ↦ rw (laws.userdata_kept w.log task, i.tagged task, other) tt
  ]
  on_task-IsGood task w (reading t i) = elim (Bool-cases (t == task)) [
    | inl same ↦
        let tag : userdata_of w.log task ≡ 3 = ground (arith, i.tagged task, same) in
        rw (laws.userdata_kept w.log task, tag, complete (Call.task_type task ∷ w.log) task tag)
          (on_resp_body-IsGood task (call (Call.task_type task) w).1)
    | inr other ↦ rw (laws.userdata_kept w.log task, i.tagged task, other) tt
  ]

  react-IsGood :
      (r : Reaction Callback) (w : World) → Stage w.log → IsGood (react env host path s r w).0
  unfolding react
  react-IsGood (Reaction.reads n) w stage = tt
  react-IsGood (Reaction.writes bs) w stage = tt
  react-IsGood (Reaction.calls (print_each_chunk chunk)) w stage = tt
  react-IsGood Reaction.waits w stage = wait_io-IsGood env well _
  react-IsGood (Reaction.finished task) w stage =
      on_task-IsGood task
        (call (Call.task_userdata task) (call (Call.executor_poll s.exec task) w).1).1
        (Stage-kept (record { userdata = λ t. refl; sent_requests = refl; asked_bodies = refl })
          stage)

  step-IsGood : (w : World) → Stage w.log → IsGood (step env host path s w).0
  unfolding step
  step-IsGood w stage = react-IsGood (env.executor_poll w.log) w stage

-- A step that is good and was not the last of the program leaves a good rest.
conclude-exit_zero :
    (env : Env Callback) (again : M Outcome) (v : Verdict) (w : World)
    → IsGood v
    → (v ≡ Verdict.next → (again w).0 ≢ Outcome.running → (again w).0 ≡ Outcome.exited 0)
    → (conclude env again v w).0 ≢ Outcome.running
    → (conclude env again v w).0 ≡ Outcome.exited 0
conclude-exit_zero env again Verdict.next w g more ends = more refl ends
conclude-exit_zero env again (Verdict.exit zero) w g more ends = refl
conclude-exit_zero env again (Verdict.exit (suc n)) w g more ends = absurd g
conclude-exit_zero env again Verdict.abort w g more ends = absurd g

abbrev pub host_of : List Bytes → Bytes
host_of argv = get_or argv 0 (codes "httpbin.org")

abbrev pub port_of : List Bytes → Bytes
port_of argv = get_or argv 1 (codes "80")

-- After the first message.
abbrev pub announced : List Bytes → World
announced argv =
    (call
      (Call.printf "connecting to port %s on %s...\n"
        (Arg.text (port_of argv) ∷ Arg.text (host_of argv) ∷ []))
      start).1

module _ (env : Env Callback) (laws : Laws env) (well : GoesWell env)
    (complete : IsComplete env) where
  run-exit_zero :
      (host path : Bytes) (s : Setup) (sock : ℕ)
      → s.exec ≢ null
      → s.at ≢ null
      → (fuel : ℕ) (w : World) → Inv s sock w
      → (run env fuel host path s w).0 ≢ Outcome.running
      → (run env fuel host path s w).0 ≡ Outcome.exited 0
  unfolding run
  run-exit_zero host path s sock er ar zero w v ends = absurd (ends refl)
  run-exit_zero host path s sock er ar (suc fuel) w v ends =
      conclude-exit_zero env (run env fuel host path s) (step env host path s w).0 _
        (step-IsGood env laws well complete host path s w v.stage)
        (λ next.
          run-exit_zero host path s sock er ar fuel (step env host path s w).1
            (Ends-next s sock _ _ next (step-Ends env laws host path s sock er ar w v)))
        ends

  connected_main-exit_zero :
      (most fuel : ℕ) (host path : Bytes) (sock : ℕ) (w : World)
      → IsPrompt env most
      → most + 3 ≤ fuel
      → IsReady sock w
      → (connected_main env fuel host path (some sock) w).0 ≡ Outcome.exited 0
  unfolding connected_main
  connected_main-exit_zero most fuel host path sock w prompt enough r =
      let w1 = (greeted host path sock w) in
      let (inv, er, ar) = set_up-Inv env laws sock w1 (greeted-IsReady host path sock w r) in
      rw (well.nonblocking, branch)
        (run-exit_zero host path (set_up env sock w1).0 sock er ar fuel (set_up env sock w1).1 inv (
          run-returns env laws most prompt host path _ sock er ar fuel _ inv (omega arith)
            (omega arith)))

  -- Within `laws`, if no call fails and each awaited task ends with the value that it is awaited
  -- for (`well` and `complete`), hyper hands over a task with userdata whenever it has one, the calls were safe and it has
  -- reacted `most` times, and `connect_to` returns a socket
  -- for the host and port of the arguments, then after `most + 3` steps or more `main` has returned 0.
  pub main-exits_zero :
      (most fuel sock : ℕ) (argv : List Bytes)
      → IsPrompt env most
      → most + 3 ≤ fuel
      → (connect_to env (host_of argv) (port_of argv) (announced argv)).0 ≡ some sock
      → (main env fuel argv start).0 ≡ Outcome.exited 0
  unfolding main
  main-exits_zero most fuel sock argv prompt enough reached =
      let host = host_of argv in
      let port = port_of argv in
      let v = (connect_to env host port (announced argv)).1 in
      rw reached (
        connected_main-exit_zero most fuel host (get_or argv 2 (codes "/")) sock v prompt enough (
          Connected-IsReady sock (announced argv) v (λ h. refl) (λ t. refl) refl refl
            (rw reached at connected) (connect_to-IsKept env host port (announced argv))))
    where
      connected :
          Connected
            (announced argv)
            (connect_to env (host_of argv) (port_of argv) (announced argv)).0
            (connect_to env (host_of argv) (port_of argv) (announced argv)).1
      connected =
          connect_to-Connected env laws (host_of argv) (port_of argv) (announced argv) (tt, tt, tt)
