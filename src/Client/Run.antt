-- ===== src/Client/Run.antt =====
-- Every run of the loop of Client.antt keeps the invariant, or ends as `Final` says.
use llgoexamples.Base.{
  ℕ, zero, suc, ◌≡◌, refl, ◌∙◌, ◌⊎◌, some, Bytes, ◌≢◌, null, ◌==◌, inl, inr, Bool-cases, ==-refl,
}
use llgoexamples.Hyper.Calls.{Call, Handle}
use llgoexamples.Hyper.Env.{Env, Laws, Reaction}
use llgoexamples.World.{World, M, call, Verdict, Outcome}
use llgoexamples.Conn.{wait_io}
use llgoexamples.Conn.Ownership.{
  IsOwned, call-IsOwned, asked-IsOwned, read_cb-IsOwned, write_cb-IsOwned, wait_io-IsOwned,
  wait_io_cases,
}
use llgoexamples.Client.{
  Callback, print_each_chunk, Setup, example_id, on_task, react, step, conclude, run,
}
use llgoexamples.Client.Ownership.{idle, held}
use llgoexamples.Client.Ownership.Request.{on_handshake-After}
use llgoexamples.Client.Ownership.Response.{on_send-After, on_resp_body-After}
use llgoexamples.Exchange.{typed-IsAt, read_cb-IsKept, write_cb-IsKept, wait_io-IsKept}
use llgoexamples.Client.Progress.{Stage, handshaking, sending, reading, Stage-kept, requests-le_one}
use llgoexamples.Client.Progress.Handlers.{
  on_handshake-Progress, on_send-Progress, on_resp_body-Progress,
}
use llgoexamples.Client.Loop.{
  Inv, Ends, Final, Ends-both, polled-IsOwned, freed-IsOwned, freed-IsAt, awaited-IsAt,
}

module _ (env : Env Callback) (laws : Laws env) (host path : Bytes) (s : Setup) (sock : ℕ)
    (exec_real : s.exec ≢ null) (at_real : s.at ≢ null) where
  on_task-Ends :
      (task : ℕ) (w : World)
      → task ≢ null
      → IsOwned (held s sock (record idle { task = some task })) w
      → Stage w.log
      → let after = on_task env host path s task (example_id (env.task_userdata w.log task)) w in
        Ends s sock after.0 after.1
  unfolding on_task
  on_task-Ends task w tr o (handshaking t i) = elim (Bool-cases (t == task)) [
    | inl same ↦
        rw (laws.userdata_kept w.log task, i.tagged task, same)
          (let u = (call (Call.task_type task) w).1 in
            let ty = env.task_type u.log task in
            Ends-both s sock _ _
              (on_handshake-After env laws s sock exec_real host path task ty u tr refl
                (asked-IsOwned (Call.task_type task) task w refl refl refl tr (==-refl task) o))
              (on_handshake-Progress env s host path task ty u
                (typed-IsAt task (awaited-IsAt task w same i))))
    | inr other ↦
        rw (laws.userdata_kept w.log task, i.tagged task, other)
          (record {
            ownership = freed-IsOwned s sock task w tr o;
            stage = handshaking t (freed-IsAt task w other i);
          })
  ]
  on_task-Ends task w tr o (sending t i) = elim (Bool-cases (t == task)) [
    | inl same ↦
        rw (laws.userdata_kept w.log task, i.tagged task, same)
          (let u = (call (Call.task_type task) w).1 in
            let ty = env.task_type u.log task in
            Ends-both s sock _ _
              (on_send-After env laws s sock exec_real task ty u tr refl
                (asked-IsOwned (Call.task_type task) task w refl refl refl tr (==-refl task) o))
              (on_send-Progress env s task ty u (typed-IsAt task (awaited-IsAt task w same i))))
    | inr other ↦
        rw (laws.userdata_kept w.log task, i.tagged task, other)
          (record {
            ownership = freed-IsOwned s sock task w tr o;
            stage = sending t (freed-IsAt task w other i);
          })
  ]
  on_task-Ends task w tr o (reading t i) = elim (Bool-cases (t == task)) [
    | inl same ↦
        rw (laws.userdata_kept w.log task, i.tagged task, same)
          (let u = (call (Call.task_type task) w).1 in
            let ty = env.task_type u.log task in
            Ends-both s sock _ _
              (on_resp_body-After env laws s sock exec_real task ty u tr at_real refl
                (asked-IsOwned (Call.task_type task) task w refl refl refl tr (==-refl task) o))
              (on_resp_body-Progress env s task ty u
                (typed-IsAt task (awaited-IsAt task w same i))))
    | inr other ↦
        rw (laws.userdata_kept w.log task, i.tagged task, other)
          (record {
            ownership = freed-IsOwned s sock task w tr o;
            stage = reading t (freed-IsAt task w other i);
          })
  ]

  wait_io-Ends : (w : World) → Inv s sock w → Ends s sock (wait_io env w).0 (wait_io env w).1
  wait_io-Ends w v = waited (wait_io_cases env w)
    where
      o : IsOwned (held s sock idle) (wait_io env w).1
      o = wait_io-IsOwned env laws (held s sock idle) w v.ownership

      waited :
          ((wait_io env w).0 ≡ Verdict.next) ⊎ ((wait_io env w).0 ≡ Verdict.exit 1)
          → Ends s sock (wait_io env w).0 (wait_io env w).1
      waited (inl next) =
          rw next (record { ownership = o; stage = Stage-kept (wait_io-IsKept env w) v.stage })
      waited (inr failed) =
          rw failed (o.safe, requests-le_one (Stage-kept (wait_io-IsKept env w) v.stage))

  react-Ends :
      (w : World) (r : Reaction Callback)
      → env.executor_poll w.log ≡ r
      → Inv s sock w
      → Ends s sock (react env host path s r w).0 (react env host path s r w).1
  unfolding react
  react-Ends w (Reaction.reads n) e v = record {
    ownership = read_cb-IsOwned env laws (held s sock idle) n w v.ownership;
    stage = Stage-kept (read_cb-IsKept env n w) v.stage;
  }
  react-Ends w (Reaction.writes buf) e v = record {
    ownership = write_cb-IsOwned env laws (held s sock idle) buf w v.ownership;
    stage = Stage-kept (write_cb-IsKept env buf w) v.stage;
  }
  react-Ends w (Reaction.calls (print_each_chunk chunk)) e v = record {
    ownership = call-IsOwned (Call.write_stdout chunk) w refl refl tt v.ownership;
    stage =
        Stage-kept (record { userdata = λ t. refl; sent_requests = refl; asked_bodies = refl })
          v.stage;
  }
  react-Ends w Reaction.waits e v = wait_io-Ends _ (record {
    ownership =
        call-IsOwned (Call.executor_poll_none s.exec) w refl refl
          (v.ownership.exactly (Handle.executor s.exec) ∙ ==-refl s.exec, exec_real, tt)
          v.ownership;
    stage =
        Stage-kept (record { userdata = λ t. refl; sent_requests = refl; asked_bodies = refl })
          v.stage;
  })
  react-Ends w (Reaction.finished task) e v =
      let w1 = (call (Call.executor_poll s.exec task) w).1 in
      let tr = (laws.poll_returns w.log task e).0 in
      on_task-Ends task (call (Call.task_userdata task) w1).1 tr
        (asked-IsOwned (Call.task_userdata task) task w1 refl refl refl tr (==-refl task)
          (polled-IsOwned s sock task w exec_real v.ownership))
        (Stage-kept (record { userdata = λ t. refl; sent_requests = refl; asked_bodies = refl })
          v.stage)

  -- One step keeps the invariant or ends the program, whatever hyper and the system answer.
  pub step-Ends :
      (w : World) → Inv s sock w → Ends s sock (step env host path s w).0 (step env host path s w).1
  unfolding step
  step-Ends w v = react-Ends w (env.executor_poll w.log) refl v

  conclude-Final :
      (again : M Outcome) (v : Verdict) (w : World)
      → Ends s sock v w
      → (Inv s sock w → Final s sock (again w).0 (again w).1)
      → Final s sock (conclude env again v w).0 (conclude env again v w).1
  conclude-Final again Verdict.next w e more = more e
  conclude-Final again (Verdict.exit zero) w e more = e
  conclude-Final again (Verdict.exit (suc n)) w e more = e
  conclude-Final again Verdict.abort w e more = e

  pub run-Final :
      (fuel : ℕ) (w : World)
      → Inv s sock w
      → let after = run env fuel host path s w in Final s sock after.0 after.1
  unfolding run
  run-Final zero w v = v
  run-Final (suc fuel) w v =
      conclude-Final (run env fuel host path s) (step env host path s w).0
        (step env host path s w).1 (step-Ends w v) (run-Final fuel (step env host path s w).1)
