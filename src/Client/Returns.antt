-- ===== src/Client/Returns.antt =====
-- The loops of Client.antt end when hyper does: how many steps are enough.
pub mod Handlers
use llgoexamples.Base.{
  ◌∷◌, ℕ, zero, suc, ◌≡◌, ◌≢◌, ◌≤◌, ◌<◌, ◌+◌, ◌⊎◌, refl, ◌∙◌, List, Bytes, false, Option, none,
  some, null, arith, inl, inr, Bool-cases, leb, if◌then◌else◌, ◌==◌,
}
use llgoexamples.Hyper.Calls.{Call, Handle, Log}
use llgoexamples.Hyper.Env.{Env, Laws, Reaction, userdata_of}
use llgoexamples.Hyper.Ledger.{alive, IsSafe}
use llgoexamples.World.{World, M, call, Verdict, Outcome}
use llgoexamples.Conn.{read_cb, write_cb, wait_io}
use llgoexamples.Client.{
  Callback, print_each_chunk, Setup, ExampleId, not_set, handshake, send, resp_body, example_id,
  on_task, react, step, conclude, run, main,
}
use llgoexamples.Exchange.{requests, bodies, IsAt, start}
use llgoexamples.Exchange.Reactions.{
  reactions, IsPrompt, Counted, any-Counted, Counted-next, reactions-read_cb, reactions-write_cb,
  reactions-wait_io,
}
use llgoexamples.Client.Progress.{Stage, handshaking, sending, reading}
use llgoexamples.Client.Loop.{Inv, Ends}
use llgoexamples.Client.Run.{step-Ends}
use llgoexamples.Client.Start.{main-Holds}
use llgoexamples.Client.Returns.Handlers.{
  level, Advanced, on_handshake-Advanced, on_send-Advanced, on_resp_body-Advanced,
}

Advanced-Counted : (v : Verdict) (l n : ℕ) (log : Log) → Advanced v l n log → Counted v n log
Advanced-Counted Verdict.next l n log a = a.1
Advanced-Counted (Verdict.exit code) l n log a = tt
Advanced-Counted Verdict.abort l n log a = tt

Advanced-next :
    (v : Verdict) (l n : ℕ) (log : Log)
    → v ≡ Verdict.next
    → Advanced v l n log
    → (suc l ≤ level log) × (n ≤ reactions log)
Advanced-next Verdict.next l n log e a = a
Advanced-next (Verdict.exit code) l n log e a = absurd cc
Advanced-next Verdict.abort l n log e a = absurd cc

pub Ends-next :
    (s : Setup) (sock : ℕ) (v : Verdict) (w : World)
    → v ≡ Verdict.next
    → Ends s sock v w
    → Inv s sock w
Ends-next s sock Verdict.next w e i = i
Ends-next s sock (Verdict.exit code) w e i = absurd cc
Ends-next s sock Verdict.abort w e i = absurd cc

module _ (env : Env Callback) (host path : Bytes) (s : Setup) where
  on_task-Counted :
      (task : ℕ) (id : Option ExampleId) (w : World)
      → let after = on_task env host path s task id w in
        Counted after.0 (reactions w.log) after.1.log
  unfolding on_task
  on_task-Counted task (some handshake) w = Advanced-Counted _ (level w.log) _ _ (
      on_handshake-Advanced env s host path task (env.task_type (Call.task_type task ∷ w.log) task)
        (call (Call.task_type task) w).1)
  on_task-Counted task (some send) w = Advanced-Counted _ (level w.log) _ _ (
      on_send-Advanced env s task (env.task_type (Call.task_type task ∷ w.log) task)
        (call (Call.task_type task) w).1)
  on_task-Counted task (some resp_body) w = Advanced-Counted _ (level w.log) _ _ (
      on_resp_body-Advanced env s task (env.task_type (Call.task_type task ∷ w.log) task)
        (call (Call.task_type task) w).1)
  on_task-Counted task (some not_set) w = omega arith
  on_task-Counted task none w = omega arith

  react-Counted :
      (r : Reaction Callback) (w : World)
      → let after = react env host path s r w in Counted after.0 (suc (reactions w.log)) after.1.log
  unfolding react
  react-Counted (Reaction.reads n) w = reactions-read_cb env n w
  react-Counted (Reaction.writes bs) w = reactions-write_cb env bs w
  react-Counted (Reaction.calls (print_each_chunk chunk)) w = omega arith
  react-Counted Reaction.waits w =
      any-Counted _ _ _ (reactions-wait_io env (call (Call.executor_poll_none s.exec) w).1)
  react-Counted (Reaction.finished task) w =
      let w1 = (call (Call.task_userdata task) (call (Call.executor_poll s.exec task) w).1).1 in
      on_task-Counted task (example_id (env.task_userdata w1.log task)) w1

  step-Counted :
      (w : World)
      → let after = step env host path s w in Counted after.0 (suc (reactions w.log)) after.1.log
  unfolding step
  step-Counted w = react-Counted (env.executor_poll w.log) w

  module _ (laws : Laws env) where
    -- A finished task that was awaited moves the exchange on.
    awaited-Advanced :
        (task : ℕ) (w : World)
        → Stage w.log
        → userdata_of w.log task ≢ null
        → let after = react env host path s (Reaction.finished task) w in
          Advanced after.0 (level w.log) (suc (reactions w.log)) after.1.log
    unfolding react on_task
    awaited-Advanced task w (handshaking t i) u =
        let w1 = (call (Call.task_userdata task) (call (Call.executor_poll s.exec task) w).1).1 in
        let tag : env.task_userdata w1.log task ≡ 1 =
          laws.userdata_kept w1.log task ∙ ground (arith, i.tagged task, u) in
        rw tag (
          on_handshake-Advanced env s host path task
            (env.task_type (Call.task_type task ∷ w1.log) task) (call (Call.task_type task) w1).1)
    awaited-Advanced task w (sending t i) u =
        let w1 = (call (Call.task_userdata task) (call (Call.executor_poll s.exec task) w).1).1 in
        let tag : env.task_userdata w1.log task ≡ 2 =
          laws.userdata_kept w1.log task ∙ ground (arith, i.tagged task, u) in
        rw tag (
          on_send-Advanced env s task (env.task_type (Call.task_type task ∷ w1.log) task)
            (call (Call.task_type task) w1).1)
    awaited-Advanced task w (reading t i) u =
        let w1 = (call (Call.task_userdata task) (call (Call.executor_poll s.exec task) w).1).1 in
        let tag : env.task_userdata w1.log task ≡ 3 =
          laws.userdata_kept w1.log task ∙ ground (arith, i.tagged task, u) in
        rw tag (
          on_resp_body-Advanced env s task (env.task_type (Call.task_type task ∷ w1.log) task)
            (call (Call.task_type task) w1).1)

-- Some task is awaited in every stage.
awaited : {log : Log} → Stage log → (t : ℕ) × (userdata_of log t ≢ null)
awaited (handshaking t i) = (t, ground (arith, i.tagged t))
awaited (sending t i) = (t, ground (arith, i.tagged t))
awaited (reading t i) = (t, ground (arith, i.tagged t))

level-le_two : {log : Log} → Stage log → level log ≤ 2
level-le_two (handshaking t i) = omega (arith, i.sent_requests, i.asked_bodies)
level-le_two (sending t i) = omega (arith, i.sent_requests, i.asked_bodies)
level-le_two (reading t i) = omega (arith, i.sent_requests, i.asked_bodies)

module _ (env : Env Callback) (laws : Laws env) (most : ℕ) (prompt : IsPrompt env most)
    (host path : Bytes) (s : Setup) (sock : ℕ) (exec_real : s.exec ≢ null)
    (at_real : s.at ≢ null) where
  late_step-Advanced :
      (w : World)
      → Inv s sock w
      → most ≤ reactions w.log
      → let after = step env host path s w in
        Advanced after.0 (level w.log) (suc (reactions w.log)) after.1.log
  unfolding step
  late_step-Advanced w v late =
      let (t, u) = awaited v.stage in
      let (task, e, tagged) =
        prompt w.log t v.ownership.safe (v.ownership.exactly (Handle.task t)) u late in
      rw e (awaited-Advanced env host path s laws task w v.stage tagged)

  -- The rest of the loop after a step whose verdict is `v`.
  conclude-returns :
      (again : M Outcome) (v : Verdict) (w : World)
      → (v ≡ Verdict.next → (again w).0 ≢ Outcome.running)
      → (conclude env again v w).0 ≢ Outcome.running
  conclude-returns again Verdict.next w more = more refl
  conclude-returns again (Verdict.exit code) w more = λ e. cc
  conclude-returns again Verdict.abort w more = λ e. cc

  stepped :
      (w : World)
      → Inv s sock w
      → (step env host path s w).0 ≡ Verdict.next
      → Inv s sock (step env host path s w).1
  stepped w v next =
      Ends-next s sock _ _ next (step-Ends env laws host path s sock exec_real at_real w v)

  late_run-returns :
      (fuel : ℕ) (w : World)
      → Inv s sock w
      → most ≤ reactions w.log
      → 3 ≤ fuel + level w.log
      → (run env fuel host path s w).0 ≢ Outcome.running
  unfolding run
  late_run-returns zero w v late enough = λ _. absurd (omega (arith, level-le_two v.stage))
  late_run-returns (suc fuel) w v late enough =
      conclude-returns (run env fuel host path s) (step env host path s w).0 _ (λ next.
        let w' = (step env host path s w).1 in
        let (further, more) = Advanced-next _ _ _ _ next (late_step-Advanced w v late) in
        late_run-returns fuel w' (stepped w v next) (omega arith) (omega arith))

  pub run-returns :
      (fuel : ℕ) (w : World)
      → Inv s sock w
      → most + 3 ≤ fuel + reactions w.log
      → 3 ≤ fuel
      → (run env fuel host path s w).0 ≢ Outcome.running
  unfolding run
  run-returns zero w v enough few = absurd (omega arith)
  run-returns (suc fuel) w v enough few = elim (Bool-cases (leb most (reactions w.log))) [
    | inl late ↦ late_run-returns (suc fuel) w v (ground (arith, late)) (omega arith)
    | inr early ↦ conclude-returns (run env fuel host path s) (step env host path s w).0 _ (λ next.
        let more = Counted-next _ _ _ next (step-Counted env host path s w) in
        let left : reactions w.log < most = ground (arith, early) in
        run-returns fuel (step env host path s w).1 (stepped w v next) (omega arith) (omega arith))
  ]

module _ (env : Env Callback) (laws : Laws env) where
  -- Within `laws`, if hyper hands over a task with userdata whenever it has one, the calls were safe
  -- and it has reacted `most` times, then after `most + 3` steps or more `main` has returned or an
  -- assertion of it has failed, for all arguments.
  pub main-returns :
      (most fuel : ℕ) (argv : List Bytes)
      → IsPrompt env most
      → most + 3 ≤ fuel
      → (main env fuel argv start).0 ≢ Outcome.running
  main-returns most fuel argv prompt enough =
      main-Holds env laws fuel (λ out w. out ≢ Outcome.running)
        (λ host path s sock w er ar v.
          run-returns env laws most prompt host path s sock er ar fuel w v (omega arith)
            (omega arith))
        (λ w safe sent e. cc) argv
