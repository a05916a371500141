-- ===== src/Upload/Returns.antt =====
-- The loops of Upload.antt end when hyper does: how many steps are enough.
pub mod Handlers
pub mod Steps
use llgoexamples.Base.{
  ◌∷◌, ℕ, zero, suc, ◌≡◌, ◌≢◌, ◌≤◌, ◌<◌, ◌+◌, refl, ◌∙◌, List, Bytes, Option, none, some, null,
  false, arith, inl, inr, Bool-cases, leb, true, ◌==◌,
}
use llgoexamples.Hyper.{
  TaskReturnType, task_error, task_clientconn, task_response, task_empty, task_buf,
}
use llgoexamples.Hyper.Calls.{Arg, Call, Handle, Log}
use llgoexamples.Hyper.Env.{Env, Laws, Reaction, userdata_of}
use llgoexamples.Hyper.Ledger.{alive, IsSafe}
use llgoexamples.World.{World, M, call, Verdict, Outcome}
use llgoexamples.Client.{ExampleId, not_set, handshake, send, resp_body, example_id}
use llgoexamples.Client.Loop.{awaited-IsAt}
use llgoexamples.Conn.{wait_io}
use llgoexamples.Upload.{
  Callback, poll_req_upload, print_informational, Context, on_resp_body, finish, on_task, react,
  step, conclude, run, main,
}
use llgoexamples.Exchange.{IsAt, start}
use llgoexamples.Exchange.Reactions.{
  reactions, Counted, any-Counted, Counted-next, IsPrompt, reactions-read_cb, reactions-write_cb,
  reactions-wait_io,
}
use llgoexamples.Upload.Ownership.{IsContext}
use llgoexamples.Upload.Progress.{Moves, on_handshake-Moves, on_send-Moves}
use llgoexamples.Upload.Loop.{Inv, handshaking, sending, streaming, Inv-IsSafe, Ends}
use llgoexamples.Upload.Run.{step-Ends}
use llgoexamples.Upload.Whole.{main-Holds}
use llgoexamples.Upload.Returns.Steps.{
  step-Counted, handshaken-Moves, answered-Moves, streamed-ends,
}

-- The response's body is over: once hyper has reacted `most` times, a task that reads the body does
-- not end with a piece of it.
abbrev pub IsOver : Env Callback → ℕ → Type 0
IsOver env most =
    (log : Log) (t : ℕ)
    → userdata_of log t ≡ 3
    → most ≤ reactions log
    → env.task_type log t ≢ task_buf

pub Ends-next :
    (x : Context) (sock : ℕ) (v : Verdict) (b : ℕ) (w : World)
    → v ≡ Verdict.next
    → Ends x sock v b w
    → Inv x sock b w
Ends-next x sock Verdict.next b w e i = i
Ends-next x sock (Verdict.exit code) b w e i = absurd cc
Ends-next x sock Verdict.abort b w e i = absurd cc

Moves-next :
    (tag sent : ℕ) (v : Verdict) (log : Log)
    → v ≡ Verdict.next
    → Moves tag sent v log
    → (t : ℕ) × IsAt tag t sent 0 log
Moves-next tag sent Verdict.next log e m = m
Moves-next tag sent (Verdict.exit code) log e m = absurd cc
Moves-next tag sent Verdict.abort log e m = absurd cc

module _ (env : Env Callback) (laws : Laws env) (most : ℕ) (prompt : IsPrompt env most)
    (over : IsOver env most) (x : Context) (sock : ℕ) (valid : IsContext x) where
  stepped :
      (b : ℕ) (w : World)
      → Inv x sock b w
      → (step env x b w).0.0 ≡ Verdict.next
      → Inv x sock (step env x b w).0.1 (step env x b w).1
  stepped b w v next = Ends-next x sock _ _ _ next (step-Ends env laws x sock valid b w v)

  -- Some task is awaited at every stage, and hyper hands one over.
  handed_over :
      {b : ℕ} {w : World}
      → Inv x sock b w
      → most ≤ reactions w.log
      → (task : ℕ) × (env.executor_poll w.log ≡ Reaction.finished task)
        × (userdata_of w.log task ≢ null)
  handed_over {b} {w} (handshaking t i o) late =
      prompt w.log t o.safe (o.exactly (Handle.task t)) (ground (arith, i.tagged t)) late
  handed_over {b} {w} (sending t i o) late =
      prompt w.log t o.safe (o.exactly (Handle.task t)) (ground (arith, i.tagged t)) late
  handed_over {b} {w} (streaming t r i o) late =
      prompt w.log t o.safe (o.exactly (Handle.task t)) (ground (arith, i.tagged t)) late

  late_handshaking :
      (b t : ℕ) (w : World)
      → Inv x sock b w
      → most ≤ reactions w.log
      → IsAt 1 t 0 0 w.log
      → Moves 2 1 (step env x b w).0.0 (step env x b w).1.log
  unfolding step
  late_handshaking b t w v late i =
      let (task, e, tagged) = handed_over v late in
      rw e (handshaken-Moves env x laws b task w tagged i)

  late_sending :
      (b t : ℕ) (w : World)
      → Inv x sock b w
      → most ≤ reactions w.log
      → IsAt 2 t 1 0 w.log
      → Moves 3 1 (step env x b w).0.0 (step env x b w).1.log
  unfolding step
  late_sending b t w v late i =
      let (task, e, tagged) = handed_over v late in
      rw e (answered-Moves env x laws b task w tagged i)

  late_streaming :
      (b t : ℕ) (w : World)
      → Inv x sock b w
      → most ≤ reactions w.log
      → IsAt 3 t 1 0 w.log
      → (step env x b w).0.0 ≢ Verdict.next
  unfolding step
  late_streaming b t w v late i =
      let (task, e, tagged) = handed_over v late in
      let w1 =
        (call (Call.task_userdata task) (call (Call.executor_poll x.setup.exec task) w).1).1 in
      let tag : userdata_of w1.log task ≡ 3 = ground (arith, i.tagged task, tagged) in
      rw e (
        streamed-ends env x laws b task w tagged i
          (over (Call.task_type task ∷ w1.log) task tag (omega arith)))

  -- The rest of the loop after a step.
  conclude-returns :
      (fuel : ℕ) (v : Verdict) (b : ℕ) (w : World)
      → (v ≡ Verdict.next → (run env x fuel b w).0 ≢ Outcome.running)
      → (conclude env x (run env x fuel) (v, b) w).0 ≢ Outcome.running
  conclude-returns fuel Verdict.next b w more = more refl
  conclude-returns fuel (Verdict.exit code) b w more = λ e. cc
  conclude-returns fuel Verdict.abort b w more = λ e. cc

  streaming-returns :
      (fuel b t : ℕ) (w : World)
      → Inv x sock b w
      → most ≤ reactions w.log
      → 1 ≤ fuel
      → IsAt 3 t 1 0 w.log
      → (run env x fuel b w).0 ≢ Outcome.running
  unfolding run
  streaming-returns zero b t w v late enough i = absurd (omega arith)
  streaming-returns (suc fuel) b t w v late enough i =
      conclude-returns fuel (step env x b w).0.0 _ _
        (λ next. absurd (late_streaming b t w v late i next))

  sending-returns :
      (fuel b t : ℕ) (w : World)
      → Inv x sock b w
      → most ≤ reactions w.log
      → 2 ≤ fuel
      → IsAt 2 t 1 0 w.log
      → (run env x fuel b w).0 ≢ Outcome.running
  unfolding run
  sending-returns zero b t w v late enough i = absurd (omega arith)
  sending-returns (suc fuel) b t w v late enough i =
      conclude-returns fuel (step env x b w).0.0 (step env x b w).0.1 (step env x b w).1 (λ next.
        let (t', i') = Moves-next 3 1 _ _ next (late_sending b t w v late i) in
        streaming-returns fuel _ t' _ (stepped b w v next) (omega (arith, step-Counted env x b w))
          (omega arith) i')

  handshaking-returns :
      (fuel b t : ℕ) (w : World)
      → Inv x sock b w
      → most ≤ reactions w.log
      → 3 ≤ fuel
      → IsAt 1 t 0 0 w.log
      → (run env x fuel b w).0 ≢ Outcome.running
  unfolding run
  handshaking-returns zero b t w v late enough i = absurd (omega arith)
  handshaking-returns (suc fuel) b t w v late enough i =
      conclude-returns fuel (step env x b w).0.0 (step env x b w).0.1 (step env x b w).1 (λ next.
        let (t', i') = Moves-next 2 1 _ _ next (late_handshaking b t w v late i) in
        sending-returns fuel _ t' _ (stepped b w v next) (omega (arith, step-Counted env x b w))
          (omega arith) i')

  late_run-returns :
      (fuel b : ℕ) (w : World)
      → Inv x sock b w
      → most ≤ reactions w.log
      → 3 ≤ fuel
      → (run env x fuel b w).0 ≢ Outcome.running
  late_run-returns fuel b w (handshaking t i o) late enough =
      handshaking-returns fuel b t w (handshaking t i o) late enough i
  late_run-returns fuel b w (sending t i o) late enough =
      sending-returns fuel b t w (sending t i o) late (omega arith) i
  late_run-returns fuel b w (streaming t r i o) late enough =
      streaming-returns fuel b t w (streaming t r i o) late (omega arith) i

  pub run-returns :
      (fuel b : ℕ) (w : World)
      → Inv x sock b w
      → most + 3 ≤ fuel + reactions w.log
      → 3 ≤ fuel
      → (run env x fuel b w).0 ≢ Outcome.running
  unfolding run
  run-returns zero b w v enough few = absurd (omega arith)
  run-returns (suc fuel) b w v enough few = elim (Bool-cases (leb most (reactions w.log))) [
    | inl late ↦ late_run-returns (suc fuel) b w v (ground (arith, late)) (omega arith)
    | inr early ↦
        conclude-returns fuel (step env x b w).0.0 (step env x b w).0.1 (step env x b w).1 (λ next.
          let more = step-Counted env x b w in
          let left : reactions w.log < most = ground (arith, early) in
          run-returns fuel _ _ (stepped b w v next) (omega arith) (omega arith))
  ]

module _ (env : Env Callback) (laws : Laws env) where
  -- Within `laws`, if hyper hands over a task with userdata whenever it has one, the calls were safe
  -- and it has reacted `most` times, and from then on the response's body is over, then after
  -- `most + 3` steps or more `main` has returned or an assertion of it has failed, for all arguments.
  pub upload-returns :
      (most fuel : ℕ) (argv : List Bytes)
      → IsPrompt env most
      → IsOver env most
      → most + 3 ≤ fuel
      → (main env fuel argv start).0 ≢ Outcome.running
  upload-returns most fuel argv prompt over enough =
      main-Holds env laws fuel (λ out w. out ≢ Outcome.running) argv
        (λ w safe none_sent untouched excuse e. cc)
        (λ x sock w valid entered v.
          run-returns env laws most prompt over x sock valid fuel null w v (omega arith)
            (omega arith))
