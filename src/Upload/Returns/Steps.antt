-- ===== src/Upload/Returns/Steps.antt =====
-- What a round of the loop of Upload.antt counts, and what the awaited task does when it is handed over.
use llgoexamples.Base.{
  ◌∷◌, ℕ, suc, ◌≡◌, ◌≢◌, ◌≤◌, refl, ◌∙◌, Option, none, some, null, arith, true, ◌==◌,
}
use llgoexamples.Hyper.{TaskReturnType, task_error, task_empty, task_buf}
use llgoexamples.Hyper.Calls.{Call}
use llgoexamples.Hyper.Env.{Env, Laws, Reaction, userdata_of}
use llgoexamples.World.{World, call, Verdict}
use llgoexamples.Client.{ExampleId, not_set, handshake, send, resp_body, example_id}
use llgoexamples.Client.Loop.{awaited-IsAt}
use llgoexamples.Upload.{
  Callback, poll_req_upload, print_informational, Context, on_resp_body, finish, on_task, react,
  step,
}
use llgoexamples.Exchange.{typed-IsAt, IsAt}
use llgoexamples.Exchange.Reactions.{
  reactions, reactions-read_cb, reactions-write_cb, reactions-wait_io,
}
use llgoexamples.Upload.Progress.{Moves, on_handshake-Moves, on_send-Moves}
use llgoexamples.Upload.Returns.Handlers.{
  reactions-on_handshake, reactions-on_send, reactions-on_resp_body, reactions-poll_req_upload,
}

module _ (env : Env Callback) (x : Context) where
  on_task-Counted :
      (b task : ℕ) (id : Option ExampleId) (w : World)
      → reactions w.log ≤ reactions (on_task env x b task id w).1.log
  unfolding on_task
  on_task-Counted b task (some handshake) w = omega (
    arith,
    reactions-on_handshake env x x.host x.path task
        (env.task_type (Call.task_type task ∷ w.log) task) (call (Call.task_type task) w).1,
  )
  on_task-Counted b task (some send) w = omega (
    arith,
    reactions-on_send env x b task (env.task_type (Call.task_type task ∷ w.log) task)
        (call (Call.task_type task) w).1,
  )
  on_task-Counted b task (some resp_body) w =
      reactions-on_resp_body env x b task (env.task_type (Call.task_type task ∷ w.log) task)
        (call (Call.task_type task) w).1
  on_task-Counted b task (some not_set) w = omega arith
  on_task-Counted b task none w = omega arith

  react-Counted :
      (b : ℕ) (r : Reaction Callback) (w : World)
      → suc (reactions w.log) ≤ reactions (react env x b r w).1.log
  unfolding react
  react-Counted b (Reaction.reads n) w = reactions-read_cb env n w
  react-Counted b (Reaction.writes bs) w = reactions-write_cb env bs w
  react-Counted b (Reaction.calls poll_req_upload) w = reactions-poll_req_upload env x w
  react-Counted b (Reaction.calls (print_informational status)) w = omega arith
  react-Counted b Reaction.waits w =
      reactions-wait_io env (call (Call.executor_poll_none x.setup.exec) w).1
  react-Counted b (Reaction.finished task) w =
      let w1 =
        (call (Call.task_userdata task) (call (Call.executor_poll x.setup.exec task) w).1).1 in
      on_task-Counted b task (example_id (env.task_userdata w1.log task)) w1

  pub step-Counted : (b : ℕ) (w : World) → suc (reactions w.log) ≤ reactions (step env x b w).1.log
  unfolding step
  step-Counted b w = react-Counted b (env.executor_poll w.log) w

  on_resp_body-ends :
      (b task : ℕ) (ty : TaskReturnType) (w : World)
      → ty ≢ task_buf
      → (on_resp_body env x.upload x.setup b task ty w).0 ≢ Verdict.next
  unfolding on_resp_body finish
  on_resp_body-ends b task task_error w other = λ e. cc
  on_resp_body-ends b task task_buf w other = λ e. other refl
  on_resp_body-ends b task task_empty w other = λ e. cc
  on_resp_body-ends b task _ w other = λ e. cc

  -- What the awaited task does at each stage when it is handed over.
  module _ (laws : Laws env) (b task : ℕ) (w : World) (tagged : userdata_of w.log task ≢ null) where
    abbrev polled : World
    polled = (call (Call.task_userdata task) (call (Call.executor_poll x.setup.exec task) w).1).1

    polled-IsAt :
        {tag t sent : ℕ}
        → IsAt tag t sent 0 w.log
        → (env.task_userdata polled.log task ≡ tag) × IsAt tag task sent 0 polled.log
    polled-IsAt {tag} {t} {sent} i =
        let same : (t == task) ≡ true = ground (arith, i.tagged task, tagged) in
        let i' : IsAt tag t sent 0 polled.log = record {
          tagged = i.tagged;
          sent_requests = i.sent_requests;
          asked_bodies = i.asked_bodies;
        } in
        (
          laws.userdata_kept polled.log task ∙ ground (arith, i.tagged task, same),
          awaited-IsAt task polled same i',
        )

    pub handshaken-Moves :
        {t : ℕ}
        → IsAt 1 t 0 0 w.log
        → let after = react env x b (Reaction.finished task) w in Moves 2 1 after.0.0 after.1.log
    unfolding react on_task
    handshaken-Moves i =
        let (tag, i') = polled-IsAt i in
        rw tag (
          on_handshake-Moves env x x.host x.path task
            (env.task_type (Call.task_type task ∷ polled.log) task)
            (call (Call.task_type task) polled).1 (typed-IsAt task i'))

    pub answered-Moves :
        {t : ℕ}
        → IsAt 2 t 1 0 w.log
        → let after = react env x b (Reaction.finished task) w in Moves 3 1 after.0.0 after.1.log
    unfolding react on_task
    answered-Moves i =
        let (tag, i') = polled-IsAt i in
        rw tag (
          on_send-Moves env x b task (env.task_type (Call.task_type task ∷ polled.log) task)
            (call (Call.task_type task) polled).1 (typed-IsAt task i'))

    pub streamed-ends :
        {t : ℕ}
        → IsAt 3 t 1 0 w.log
        → env.task_type (Call.task_type task ∷ polled.log) task ≢ task_buf
        → (react env x b (Reaction.finished task) w).0.0 ≢ Verdict.next
    unfolding react on_task
    streamed-ends i other =
        let (tag, i') = polled-IsAt i in
        rw tag (
          on_resp_body-ends b task (env.task_type (Call.task_type task ∷ polled.log) task)
            (call (Call.task_type task) polled).1 other)
