-- ===== src/Upload/Transfers/Loop.antt =====
-- The loop of Upload.antt, and the bytes of the request's body.
use llgoexamples.Base.{
  ℕ, zero, suc, ◌≡◌, ◌≢◌, refl, sym, ◌∙◌, ap, Option, none, some, [], ◌∷◌, Bytes, SysResult, ret,
  errno,
}
use llgoexamples.Hyper.Calls.{Call, Log}
use llgoexamples.Hyper.Env.{Env, Reaction}
use llgoexamples.World.{World, M, call, Verdict, Outcome}
use llgoexamples.Upload.{
  Callback, poll_req_upload, print_informational, Context, ExampleId, on_task, react, step,
  conclude, run, upload_result, poll_req_upload_cb, print_informational_cb,
}
use llgoexamples.Upload.Transfers.{transfers, Quiet}
use llgoexamples.Upload.Transfers.Handlers.{
  Quiet-wait_io, Quiet-write_cb, read_cb-silent, read_cb-same_fd,
}
use llgoexamples.Upload.Transfers.Cases.{Quiet-on_handshake, Quiet-on_send, Quiet-on_resp_body}
use llgoexamples.Client.{ExampleId, not_set, handshake, send, resp_body}

-- A property of the log that only the calls about the file's bytes can change, and that a call of the
-- data callback keeps, is kept by the loop.
module _ (env : Env Callback) (x : Context) (P : Log → Type 0)
    (alike : (l l' : Log) → transfers x.upload.fd l' ≡ transfers x.upload.fd l → P l → P l')
    (polled : (w : World) → P w.log → P (poll_req_upload_cb env x.upload w).1.log) where
  unmoved : (r : SysResult Bytes) (w : World) → (upload_result env x.upload r w).1.conn ≡ w.conn
  unfolding upload_result
  unmoved (ret []) w = refl
  unmoved (ret (b ∷ bs)) w = refl
  unmoved (errno e) w = refl

  polled-unmoved : (w : World) → (poll_req_upload_cb env x.upload w).1.conn ≡ w.conn
  unfolding poll_req_upload_cb
  polled-unmoved w = unmoved (env.read w.log x.upload.fd x.upload.len) _

  -- The state that the loop keeps: the socket is not the file.
  abbrev Kept : World → Type 0
  Kept w = (w.conn.fd ≢ x.upload.fd) × P w.log

  Quiet-Kept : {A : Type 0} (m : M A) → Quiet x.upload.fd m → (w : World) → Kept w → Kept (m w).1
  Quiet-Kept m q w (apart, p) =
      ((λ e. apart (sym (q.same_fd w) ∙ e)), alike w.log (m w).1.log (q.silent w) p)

  typed : (task : ℕ) (w : World) → Kept w → Kept (call (Call.task_type task) w).1
  typed task w (apart, p) = (apart, alike w.log _ refl p)

  on_task-Kept :
      (b task : ℕ) (id : Option ExampleId) (w : World) → Kept w → Kept (on_task env x b task id w).1
  unfolding on_task
  on_task-Kept b task (some handshake) w k =
      Quiet-Kept _
        (Quiet-on_handshake x.upload.fd env x.setup x.host x.path task
          (env.task_type (Call.task_type task ∷ w.log) task))
        (call (Call.task_type task) w).1 (typed task w k)
  on_task-Kept b task (some send) w k =
      Quiet-Kept _
        (Quiet-on_send x.upload.fd env x.setup b task
          (env.task_type (Call.task_type task ∷ w.log) task))
        (call (Call.task_type task) w).1 (typed task w k)
  on_task-Kept b task (some resp_body) w k =
      Quiet-Kept _
        (Quiet-on_resp_body x.upload.fd env x.setup x.upload b task
          (env.task_type (Call.task_type task ∷ w.log) task))
        (call (Call.task_type task) w).1 (typed task w k)
  on_task-Kept b task (some not_set) w (apart, p) = (apart, alike w.log _ refl p)
  on_task-Kept b task none w k = k

  react-Kept : (b : ℕ) (r : Reaction Callback) (w : World) → Kept w → Kept (react env x b r w).1
  unfolding react
  react-Kept b (Reaction.reads n) w (apart, p) = (
    (λ e. apart (sym (read_cb-same_fd x.upload.fd env n w) ∙ e)),
    alike w.log _ (read_cb-silent x.upload.fd env n w apart) p,
  )
  react-Kept b (Reaction.writes buf) w k = Quiet-Kept _ (Quiet-write_cb x.upload.fd env buf) w k
  react-Kept b (Reaction.calls poll_req_upload) w (apart, p) =
      ((λ e. apart (sym (ap (λ c. c.fd) (polled-unmoved w)) ∙ e)), polled w p)
  react-Kept b (Reaction.calls (print_informational n)) w (apart, p) =
      unfold print_informational_cb in (apart, alike w.log _ refl p)
  react-Kept b Reaction.waits w (apart, p) =
      Quiet-Kept _ (Quiet-wait_io x.upload.fd env) (call (Call.executor_poll_none x.setup.exec) w).1
        (apart, alike w.log _ refl p)
  react-Kept b (Reaction.finished task) w (apart, p) =
      on_task-Kept b task _
        (call (Call.task_userdata task) (call (Call.executor_poll x.setup.exec task) w).1).1
        (apart, alike w.log _ refl p)

  conclude-Kept :
      (again : ℕ → M Outcome) (v : Verdict) (b : ℕ) (w : World)
      → Kept w
      → Kept (again b w).1
      → Kept (conclude env x again (v, b) w).1
  conclude-Kept again Verdict.next b w k more = more
  conclude-Kept again (Verdict.exit n) b w k more = k
  conclude-Kept again Verdict.abort b w k more = k

  pub run-Kept : (fuel b : ℕ) (w : World) → Kept w → Kept (run env x fuel b w).1
  unfolding run step
  run-Kept zero b w k = k
  run-Kept (suc fuel) b w k =
      let after = react env x b (env.executor_poll w.log) w in
      let k' = react-Kept b (env.executor_poll w.log) w k in
      conclude-Kept (run env x fuel) after.0.0 after.0.1 after.1 k'
        (run-Kept fuel after.0.1 after.1 k')
