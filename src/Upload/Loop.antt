-- ===== src/Upload/Loop.antt =====
-- The loop of Upload.antt keeps its invariant: who owns what, and how far the exchange has come.
use llgoexamples.Base.{
  ℕ, zero, suc, ◌≡◌, ◌≢◌, ◌≤◌, refl, ◌∙◌, Option, none, some, ◌∷◌, null, ◌==◌, arith, inl, inr,
  Bool-cases, ==-refl,
}
use llgoexamples.Hyper.Calls.{Call, Handle}
use llgoexamples.Hyper.Env.{Env, Laws}
use llgoexamples.Hyper.Ledger.{alive, IsSafe}
use llgoexamples.World.{World, call, Verdict, Outcome}
use llgoexamples.Conn.Ownership.{asked-IsOwned, owned, IsOwned}
use llgoexamples.Exchange.{typed-IsAt, requests, IsAt, IsKept, IsAt-kept}
use llgoexamples.Client.{example_id}
use llgoexamples.Client.Loop.{freed-IsAt, awaited-IsAt}
use llgoexamples.Upload.{Callback, Context, on_task}
use llgoexamples.Upload.Ownership.{Temps, idle, held, left, After, IsContext}
use llgoexamples.Upload.Ownership.Request.{on_handshake-After}
use llgoexamples.Upload.Ownership.Response.{reading, on_send-After}
use llgoexamples.Upload.Ownership.Pieces.{on_resp_body-After}
use llgoexamples.Upload.Progress.{Moves, on_handshake-Moves, on_send-Moves, on_resp_body-Moves}

-- What is held between two steps: nothing, or the response's body.
abbrev pub between : Option ℕ → Temps
between b = record idle { body = b }

-- Between two steps, with `b` in the variable `resp_body`.
pub data Inv (x : Context) (sock : ℕ) : ℕ → World → Type 0 where
  handshaking :
      {b : ℕ} {w : World} (task : ℕ)
      → IsAt 1 task 0 0 w.log
      → IsOwned (held x sock (between none)) w
      → Inv x sock b w
  sending :
      {b : ℕ} {w : World} (task : ℕ)
      → IsAt 2 task 1 0 w.log
      → IsOwned (held x sock (between none)) w
      → Inv x sock b w
  streaming :
      {b : ℕ} {w : World} (task : ℕ)
      → b ≢ null
      → IsAt 3 task 1 0 w.log
      → IsOwned (held x sock (between (some b))) w
      → Inv x sock b w

-- After a step: the invariant, or how the program ended.
abbrev pub Ends : Context → ℕ → Verdict → ℕ → World → Type 0
Ends x sock Verdict.next b w = Inv x sock b w
Ends x sock (Verdict.exit zero) b w =
    ((h : Handle) → alive w.log h ≡ left x sock h) × IsSafe w.log × (requests w.log ≡ 1)
Ends x sock (Verdict.exit (suc n)) b w = IsSafe w.log × (requests w.log ≤ 1)
Ends x sock Verdict.abort b w = IsSafe w.log × (requests w.log ≤ 1)

abbrev pub Final : Context → ℕ → Outcome → World → Type 0
Final x sock Outcome.running w = IsSafe w.log × (requests w.log ≤ 1)
Final x sock (Outcome.exited code) w = Ends x sock (Verdict.exit code) null w
Final x sock Outcome.aborted w = IsSafe w.log × (requests w.log ≤ 1)

module _ (x : Context) (sock : ℕ) where
  pub Inv-IsSafe : {b : ℕ} {w : World} → Inv x sock b w → IsSafe w.log × (requests w.log ≤ 1)
  Inv-IsSafe (handshaking t i o) = (o.safe, omega (arith, i.sent_requests))
  Inv-IsSafe (sending t i o) = (o.safe, omega (arith, i.sent_requests))
  Inv-IsSafe (streaming t r i o) = (o.safe, omega (arith, i.sent_requests))

  requested-Ends :
      (v : Verdict) (b : ℕ) (w : World)
      → After x sock idle v w
      → Moves 2 1 v w.log
      → Ends x sock v b w
  requested-Ends Verdict.next b w a (t, i) = sending t i a
  requested-Ends (Verdict.exit zero) b w a m = (a.0, a.1, m)
  requested-Ends (Verdict.exit (suc n)) b w a m = (a, m)
  requested-Ends Verdict.abort b w a m = (a, m)

  streamed-Ends :
      (v : Verdict) (b : ℕ) (w : World)
      → After x sock (reading b) v w
      → (v ≡ Verdict.next → b ≢ null)
      → Moves 3 1 v w.log
      → Ends x sock v b w
  streamed-Ends Verdict.next b w a r (t, i) = streaming t (r refl) i a
  streamed-Ends (Verdict.exit zero) b w a r m = (a.0, a.1, m)
  streamed-Ends (Verdict.exit (suc n)) b w a r m = (a, m)
  streamed-Ends Verdict.abort b w a r m = (a, m)

  with_task : Option ℕ → ℕ → Temps
  with_task b task = record (between b) { task = some task }

  polled-exactly :
      (b : Option ℕ) (task : ℕ) (w : World)
      → IsOwned (held x sock (between b)) w
      → (h : Handle)
      → alive (Call.executor_poll x.setup.exec task ∷ w.log) h
        ≡ owned (held x sock (with_task b task)) w.conn h
  unfolding with_task
  polled-exactly b task w o (Handle.task p) = ground (arith, o.exactly (Handle.task p))
  polled-exactly b task w o (Handle.waker p) = o.exactly (Handle.waker p)
  polled-exactly b task w o h = o.exactly h

  polled-IsOwned :
      (b : Option ℕ) (task : ℕ) (w : World)
      → x.setup.exec ≢ null
      → IsOwned (held x sock (between b)) w
      → IsOwned (held x sock (with_task b task)) (call (Call.executor_poll x.setup.exec task) w).1
  unfolding with_task
  polled-IsOwned b task w er o = record {
    exactly = unfold with_task in polled-exactly b task w o;
    apart = o.apart;
    safe = (tt, (o.exactly (Handle.executor x.setup.exec) ∙ ==-refl x.setup.exec, er, tt), o.safe);
    connected = o.connected;
  }

  freed-exactly :
      (b : Option ℕ) (task : ℕ) (w : World)
      → IsOwned (held x sock (with_task b task)) w
      → (h : Handle)
      → alive (Call.task_free task ∷ w.log) h ≡ owned (held x sock (between b)) w.conn h
  unfolding with_task
  freed-exactly b task w o (Handle.task p) = ground (arith, o.exactly (Handle.task p))
  freed-exactly b task w o (Handle.waker p) = o.exactly (Handle.waker p)
  freed-exactly b task w o h = o.exactly h

  freed-IsOwned :
      (b : Option ℕ) (task : ℕ) (w : World)
      → task ≢ null
      → IsOwned (held x sock (with_task b task)) w
      → IsOwned (held x sock (between b)) (call (Call.task_free task) w).1
  unfolding with_task
  freed-IsOwned b task w tr o = record {
    exactly = unfold with_task in freed-exactly b task w o;
    apart = o.apart;
    safe = ((o.exactly (Handle.task task) ∙ ==-refl task, tr, tt), tt, o.safe);
    connected = o.connected;
  }

module _ (env : Env Callback) (laws : Laws env) (x : Context) (sock : ℕ) (valid : IsContext x) where
  -- The dispatch of the task that is awaited, at each stage.
  pub on_task-Ends :
      (b task : ℕ) (w : World)
      → task ≢ null
      → Inv x sock b w
      → let w' =
          (call (Call.task_userdata task) (call (Call.executor_poll x.setup.exec task) w).1).1 in
        let after = on_task env x b task (example_id (env.task_userdata w'.log task)) w' in
        Ends x sock after.0.0 after.0.1 after.1
  unfolding on_task with_task
  on_task-Ends b task w tr (handshaking t i o) =
      let w' =
        (call (Call.task_userdata task) (call (Call.executor_poll x.setup.exec task) w).1).1 in
      let i' : IsAt 1 t 0 0 w'.log = record {
        tagged = i.tagged;
        sent_requests = i.sent_requests;
        asked_bodies = i.asked_bodies;
      } in
      let o' =
        asked-IsOwned (Call.task_userdata task) task
          (call (Call.executor_poll x.setup.exec task) w).1 refl refl refl tr (==-refl task)
          (polled-IsOwned x sock none task w valid.exec_real o) in
      elim (Bool-cases (t == task)) [
        | inl same ↦
            rw (laws.userdata_kept w'.log task, i'.tagged task, same)
              (let u = (call (Call.task_type task) w').1 in
                let ty = env.task_type u.log task in
                let ou =
                  asked-IsOwned (Call.task_type task) task w' refl refl refl tr (==-refl task) o' in
                requested-Ends x sock _ b _
                  (on_handshake-After env laws x sock valid x.host x.path task ty u tr refl ou)
                  (on_handshake-Moves env x x.host x.path task ty u
                    (typed-IsAt task (awaited-IsAt task w' same i'))))
        | inr other ↦
            rw (laws.userdata_kept w'.log task, i'.tagged task, other)
              (handshaking t (freed-IsAt task w' other i')
                (freed-IsOwned x sock none task w' tr o'))
      ]
  on_task-Ends b task w tr (sending t i o) =
      let w' =
        (call (Call.task_userdata task) (call (Call.executor_poll x.setup.exec task) w).1).1 in
      let i' : IsAt 2 t 1 0 w'.log = record {
        tagged = i.tagged;
        sent_requests = i.sent_requests;
        asked_bodies = i.asked_bodies;
      } in
      let o' =
        asked-IsOwned (Call.task_userdata task) task
          (call (Call.executor_poll x.setup.exec task) w).1 refl refl refl tr (==-refl task)
          (polled-IsOwned x sock none task w valid.exec_real o) in
      elim (Bool-cases (t == task)) [
        | inl same ↦
            rw (laws.userdata_kept w'.log task, i'.tagged task, same)
              (let u = (call (Call.task_type task) w').1 in
                let ty = env.task_type u.log task in
                let ou =
                  asked-IsOwned (Call.task_type task) task w' refl refl refl tr (==-refl task) o' in
                let (a, r) = on_send-After env laws x sock valid b task ty u tr refl ou in
                streamed-Ends x sock _ _ _ a r (
                  on_send-Moves env x b task ty u (typed-IsAt task (awaited-IsAt task w' same i'))))
        | inr other ↦
            rw (laws.userdata_kept w'.log task, i'.tagged task, other)
              (sending t (freed-IsAt task w' other i') (freed-IsOwned x sock none task w' tr o'))
      ]
  on_task-Ends b task w tr (streaming t br i o) =
      let w' =
        (call (Call.task_userdata task) (call (Call.executor_poll x.setup.exec task) w).1).1 in
      let i' : IsAt 3 t 1 0 w'.log = record {
        tagged = i.tagged;
        sent_requests = i.sent_requests;
        asked_bodies = i.asked_bodies;
      } in
      let o' =
        asked-IsOwned (Call.task_userdata task) task
          (call (Call.executor_poll x.setup.exec task) w).1 refl refl refl tr (==-refl task)
          (polled-IsOwned x sock (some b) task w valid.exec_real o) in
      elim (Bool-cases (t == task)) [
        | inl same ↦
            rw (laws.userdata_kept w'.log task, i'.tagged task, same)
              (let u = (call (Call.task_type task) w').1 in
                let ty = env.task_type u.log task in
                let ou =
                  asked-IsOwned (Call.task_type task) task w' refl refl refl tr (==-refl task) o' in
                streamed-Ends x sock _ b _
                  (on_resp_body-After env laws x sock valid b task ty u tr br refl ou) (λ _. br)
                  (on_resp_body-Moves env x b task ty u
                    (typed-IsAt task (awaited-IsAt task w' same i'))))
        | inr other ↦
            rw (laws.userdata_kept w'.log task, i'.tagged task, other)
              (streaming t br (freed-IsAt task w' other i')
                (freed-IsOwned x sock (some b) task w' tr o'))
      ]

  -- What leaves the exchange as it was, and keeps the ownership whatever is held, keeps the
  -- invariant.
  pub Inv-kept :
      {b : ℕ} {w : World} (v : World)
      → IsKept w.log v.log
      → ((t : Temps) → IsOwned (held x sock t) w → IsOwned (held x sock t) v)
      → Inv x sock b w
      → Inv x sock b v
  Inv-kept v k f (handshaking t i o) = handshaking t (IsAt-kept k i) (f (between none) o)
  Inv-kept v k f (sending t i o) = sending t (IsAt-kept k i) (f (between none) o)
  Inv-kept {b} v k f (streaming t r i o) = streaming t r (IsAt-kept k i) (f (between (some b)) o)
