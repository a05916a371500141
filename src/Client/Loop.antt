-- ===== src/Client/Loop.antt =====
-- The loop of Client.antt keeps its invariant: who owns what, and how far the exchange has come.
use llgoexamples.Base.{
  ℕ, zero, suc, ◌≤◌, ◌≡◌, ◌∙◌, true, false, some, ◌∷◌, ◌≢◌, null, ◌==◌, arith, ==-refl,
}
use llgoexamples.Hyper.Calls.{Call, Handle}
use llgoexamples.Hyper.Ledger.{alive, IsSafe, same_handle}
use llgoexamples.World.{World, call, Verdict, Outcome}
use llgoexamples.Conn.Ownership.{owned, IsOwned}
use llgoexamples.Client.{Setup}
use llgoexamples.Client.Ownership.{idle, held, After}
use llgoexamples.Exchange.{requests, bodies, IsAt}
use llgoexamples.Client.Progress.{Stage, Progress}

-- Between two steps of the loop.
pub record Inv (s : Setup) (sock : ℕ) (w : World) : Type 0 where
  pub ownership : IsOwned (held s sock idle) w
  pub stage : Stage w.log

-- After a step: the invariant, or how the program ended.
abbrev pub Ends : Setup → ℕ → Verdict → World → Type 0
Ends s sock Verdict.next w = Inv s sock w
Ends s sock (Verdict.exit zero) w =
    ((h : Handle) → alive w.log h ≡ same_handle (Handle.fd sock) h)
    × IsSafe w.log
    × (requests w.log ≡ 1)
    × (bodies w.log ≡ 1)
Ends s sock (Verdict.exit (suc n)) w = IsSafe w.log × (requests w.log ≤ 1)
Ends s sock Verdict.abort w = IsSafe w.log × (requests w.log ≤ 1)

-- What holds of the program whenever it is looked at.
abbrev pub Final : Setup → ℕ → Outcome → World → Type 0
Final s sock Outcome.running w = Inv s sock w
Final s sock (Outcome.exited code) w = Ends s sock (Verdict.exit code) w
Final s sock Outcome.aborted w = Ends s sock Verdict.abort w

module _ (s : Setup) (sock : ℕ) where
  pub Ends-both : (v : Verdict) (w : World) → After s sock v w → Progress v w.log → Ends s sock v w
  Ends-both Verdict.next w a p = record { ownership = a; stage = p }
  Ends-both (Verdict.exit zero) w a p = (a.0, a.1, p.0, p.1)
  Ends-both (Verdict.exit (suc n)) w a p = (a, p)
  Ends-both Verdict.abort w a p = (a, p)

  pub polled-IsOwned :
      (task : ℕ) (w : World)
      → s.exec ≢ null
      → IsOwned (held s sock idle) w
      → IsOwned
          (held s sock (record idle { task = some task }))
          (call (Call.executor_poll s.exec task) w).1
  polled-IsOwned task w er o = record {
    exactly = exactly;
    apart = o.apart;
    safe = (tt, (o.exactly (Handle.executor s.exec) ∙ ==-refl s.exec, er, tt), o.safe);
    connected = o.connected;
  }
    where
      exactly :
          (h : Handle)
          → alive (Call.executor_poll s.exec task ∷ w.log) h
            ≡ owned (held s sock (record idle { task = some task })) w.conn h
      exactly (Handle.task p) = ground (arith, o.exactly (Handle.task p))
      exactly (Handle.waker p) = o.exactly (Handle.waker p)
      exactly h = o.exactly h

  -- A background task is freed.
  pub freed-IsOwned :
      (task : ℕ) (w : World)
      → task ≢ null
      → IsOwned (held s sock (record idle { task = some task })) w
      → IsOwned (held s sock idle) (call (Call.task_free task) w).1
  freed-IsOwned task w tr o = record {
    exactly = exactly;
    apart = o.apart;
    safe = ((o.exactly (Handle.task task) ∙ ==-refl task, tr, tt), tt, o.safe);
    connected = o.connected;
  }
    where
      exactly :
          (h : Handle) → alive (Call.task_free task ∷ w.log) h ≡ owned (held s sock idle) w.conn h
      exactly (Handle.task p) = ground (arith, o.exactly (Handle.task p))
      exactly (Handle.waker p) = o.exactly (Handle.waker p)
      exactly h = o.exactly h

-- A background task is not the awaited one, so freeing it changes no stage.
pub freed-IsAt :
    {tag awaited sent asked : ℕ} (task : ℕ) (w : World)
    → (awaited == task) ≡ false
    → IsAt tag awaited sent asked w.log
    → IsAt tag awaited sent asked (Call.task_free task ∷ w.log)
freed-IsAt task w other i = record {
  tagged = λ t. ground (arith, i.tagged t);
  sent_requests = i.sent_requests;
  asked_bodies = i.asked_bodies;
}

pub awaited-IsAt :
    {tag awaited sent asked : ℕ} (task : ℕ) (w : World)
    → (awaited == task) ≡ true
    → IsAt tag awaited sent asked w.log
    → IsAt tag task sent asked w.log
awaited-IsAt task w same i = record {
  tagged = λ t. ground (arith, i.tagged t);
  sent_requests = i.sent_requests;
  asked_bodies = i.asked_bodies;
}
