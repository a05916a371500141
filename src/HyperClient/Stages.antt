-- ===== src/HyperClient/Stages.antt =====
-- The loops of rust/hyper/_demo/hyper_client/hyper.go go through the stages of an exchange.
pub mod Steps
use llgoexamples.Base.{
  ℕ, suc, ◌≡◌, ◌≤◌, ◌⊎◌, refl, Bool, true, false, ◌∷◌, Bytes, null, ◌==◌, inl, inr, Bool-cases,
  arith,
}
use llgoexamples.Hyper.Calls.{Call, Log}
use llgoexamples.Hyper.Env.{Env, Laws, Reaction, userdata_of}
use llgoexamples.Exchange.{requests}
use llgoexamples.Exchange.Reactions.{reactions}
use llgoexamples.HyperClient.State.{
  State, Result, returned, panicked, undefined, Go, after, ◌>>=◌, pure, call,
}
use llgoexamples.HyperClient.Transport.{read_call_back, write_call_back, wait_for_io}
use llgoexamples.HyperClient.Body.{append_to_response_body}
use llgoexamples.HyperClient.Handlers.{Callback}
use llgoexamples.HyperClient.Keeps.Watched.{Keeps-tasks}
use llgoexamples.HyperClient.Keeps.Parts.{
  Keeps-read_call_back, Keeps-write_call_back, Keeps-wait_for_io,
}
use llgoexamples.HyperClient.Awaited.{
  IsAwaited, IsTaken, IsQuiet, same-IsQuiet, same-IsAwaited, Moves, Ends,
}
use llgoexamples.HyperClient.Awaited.Cases.{
  on_handshake-Advances, on_send-Advances, on_resp_body-Finishes,
}
use llgoexamples.HyperClient.Awaited.Chunks.{append-IsQuiet}
use llgoexamples.HyperClient.{on_task, react}

-- Between two steps: the handshake runs, or the request is sent, or its body is read.
pub data Stage (log : Log) : Type 0 where
  handshaking : (task : ℕ) → IsAwaited 1 task log → Stage log
  sending : (task : ℕ) → IsAwaited 2 task log → Stage log
  reading : (task : ℕ) → IsAwaited 3 task log → Stage log

-- The tasks that are still to end.
abbrev pub rank : {log : Log} → Stage log → ℕ
rank (handshaking task a) = 3
rank (sending task a) = 2
rank (reading task a) = 1

pub requests-Stage : {log : Log} → Stage log → requests log ≤ 1
requests-Stage (handshaking task a) = omega (arith, a.sent)
requests-Stage (sending task a) = omega (arith, a.sent)
requests-Stage (reading task a) = omega (arith, a.sent)

pub kept-Stage :
    (s s' : State)
    → IsQuiet s s'
    → (g : Stage s.world.log) → (g' : Stage s'.world.log) × (rank g' ≡ rank g)
kept-Stage s s' k (handshaking task a) = (handshaking task (same-IsAwaited k 1 task a), refl)
kept-Stage s s' k (sending task a) = (sending task (same-IsAwaited k 2 task a), refl)
kept-Stage s s' k (reading task a) = (reading task (same-IsAwaited k 3 task a), refl)

-- `Get` goes on with at most `k` tasks still to end and at least `n` reactions behind it, or it ends;
-- with at most one request.
abbrev pub Goes : ℕ → ℕ → Result Bool → State → Type 0
Goes k n (returned false) s = ((g : Stage s.world.log) × (rank g ≤ k)) × (n ≤ reactions s.world.log)
Goes k n (returned true) s = requests s.world.log ≤ 1
Goes k n (panicked text args) s = requests s.world.log ≤ 1
Goes k n undefined s = requests s.world.log ≤ 1

pub record GoesOn (k n : ℕ) (m : Go Bool) (s : State) : Type 0 where
  pub goes : Goes k n (m s).0 (m s).1

after-Goes :
    {A : Type 0} (k n : ℕ) (r : Result A) (s : State) (g : Stage s.world.log)
    → rank g ≤ k
    → n ≤ reactions s.world.log
    → let end = after r (λ _. pure false) s in Goes k n end.0 end.1
after-Goes k n (returned a) s g le enough = ((g, le), enough)
after-Goes k n (panicked text args) s g le enough = requests-Stage g
after-Goes k n undefined s g le enough = requests-Stage g

pub quiet-GoesOn :
    {A : Type 0} (m : Go A) (s : State) (n : ℕ)
    → IsQuiet s (m s).1
    → n ≤ reactions (m s).1.world.log
    → (g : Stage s.world.log) → GoesOn (rank g) n (m >>= λ _. pure false) s
quiet-GoesOn m s n quiet enough g =
    let (g', same) = kept-Stage s (m s).1 quiet g in
    record { goes = after-Goes (rank g) n (m s).0 (m s).1 g' (omega (arith, same)) enough }

pub Moves-two : (n : ℕ) (r : Result Bool) (s : State) → Moves 2 n r s → Goes 2 n r s
Moves-two n (returned false) s ((t, a), enough) = ((sending t a, omega arith), enough)
Moves-two n (returned true) s few = few
Moves-two n (panicked text args) s few = few
Moves-two n undefined s few = few

pub Moves-three : (n : ℕ) (r : Result Bool) (s : State) → Moves 3 n r s → Goes 1 n r s
Moves-three n (returned false) s ((t, a), enough) = ((reading t a, omega arith), enough)
Moves-three n (returned true) s few = few
Moves-three n (panicked text args) s few = few
Moves-three n undefined s few = few

pub Ends-Goes : (k n : ℕ) (r : Result Bool) (s : State) → Ends r s → Goes k n r s
Ends-Goes k n (returned false) s e = absurd e
Ends-Goes k n (returned true) s e = e
Ends-Goes k n (panicked text args) s e = e
Ends-Goes k n undefined s e = e

pub other_untagged :
    (tag t task : ℕ) (log : Log)
    → (t == task) ≡ false
    → IsAwaited tag t log
    → (u : ℕ) → ◌≡◌ {A = Reaction Callback} (Reaction.finished task) (Reaction.finished u)
    → userdata_of log u ≡ null
other_untagged tag t task log other a u e =
    let same : task ≡ u = cc in ground (arith, a.tagged u, other, same)

pub freed-IsAwaited :
    (exec tag t task : ℕ) (log : Log)
    → (t == task) ≡ false
    → IsAwaited tag t log
    → IsAwaited tag t (Call.task_free task ∷ Call.executor_poll exec task ∷ log)
freed-IsAwaited exec tag t task log other a = record {
  tagged = λ u. ground (arith, a.tagged u, other);
  real = a.real;
  held = ground (arith, a.held, other);
  sent = a.sent;
}

pub polled-IsTaken :
    (exec tag t task : ℕ) (log : Log)
    → (t == task) ≡ true
    → IsAwaited tag t log
    → IsTaken tag task (Call.executor_poll exec task ∷ log)
polled-IsTaken exec tag t task log same a = record {
  tagged = λ u. ground (arith, a.tagged u, same);
  sent = a.sent;
}
