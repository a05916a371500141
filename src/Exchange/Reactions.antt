-- ===== src/Exchange/Reactions.antt =====
-- How often hyper reacted while it was polled, read off the log, and when it gets done: what the
-- number of rounds of a client's loops depends on.
use llgoexamples.Base.{ℕ, suc, ◌≡◌, ◌≢◌, ◌≤◌, [], ◌∷◌, Bytes, false, null, arith}
use llgoexamples.Hyper.Calls.{Call, Handle, Log}
use llgoexamples.Hyper.Env.{Env, Reaction, userdata_of}
use llgoexamples.Hyper.Ledger.{alive, IsSafe}
use llgoexamples.World.{World, Verdict}
use llgoexamples.Conn.{read_cb, write_cb, wait_io}

-- What hyper did so far while it was polled: callbacks, waits and finished tasks.
abbrev pub reactions : Log → ℕ
reactions [] = 0
reactions (Call.read s n r ∷ log) = suc (reactions log)
reactions (Call.read_into s p n r ∷ log) = suc (reactions log)
reactions (Call.write s bs r ∷ log) = suc (reactions log)
reactions (Call.write_stdout bs ∷ log) = suc (reactions log)
reactions (Call.lent_response_status n ∷ log) = suc (reactions log)
reactions (Call.lent_buf bs ∷ log) = suc (reactions log)
reactions (Call.executor_poll e t ∷ log) = suc (reactions log)
reactions (Call.executor_poll_none e ∷ log) = suc (reactions log)
reactions (_ ∷ log) = reactions log

-- hyper gets done: if the calls so far were safe, it has reacted `most` times, and some task with
-- userdata is in its hands, then the executor hands over a task with userdata.
abbrev pub IsPrompt : {C : Type 0} → Env C → ℕ → Type 0
IsPrompt env most =
    (log : Log) (t : ℕ)
    → IsSafe log
    → alive log (Handle.task t) ≡ false
    → userdata_of log t ≢ null
    → most ≤ reactions log
    → (task : ℕ) × (env.executor_poll log ≡ Reaction.finished task) × (userdata_of log task ≢ null)

-- If the loop goes on after `log`, then after at least `n` reactions.
abbrev pub Counted : Verdict → ℕ → Log → Type 0
Counted Verdict.next n log = n ≤ reactions log
Counted (Verdict.exit code) n log = Unit
Counted Verdict.abort n log = Unit

pub any-Counted : (v : Verdict) (n : ℕ) (log : Log) → n ≤ reactions log → Counted v n log
any-Counted Verdict.next n log few = few
any-Counted (Verdict.exit code) n log few = tt
any-Counted Verdict.abort n log few = tt

pub Counted-next :
    (v : Verdict) (n : ℕ) (log : Log) → v ≡ Verdict.next → Counted v n log → n ≤ reactions log
Counted-next Verdict.next n log e c = c
Counted-next (Verdict.exit code) n log e c = absurd cc
Counted-next Verdict.abort n log e c = absurd cc

module _ {C : Type 0} (env : Env C) where
  pub reactions-read_cb :
      (n : ℕ) (w : World) → suc (reactions w.log) ≤ reactions (read_cb env n w).1.log
  unfolding read_cb
  reactions-read_cb n w = ground arith

  pub reactions-write_cb :
      (bs : Bytes) (w : World) → suc (reactions w.log) ≤ reactions (write_cb env bs w).1.log
  unfolding write_cb
  reactions-write_cb bs w = ground arith

  pub reactions-wait_io : (w : World) → reactions w.log ≤ reactions (wait_io env w).1.log
  unfolding wait_io
  reactions-wait_io w = ground arith
