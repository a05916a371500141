-- ===== src/Exchange/Success.antt =====
-- A peer that reports no error, and steps that do not fail.
use llgoexamples.Base.{ℕ, zero, suc, ◌≡◌, ◌≢◌, refl, Bool, true, Bytes, SysResult, ret, errno}
use llgoexamples.Hyper.{ok, task_clientconn, task_response}
use llgoexamples.Hyper.Calls.{Log}
use llgoexamples.Hyper.Env.{Env, userdata_of}
use llgoexamples.World.{World, Verdict}
use llgoexamples.Conn.{select_result, wait_io}

-- No call fails, the handshake gives a connection, and the request a response.
pub record GoesWell {C : Type 0} (env : Env C) : Type 0 where
  pub nonblocking : (log : Log) (s : ℕ) → env.fcntl_nonblock log s ≡ true
  pub method_set : (log : Log) (r : ℕ) (bs : Bytes) → env.request_set_method log r bs ≡ ok
  pub uri_set : (log : Log) (r : ℕ) (bs : Bytes) → env.request_set_uri log r bs ≡ ok
  pub handshaken :
      (log : Log) (t : ℕ) → userdata_of log t ≡ 1 → env.task_type log t ≡ task_clientconn
  pub answered : (log : Log) (t : ℕ) → userdata_of log t ≡ 2 → env.task_type log t ≡ task_response
  pub selected : (log : Log) (s : ℕ) (r w : Bool) (e : ℕ) → env.select log s r w ≢ errno e

-- The loop goes on, or `main` returns 0.
abbrev pub IsGood : Verdict → Type 0
IsGood Verdict.next = Unit
IsGood (Verdict.exit zero) = Unit
IsGood (Verdict.exit (suc n)) = ⊥
IsGood Verdict.abort = ⊥

select_result-IsGood :
    (r : SysResult (Bool × Bool)) (w : World)
    → ((e : ℕ) → r ≢ errno e)
    → IsGood (select_result r w).0
unfolding select_result
select_result-IsGood (ret ready) w fine = tt
select_result-IsGood (errno e) w fine = fine e refl

module _ {C : Type 0} (env : Env C) (well : GoesWell env) where
  pub wait_io-IsGood : (w : World) → IsGood (wait_io env w).0
  unfolding wait_io
  wait_io-IsGood w = select_result-IsGood (env.select _ _ _ _) _ (λ e. well.selected _ _ _ _ e)
