-- ===== src/HyperClient/Calm/Parts.antt =====
-- The transport, the headers and the cases of the `switch` of rust/hyper/_demo/hyper_client/hyper.go
-- when nothing fails.
use llgoexamples.Base.{
  ℕ, ◌≡◌, ◌^◌, refl, false, List, [], ◌∷◌, Bytes, String, SysResult, ret, errno, length, ltb, ◌==◌,
  ==-refl,
}
use llgoexamples.Hyper.{
  TaskReturnType, task_clientconn, task_response, task_empty, iter_continue, ok,
}
use llgoexamples.Hyper.Calls.{Log}
use llgoexamples.Hyper.Env.{Env, userdata_of}
use llgoexamples.Exchange.Success.{GoesWell}
use llgoexamples.HyperClient.State.{State, returned, branch}
use llgoexamples.HyperClient.Transport.{
  read_register, read_returned, read_call_back, write_register, write_returned, write_call_back,
  release_read, release_write, free_wakers,
}
use llgoexamples.HyperClient.Body.{print_header, each_header}
use llgoexamples.HyperClient.Handlers.{
  Callback, type_number, check_type, send_through, on_handshake, foreach_body, foreach_header,
  take_results, on_send, clean_up, on_resp_body,
}
use llgoexamples.HyperClient.Calm.{IsCalm, Calm, Calm-pure, Calm-bind, Calm-branch, calm_rules}

-- `read` and `write` do not panic when they fail, so these need nothing of the peer.
module _ {C : Type 0} (env : Env C) where
  Calm-read_register : Calm (read_register env)
  unfolding read_register
  Calm-read_register = search calm_rules depth 40 fits 40

  Calm-read_returned : (r : SysResult Bytes) → Calm (read_returned env r)
  unfolding read_returned
  Calm-read_returned (ret bs) = search calm_rules
  Calm-read_returned (errno e) = search (calm_rules, Calm-read_register)

  pub Calm-read_call_back : (n : ℕ) → Calm (read_call_back env n)
  unfolding read_call_back
  Calm-read_call_back n = search (calm_rules, Calm-read_returned)

  Calm-write_register : Calm (write_register env)
  unfolding write_register
  Calm-write_register = search calm_rules depth 40 fits 40

  Calm-write_returned : (r : SysResult ℕ) → Calm (write_returned env r)
  unfolding write_returned
  Calm-write_returned (ret n) = search calm_rules
  Calm-write_returned (errno e) = search (calm_rules, Calm-write_register)

  pub Calm-write_call_back : (buf : Bytes) → Calm (write_call_back env buf)
  unfolding write_call_back
  Calm-write_call_back buf = search (calm_rules, Calm-write_returned)

Calm-release_read : Calm release_read
unfolding release_read
Calm-release_read = search calm_rules depth 12 fits 3000

Calm-release_write : Calm release_write
unfolding release_write
Calm-release_write = search calm_rules depth 12 fits 3000

Calm-free_wakers : Calm free_wakers
unfolding free_wakers
Calm-free_wakers = search (calm_rules, Calm-release_read, Calm-release_write)

pub Calm-clean_up : (exec task : ℕ) → Calm (clean_up exec task)
unfolding clean_up
Calm-clean_up exec task = search (calm_rules, Calm-free_wakers)

Calm-print_header : (name value : Bytes) → Calm (print_header name value)
unfolding print_header
Calm-print_header name value = search calm_rules

Calm-each_header : (l : List (Bytes × Bytes)) → Calm (each_header l)
unfolding each_header
Calm-each_header [] = search calm_rules
Calm-each_header ((name, value) ∷ l) =
    Calm-bind _ _ (Calm-print_header name value)
      (λ r. Calm-branch (r == iter_continue) _ _ (Calm-each_header l) (Calm-pure tt))

-- No call fails, as far as Go and C test for it, and the awaited tasks end with what they are awaited
-- for. A reason phrase has at most 2 ^ 30 bytes.
pub record GoesWellForGo (env : Env Callback) : Type 0 where
  pub well : GoesWell env
  pub complete : (log : Log) (t : ℕ) → userdata_of log t ≡ 3 → env.task_type log t ≡ task_empty
  pub host_set : (log : Log) (r : ℕ) (name value : Bytes) → env.headers_set log r name value ≡ ok
  pub pushed : (log : Log) (e t : ℕ) → env.executor_push log e t ≡ ok
  pub short : (log : Log) (r : ℕ) → ltb (2 ^ 30) (length (env.response_reason_phrase log r)) ≡ false

module _ (env : Env Callback) (fine : GoesWellForGo env) where
  check_type-passes :
      (failed_text unexpected_text : String) (expected : TaskReturnType) (task : ℕ) (s : State)
      → (type_number expected == 1) ≡ false
      → env.task_type s.world.log task ≡ expected
      → check_type env failed_text unexpected_text expected task s ≡ (returned tt, s)
  unfolding check_type
  check_type-passes failed_text unexpected_text expected task s other e =
      rw (e, other, branch, e, ==-refl (type_number expected)) refl

  send_through-IsCalm :
      (exec req task : ℕ) (s : State) → IsCalm (send_through env exec req task s).0
  unfolding send_through
  send_through-IsCalm exec req task s = rw (fine.pushed, branch) tt

  Calm-foreach_body : (exec resp : ℕ) → Calm (foreach_body env exec resp)
  unfolding foreach_body
  Calm-foreach_body exec resp = search calm_rules depth 20 fits 3000

  Calm-foreach_header : (exec resp : ℕ) → Calm (foreach_header env exec resp)
  unfolding foreach_header
  Calm-foreach_header exec resp = search (calm_rules, Calm-each_header, Calm-foreach_body)

  take_results-IsCalm : (exec task : ℕ) (s : State) → IsCalm (take_results env exec task s).0
  unfolding take_results
  take_results-IsCalm exec task s = rw (fine.short, branch) ((Calm-foreach_header exec _).calm _)

  pub on_handshake-IsCalm :
      (exec req task : ℕ) (s : State)
      → userdata_of s.world.log task ≡ 1
      → IsCalm (on_handshake env exec req task s).0
  unfolding on_handshake
  on_handshake-IsCalm exec req task s tag =
      rw
        (check_type-passes "handshake error!\n" "169 unexpected task type\n" task_clientconn task s
          refl (fine.well.handshaken _ task tag))
        (send_through-IsCalm exec req task s)

  pub on_send-IsCalm :
      (exec task : ℕ) (s : State)
      → userdata_of s.world.log task ≡ 2
      → IsCalm (on_send env exec task s).0
  unfolding on_send
  on_send-IsCalm exec task s tag =
      rw
        (check_type-passes "send error!\n" "unexpected task type\n" task_response task s refl
          (fine.well.answered _ task tag))
        (take_results-IsCalm exec task s)

  pub on_resp_body-IsCalm :
      (exec task : ℕ) (s : State)
      → userdata_of s.world.log task ≡ 3
      → IsCalm (on_resp_body env exec task s).0
  unfolding on_resp_body
  on_resp_body-IsCalm exec task s tag =
      rw
        (check_type-passes "body error!\n" "unexpected task type\n" task_empty task s refl
          (fine.complete _ task tag))
        ((Calm-clean_up exec task).calm s)
