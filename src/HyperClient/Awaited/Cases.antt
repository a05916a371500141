-- ===== src/HyperClient/Awaited/Cases.antt =====
-- The cases of the `switch` of `Get` in rust/hyper/_demo/hyper_client/hyper.go: handshake, request, body, end.
use llgoexamples.Base.{ℕ, ◌≤◌, refl, true, [], ◌∷◌, inl, inr, Bool-cases, arith, ==-refl}
use llgoexamples.Hyper.{task_clientconn, task_response, task_empty}
use llgoexamples.Hyper.Calls.{Call, Handle, Headers, Log}
use llgoexamples.Hyper.Env.{Env, Laws}
use llgoexamples.Client.Prepare.{failed}
use llgoexamples.Exchange.{requests}
use llgoexamples.Exchange.Reactions.{reactions}
use llgoexamples.HyperClient.State.{State, branch, pure}
use llgoexamples.HyperClient.Body.{each_header}
use llgoexamples.HyperClient.Transport.{free_wakers}
use llgoexamples.HyperClient.Handlers.{
  Callback, check_type, send_through, on_handshake, set_response, foreach_body, foreach_header,
  take_results, on_send, clean_up, on_resp_body,
}
use llgoexamples.HyperClient.Keeps.Watched.{Keeps-tasks}
use llgoexamples.HyperClient.Keeps.Parts.{
  Keeps-check_type, Keeps-set_response, Keeps-each_header, Keeps-free_wakers,
}
use llgoexamples.HyperClient.Awaited.{
  IsTaken, IsUntagged, same-IsTaken, same-IsUntagged, Advances, Advances-after, few_taken, Finishes,
  Finishes-after,
}

abbrev at : State → Log → State
at s log = record s { world = record s.world { log = log } }

module _ (env : Env Callback) (laws : Laws env) (exec n : ℕ) where
  send_through-Advances :
      (req task : ℕ) (s : State)
      → IsTaken 1 task s.world.log
      → n ≤ reactions s.world.log
      → Advances 2 n (send_through env exec req task) s
  unfolding send_through
  send_through-Advances req task s a enough =
      let l1 = Call.printf "preparing http request ...\n" [] ∷ s.world.log in
      let client = env.task_value l1 task in
      let l2 = Call.task_free task ∷ Call.task_value task (Handle.clientconn client) ∷ l1 in
      let st = env.clientconn_send l2 in
      let l3 =
        Call.printf "sending ...\n" []
        ∷ Call.task_set_userdata st 2
        ∷ Call.clientconn_send client req st
        ∷ l2 in
      elim (Bool-cases (failed (env.executor_push l3 exec st))) [
        | inl bad ↦ record { moves = rw (bad, branch) (omega (arith, a.sent)) }
        | inr good ↦ record {
          moves =
              rw (good, branch)
                (
                  (
                    st,
                    record {
                      tagged = λ u. ground (arith, a.tagged u);
                      real = (laws.clientconn_send_fresh l2).0;
                      held = rw (==-refl st) refl;
                      sent = omega (arith, a.sent);
                    },
                  ),
                  enough,
                );
        }
      ]

  pub on_handshake-Advances :
      (req task : ℕ) (s : State)
      → IsTaken 1 task s.world.log
      → n ≤ reactions s.world.log
      → Advances 2 n (on_handshake env exec req task) s
  unfolding on_handshake
  on_handshake-Advances req task s a enough =
      Advances-after 2 n
        (check_type env "handshake error!\n" "169 unexpected task type\n" task_clientconn task) _ s
        (Keeps-tasks _ (Keeps-check_type env _ _ task_clientconn task)) (few_taken a) enough
        (λ s' same enough' _.
          send_through-Advances req task s' (same-IsTaken same 1 task a) enough')

  foreach_body-Advances :
      (resp : ℕ) (s : State)
      → IsUntagged 1 s.world.log
      → n ≤ reactions s.world.log
      → Advances 3 n (foreach_body env exec resp) s
  unfolding foreach_body
  foreach_body-Advances resp s a enough =
      let l1 = Call.printf "\n" [] ∷ s.world.log in
      let l2 = Call.response_body resp (env.response_body l1) ∷ l1 in
      let ft = env.body_foreach l2 in
      record {
        moves = (
          (
            ft,
            record {
              tagged = λ u. ground (arith, a.untagged u);
              real = (laws.body_foreach_fresh l2).0;
              held = rw (==-refl ft) refl;
              sent = a.sent;
            },
          ),
          enough,
        );
      }

  foreach_header-Advances :
      (resp : ℕ) (s : State)
      → IsUntagged 1 s.world.log
      → n ≤ reactions s.world.log
      → Advances 3 n (foreach_header env exec resp) s
  unfolding foreach_header
  foreach_header-Advances resp s a enough =
      let s1 = at s (Call.headers_foreach (Headers.of_response resp) ∷ s.world.log) in
      let all = env.response_headers s.world.log resp in
      let k =
        Advances-after 3 n (each_header all) (λ _. foreach_body env exec resp) s1
          (Keeps-tasks _ (Keeps-each_header all)) (omega (arith, a.sent)) enough
          (λ s' same enough' _.
            foreach_body-Advances resp s'
              (same-IsUntagged same 1 (record { untagged = a.untagged; sent = a.sent })) enough') in
      record { moves = k.moves }

  take_results-Advances :
      (task : ℕ) (s : State)
      → IsTaken 2 task s.world.log
      → n ≤ reactions s.world.log
      → Advances 3 n (take_results env exec task) s
  unfolding take_results
  take_results-Advances task s a enough =
      let resp = env.task_value s.world.log task in
      let l1 = Call.task_free task ∷ Call.task_value task (Handle.response resp) ∷ s.world.log in
      let rp = env.response_reason_phrase l1 resp in
      let s1 = at s (Call.response_reason_phrase resp ∷ l1) in
      let free : IsUntagged 1 s1.world.log = record {
        untagged = λ u. ground (arith, a.tagged u);
        sent = a.sent;
      } in
      let k =
        Advances-after 3 n (set_response env resp rp) (λ _. foreach_header env exec resp) s1
          (Keeps-tasks _ (Keeps-set_response env resp rp)) (omega (arith, a.sent)) enough
          (λ s' same enough' _.
            foreach_header-Advances resp s' (same-IsUntagged same 1 free) enough') in
      record { moves = k.moves }

  pub on_send-Advances :
      (task : ℕ) (s : State)
      → IsTaken 2 task s.world.log
      → n ≤ reactions s.world.log
      → Advances 3 n (on_send env exec task) s
  unfolding on_send
  on_send-Advances task s a enough =
      Advances-after 3 n
        (check_type env "send error!\n" "unexpected task type\n" task_response task) _ s
        (Keeps-tasks _ (Keeps-check_type env _ _ task_response task)) (few_taken a) enough
        (λ s' same enough' _. take_results-Advances task s' (same-IsTaken same 2 task a) enough')

clean_up-Finishes :
    (exec task : ℕ) (s : State) → requests s.world.log ≤ 1 → Finishes (clean_up exec task) s
unfolding clean_up
clean_up-Finishes exec task s few =
    let k =
      Finishes-after free_wakers (λ _. pure true)
        (at s (Call.executor_free exec ∷ Call.task_free task ∷ s.world.log))
        (Keeps-tasks _ Keeps-free_wakers) few (λ s' few' _. record { ends = few' }) in
    record { ends = k.ends }

pub on_resp_body-Finishes :
    (env : Env Callback) (exec task : ℕ) (s : State)
    → requests s.world.log ≤ 1
    → Finishes (on_resp_body env exec task) s
unfolding on_resp_body
on_resp_body-Finishes env exec task s few =
    Finishes-after (check_type env "body error!\n" "unexpected task type\n" task_empty task) _ s
      (Keeps-tasks _ (Keeps-check_type env _ _ task_empty task)) few
      (λ s' few' _. clean_up-Finishes exec task s' few')
