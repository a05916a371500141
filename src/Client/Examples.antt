-- ===== src/Client/Examples.antt =====
-- Runs of Client.antt.
use llgoexamples.Base.{ℕ, ◌≡◌, ◌≢◌, ◌≤◌, refl, some, [], arith}
use llgoexamples.Hyper.Calls.{Handle}
use llgoexamples.Hyper.Ledger.{alive, same_handle}
use llgoexamples.Hyper.Sample.{sample, sample-Laws}
use llgoexamples.Hyper.Prompt.{prompt, prompt-Laws, prompt-finds}
use llgoexamples.World.{Outcome}
use llgoexamples.Client.{Callback, step, main}
use llgoexamples.Exchange.{requests, bodies, start}
use llgoexamples.Connect.{connect_to}
use llgoexamples.Client.Succeeds.{host_of, port_of, announced, main-exits_zero}
use llgoexamples.Exchange.Success.{GoesWell}
use llgoexamples.Client.Returns.{main-returns}
use llgoexamples.Client.Main.{requests-main-le_one, main_exit_zero}

exits : (main sample 20 [] start).0 ≡ Outcome.exited 0
unfolding main step
exits = refl

requests-main-le_one_example : requests (main sample 20 [] start).1.log ≤ 1
requests-main-le_one_example = requests-main-le_one sample sample-Laws 20 []

main_exit_zero_example :
    let log = (main sample 20 [] start).1.log in
    (requests log ≡ 1)
    × (bodies log ≡ 1)
    × ((sock : ℕ) × ((h : Handle) → alive log h ≡ same_handle (Handle.fd sock) h))
main_exit_zero_example = main_exit_zero sample sample-Laws 20 [] exits

-- The peer `prompt` needs no reactions at all to get done.
main-returns_example : (main prompt 3 [] start).0 ≢ Outcome.running
main-returns_example =
    main-returns prompt prompt-Laws 0 3 []
      (λ log t safe dead tagged _. prompt-finds log t safe dead tagged) (omega arith)

returns_zero : (main prompt 3 [] start).0 ≡ Outcome.exited 0
unfolding main step
returns_zero = refl

prompt-GoesWell : GoesWell (prompt {C = Callback})
prompt-GoesWell = record {
  nonblocking = λ log s. refl;
  method_set = λ log r bs. refl;
  uri_set = λ log r bs. refl;
  handshaken = λ log t e. rw e refl;
  answered = λ log t e. rw e refl;
  selected = λ log s r w e f. cc;
}

reached : (connect_to {C = Callback} prompt (host_of []) (port_of []) (announced [])).0 ≡ some 3
unfolding connect_to
reached = refl

main-exits_zero_example : (main prompt 3 [] start).0 ≡ Outcome.exited 0
main-exits_zero_example =
    main-exits_zero prompt prompt-Laws prompt-GoesWell (λ log t e. rw e refl) 0 3 3 []
      (λ log t safe dead tagged _. prompt-finds log t safe dead tagged) (omega arith) reached
