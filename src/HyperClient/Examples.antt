-- ===== src/HyperClient/Examples.antt =====
-- Runs of HyperClient.antt.
use llgoexamples.Base.{ℕ, ◌≡◌, ◌≢◌, ◌⊎◌, refl, true, some, ◌≤◌, [], ◌∷◌, codes, null, arith, inr}
use llgoexamples.Hyper.{iter_continue, iter_break}
use llgoexamples.Hyper.Calls.{Log}
use llgoexamples.Hyper.Sample.{sample}
use llgoexamples.Connect
use llgoexamples.Exchange.{requests}
use llgoexamples.HyperClient
use llgoexamples.HyperClient.State.{State, idle, returned}
use llgoexamples.HyperClient.Sockets.{connect_to}
use llgoexamples.HyperClient.Body.{append_to_response_body, print_body}
use llgoexamples.HyperClient.Handlers.{Callback, on_handshake}
use llgoexamples.HyperClient.{get, main}
use llgoexamples.HyperClient.Keeps.{handed, IsDefined}
use llgoexamples.HyperClient.Collected.{IsHolding, IsCollected, append-IsCollected}
use llgoexamples.HyperClient.Gathers.Loop.{get-IsCollected}
use llgoexamples.HyperClient.Agrees.{Agrees, Connects, connect_to-Connects}
use llgoexamples.HyperClient.Printed.{IsPrinted, print_body-IsPrinted}
use llgoexamples.HyperClient.Unexpected.{sends, when_asked, sends-on_handshake}
use llgoexamples.HyperClient.Returns.Loop.{HasEnded, requests-get-le_one, get-returns}
use llgoexamples.Hyper.Prompt.{prompt, prompt-Laws, prompt-finds_real, prompt-no_call}
use llgoexamples.HyperClient.Peer.{peer, peer-Laws, peer-IsBounded}

shows : (main peer 6 idle).0 ≡ returned true
unfolding main HyperClient.step
shows = refl

get-IsCollected_example :
    let after = get peer 6 (codes "httpbin.org") (codes "80") (codes "/") idle in
    IsDefined after.0 × IsCollected (handed after.1.world.log) after.1
get-IsCollected_example =
    get-IsCollected peer peer-Laws 6 (codes "httpbin.org") (codes "80") (codes "/") peer-IsBounded

-- A body of two bytes, and a third that comes.
abbrev two_bytes : State
two_bytes = record idle {
  response = record { status = 200; message = []; response_body = 5; response_body_len = 2 };
  heap = (5, some 104 ∷ some 105 ∷ []) ∷ [];
}

abbrev other_block : Log → ℕ
other_block log = 9

append-IsCollected_example :
    let after = append_to_response_body other_block (33 ∷ []) two_bytes in
    ((9 ≡ null) × (after.0 ≡ returned iter_break) × IsCollected (104 ∷ 105 ∷ []) after.1)
    ⊎ ((9 ≢ null) × (after.0 ≡ returned iter_continue) × IsHolding (104 ∷ 105 ∷ 33 ∷ []) after.1)
append-IsCollected_example =
    append-IsCollected other_block (33 ∷ []) two_bytes (104 ∷ 105 ∷ []) (λ real. omega arith)
      (omega arith) (inr (record { real = omega arith; len = refl; only = refl }))

print_body-IsPrinted_example : IsPrinted (104 ∷ 105 ∷ []) two_bytes (print_body two_bytes)
print_body-IsPrinted_example =
    print_body-IsPrinted (104 ∷ 105 ∷ []) two_bytes
      (inr (record { real = omega arith; len = refl; only = refl }))

connect_to-Connects_example :
    Connects {C = Callback} sample
      (codes "httpbin.org")
      idle
      (Connect.connect_to {C = Callback} sample (codes "httpbin.org") (codes "80") idle.world)
      (connect_to {C = Callback} sample (codes "httpbin.org") (codes "80") idle)
connect_to-Connects_example = connect_to-Connects sample (codes "httpbin.org") (codes "80") idle

-- A task whose userdata was never set: it holds nothing.
sends-on_handshake_example :
    sends (on_handshake sample 1 2 3 idle).1.world.log
    ≡ ((sample {C = Callback}).task_value (when_asked sample 3 []) 3, 2) ∷ []
sends-on_handshake_example = sends-on_handshake sample 1 2 3 idle cc

requests-get-le_one_example :
    requests (get peer 6 (codes "httpbin.org") (codes "80") (codes "/") idle).1.world.log ≤ 1
requests-get-le_one_example =
    requests-get-le_one peer peer-Laws 6 (codes "httpbin.org") (codes "80") (codes "/")

-- The peer `prompt` needs no reactions at all to get done.
get-returns_example : HasEnded (get prompt 3 (codes "httpbin.org") (codes "80") (codes "/") idle).0
get-returns_example =
    get-returns prompt prompt-Laws 0 3 (codes "httpbin.org") (codes "80") (codes "/")
      (λ log t real dead tagged _. prompt-finds_real log t real dead tagged)
      (λ log chunk e. absurd (prompt-no_call _ log e)) (omega arith)
