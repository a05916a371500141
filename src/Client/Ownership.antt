-- ===== src/Client/Ownership.antt =====
-- What a program on the loop of lib/rust/hyper/examples/client.c owns between two steps, and what
-- it owns when it ends.
pub mod Request
pub mod Response
use llgoexamples.Base.{ℕ, zero, suc, ◌≡◌, Bool, false, Option, none, some, ◌==◌}
use llgoexamples.Hyper.Calls.{Handle}
use llgoexamples.Hyper.Ledger.{alive, IsSafe, same_handle}
use llgoexamples.World.{World, Verdict}
use llgoexamples.Conn.Ownership.{IsOwned}
use llgoexamples.Client.{Setup}

-- The handles that a handler holds for a while.
pub record Temps : Type 0 where
  pub task : Option ℕ
  pub clientconn : Option ℕ
  pub request : Option ℕ
  pub response : Option ℕ
  pub error : Option ℕ

abbrev pub is : Option ℕ → ℕ → Bool
is none p = false
is (some q) p = q == p

abbrev pub idle : Temps
idle = record { task = none; clientconn = none; request = none; response = none; error = none }

-- Beside the wakers: the socket, the struct, the executor, and what is held for a while.
abbrev pub held : Setup → ℕ → Temps → Handle → Bool
held s sock t (Handle.fd p) = sock == p
held s sock t (Handle.mem p) = s.at == p
held s sock t (Handle.executor p) = s.exec == p
held s sock t (Handle.task p) = is t.task p
held s sock t (Handle.clientconn p) = is t.clientconn p
held s sock t (Handle.request p) = is t.request p
held s sock t (Handle.response p) = is t.response p
held s sock t (Handle.error p) = is t.error p
held s sock t _ = false

-- What holds after a handler: the loop goes on with nothing held; a normal exit leaves only the
-- socket; any other end is at least free of uses after free.
abbrev pub After : Setup → ℕ → Verdict → World → Type 0
After s sock Verdict.next w = IsOwned (held s sock idle) w
After s sock (Verdict.exit zero) w =
    ((h : Handle) → alive w.log h ≡ same_handle (Handle.fd sock) h) × IsSafe w.log
After s sock (Verdict.exit (suc n)) w = IsSafe w.log
After s sock Verdict.abort w = IsSafe w.log
