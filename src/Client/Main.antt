-- ===== src/Client/Main.antt =====
-- What holds of every run of `main` of Client.antt.
use llgoexamples.Base.{ℕ, zero, suc, ◌≤◌, ◌≡◌, List, Bytes, arith}
use llgoexamples.Hyper.Calls.{Handle}
use llgoexamples.Hyper.Env.{Env, Laws}
use llgoexamples.Hyper.Ledger.{alive, IsSafe, same_handle}
use llgoexamples.World.{World, Outcome}
use llgoexamples.Client.{Callback, Setup, main}
use llgoexamples.Exchange.{requests, bodies, start}
use llgoexamples.Client.Progress.{requests-le_one}
use llgoexamples.Client.Loop.{Final}
use llgoexamples.Client.Run.{run-Final}
use llgoexamples.Client.Start.{main-Holds}

-- What holds of the program's log and of its outcome.
abbrev Whole : Outcome → World → Type 0
Whole (Outcome.exited zero) w =
    IsSafe w.log
    × (requests w.log ≡ 1)
    × (bodies w.log ≡ 1)
    × ((sock : ℕ) × ((h : Handle) → alive w.log h ≡ same_handle (Handle.fd sock) h))
Whole _ w = IsSafe w.log × (requests w.log ≤ 1)

Final-Whole : (s : Setup) (sock : ℕ) (out : Outcome) (w : World) → Final s sock out w → Whole out w
Final-Whole s sock Outcome.running w v = (v.ownership.safe, requests-le_one v.stage)
Final-Whole s sock (Outcome.exited zero) w (only, safe, sent, asked) =
    (safe, sent, asked, (sock, only))
Final-Whole s sock (Outcome.exited (suc n)) w e = e
Final-Whole s sock Outcome.aborted w e = e

Whole-requests : (out : Outcome) (w : World) → Whole out w → requests w.log ≤ 1
Whole-requests (Outcome.exited zero) w h = omega arith
Whole-requests (Outcome.exited (suc n)) w h = h.1
Whole-requests Outcome.running w h = h.1
Whole-requests Outcome.aborted w h = h.1

Whole-exit_zero :
    (out : Outcome) (w : World)
    → out ≡ Outcome.exited 0
    → Whole out w
    → (requests w.log ≡ 1)
      × (bodies w.log ≡ 1)
      × ((sock : ℕ) × ((h : Handle) → alive w.log h ≡ same_handle (Handle.fd sock) h))
Whole-exit_zero (Outcome.exited zero) w e h = (h.1, h.2, h.3)
Whole-exit_zero (Outcome.exited (suc n)) w e h = cc
Whole-exit_zero Outcome.running w e h = cc
Whole-exit_zero Outcome.aborted w e h = cc

module _ (env : Env Callback) (laws : Laws env) where
  main-Whole :
      (fuel : ℕ) (argv : List Bytes) → let after = main env fuel argv start in Whole after.0 after.1
  main-Whole fuel argv =
      main-Holds env laws fuel Whole
        (λ host path s sock w er ar v.
          Final-Whole s sock _ _ (run-Final env laws host path s sock er ar fuel w v))
        (λ w safe sent. (safe, sent)) argv

  -- Within `laws`, for every number of steps and all arguments, the program sends at most one request.
  pub requests-main-le_one :
      (fuel : ℕ) (argv : List Bytes) → requests (main env fuel argv start).1.log ≤ 1
  requests-main-le_one fuel argv = Whole-requests _ _ (main-Whole fuel argv)

  -- Within `laws`, if `main` has returned 0 after some number of steps, it sent exactly one request,
  -- asked for exactly one body, and all that it was handed is freed or given away, but for one
  -- descriptor, the socket.
  pub main_exit_zero :
      (fuel : ℕ) (argv : List Bytes)
      → (main env fuel argv start).0 ≡ Outcome.exited 0
      → let log = (main env fuel argv start).1.log in
        (requests log ≡ 1)
        × (bodies log ≡ 1)
        × ((sock : ℕ) × ((h : Handle) → alive log h ≡ same_handle (Handle.fd sock) h))
  main_exit_zero fuel argv e = Whole-exit_zero _ _ e (main-Whole fuel argv)
