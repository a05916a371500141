-- ===== src/Upload/Main.antt =====
-- What holds of every run of `main` of Upload.antt.
use llgoexamples.Upload.Start.{linked_as, opened_as}
use llgoexamples.Base.{◌≢◌, some, ret, ℕ, zero, suc, ◌≡◌, ◌≤◌, List, Bytes, null, arith}
use llgoexamples.Hyper.Calls.{Handle}
use llgoexamples.Hyper.Env.{Env, Laws}
use llgoexamples.Hyper.Ledger.{alive, IsSafe}
use llgoexamples.World.{World, Outcome}
use llgoexamples.Exchange.{requests, start}
use llgoexamples.Upload.{Callback, Context, main}
use llgoexamples.Upload.Ownership.{left_open}
use llgoexamples.Upload.Loop.{Final}
use llgoexamples.Upload.Whole.{main-Holds}
use llgoexamples.Upload.Run.{run-Final}

-- What is alive once `main` has returned 0: the socket that `connect_to` answered and the file that
-- `open` answered, which are two descriptors.
abbrev pub LeavesOpen : Env Callback → List Bytes → World → Type 0
LeavesOpen env argv w =
    (sock : ℕ) × (file : ℕ) × (linked_as env argv ≡ some sock)
    × (opened_as env argv ≡ ret file)
    × (sock ≢ file)
    × ((h : Handle) → alive w.log h ≡ left_open sock file h)

module _ (env : Env Callback) (laws : Laws env) (argv : List Bytes) where
  -- What holds of the program's log and of its outcome.
  abbrev Whole : Outcome → World → Type 0
  Whole (Outcome.exited zero) w = IsSafe w.log × (requests w.log ≡ 1) × LeavesOpen env argv w
  Whole _ w = IsSafe w.log × (requests w.log ≤ 1)

  Final-Whole :
      (x : Context) (sock : ℕ) (out : Outcome) (w : World)
      → linked_as env argv ≡ some sock
      → opened_as env argv ≡ ret x.upload.fd
      → sock ≢ x.upload.fd
      → Final x sock out w
      → Whole out w
  Final-Whole x sock Outcome.running w linked opened apart v = v
  Final-Whole x sock (Outcome.exited zero) w linked opened apart (only, safe, sent) =
      (safe, sent, (sock, x.upload.fd, linked, opened, apart, only))
  Final-Whole x sock (Outcome.exited (suc n)) w linked opened apart e = e
  Final-Whole x sock Outcome.aborted w linked opened apart e = e

  Whole-exit_zero :
      (out : Outcome) (w : World)
      → out ≡ Outcome.exited 0
      → Whole out w
      → (requests w.log ≡ 1) × LeavesOpen env argv w
  Whole-exit_zero (Outcome.exited zero) w e h = (h.1, h.2)
  Whole-exit_zero (Outcome.exited (suc n)) w e h = absurd cc
  Whole-exit_zero Outcome.running w e h = absurd cc
  Whole-exit_zero Outcome.aborted w e h = absurd cc

  main-Whole : (fuel : ℕ) → let after = main env fuel argv start in Whole after.0 after.1
  main-Whole fuel =
      main-Holds env laws fuel Whole argv
        (λ w safe none_sent untouched excuse. (safe, omega (arith, none_sent)))
        (λ x sock w valid entered v.
          Final-Whole x sock _ _ entered.linked entered.opened entered.parted
            (run-Final env laws x sock valid fuel null w v))

module _ (env : Env Callback) (laws : Laws env) where
  -- Within `laws`, if `main` has returned 0 after some number of steps, it sent exactly one request,
  -- and all that it was handed is freed or given away, but for the socket that `connect_to` answered
  -- and the file that `open` answered, two descriptors that stay open.
  pub upload_exit_zero :
      (fuel : ℕ) (argv : List Bytes)
      → (main env fuel argv start).0 ≡ Outcome.exited 0
      → let w = (main env fuel argv start).1 in (requests w.log ≡ 1) × LeavesOpen env argv w
  upload_exit_zero fuel argv e = Whole-exit_zero env laws argv _ _ e (main-Whole env laws argv fuel)
