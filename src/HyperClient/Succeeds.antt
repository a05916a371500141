-- ===== src/HyperClient/Succeeds.antt =====
-- `Get` of rust/hyper/_demo/hyper_client/hyper.go with a peer that reports no error.
use llgoexamples.Base.{ret, ℕ, ◌≡◌, ◌⊎◌, Bool, false, Option, some, [], ◌∷◌}
use llgoexamples.Hyper.Calls.{Log, Call}
use llgoexamples.Hyper.Env.{Env}
use llgoexamples.HyperClient.State.{State, Response, Result, returned, panicked, undefined}
use llgoexamples.HyperClient.Handlers.{Callback}
use llgoexamples.HyperClient.Calm.{Calm}

-- The last call was `Select`, and it found neither direction ready when the time was over.
abbrev pub TimedOut : Env Callback → Log → Type 0
TimedOut env log =
    (fd : ℕ) × (read write : Bool) × (before : Log) × (log ≡ Call.select fd read write ∷ before)
    × (env.select before fd read write ≡ ret (false, false))

-- A panic is that of `Select` when its time is over.
abbrev IsPatient : {A : Type 0} → Env Callback → Result A → State → Type 0
IsPatient env (panicked text args) s =
    (text ≡ "select() timeout\n") × (args ≡ []) × TimedOut env s.world.log
IsPatient env (returned a) s = Unit
IsPatient env undefined s = Unit

-- A response was returned, or `Select` has waited in vain.
abbrev pub IsAnswered : Env Callback → Result (Option Response) → State → Type 0
IsAnswered env r s =
    ((resp : Response) × (r ≡ returned (some resp)))
    ⊎ ((r ≡ panicked "select() timeout\n" []) × TimedOut env s.world.log)
