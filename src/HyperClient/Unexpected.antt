-- ===== src/HyperClient/Unexpected.antt =====
-- What `Get` of rust/hyper/_demo/hyper_client/hyper.go does with a task of an unexpected type.
use llgoexamples.Hyper.Calls.{Call, Log}
use llgoexamples.Base.{
  List, [], ◌∷◌, if◌then◌else◌, ℕ, ◌≡◌, ◌≢◌, refl, false, ◌==◌, inl, inr, Bool-cases, arith,
}
use llgoexamples.Hyper.{
  TaskReturnType, task_empty, task_error, task_clientconn, task_response, task_buf,
}
use llgoexamples.Hyper.Env.{Env}
use llgoexamples.HyperClient.State.{State}
use llgoexamples.HyperClient.Handlers.{Callback, type_number, on_handshake}

no_error : (ty : TaskReturnType) → ty ≢ task_error → (type_number ty == 1) ≡ false
no_error task_empty other = refl
no_error task_error other = absurd (other refl)
no_error task_clientconn other = refl
no_error task_response other = refl
no_error task_buf other = refl

-- The connections that requests were sent through, each with its request, the last one first.
abbrev pub sends : Log → List (ℕ × ℕ)
sends [] = []
sends (Call.clientconn_send c req task ∷ log) = (c, req) ∷ sends log
sends (_ ∷ log) = sends log

-- The log when the handshake's task is asked for its value: the texts that `Get` printed before.
abbrev pub when_asked : Env Callback → ℕ → Log → Log
when_asked env task log =
    Call.printf "preparing http request ...\n" []
    ∷ (if type_number (env.task_type log task) == type_number task_clientconn
        then log
        else Call.printf "169 unexpected task type\n" [] ∷ log)

module _ (env : Env Callback) where
  -- Whatever the finished task of the handshake holds, a connection, a value of another kind or
  -- none, unless it is an error: the client sends one request, and sends it through that value.
  pub sends-on_handshake :
      (exec req task : ℕ) (s : State)
      → env.task_type s.world.log task ≢ task_error
      → let log = s.world.log in
        sends (on_handshake env exec req task s).1.world.log
        ≡ (env.task_value (when_asked env task log) task, req) ∷ sends log
  unfolding on_handshake
  sends-on_handshake exec req task s other =
      elim (Bool-cases (type_number (env.task_type s.world.log task) == 2)) [
        | inl expected ↦ rw (no_error _ other, expected) (ground arith)
        | inr unexpected ↦ rw (no_error _ other, unexpected) (ground arith)
      ]
