-- ===== src/HyperClient/Stages/Steps.antt =====
-- A step of the loops of rust/hyper/_demo/hyper_client/hyper.go, from each stage.
use llgoexamples.Base.{
  ℕ, suc, ◌≡◌, ◌≤◌, ◌⊎◌, refl, false, ◌∷◌, Bytes, null, ◌==◌, inl, inr, Bool-cases, arith,
}
use llgoexamples.Hyper.Calls.{Call}
use llgoexamples.Hyper.Env.{Env, Laws, Reaction, userdata_of}
use llgoexamples.Exchange.Reactions.{reactions}
use llgoexamples.HyperClient.State.{State, call}
use llgoexamples.HyperClient.Transport.{read_call_back, write_call_back, wait_for_io}
use llgoexamples.HyperClient.Body.{append_to_response_body}
use llgoexamples.HyperClient.Handlers.{Callback}
use llgoexamples.HyperClient.Keeps.Watched.{Keeps-tasks}
use llgoexamples.HyperClient.Keeps.Parts.{
  Keeps-read_call_back, Keeps-write_call_back, Keeps-wait_for_io,
}
use llgoexamples.HyperClient.Awaited.{IsAwaited, same-IsQuiet}
use llgoexamples.HyperClient.Awaited.Cases.{
  on_handshake-Advances, on_send-Advances, on_resp_body-Finishes,
}
use llgoexamples.HyperClient.Awaited.Chunks.{append-IsQuiet}
use llgoexamples.HyperClient.{on_task, react}
use llgoexamples.HyperClient.Stages.{
  Stage, handshaking, sending, reading, rank, kept-Stage, GoesOn, quiet-GoesOn, Moves-two,
  Moves-three, Ends-Goes, other_untagged, freed-IsAwaited, polled-IsTaken,
}

module _ (env : Env Callback) (laws : Laws env) (exec req : ℕ) where
  -- A step with a finished task that was awaited, or with any other reaction.
  abbrev pub Steps : (s : State) → Stage s.world.log → Reaction Callback → Type 0
  Steps s g r =
      (((task : ℕ) → r ≡ Reaction.finished task → userdata_of s.world.log task ≡ null)
        × GoesOn (rank g) (suc (reactions s.world.log)) (react env exec req r) s)
      ⊎ ((k : ℕ) × (suc k ≡ rank g) × GoesOn k (reactions s.world.log) (react env exec req r) s)

  other-Steps :
      (tag t task : ℕ) (s : State) (g : Stage s.world.log)
      → (t == task) ≡ false
      → IsAwaited tag t s.world.log
      → (let log = Call.task_free task ∷ Call.executor_poll exec task ∷ s.world.log in
          IsAwaited tag t log → (g' : Stage log) × (rank g' ≤ rank g))
      → Steps s g (Reaction.finished task)
  unfolding react on_task
  other-Steps tag t task s g other a staged = inl (
    other_untagged tag t task s.world.log other a,
    record {
      goes =
          rw (laws.userdata_kept _ task, a.tagged task, other)
            (staged (freed-IsAwaited exec tag t task s.world.log other a), omega arith);
    },
  )

  finished-Steps :
      (task : ℕ) (s : State) (g : Stage s.world.log) → Steps s g (Reaction.finished task)
  unfolding react on_task
  finished-Steps task s (handshaking t a) = elim (Bool-cases (t == task)) [
    | inl same ↦
        let s1 = (call (Call.executor_poll exec task) s).1 in
        let k =
          on_handshake-Advances env laws exec (reactions s.world.log) req task s1
            (polled-IsTaken exec 1 t task s.world.log same a) (omega arith) in
        inr (
          2,
          omega arith,
          record {
            goes =
                rw (laws.userdata_kept s1.world.log task, a.tagged task, same)
                  (Moves-two _ _ _ k.moves);
          },
        )
    | inr other ↦
        other-Steps 1 t task s (handshaking t a) other a (λ a'. (handshaking t a', omega arith))
  ]
  finished-Steps task s (sending t a) = elim (Bool-cases (t == task)) [
    | inl same ↦
        let s1 = (call (Call.executor_poll exec task) s).1 in
        let k =
          on_send-Advances env laws exec (reactions s.world.log) task s1
            (polled-IsTaken exec 2 t task s.world.log same a) (omega arith) in
        inr (
          1,
          omega arith,
          record {
            goes =
                rw (laws.userdata_kept s1.world.log task, a.tagged task, same)
                  (Moves-three _ _ _ k.moves);
          },
        )
    | inr other ↦ other-Steps 2 t task s (sending t a) other a (λ a'. (sending t a', omega arith))
  ]
  finished-Steps task s (reading t a) = elim (Bool-cases (t == task)) [
    | inl same ↦
        let s1 = (call (Call.executor_poll exec task) s).1 in
        let k = on_resp_body-Finishes env exec task s1 (omega (arith, a.sent)) in
        inr (
          0,
          omega arith,
          record {
            goes =
                rw (laws.userdata_kept s1.world.log task, a.tagged task, same)
                  (Ends-Goes _ _ _ _ k.ends);
          },
        )
    | inr other ↦ other-Steps 3 t task s (reading t a) other a (λ a'. (reading t a', omega arith))
  ]

  reactions-read_call_back :
      (n : ℕ) (s : State)
      → suc (reactions s.world.log) ≤ reactions (read_call_back env n s).1.world.log
  unfolding read_call_back
  reactions-read_call_back n s = ground arith

  reactions-write_call_back :
      (buf : Bytes) (s : State)
      → suc (reactions s.world.log) ≤ reactions (write_call_back env buf s).1.world.log
  unfolding write_call_back
  reactions-write_call_back buf s = ground arith

  pub react-Steps : (r : Reaction Callback) (s : State) (g : Stage s.world.log) → Steps s g r
  unfolding react
  react-Steps (Reaction.reads n) s g = inl (
    (λ task e. cc),
    quiet-GoesOn (read_call_back env n) s _
        (same-IsQuiet s _ ((Keeps-tasks _ (Keeps-read_call_back env n)).same s))
        (reactions-read_call_back n s) g,
  )
  react-Steps (Reaction.writes buf) s g = inl (
    (λ task e. cc),
    quiet-GoesOn (write_call_back env buf) s _
        (same-IsQuiet s _ ((Keeps-tasks _ (Keeps-write_call_back env buf)).same s))
        (reactions-write_call_back buf s) g,
  )
  react-Steps (Reaction.calls (Callback.append_to_response_body chunk)) s g =
      let (quiet, enough) = append-IsQuiet env.malloc chunk s in
      inl
        ((λ task e. cc), quiet-GoesOn (append_to_response_body env.malloc chunk) s _ quiet enough g)
  react-Steps Reaction.waits s g =
      let s1 = (call (Call.executor_poll_none exec) s).1 in
      let quiet = same-IsQuiet s1 _ ((Keeps-tasks _ (Keeps-wait_for_io env)).same s1) in
      let (g1, same) = kept-Stage s s1 (record { silent = refl; grows = omega arith }) g in
      let k =
        quiet-GoesOn (wait_for_io env) s1 (suc (reactions s.world.log)) quiet quiet.grows g1 in
      inl ((λ task e. cc), record { goes = rw (← same) k.goes })
  react-Steps (Reaction.finished task) s g = finished-Steps task s g
