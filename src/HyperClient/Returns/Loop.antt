-- ===== src/HyperClient/Returns/Loop.antt =====
-- How often `Get` of rust/hyper/_demo/hyper_client/hyper.go sends a request, and how many steps of its
-- loops are enough.
use llgoexamples.HyperClient.Keeps.{IsDefined}
use llgoexamples.HyperClient.Gathers.Loop.{get-IsCollected}
use llgoexamples.HyperClient.Gathers.{IsBounded}
use llgoexamples.Base.{
  refl, ℕ, zero, suc, ◌+◌, ◌-◌, ◌≡◌, ◌≢◌, ◌≤◌, ◌<◌, Bool, true, false, Option, none, some, Bytes,
  null, inl, inr, arith, ltb, Bool-cases,
}
use llgoexamples.Hyper.Calls.{Log}
use llgoexamples.Hyper.Env.{Env, Laws, Reaction, userdata_of}
use llgoexamples.Exchange.{requests}
use llgoexamples.Exchange.Reactions.{reactions}
use llgoexamples.HyperClient.State.{
  State, idle, Response, Result, returned, panicked, undefined, after, branch,
}
use llgoexamples.HyperClient.Handlers.{Callback}
use llgoexamples.HyperClient.Stages.{Stage, rank, requests-Stage, Goes}
use llgoexamples.HyperClient.Stages.Steps.{react-Steps}
use llgoexamples.HyperClient.{step, run, get}
use llgoexamples.HyperClient.Returns.{GetsDone, rank_pos, awaited, Sound, get-Yields}

module _ (env : Env Callback) (laws : Laws env) where
  -- What holds after a step, whether or not the loop goes on.
  module _ (Q : Result (Option Response) → State → Type 0) (sound : Sound Q)
      (exec req fuel : ℕ) where
    after-step :
        (k n : ℕ) (r : Result Bool) (s : State)
        → Goes k n r s
        → (requests s.world.log ≤ 1 → Q (returned (some s.response)) s)
        → ((g : Stage s.world.log)
            → rank g ≤ k
            → n ≤ reactions s.world.log
            → Q (run env fuel exec req s).0 (run env fuel exec req s).1)
        → let end =
            after r
              (λ ends. branch ends (λ u. (returned (some u.response), u)) (run env fuel exec req))
              s in
          Q end.0 end.1
    after-step k n (returned true) s few done more = done few
    after-step k n (returned false) s ((g, le), enough) done more = more g le enough
    after-step k n (panicked text args) s few done more = sound.of_panic text args s few
    after-step k n undefined s few done more = sound.of_undefined s few

  few-Sound : Sound (λ r s. requests s.world.log ≤ 1)
  few-Sound = record { of_panic = λ text args s few. few; of_undefined = λ s few. few }

  ended-Sound : Sound (λ r s. r ≢ returned none)
  ended-Sound = record { of_panic = λ text args s few. cc; of_undefined = λ s few. cc }

  module _ (exec req : ℕ) where
    requests-run :
        (fuel : ℕ) (s : State)
        → Stage s.world.log
        → requests (run env fuel exec req s).1.world.log ≤ 1
    unfolding run step
    requests-run zero s g = requests-Stage g
    requests-run (suc fuel) s g =
        elim (react-Steps env laws exec req (env.executor_poll s.world.log) s g) [
          | inl (idles, on) ↦
              after-step (λ r u. requests u.world.log ≤ 1) few-Sound exec req fuel (rank g) _ _ _
                on.goes (λ few. few) (λ g' le enough. requests-run fuel _ g')
          | inr (k, less, on) ↦
              after-step (λ r u. requests u.world.log ≤ 1) few-Sound exec req fuel k _ _ _ on.goes
                (λ few. few) (λ g' le enough. requests-run fuel _ g')
        ]

    -- The executor cannot wait for ever.
    early :
        (most : ℕ) (log : Log)
        → GetsDone env most
        → Stage log
        → ((task : ℕ)
            → env.executor_poll log ≡ Reaction.finished task
            → userdata_of log task ≡ null)
        → reactions log < most
    early most log done g idles = elim (Bool-cases (ltb (reactions log) most)) [
      | inl soon ↦ ground (arith, soon)
      | inr late ↦
          let reached : most ≤ reactions log = ground (arith, late) in
          let (t, real, held, tagged) = awaited g in
          let (task, e, has) = done log t real held tagged reached in absurd (has (idles task e))
    ]

    run-returns :
        (most fuel : ℕ) (s : State) (g : Stage s.world.log)
        → GetsDone env most
        → rank g + (most - reactions s.world.log) ≤ fuel
        → (run env fuel exec req s).0 ≢ returned none
    unfolding run step
    run-returns most zero s g done enough = absurd (omega (arith, rank_pos g))
    run-returns most (suc fuel) s g done enough =
        elim (react-Steps env laws exec req (env.executor_poll s.world.log) s g) [
          | inl (idles, on) ↦
              let soon = early most s.world.log done g idles in
              after-step (λ r u. r ≢ returned none) ended-Sound exec req fuel (rank g) _ _ _ on.goes
                (λ few. cc) (λ g' le reached. run-returns most fuel _ g' done (omega arith))
          | inr (k, less, on) ↦
              after-step (λ r u. r ≢ returned none) ended-Sound exec req fuel k _ _ _ on.goes
                (λ few. cc) (λ g' le reached. run-returns most fuel _ g' done (omega arith))
        ]

  -- Within `laws`, after any number of steps of `Get`, whatever its arguments, at most one request was
  -- sent.
  pub requests-get-le_one :
      (fuel : ℕ) (host port path : Bytes)
      → requests (get env fuel host port path idle).1.world.log ≤ 1
  requests-get-le_one fuel host port path =
      let k =
        get-Yields (λ r s. requests s.world.log ≤ 1) few-Sound env laws fuel host port path
          (λ exec req s g three. record { yields = requests-run exec req fuel s g }) in
      k.yields

  get-yields :
      (most fuel : ℕ) (host port path : Bytes)
      → GetsDone env most
      → most + 3 ≤ fuel
      → (get env fuel host port path idle).0 ≢ returned none
  get-yields most fuel host port path done enough =
      let k =
        get-Yields (λ r s. r ≢ returned none) ended-Sound env laws fuel host port path
          (λ exec req s g three. record {
            yields = run-returns exec req most fuel s g done (omega (arith, three));
          }) in
      k.yields

-- A response was returned, or the program panicked.
abbrev pub HasEnded : Result (Option Response) → Type 0
HasEnded (returned (some resp)) = Unit
HasEnded (returned none) = ⊥
HasEnded (panicked text args) = Unit
HasEnded undefined = ⊥

ended-defined : (r : Result (Option Response)) → r ≢ returned none → IsDefined r → HasEnded r
ended-defined (returned (some resp)) ends d = tt
ended-defined (returned none) ends d = ends refl
ended-defined (panicked text args) ends d = tt
ended-defined undefined ends d = d

module _ (env : Env Callback) (laws : Laws env) where
  -- Within `laws`, if hyper hands over a task with userdata whenever it has one and has reacted `most`
  -- times, and its chunks are fewer than 2 ^ 64 bytes in all: after `most + 3` steps or more `Get` has
  -- returned a response or panicked, and did nothing that is undefined.
  pub get-returns :
      (most fuel : ℕ) (host port path : Bytes)
      → GetsDone env most
      → IsBounded env
      → most + 3 ≤ fuel
      → HasEnded (get env fuel host port path idle).0
  get-returns most fuel host port path done bounded enough =
      ended-defined _ (get-yields env laws most fuel host port path done enough)
        (get-IsCollected env laws fuel host port path bounded).0
