-- ===== src/HyperClient/Returns.antt =====
-- What `Get` of rust/hyper/_demo/hyper_client/hyper.go does before its loops, and properties of how it ends.
pub mod Loop
use llgoexamples.Base.{
  ℕ, zero, suc, ◌+◌, ◌-◌, ◌≡◌, ◌≢◌, ◌≤◌, ◌<◌, refl, Bool, true, false, Option, none, some, List,
  ◌∷◌, Bytes, String, null, inl, inr, arith, ltb, Bool-cases, ==-refl,
}
use llgoexamples.Hyper.Calls.{Arg, Call, Handle, Log}
use llgoexamples.Hyper.Env.{Env, Laws, Reaction, userdata_of}
use llgoexamples.Hyper.Ledger.{alive}
use llgoexamples.Exchange.{requests}
use llgoexamples.Exchange.Reactions.{reactions}
use llgoexamples.HyperClient.State.{
  State, idle, Response, Result, returned, panicked, undefined, Go, after, ◌>>=◌, branch,
}
use llgoexamples.HyperClient.Sockets.{connect_to}
use llgoexamples.HyperClient.Handlers.{Callback}
use llgoexamples.HyperClient.Keeps.{Keeps, is_task_call}
use llgoexamples.HyperClient.Keeps.Watched.{Keeps-tasks}
use llgoexamples.HyperClient.Keeps.Parts.{Keeps-connect_to}
use llgoexamples.HyperClient.Gathers.Loop.{prepare-Keeps}
use llgoexamples.HyperClient.Awaited.{IsUntagged, same-IsQuiet, same-IsUntagged}
use llgoexamples.HyperClient.Stages.{
  Stage, handshaking, sending, reading, rank, requests-Stage, Goes,
}
use llgoexamples.HyperClient.Stages.Steps.{react-Steps}
use llgoexamples.HyperClient.{prepare, set_up, step, run, get}

-- hyper gets done: once it has reacted `most` times, and some task with userdata is in its hands, the
-- executor hands over a task with userdata.
abbrev pub GetsDone : Env Callback → ℕ → Type 0
GetsDone env most =
    (log : Log) (t : ℕ)
    → t ≢ null
    → alive log (Handle.task t) ≡ false
    → userdata_of log t ≢ null
    → most ≤ reactions log
    → (task : ℕ) × (env.executor_poll log ≡ Reaction.finished task) × (userdata_of log task ≢ null)

pub rank_pos : {log : Log} (g : Stage log) → 1 ≤ rank g
rank_pos (handshaking t a) = omega arith
rank_pos (sending t a) = omega arith
rank_pos (reading t a) = omega arith

-- The awaited task.
pub awaited :
    {log : Log}
    → Stage log
    → (t : ℕ) × (t ≢ null) × (alive log (Handle.task t) ≡ false) × (userdata_of log t ≢ null)
awaited (handshaking t a) = (t, a.real, a.held, ground (arith, a.tagged t, ==-refl t))
awaited (sending t a) = (t, a.real, a.held, ground (arith, a.tagged t, ==-refl t))
awaited (reading t a) = (t, a.real, a.held, ground (arith, a.tagged t, ==-refl t))

-- A property of how `Get` ends that holds whenever it panics with at most one request sent.
pub record Sound (Q : Result (Option Response) → State → Type 0) : Type 0 where
  pub of_panic :
      (text : String) (args : List Arg) (s : State)
      → requests s.world.log ≤ 1
      → Q (panicked text args) s
  pub of_undefined : (s : State) → requests s.world.log ≤ 1 → Q undefined s

pub record Yields (Q : Result (Option Response) → State → Type 0) (m : Go (Option Response))
    (s : State) : Type 0 where
  pub yields : Q (m s).0 (m s).1

module _ (env : Env Callback) (laws : Laws env) where
  -- The handshake is begun.
  pub set_up-Stage :
      (fd : ℕ) (s : State)
      → IsUntagged 0 s.world.log
      → (g : Stage (set_up env fd s).1.world.log) × (rank g ≡ 3)
  unfolding set_up
  set_up-Stage fd s free =
      let l1 = Call.io_new (env.io_new s.world.log) ∷ s.world.log in
      let io = env.io_new s.world.log in
      let l2 = Call.io_set_write io ∷ Call.io_set_read io ∷ Call.io_set_own_userdata io ∷ l1 in
      let exec = env.executor_new l2 in
      let l3 = Call.executor_new exec ∷ l2 in
      let opts = env.options_new l3 in
      let l4 = Call.options_exec opts exec ∷ Call.options_new opts ∷ l3 in
      let ht = env.clientconn_handshake l4 in
      (
        handshaking ht (record {
          tagged = λ u. ground (arith, free.untagged u);
          real = (laws.clientconn_handshake_fresh l4).0;
          held = rw (==-refl ht) refl;
          sent = free.sent;
        }),
        refl,
      )

  -- Up to then no task has userdata.
  pub connected-IsUntagged :
      (host port path : Bytes)
      → IsUntagged 0 (connect_to env host port (prepare env host path idle).1).1.world.log
  connected-IsUntagged host port path =
      let s1 = (prepare env host path idle).1 in
      let prepared =
        same-IsQuiet idle s1 ((Keeps-tasks _ (prepare-Keeps env laws host path)).same idle) in
      let connected =
        same-IsQuiet s1 _ ((Keeps-tasks _ (Keeps-connect_to env host port)).same s1) in
      same-IsUntagged connected 0
        (same-IsUntagged prepared 0 (record { untagged = λ u. refl; sent = refl }))

module _ (Q : Result (Option Response) → State → Type 0) (sound : Sound Q) where
  after-Q :
      {A : Type 0} (r : Result A) (f : A → Go (Option Response)) (s : State)
      → requests s.world.log ≤ 1
      → ((a : A) → Yields Q (f a) s)
      → Q (after r f s).0 (after r f s).1
  after-Q (returned a) f s few all = (all a).yields
  after-Q (panicked text args) f s few all = sound.of_panic text args s few
  after-Q undefined f s few all = sound.of_undefined s few

  -- After an action that has nothing to do with tasks.
  Yields-after :
      {A : Type 0} (m : Go A) (f : A → Go (Option Response)) (s : State)
      → Keeps is_task_call m
      → IsUntagged 0 s.world.log
      → ((s' : State) → IsUntagged 0 s'.world.log → (a : A) → Yields Q (f a) s')
      → Yields Q (m >>= f) s
  Yields-after m f s k free all =
      let free' = same-IsUntagged (same-IsQuiet s (m s).1 (k.same s)) 0 free in
      record { yields = after-Q (m s).0 f (m s).1 (omega (arith, free'.sent)) (all (m s).1 free') }

  module _ (env : Env Callback) (laws : Laws env) where
    pub get-Yields :
        (fuel : ℕ) (host port path : Bytes)
        → ((exec req : ℕ) (s : State) (g : Stage s.world.log)
            → rank g ≡ 3
            → Yields Q (run env fuel exec req) s)
        → Yields Q (get env fuel host port path) idle
    unfolding get
    get-Yields fuel host port path all =
        Yields-after (prepare env host path) _ idle
          (Keeps-tasks _ (prepare-Keeps env laws host path))
          (record { untagged = λ u. refl; sent = refl })
          (λ s1 free1 req.
            Yields-after (connect_to env host port) _ s1
              (Keeps-tasks _ (Keeps-connect_to env host port)) free1
              (λ s2 free2 fd.
                let (g, three) = set_up-Stage env laws fd s2 free2 in
                record {
                  yields =
                      after-Q (set_up env fd s2).0 (λ exec. run env fuel exec req)
                        (set_up env fd s2).1 (requests-Stage g)
                        (λ exec. all exec req (set_up env fd s2).1 g three);
                }))
