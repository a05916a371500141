-- ===== src/HyperClient/Gathers/Loop.antt =====
-- The loops of rust/hyper/_demo/hyper_client/hyper.go gather the body of the response.
use llgoexamples.Base.{
  ℕ, zero, suc, ◌+◌, ◌<◌, ◌^◌, ◌≡◌, ◌≢◌, refl, sym, false, Option, none, some, ◌∷◌, Bytes, length,
  null, ◌==◌, inl, inr, arith, ==-refl,
}
use llgoexamples.Hyper.Calls.{Call, Handle}
use llgoexamples.Hyper.Ledger.{alive}
use llgoexamples.Hyper.Env.{Env, Laws, Reaction}
use llgoexamples.Client.{ExampleId, not_set, handshake, send, resp_body}
use llgoexamples.HyperClient.State.{State, idle, pure}
use llgoexamples.HyperClient.Body.{append_to_response_body}
use llgoexamples.HyperClient.Collected.{IsCollected, fresh_block, append-IsBlank, append-IsHolding}
use llgoexamples.HyperClient.Blocks.{length-append}
use llgoexamples.HyperClient.Keeps.{is_body_call, is_watched, handed, IsDefined, Keeps, keeps_rules}
use llgoexamples.HyperClient.Keeps.Watched.{Keeps-of_watched}
use llgoexamples.HyperClient.Keeps.Parts.{
  Keeps-read_call_back, Keeps-write_call_back, Keeps-wait_for_io, Keeps-connect_to,
  Keeps-on_handshake, Keeps-on_send, Keeps-on_resp_body,
}
use llgoexamples.HyperClient.Handlers.{Callback}
use llgoexamples.HyperClient.{on_task, react, step, run, prepare, set_up, get}
use llgoexamples.HyperClient.Gathers.{
  IsBounded, IsGathered, Gathers, Keeps-Gathers, Gathers-bind, Gathers-branch, first_byte-Keeps,
}

module _ (env : Env Callback) (laws : Laws env) where
  append-Gathers :
      (chunk : Bytes) (s : State)
      → length (handed s.world.log) + length chunk < 2 ^ 64
      → IsGathered s
      → Gathers (append_to_response_body env.malloc chunk) s
  append-Gathers chunk s small g = go g.collected
    where
      new : ℕ
      new = fresh_block env.malloc chunk s

      fresh : new ≢ null
      fresh = (laws.malloc_fresh (Call.lent_buf chunk ∷ s.world.log)).0

      unused : alive s.world.log (Handle.mem new) ≡ false
      unused = (laws.malloc_fresh (Call.lent_buf chunk ∷ s.world.log)).1

      real : (new == null) ≡ false
      real = ground (arith, fresh)

      go : IsCollected (handed s.world.log) s → Gathers (append_to_response_body env.malloc chunk) s
      go (inl (b, none_yet)) =
          let room : length chunk < 2 ^ 64 = omega arith in
          record {
            defined = rw (append-IsBlank env.malloc chunk s b real room) tt;
            gathered = rw (append-IsBlank env.malloc chunk s b real room) (record {
              collected = inr (record {
                real = fresh;
                len = rw none_yet (omega arith);
                only = rw none_yet refl;
              });
              owned = λ _. rw (==-refl new) refl;
            });
          }
      go (inr h) =
          let held = g.owned h.real in
          let apart : new ≢ s.response.response_body = (λ e. cc (rw (← e) at held, unused)) in
          let other : (s.response.response_body == new) ≡ false = ground (arith, apart) in
          let e = append-IsHolding env.malloc chunk s (handed s.world.log) h real apart small in
          record {
            defined = rw e tt;
            gathered = rw e (record {
              collected =
                  inr (record { real = fresh; len = sym (length-append _ chunk); only = refl });
              owned = λ _. rw (other, ==-refl new) refl;
            });
          }

  module _ (bounded : IsBounded env) (exec req : ℕ) where
    on_task-Keeps :
        (task : ℕ) (id : Option ExampleId) → Keeps is_body_call (on_task env exec req task id)
    unfolding on_task
    on_task-Keeps task (some handshake) = Keeps-on_handshake env exec req task
    on_task-Keeps task (some send) = Keeps-on_send env exec task
    on_task-Keeps task (some resp_body) = Keeps-on_resp_body env exec task
    on_task-Keeps task (some not_set) = search keeps_rules
    on_task-Keeps task none = search keeps_rules

    react-Gathers :
        (r : Reaction Callback) (s : State)
        → env.executor_poll s.world.log ≡ r
        → IsGathered s
        → Gathers (react env exec req r) s
    unfolding react
    react-Gathers (Reaction.reads n) s e g =
        Keeps-Gathers _ s (search (keeps_rules, Keeps-of_watched, Keeps-read_call_back)) g
    react-Gathers (Reaction.writes buf) s e g =
        Keeps-Gathers _ s (search (keeps_rules, Keeps-of_watched, Keeps-write_call_back)) g
    react-Gathers (Reaction.calls (Callback.append_to_response_body chunk)) s e g =
        Gathers-bind _ (λ _. pure false) s (append-Gathers chunk s (bounded s.world.log chunk e) g)
          (λ _ s' g'. (record { defined = tt; gathered = g' }))
    react-Gathers Reaction.waits s e g =
        Keeps-Gathers _ s (search (keeps_rules, Keeps-of_watched, Keeps-wait_for_io)) g
    react-Gathers (Reaction.finished task) s e g =
        Keeps-Gathers _ s (search (keeps_rules, on_task-Keeps)) g

    step-Gathers : (s : State) → IsGathered s → Gathers (step env exec req) s
    unfolding step
    step-Gathers s g =
        let k = react-Gathers (env.executor_poll s.world.log) s refl g in
        record { defined = k.defined; gathered = k.gathered }

    run-Gathers : (fuel : ℕ) (s : State) → IsGathered s → Gathers (run env fuel exec req) s
    unfolding run
    run-Gathers zero s g = record { defined = tt; gathered = g }
    run-Gathers (suc fuel) s g = Gathers-bind _ _ s (step-Gathers s g) (λ ends s' g'.
        Gathers-branch ends _ _ s' (record { defined = tt; gathered = g' })
          (run-Gathers fuel s' g'))

  pub prepare-Keeps : (host path : Bytes) → Keeps is_watched (prepare env host path)
  unfolding prepare
  prepare-Keeps host path = search (keeps_rules, first_byte-Keeps) depth 60 fits 9000

  set_up-Keeps : (fd : ℕ) → Keeps is_body_call (set_up env fd)
  unfolding set_up
  set_up-Keeps fd = search keeps_rules depth 60 fits 9000

  get-Gathers :
      (fuel : ℕ) (host port path : Bytes) (s : State)
      → IsBounded env
      → IsGathered s
      → Gathers (get env fuel host port path) s
  unfolding get
  get-Gathers fuel host port path s bounded g =
      Gathers-bind _ _ s (Keeps-Gathers _ s (Keeps-of_watched _ (prepare-Keeps host path)) g)
        (λ req s1 g1.
          Gathers-bind _ _ s1
            (Keeps-Gathers _ s1 (Keeps-of_watched _ (Keeps-connect_to env host port)) g1)
            (λ fd s2 g2.
              Gathers-bind _ _ s2 (Keeps-Gathers _ s2 (set_up-Keeps fd) g2)
                (λ exec s3 g3. run-Gathers bounded exec req fuel s3 g3)))

  -- Within `laws`, if hyper never hands over chunks of 2 ^ 64 bytes in all, then after any number of
  -- steps of `Get`, whatever its arguments: no byte was read or written outside of its block and no
  -- block was freed twice, and there is one block, the body of the response, which holds the bytes
  -- of all chunks that were handed over, in their order; or no byte was handed over, the body is nil
  -- and there is no block.
  pub get-IsCollected :
      (fuel : ℕ) (host port path : Bytes)
      → IsBounded env
      → let after = get env fuel host port path idle in
        IsDefined after.0 × IsCollected (handed after.1.world.log) after.1
  get-IsCollected fuel host port path bounded =
      let k = get-Gathers fuel host port path idle bounded (record {
        collected = inl (record { no_body = refl; no_len = refl; nothing = refl }, refl);
        owned = λ real. absurd (real refl);
      }) in
      (k.defined, k.gathered.collected)
