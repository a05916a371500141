-- ===== src/HyperClient/Gathers.antt =====
-- What it is for a state of rust/hyper/_demo/hyper_client/hyper.go that the body of the response was
-- gathered, and rules for the actions that keep it.
pub mod Loop
use llgoexamples.Base.{
  ℕ, zero, suc, ◌+◌, ◌<◌, ◌^◌, ◌≡◌, ◌≢◌, refl, sym, ◌∙◌, ap, Bool, true, false, Option, none, some,
  [], ◌∷◌, Bytes, length, null, ◌==◌, inl, inr, arith, ==-refl,
}
use llgoexamples.Hyper.Calls.{Call, Handle, Log}
use llgoexamples.Hyper.Ledger.{alive}
use llgoexamples.Hyper.Env.{Env, Laws, Reaction}
use llgoexamples.Client.{ExampleId, not_set, handshake, send, resp_body}
use llgoexamples.HyperClient.State.{
  State, idle, Result, returned, panicked, undefined, Go, after, ◌>>=◌, pure, branch,
}
use llgoexamples.HyperClient.Body.{append_to_response_body}
use llgoexamples.HyperClient.Collected.{IsCollected, fresh_block, append-IsBlank, append-IsHolding}
use llgoexamples.HyperClient.Blocks.{length-append}
use llgoexamples.HyperClient.Keeps.{
  is_body_call, is_watched, handed, IsSame, IsDefined, Keeps, keeps_rules,
}
use llgoexamples.HyperClient.Keeps.Watched.{Keeps-of_watched}
use llgoexamples.HyperClient.Keeps.Views.{handed-body_calls, alive-body_calls}
use llgoexamples.HyperClient.Keeps.Parts.{
  Keeps-read_call_back, Keeps-write_call_back, Keeps-wait_for_io, Keeps-connect_to,
  Keeps-on_handshake, Keeps-on_send, Keeps-on_resp_body,
}
use llgoexamples.HyperClient.Handlers.{Callback}
use llgoexamples.HyperClient.{on_task, react, step, run, prepare, set_up, get, first_byte}

-- hyper never hands over a chunk with which the body would have 2 ^ 64 bytes or more.
abbrev pub IsBounded : Env Callback → Type 0
IsBounded env =
    (log : Log) (chunk : Bytes)
    → env.executor_poll log ≡ Reaction.calls (Callback.append_to_response_body chunk)
    → length (handed log) + length chunk < 2 ^ 64

-- The body holds what was handed over so far, and malloc does not hand out its block again.
pub record IsGathered (s : State) : Type 0 where
  pub collected : IsCollected (handed s.world.log) s
  pub owned :
      s.response.response_body ≢ null
      → alive s.world.log (Handle.mem s.response.response_body) ≡ true

same-handed : {s s' : State} → IsSame is_body_call s s' → handed s'.world.log ≡ handed s.world.log
same-handed {s} {s'} k =
    sym (handed-body_calls s'.world.log) ∙ ap handed k.silent ∙ handed-body_calls s.world.log

same-alive :
    {s s' : State} (p : ℕ)
    → IsSame is_body_call s s'
    → alive s'.world.log (Handle.mem p) ≡ alive s.world.log (Handle.mem p)
same-alive {s} {s'} p k =
    sym (alive-body_calls p s'.world.log)
    ∙ ap (λ l. alive l (Handle.mem p)) k.silent
    ∙ alive-body_calls p s.world.log

same-IsCollected :
    {s s' : State} (bs : Bytes) → IsSame is_body_call s s' → IsCollected bs s → IsCollected bs s'
same-IsCollected bs k (inl (b, none_yet)) = inl (
  record { no_body = k.body ∙ b.no_body; no_len = k.len ∙ b.no_len; nothing = k.heap ∙ b.nothing },
  none_yet,
)
same-IsCollected bs k (inr h) =
    inr (record { real = rw k.body h.real; len = k.len ∙ h.len; only = rw (k.body, k.heap) h.only })

same-IsGathered : {s s' : State} → IsSame is_body_call s s' → IsGathered s → IsGathered s'
same-IsGathered {s} {s'} k g = record {
  collected = rw (same-handed k) (same-IsCollected (handed s.world.log) k g.collected);
  owned = rw (k.body, same-alive s.response.response_body k) g.owned;
}

-- After an action: nothing undefined was done, and the body is gathered.
pub record Gathers {A : Type 0} (m : Go A) (s : State) : Type 0 where
  pub defined : IsDefined (m s).0
  pub gathered : IsGathered (m s).1

pub Keeps-Gathers :
    {A : Type 0} (m : Go A) (s : State) → Keeps is_body_call m → IsGathered s → Gathers m s
Keeps-Gathers m s k g = record { defined = k.defined s; gathered = same-IsGathered (k.same s) g }

after-Gathers :
    {A B : Type 0} (r : Result A) (f : A → Go B) (s : State)
    → IsDefined r
    → IsGathered s
    → ((a : A) (s' : State) → IsGathered s' → Gathers (f a) s')
    → IsDefined (after r f s).0 × IsGathered (after r f s).1
after-Gathers (returned a) f s d g more = let k = more a s g in (k.defined, k.gathered)
after-Gathers (panicked text args) f s d g more = (tt, g)
after-Gathers undefined f s d g more = absurd d

pub Gathers-bind :
    {A B : Type 0} (m : Go A) (f : A → Go B) (s : State)
    → Gathers m s
    → ((a : A) (s' : State) → IsGathered s' → Gathers (f a) s')
    → Gathers (m >>= f) s
Gathers-bind m f s first more =
    let all = after-Gathers (m s).0 f (m s).1 first.defined first.gathered more in
    record { defined = all.0; gathered = all.1 }

pub Gathers-branch :
    {A : Type 0} (b : Bool) (m n : Go A) (s : State)
    → Gathers m s
    → Gathers n s
    → Gathers (branch b m n) s
Gathers-branch true m n s gm gn = record { defined = gm.defined; gathered = gm.gathered }
Gathers-branch false m n s gm gn = record { defined = gn.defined; gathered = gn.gathered }

pub first_byte-Keeps : (bs : Bytes) → Keeps is_watched (first_byte bs)
first_byte-Keeps [] = search keeps_rules
first_byte-Keeps (b ∷ bs) = search keeps_rules
