-- ===== src/HyperClient/Awaited.antt =====
-- Which task `Get` of rust/hyper/_demo/hyper_client/hyper.go waits for, and that each case of its
-- `switch` moves on to the next.
pub mod Cases
pub mod Chunks
use llgoexamples.Base.{
  ℕ, zero, suc, ◌≡◌, ◌≢◌, ◌≤◌, refl, sym, ◌∙◌, ap, Bool, true, false, [], ◌∷◌, Bytes, String, null,
  ◌==◌, if◌then◌else◌, inl, inr, Bool-cases, arith, ==-refl,
}
use llgoexamples.Hyper.{TaskReturnType}
use llgoexamples.Hyper.Calls.{Call, Handle, Headers, Log}
use llgoexamples.Hyper.Env.{Env, Laws, userdata_of}
use llgoexamples.Hyper.Ledger.{alive}
use llgoexamples.Client.Prepare.{failed}
use llgoexamples.Exchange.{requests}
use llgoexamples.Exchange.Reactions.{reactions}
use llgoexamples.HyperClient.State.{
  State, Result, returned, panicked, undefined, Go, after, ◌>>=◌, branch, call,
}
use llgoexamples.HyperClient.Body.{each_header}
use llgoexamples.HyperClient.Handlers.{
  Callback, check_type, send_through, on_handshake, set_response, foreach_body, foreach_header,
  take_results, on_send, clean_up, on_resp_body,
}
use llgoexamples.HyperClient.Keeps.{is_task_call, calls_of, IsSame, Keeps}
use llgoexamples.HyperClient.Keeps.Watched.{Keeps-tasks}
use llgoexamples.HyperClient.Keeps.Views.{
  userdata_of-task_calls, requests-task_calls, alive-task_calls,
}
use llgoexamples.HyperClient.Keeps.Parts.{
  Keeps-check_type, Keeps-set_response, Keeps-each_header, Keeps-free_wakers,
}

-- The requests that were sent before a task with this userdata ends.
abbrev pub sent_at : ℕ → ℕ
sent_at (suc zero) = 0
sent_at _ = 1

-- `t` is the only task with userdata, which is `tag`, and hyper has it.
pub record IsAwaited (tag t : ℕ) (log : Log) : Type 0 where
  pub tagged : (u : ℕ) → userdata_of log u ≡ (if t == u then tag else null)
  pub real : t ≢ null
  pub held : alive log (Handle.task t) ≡ false
  pub sent : requests log ≡ sent_at tag

-- It has ended, and is the program's.
pub record IsTaken (tag t : ℕ) (log : Log) : Type 0 where
  pub tagged : (u : ℕ) → userdata_of log u ≡ (if t == u then tag else null)
  pub sent : requests log ≡ sent_at tag

-- No task has userdata.
pub record IsUntagged (sent_requests : ℕ) (log : Log) : Type 0 where
  pub untagged : (u : ℕ) → userdata_of log u ≡ null
  pub sent : requests log ≡ sent_requests

-- No call has had to do with a task between two states.
pub record IsQuiet (s s' : State) : Type 0 where
  pub silent : calls_of is_task_call s'.world.log ≡ calls_of is_task_call s.world.log
  pub grows : reactions s.world.log ≤ reactions s'.world.log

pub same-IsQuiet : (s s' : State) → IsSame is_task_call s s' → IsQuiet s s'
same-IsQuiet s s' k = record { silent = k.silent; grows = k.grows }

module _ {s s' : State} (k : IsQuiet s s') where
  pub same-userdata : (u : ℕ) → userdata_of s'.world.log u ≡ userdata_of s.world.log u
  same-userdata u =
      sym (userdata_of-task_calls u s'.world.log)
      ∙ ap (λ l. userdata_of l u) k.silent
      ∙ userdata_of-task_calls u s.world.log

  pub same-requests : requests s'.world.log ≡ requests s.world.log
  same-requests =
      sym (requests-task_calls s'.world.log)
      ∙ ap requests k.silent
      ∙ requests-task_calls s.world.log

  same-held : (t : ℕ) → alive s'.world.log (Handle.task t) ≡ alive s.world.log (Handle.task t)
  same-held t =
      sym (alive-task_calls t s'.world.log)
      ∙ ap (λ l. alive l (Handle.task t)) k.silent
      ∙ alive-task_calls t s.world.log

  pub same-IsAwaited : (tag t : ℕ) → IsAwaited tag t s.world.log → IsAwaited tag t s'.world.log
  same-IsAwaited tag t a = record {
    tagged = λ u. same-userdata u ∙ a.tagged u;
    real = a.real;
    held = same-held t ∙ a.held;
    sent = same-requests ∙ a.sent;
  }

  pub same-IsTaken : (tag t : ℕ) → IsTaken tag t s.world.log → IsTaken tag t s'.world.log
  same-IsTaken tag t a = record {
    tagged = λ u. same-userdata u ∙ a.tagged u;
    sent = same-requests ∙ a.sent;
  }

  pub same-IsUntagged : (n : ℕ) → IsUntagged n s.world.log → IsUntagged n s'.world.log
  same-IsUntagged n a = record {
    untagged = λ u. same-userdata u ∙ a.untagged u;
    sent = same-requests ∙ a.sent;
  }

-- `Get` goes on and waits for a task with this userdata, after at least `n` reactions of hyper; or it
-- ends.
abbrev pub Moves : ℕ → ℕ → Result Bool → State → Type 0
Moves tag n (returned false) s =
    ((t : ℕ) × IsAwaited tag t s.world.log) × (n ≤ reactions s.world.log)
Moves tag n (returned true) s = requests s.world.log ≤ 1
Moves tag n (panicked text args) s = requests s.world.log ≤ 1
Moves tag n undefined s = requests s.world.log ≤ 1

pub record Advances (tag n : ℕ) (m : Go Bool) (s : State) : Type 0 where
  pub moves : Moves tag n (m s).0 (m s).1

pub after-Moves :
    {A : Type 0} (tag n : ℕ) (r : Result A) (f : A → Go Bool) (s : State)
    → requests s.world.log ≤ 1
    → ((a : A) → Advances tag n (f a) s)
    → Moves tag n (after r f s).0 (after r f s).1
after-Moves tag n (returned a) f s few all = (all a).moves
after-Moves tag n (panicked text args) f s few all = few
after-Moves tag n undefined f s few all = few

-- After an action that has nothing to do with tasks.
pub Advances-after :
    {A : Type 0} (tag n : ℕ) (m : Go A) (f : A → Go Bool) (s : State)
    → Keeps is_task_call m
    → requests s.world.log ≤ 1
    → n ≤ reactions s.world.log
    → ((s' : State) → IsQuiet s s' → n ≤ reactions s'.world.log → (a : A) → Advances tag n (f a) s')
    → Advances tag n (m >>= f) s
Advances-after tag n m f s k few enough all =
    let same = same-IsQuiet s (m s).1 (k.same s) in
    record {
      moves =
          after-Moves tag n (m s).0 f (m s).1 (rw (same-requests same) few)
            (all (m s).1 same (omega (arith, same.grows)));
    }

sent_at-le_one : (tag : ℕ) → sent_at tag ≤ 1
sent_at-le_one zero = omega arith
sent_at-le_one (suc zero) = omega arith
sent_at-le_one (suc (suc tag)) = omega arith

pub few_taken : {tag t : ℕ} {log : Log} → IsTaken tag t log → requests log ≤ 1
few_taken {tag} a = omega (arith, a.sent, sent_at-le_one tag)

-- `Get` ends.
abbrev pub Ends : Result Bool → State → Type 0
Ends (returned false) s = ⊥
Ends _ s = requests s.world.log ≤ 1

pub record Finishes (m : Go Bool) (s : State) : Type 0 where
  pub ends : Ends (m s).0 (m s).1

after-Ends :
    {A : Type 0} (r : Result A) (f : A → Go Bool) (s : State)
    → requests s.world.log ≤ 1
    → ((a : A) → Finishes (f a) s)
    → Ends (after r f s).0 (after r f s).1
after-Ends (returned a) f s few all = (all a).ends
after-Ends (panicked text args) f s few all = few
after-Ends undefined f s few all = few

pub Finishes-after :
    {A : Type 0} (m : Go A) (f : A → Go Bool) (s : State)
    → Keeps is_task_call m
    → requests s.world.log ≤ 1
    → ((s' : State) → requests s'.world.log ≤ 1 → (a : A) → Finishes (f a) s')
    → Finishes (m >>= f) s
Finishes-after m f s k few all =
    let few' : requests (m s).1.world.log ≤ 1 =
      rw (same-requests (same-IsQuiet s (m s).1 (k.same s))) few in
    record { ends = after-Ends (m s).0 f (m s).1 few' (all (m s).1 few') }
