-- ===== src/HyperClient/Calm.antt =====
-- The actions of rust/hyper/_demo/hyper_client/hyper.go that do not panic; one rule for each way to build one.
pub mod Parts
use llgoexamples.Base.{
  ℕ, ◌≡◌, ◌≢◌, ◌^◌, refl, Bool, true, false, not, Option, none, some, List, [], ◌∷◌, Bytes, String,
  SysResult, ret, errno, is_null, length, ltb, ◌==◌, ==-refl, arith,
}
use llgoexamples.Boxes.{find}
use llgoexamples.Hyper.{
  TaskReturnType, task_clientconn, task_response, task_empty, iter_continue, iter_break, ok,
}
use llgoexamples.Hyper.Calls.{Arg, Call, Log}
use llgoexamples.Hyper.Env.{Env, userdata_of}
use llgoexamples.World.{ConnData}
use llgoexamples.Exchange.Success.{GoesWell}
use llgoexamples.HyperClient.State.{
  State, Response, Result, returned, panicked, undefined, Go, after, ◌>>=◌, pure, call, ask, create,
  get_conn, set_conn, branch, when, get_response, set_head, set_body, break_rule,
}
use llgoexamples.HyperClient.Memory.{wrap, cells, malloc, free, load, store}
use llgoexamples.HyperClient.Transport.{
  read_register, read_returned, read_call_back, write_register, write_returned, write_call_back,
  release_read, release_write, free_wakers, wake_reader, wake_writer, selected, wait_for_io,
}
use llgoexamples.HyperClient.Body.{
  print_header, each_header, move_body, append_chunk, grow_body, append_to_response_body,
}
use llgoexamples.HyperClient.Handlers.{
  Callback, type_number, check_type, send_through, on_handshake, set_response, foreach_body,
  foreach_header, take_results, on_send, clean_up, on_resp_body,
}

-- It did not panic.
abbrev pub IsCalm : {A : Type 0} → Result A → Type 0
IsCalm (panicked text args) = ⊥
IsCalm (returned a) = Unit
IsCalm undefined = Unit

pub record Calm {A : Type 0} (m : Go A) : Type 0 where
  pub calm : (s : State) → IsCalm (m s).0

pub Calm-pure : {A : Type 0} (a : A) → Calm (pure a)
Calm-pure a = record { calm = λ s. tt }

pub after-IsCalm :
    {A B : Type 0} (r : Result A) (f : A → Go B) (s : State)
    → IsCalm r
    → ((a : A) → IsCalm (f a s).0)
    → IsCalm (after r f s).0
after-IsCalm (returned a) f s c all = all a
after-IsCalm (panicked text args) f s c all = absurd c
after-IsCalm undefined f s c all = tt

pub Calm-bind :
    {A B : Type 0} (m : Go A) (f : A → Go B) → Calm m → ((a : A) → Calm (f a)) → Calm (m >>= f)
Calm-bind m f km kf = record {
  calm = λ s. after-IsCalm (m s).0 f (m s).1 (km.calm s) (λ a. (kf a).calm (m s).1);
}

pub Calm-call : (c : Call) → Calm (call c)
Calm-call c = record { calm = λ s. tt }

pub Calm-ask : {A : Type 0} (answer : Log → A) → Calm (ask answer)
Calm-ask answer = record { calm = λ s. tt }

pub Calm-create : (answer : Log → ℕ) (c : ℕ → Call) → Calm (create answer c)
Calm-create answer c = record { calm = λ s. tt }

pub Calm-get_conn : Calm get_conn
Calm-get_conn = record { calm = λ s. tt }

pub Calm-set_conn : (c : ConnData) → Calm (set_conn c)
Calm-set_conn c = record { calm = λ s. tt }

pub Calm-get_response : Calm get_response
Calm-get_response = record { calm = λ s. tt }

pub Calm-set_body : (p len : ℕ) → Calm (set_body p len)
Calm-set_body p len = record { calm = λ s. tt }

pub Calm-branch : {A : Type 0} (b : Bool) (m n : Go A) → Calm m → Calm n → Calm (branch b m n)
Calm-branch true m n km kn = record { calm = km.calm }
Calm-branch false m n km kn = record { calm = kn.calm }

pub ruleset calm_rules = (
  Calm-pure, Calm-bind, Calm-call, Calm-ask, Calm-create, Calm-get_conn, Calm-set_conn,
  Calm-get_response, Calm-set_body, Calm-branch,
)

Calm-load : (p n : ℕ) → Calm (load p n)
unfolding load
Calm-load p n = record { calm = λ s. ground arith }

Calm-store : (p offset : ℕ) (cs : List (Option ℕ)) → Calm (store p offset cs)
unfolding store
Calm-store p offset cs = record { calm = λ s. ground arith }

Calm-free : (p : ℕ) → Calm (free p)
unfolding free
Calm-free p = record { calm = λ s. ground arith }

Calm-malloc : (answer : Log → ℕ) (size : ℕ) → Calm (malloc answer size)
unfolding malloc
Calm-malloc answer size = record { calm = λ s. tt }

Calm-move_body : (new old len : ℕ) → Calm (move_body new old len)
unfolding move_body
Calm-move_body new old len = search (calm_rules, Calm-load, Calm-store, Calm-free)

Calm-append_chunk : (chunk : Bytes) (new : ℕ) → Calm (append_chunk chunk new)
unfolding append_chunk
Calm-append_chunk chunk new = search (calm_rules, Calm-move_body, Calm-store) depth 12 fits 3000

Calm-grow_body : (answer : Log → ℕ) (chunk : Bytes) → Calm (grow_body answer chunk)
unfolding grow_body
Calm-grow_body answer chunk = search (calm_rules, Calm-malloc, Calm-append_chunk) depth 12 fits 3000

pub Calm-append_to_response_body :
    (answer : Log → ℕ) (chunk : Bytes) → Calm (append_to_response_body answer chunk)
unfolding append_to_response_body
Calm-append_to_response_body answer chunk = search (calm_rules, Calm-grow_body)
