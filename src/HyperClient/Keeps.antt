-- ===== src/HyperClient/Keeps.antt =====
-- The actions of rust/hyper/_demo/hyper_client/hyper.go that have nothing to do with the body of the
-- response; one rule for each way to build one.
pub mod Watched
pub mod Views
pub mod Parts
use llgoexamples.Base.{
  ◌||◌, ◌≤◌, sym, ℕ, ◌≡◌, refl, ◌∙◌, Bool, true, false, List, [], ◌∷◌, ◌++◌, Bytes, String, ret,
  errno, if◌then◌else◌, arith, ap,
}
use llgoexamples.Hyper.Calls.{Arg, Call, Handle, Log}
use llgoexamples.Hyper.Ledger.{alive}
use llgoexamples.Exchange.Reactions.{reactions}
use llgoexamples.World
use llgoexamples.World.{World, ConnData, M}
use llgoexamples.HyperClient.State.{
  State, Response, Result, returned, panicked, undefined, Go, after, ◌>>=◌, pure, panic, lift, call,
  ask, create, get_conn, set_conn, branch, get_response, set_head,
}

-- The bytes of the chunks that the callback was handed, in their order.
abbrev pub handed : Log → Bytes
handed [] = []
handed (Call.lent_buf bs ∷ log) = handed log ++ bs
handed (_ ∷ log) = handed log

-- The calls that hand over a chunk, allocate a block, or free one.
abbrev pub is_body_call : Call → Bool
is_body_call (Call.lent_buf bs) = true
is_body_call (Call.malloc p) = true
is_body_call (Call.free p) = true
is_body_call (Call.task_value t (Handle.mem p)) = true
is_body_call _ = false

-- The calls that make, take or free a task, or set its userdata.
abbrev pub is_task_call : Call → Bool
is_task_call (Call.task_set_userdata t u) = true
is_task_call (Call.task_free t) = true
is_task_call (Call.executor_push e t) = true
is_task_call (Call.executor_poll e t) = true
is_task_call (Call.clientconn_handshake i o t) = true
is_task_call (Call.clientconn_send c r t) = true
is_task_call (Call.body_foreach b t) = true
is_task_call (Call.body_data b t) = true
is_task_call (Call.task_value t (Handle.task p)) = true
is_task_call _ = false

abbrev pub is_watched : Call → Bool
is_watched c = is_body_call c || is_task_call c

-- The calls of a log that `watched` tells.
abbrev pub calls_of : (Call → Bool) → Log → Log
calls_of watched [] = []
calls_of watched (c ∷ log) = if watched c then c ∷ calls_of watched log else calls_of watched log

pub calls_of-calls_of :
    (some_calls all_calls : Call → Bool)
    → ((c : Call) → some_calls c ≡ true → all_calls c ≡ true)
    → (log : Log) → calls_of some_calls (calls_of all_calls log) ≡ calls_of some_calls log
calls_of-calls_of some_calls all_calls sub [] = refl
calls_of-calls_of some_calls all_calls sub (c ∷ log) =
    let rest = calls_of-calls_of some_calls all_calls sub log in ground (arith, rest, sub c)

-- Nothing of the body was touched between two states, and no watched call was made.
pub record IsSame (watched : Call → Bool) (s s' : State) : Type 0 where
  pub heap : s'.heap ≡ s.heap
  pub body : s'.response.response_body ≡ s.response.response_body
  pub len : s'.response.response_body_len ≡ s.response.response_body_len
  pub silent : calls_of watched s'.world.log ≡ calls_of watched s.world.log
  pub grows : reactions s.world.log ≤ reactions s'.world.log

abbrev pub IsDefined : {A : Type 0} → Result A → Type 0
IsDefined (returned a) = Unit
IsDefined (panicked text args) = Unit
IsDefined undefined = ⊥

pub record Keeps (watched : Call → Bool) {A : Type 0} (m : Go A) : Type 0 where
  pub same : (s : State) → IsSame watched s (m s).1
  pub defined : (s : State) → IsDefined (m s).0

reactions-call : (c : Call) (log : Log) → reactions log ≤ reactions (c ∷ log)
reactions-call (Call.read s n r) log = omega arith
reactions-call (Call.write s bs r) log = omega arith
reactions-call (Call.write_stdout bs) log = omega arith
reactions-call (Call.lent_response_status n) log = omega arith
reactions-call (Call.lent_buf bs) log = omega arith
reactions-call (Call.executor_poll e t) log = omega arith
reactions-call (Call.executor_poll_none e) log = omega arith
reactions-call _ log = omega arith

module _ {watched : Call → Bool} where
  IsSame-trans : {a b c : State} → IsSame watched a b → IsSame watched b c → IsSame watched a c
  IsSame-trans j k = record {
    heap = k.heap ∙ j.heap;
    body = k.body ∙ j.body;
    len = k.len ∙ j.len;
    silent = k.silent ∙ j.silent;
    grows = omega (arith, j.grows, k.grows);
  }

  IsSame-refl : (s : State) → IsSame watched s s
  IsSame-refl s = record {
    heap = refl;
    body = refl;
    len = refl;
    silent = refl;
    grows = omega arith;
  }

  pub Keeps-pure : {A : Type 0} (a : A) → Keeps watched (pure a)
  Keeps-pure a = record { same = IsSame-refl; defined = λ s. tt }

  pub Keeps-panic :
      {A : Type 0} (text : String) (args : List Arg) → Keeps watched (panic {A = A} text args)
  Keeps-panic text args = record { same = IsSame-refl; defined = λ s. tt }

  after-IsSame :
      {A B : Type 0} (r : Result A) (f : A → Go B) (s : State)
      → ((a : A) → Keeps watched (f a))
      → IsSame watched s (after r f s).1
  after-IsSame (returned a) f s k = (k a).same s
  after-IsSame (panicked text args) f s k = IsSame-refl s
  after-IsSame undefined f s k = IsSame-refl s

  after-IsDefined :
      {A B : Type 0} (r : Result A) (f : A → Go B) (s : State)
      → IsDefined r
      → ((a : A) → Keeps watched (f a))
      → IsDefined (after r f s).0
  after-IsDefined (returned a) f s d k = (k a).defined s
  after-IsDefined (panicked text args) f s d k = tt
  after-IsDefined undefined f s d k = d

  pub Keeps-bind :
      {A B : Type 0} (m : Go A) (f : A → Go B)
      → Keeps watched m
      → ((a : A) → Keeps watched (f a))
      → Keeps watched (m >>= f)
  Keeps-bind m f km kf = record {
    same = λ s. IsSame-trans (km.same s) (after-IsSame (m s).0 f (m s).1 kf);
    defined = λ s. after-IsDefined (m s).0 f (m s).1 (km.defined s) kf;
  }

  pub Keeps-call : (c : Call) → watched c ≡ false → Keeps watched (call c)
  Keeps-call c e = record {
    same = λ s. record {
      heap = refl;
      body = refl;
      len = refl;
      silent = rw e refl;
      grows = reactions-call c s.world.log;
    };
    defined = λ s. tt;
  }

  pub Keeps-ask : {A : Type 0} (answer : Log → A) → Keeps watched (ask answer)
  Keeps-ask answer = record { same = IsSame-refl; defined = λ s. tt }

  pub Keeps-create :
      (answer : Log → ℕ) (c : ℕ → Call)
      → ((p : ℕ) → watched (c p) ≡ false)
      → Keeps watched (create answer c)
  Keeps-create answer c e = record {
    same = λ s. record {
      heap = refl;
      body = refl;
      len = refl;
      silent = rw (e (answer s.world.log)) refl;
      grows = reactions-call (c (answer s.world.log)) s.world.log;
    };
    defined = λ s. tt;
  }

  pub Keeps-get_conn : Keeps watched get_conn
  Keeps-get_conn = record { same = IsSame-refl; defined = λ s. tt }

  pub Keeps-set_conn : (c : ConnData) → Keeps watched (set_conn c)
  Keeps-set_conn c = record {
    same = λ s. record { heap = refl; body = refl; len = refl; silent = refl; grows = omega arith };
    defined = λ s. tt;
  }

  pub Keeps-get_response : Keeps watched get_response
  Keeps-get_response = record { same = IsSame-refl; defined = λ s. tt }

  pub Keeps-set_head : (status : ℕ) (message : Bytes) → Keeps watched (set_head status message)
  Keeps-set_head status message = record {
    same = λ s. record { heap = refl; body = refl; len = refl; silent = refl; grows = omega arith };
    defined = λ s. tt;
  }

  pub Keeps-branch :
      {A : Type 0} (b : Bool) (m n : Go A)
      → Keeps watched m
      → Keeps watched n
      → Keeps watched (branch b m n)
  Keeps-branch true m n km kn = record { same = km.same; defined = km.defined }
  Keeps-branch false m n km kn = record { same = kn.same; defined = kn.defined }

  pub ruleset keeps_rules = (
    Keeps-pure, Keeps-panic, Keeps-bind, Keeps-call, Keeps-ask, Keeps-create, Keeps-get_conn,
    Keeps-set_conn, Keeps-get_response, Keeps-set_head, Keeps-branch,
  )
