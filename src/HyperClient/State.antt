-- ===== src/HyperClient/State.antt =====
-- The state that rust/hyper/_demo/hyper_client/hyper.go works on: the log and the connection's data,
-- the response that it collects, and the blocks that it allocated with malloc. A function of the
-- program returns a value, panics, or does what C leaves undefined with such a block.
use llgoexamples.Base.{ℕ, Bool, true, false, Option, List, [], Bytes, String, null}
use llgoexamples.Hyper.Calls.{Arg, Call, Log}
use llgoexamples.World
use llgoexamples.World.{World, ConnData, M}

-- `ResponseBody` is a pointer to a block, and NULL at first.
pub record Response : Type 0 where
  pub status : ℕ
  pub message : Bytes
  pub response_body : ℕ
  pub response_body_len : ℕ

-- A byte of a block, which has no value before it is written.
abbrev pub Cell : Type 0
Cell = Option ℕ

pub record State : Type 0 where
  pub world : World
  pub response : Response
  pub heap : List (ℕ × List Cell)

-- Before the program's first call.
abbrev pub idle : State
idle = record {
  world = record { log = []; conn = record { fd = 0; read_waker = 0; write_waker = 0 } };
  response = record { status = 0; message = []; response_body = null; response_body_len = 0 };
  heap = [];
}

pub data Result (A : Type 0) : Type 0 where
  returned : A → Result A
  panicked : String → List Arg → Result A
  undefined : Result A

abbrev pub Go : Type 0 → Type 0
Go A = State → Result A × State

abbrev pub after : {A B : Type 0} → Result A → (A → Go B) → Go B
after (returned a) f s = f a s
after (panicked text args) f s = (panicked text args, s)
after undefined f s = (undefined, s)

infixl 5 ◌>>=◌ ◌>>◌
abbrev pub ◌>>=◌ : {A B : Type 0} → Go A → (A → Go B) → Go B
◌>>=◌ m f s = let (r, s') = m s in after r f s'

abbrev pub ◌>>◌ : {B : Type 0} → Go (Unit {0}) → Go B → Go B
m >> k = m >>= λ _. k

abbrev pub pure : {A : Type 0} → A → Go A
pure a s = (returned a, s)

abbrev pub panic : {A : Type 0} → String → List Arg → Go A
panic text args s = (panicked text args, s)

abbrev pub break_rule : {A : Type 0} → Go A
break_rule s = (undefined, s)

-- What only has to do with the log and the connection.
abbrev pub lift : {A : Type 0} → M A → Go A
lift m s = let (a, w) = m s.world in (returned a, record s { world = w })

abbrev pub call : Call → Go (Unit {0})
call c = lift (World.call c)

abbrev pub ask : {A : Type 0} → (Log → A) → Go A
ask answer = lift (World.ask answer)

abbrev pub create : (Log → ℕ) → (ℕ → Call) → Go ℕ
create answer c = lift (World.create answer c)

abbrev pub get_conn : Go ConnData
get_conn = lift World.get_conn

abbrev pub set_conn : ConnData → Go (Unit {0})
set_conn c = lift (World.set_conn c)

abbrev pub branch : {A : Type 0} → Bool → Go A → Go A → Go A
branch true m n s = m s
branch false m n s = n s

abbrev pub when : Bool → Go (Unit {0}) → Go (Unit {0})
when b m = branch b m (pure tt)

abbrev pub get_response : Go Response
get_response s = (returned s.response, s)

-- The status and the message of the response.
abbrev pub set_head : ℕ → Bytes → Go (Unit {0})
set_head status message s =
    (returned tt, record s { response = record s.response { status = status; message = message } })

-- The body of the response.
abbrev pub set_body : ℕ → ℕ → Go (Unit {0})
set_body at len s = (
  returned tt,
  record s { response = record s.response { response_body = at; response_body_len = len } },
)
