-- ===== src/World.antt =====
-- The state that the programs of lib/rust/hyper/examples work on, and how they act on it: a log of
-- the calls made, and the connection's data. Actions are functions from a state to a result and a
-- new state, so that the program text becomes `do` blocks.
use llgoexamples.Base.{ℕ, Bool, true, false, ◌∷◌}
use llgoexamples.Hyper.Calls.{Call, Log}

-- struct conn_data. A waker that is NULL is 0.
pub record ConnData : Type 0 where
  pub fd : ℕ
  pub read_waker : ℕ
  pub write_waker : ℕ

pub record World : Type 0 where
  pub log : Log
  pub conn : ConnData

abbrev pub M : Type 0 → Type 0
M A = World → A × World

abbrev pub pure : {A : Type 0} → A → M A
pure a w = (a, w)

infixl 5 ◌>>=◌ ◌>>◌
abbrev pub ◌>>=◌ : {A B : Type 0} → M A → (A → M B) → M B
◌>>=◌ m f w = let (a, w') = m w in f a w'

abbrev pub ◌>>◌ : {B : Type 0} → M (Unit {0}) → M B → M B
m >> k = m >>= λ _. k

abbrev pub skip : M (Unit {0})
skip = pure tt

-- A call whose answer the program does not read.
abbrev pub call : Call → M (Unit {0})
call c w = (tt, record w { log = c ∷ w.log })

-- An answer of the environment.
abbrev pub ask : {A : Type 0} → (Log → A) → M A
ask answer w = (answer w.log, w)

-- A call that hands out a new pointer.
abbrev pub create : (Log → ℕ) → (ℕ → Call) → M ℕ
create answer c w = let p = answer w.log in (p, record w { log = c p ∷ w.log })

abbrev pub get_conn : M ConnData
get_conn w = (w.conn, w)

abbrev pub set_conn : ConnData → M (Unit {0})
set_conn c w = (tt, record w { conn = c })

-- `if` between actions: a branch runs only when it is taken.
abbrev pub branch : {A : Type 0} → Bool → M A → M A → M A
branch true m n w = m w
branch false m n w = n w

abbrev pub when : Bool → M (Unit {0}) → M (Unit {0})
when b m = branch b m skip

-- How a piece of `main` ends: the loop goes on, `main` returns an exit code, or an assertion fails.
pub data Verdict : Type 0 where
  next : Verdict
  exit : ℕ → Verdict
  abort : Verdict

-- What has become of a program after some number of rounds of its loop.
pub data Outcome : Type 0 where
  running : Outcome
  exited : ℕ → Outcome
  aborted : Outcome
