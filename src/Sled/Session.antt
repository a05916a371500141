-- ===== src/Sled/Session.antt =====
-- A client that works with one open database through Go.antt, and the map that it works with.
use llgoexamples.Base.{
  ℕ, Bool, true, false, Option, none, some, List, [], ◌∷◌, Bytes, if◌then◌else◌,
}
use llgoexamples.Sled.Crate.{Store, update, value_eq}
use llgoexamples.Sled.Memory.{database, State, Op, ◌>>=◌, ◌>>◌, done, sled_close}
use llgoexamples.Sled.{sled_create_config, sled_open_db, nonempty}
use llgoexamples.Sled.Buffers.{take_out}
use llgoexamples.Sled.Go.{Value}
use llgoexamples.Sled.Forms.{IsPassed, Form, set_as, get_as, del_as, cas_as}

pub data Request : Type 0 where
  set : Form → Bytes → Bytes → Request
  del get : Form → Bytes → Request
  cas : Form → Bytes → Bytes → Bytes → Request

-- The keys and the values that are set go to the database by valid pointers.
abbrev pub IsServable : Request → Type 0
IsServable (set form k v) = IsPassed form k × IsPassed form v
IsServable (del form k) = IsPassed form k
IsServable (get form k) = IsPassed form k
IsServable (cas form k old new) = IsPassed form k

abbrev pub AllServable : List Request → Type 0
AllServable [] = Unit
AllServable (request ∷ requests) = IsServable request × AllServable requests

pub data Answer : Type 0 where
  nothing : Answer
  got : Bytes → Answer
  compared_to : Bool → Bytes → Answer

abbrev pub take_actual : {Config Db : Type 0} → Option Value → Op (State Config Db) Bytes
take_actual none = done []
take_actual (some v) = take_out v

module _ (store : Store) where
  open store use {Config, Db}

  abbrev pub serve : ℕ → Request → Op (State Config Db) Answer
  serve db (set form k v) = do set_as store form db k v; done nothing
  serve db (del form k) = do del_as store form db k; done nothing
  serve db (get form k) = do v ← get_as store form db k; bytes ← take_out v; done (got bytes)
  serve db (cas form k old new) = do
    r ← cas_as store form db k old new true
    bytes ← take_actual r.1
    done (compared_to r.0 bytes)

  abbrev pub serve_all : ℕ → List Request → Op (State Config Db) (List Answer)
  serve_all db [] = done []
  serve_all db (request ∷ requests) = do
    answer ← serve db request
    answers ← serve_all db requests
    done (answer ∷ answers)

module _ (store : Store) where
  open store use {Config, Db}

  -- The database of a new configuration is opened, serves the requests, and is closed.
  unfoldable pub session : List Request → Op (State Config Db) (List Answer)
  session requests = do
    conf ← sled_create_config store
    db ← sled_open_db store conf
    answers ← serve_all store db requests
    sled_close db
    done answers

abbrev pub empty : {Config Db : Type 0} → State Config Db
empty = record { heap = []; next = 0 }

abbrev pub or_empty : Option Bytes → Bytes
or_empty none = []
or_empty (some bs) = bs

-- The same requests, put to a map: a missing value reads as no bytes, and no bytes stand for a
-- missing value where a value is compared or swapped in.
abbrev pub answer_of : (Bytes → Option Bytes) → Request → Answer
answer_of m (set form k v) = nothing
answer_of m (del form k) = nothing
answer_of m (get form k) = got (or_empty (m k))
answer_of m (cas form k old new) =
    if value_eq (m k) (nonempty old)
    then compared_to true []
    else compared_to false (or_empty (m k))

abbrev pub map_after : (Bytes → Option Bytes) → Request → Bytes → Option Bytes
map_after m (set form k v) = update m k (some v)
map_after m (del form k) = update m k none
map_after m (get form k) = m
map_after m (cas form k old new) =
    if value_eq (m k) (nonempty old) then update m k (nonempty new) else m

abbrev pub answers_of : (Bytes → Option Bytes) → List Request → List Answer
answers_of m [] = []
answers_of m (request ∷ requests) = answer_of m request ∷ answers_of (map_after m request) requests

abbrev pub map_after_all : (Bytes → Option Bytes) → List Request → Bytes → Option Bytes
map_after_all m [] = m
map_after_all m (request ∷ requests) = map_after_all (map_after m request) requests

-- Only the database at `p` is on the heap.
abbrev pub holding : {Config Db : Type 0} → ℕ → Db → ℕ → State Config Db
holding p d next = record { heap = (p, database d) ∷ []; next = next }
