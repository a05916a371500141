-- ===== src/Sled/Go.antt =====
-- rust/sled/sled.go: what the Go package adds to the C interface. A slice is nil or
-- its bytes, and a string is the list of its bytes.
use llgoexamples.Base.{
  ◌∷◌, ℕ, Bool, true, false, Option, none, some, [], Bytes, ◌==◌, if◌then◌else◌, null,
}
use llgoexamples.Boxes.{find}
use llgoexamples.Sled.Crate.{Store}
use llgoexamples.Sled.Memory.{break_rule, State, Op, ◌>>=◌, done, buffer_in, sled_free_buf}
use llgoexamples.Sled.{sled_set, sled_get, sled_del, sled_compare_and_swap}

-- A string whose bytes lie in a buffer of the database.
pub record Value : Type 0 where
  pub at : ℕ
  pub size : ℕ

module _ {Config Db : Type 0} where
  -- `Value.Free`
  unfoldable pub value_free : Value → Op (State Config Db) (Unit {0})
  unfolding sled_free_buf
  value_free v = sled_free_buf v.at v.size

  -- Reading the string; one of no bytes reads no memory.
  unfoldable pub contents : Value → Op (State Config Db) Bytes
  contents v s = if v.size == 0 then done [] s else buffer_in (find v.at s.heap) s

-- The bytes that the C interface reads at the pointer of a slice, which `slice::from_raw_parts` wants
-- not to be NULL: that of a nil slice is.
abbrev pub slice_data : {S : Type 0} → Option Bytes → Op S Bytes
slice_data none = break_rule
slice_data (some bytes) = done bytes

-- The pointer of an empty string is unspecified, and may be nil.
abbrev pub string_data : {S : Type 0} → Bytes → Op S Bytes
string_data [] = break_rule
string_data (b ∷ bs) = done (b ∷ bs)

-- Where a length of 0 keeps the pointer from being read.
abbrev pub slice_bytes : Option Bytes → Bytes
slice_bytes none = []
slice_bytes (some bytes) = bytes

module _ (store : Store) where
  open store use {Config, Db}

  unfoldable pub set_bytes : ℕ → Option Bytes → Option Bytes → Op (State Config Db) (Unit {0})
  unfolding sled_set
  set_bytes db key val = do k ← slice_data key; v ← slice_data val; sled_set store db k v

  unfoldable pub get_bytes : ℕ → Option Bytes → Op (State Config Db) Value
  unfolding sled_get
  get_bytes db key = do
    k ← slice_data key
    val ← sled_get store db k 0
    done (record { at = val.0; size = val.1 })

  unfoldable pub del_bytes : ℕ → Option Bytes → Op (State Config Db) (Unit {0})
  unfolding sled_del
  del_bytes db key = do k ← slice_data key; sled_del store db k

  -- `pactualVal`: NULL if the caller passed no `actual`, else the address of a nil pointer.
  abbrev pub actual_pointer : Bool → Option ℕ
  actual_pointer true = some null
  actual_pointer false = none

  abbrev pub actual_value : Option ℕ → ℕ → Option Value
  actual_value none len = none
  actual_value (some p) len = some (record { at = p; size = len })

  -- `wanted` says whether the caller passed an `actual`; the value is what is stored there.
  unfoldable pub cas_bytes :
      ℕ
      → Option Bytes
      → Option Bytes
      → Option Bytes
      → Bool
      → Op (State Config Db) (Bool × Option Value)
  unfolding sled_compare_and_swap
  cas_bytes db key old_val new_val wanted = do
    k ← slice_data key
    ret ←
        sled_compare_and_swap store db k (slice_bytes old_val) (slice_bytes new_val)
          (actual_pointer wanted) 0
    done (ret.0 == 1, actual_value ret.1 ret.2)

  unfoldable pub set_string : ℕ → Bytes → Bytes → Op (State Config Db) (Unit {0})
  unfolding sled_set
  set_string db key val = do k ← string_data key; v ← string_data val; sled_set store db k v

  unfoldable pub get_string : ℕ → Bytes → Op (State Config Db) Value
  unfolding sled_get
  get_string db key = do
    k ← string_data key
    val ← sled_get store db k 0
    done (record { at = val.0; size = val.1 })

  unfoldable pub del_string : ℕ → Bytes → Op (State Config Db) (Unit {0})
  unfolding sled_del
  del_string db key = do k ← string_data key; sled_del store db k

  unfoldable pub cas_string :
      ℕ → Bytes → Bytes → Bytes → Bool → Op (State Config Db) (Bool × Option Value)
  unfolding sled_compare_and_swap
  cas_string db key old_val new_val wanted = do
    k ← string_data key
    ret ← sled_compare_and_swap store db k old_val new_val (actual_pointer wanted) 0
    done (ret.0 == 1, actual_value ret.1 ret.2)
