-- ===== src/Sled/Crate.antt =====
-- The sled crate as lib/rust/sled/src/lib.rs uses it: its operations, and what its documentation
-- says of them, by the map that a tree stands for.
use llgoexamples.Base.{
  ℕ, ◌≡◌, Bool, true, false, ◌&&◌, Option, none, some, List, [], ◌∷◌, Bytes, ◌==◌, if◌then◌else◌,
}

-- One step of an iterator: a pair, or an error.
pub data ScanResult : Type 0 where
  pair_read : Bytes → Bytes → ScanResult
  scan_error : ScanResult

pub data CasResult (Db : Type 0) : Type 0 where
  swapped : Db → CasResult Db
  differs : Option Bytes → CasResult Db
  cas_error : CasResult Db

-- `none` is `Err`. What changes a tree returns the tree after it.
pub record Store : Type 1 where
  pub Config : Type 0
  pub Db : Type 0
  pub new_config : Config
  pub path : Config → Bytes → Config
  pub cache_capacity : Config → ℕ → Config
  pub use_compression : Config → Bool → Config
  pub flush_every_ms : Config → Option ℕ → Config
  pub open_db : Config → Option Db
  pub insert : Db → Bytes → Bytes → Option Db
  pub get : Db → Bytes → Option (Option Bytes)
  pub remove : Db → Bytes → Option Db
  pub compare_and_swap : Db → Bytes → Option Bytes → Option Bytes → CasResult Db
  pub scan_prefix : Db → Bytes → List ScanResult

abbrev pub bytes_eq : Bytes → Bytes → Bool
bytes_eq [] [] = true
bytes_eq (a ∷ as_) (b ∷ bs) = a == b && bytes_eq as_ bs
bytes_eq _ _ = false

abbrev pub value_eq : Option Bytes → Option Bytes → Bool
value_eq none none = true
value_eq (some a) (some b) = bytes_eq a b
value_eq _ _ = false

-- A map, changed at one key.
abbrev pub update : (Bytes → Option Bytes) → Bytes → Option Bytes → Bytes → Option Bytes
update m k v j = if bytes_eq k j then v else m j

-- No operation fails, and each does to the tree's map what it is named for.
pub record StoreLaws (store : Store) : Type 0 where
  pub view : store.Db → Bytes → Option Bytes
  pub get_view : (d : store.Db) (k : Bytes) → store.get d k ≡ some (view d k)
  pub insert_view :
      (d : store.Db) (k v : Bytes)
      → (d' : store.Db) × (store.insert d k v ≡ some d') × (view d' ≡ update (view d) k (some v))
  pub remove_view :
      (d : store.Db) (k : Bytes)
      → (d' : store.Db) × (store.remove d k ≡ some d') × (view d' ≡ update (view d) k none)
  pub swap_view :
      (d : store.Db) (k : Bytes) (old new : Option Bytes)
      → value_eq (view d k) old ≡ true
      → (d' : store.Db) × (store.compare_and_swap d k old new ≡ swapped d')
        × (view d' ≡ update (view d) k new)
  pub differ_view :
      (d : store.Db) (k : Bytes) (old new : Option Bytes)
      → value_eq (view d k) old ≡ false
      → store.compare_and_swap d k old new ≡ differs (view d k)
