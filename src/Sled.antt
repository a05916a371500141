-- ===== src/Sled.antt =====
-- lib/rust/sled/src/lib.rs: the sled database behind a C interface. A pointer is a number, NULL is 0,
-- and the heap holds what `Box::into_raw` and `mem::forget` gave away. A key or value that is handed
-- in is a valid slice. The sled crate is the parameter `store`.
pub mod Crate
pub mod Memory
pub mod Buffers
pub mod Session
pub mod Refines
pub mod Roundtrip
pub mod Scan
pub mod Calls
pub mod Leads
pub mod Held
pub mod Go
pub mod Forms
pub mod Bare
pub mod Demo
mod Examples
use llgoexamples.Base.{
  ℕ, zero, suc, Bool, true, false, Option, none, some, List, [], ◌∷◌, Bytes, length, ◌==◌,
  if◌then◌else◌, null, is_null,
}
use llgoexamples.Sled.Crate.{
  Store, ScanResult, pair_read, scan_error, CasResult, swapped, differs, cas_error,
}
use llgoexamples.Sled.Memory.{
  Object, config, database, iterator, State, CInt, pos, negsuc, Op, ◌>>=◌, ◌>>◌, done, panic,
  break_rule, unwrap, into_raw, store_at, deref_db, deref_iter, unbox_config, unbox_string,
  leak_buf,
}

abbrev pub flush_interval : CInt → Option ℕ
flush_interval (pos n) = some n
flush_interval (negsuc n) = none

-- A value of no bytes stands for no value.
abbrev pub nonempty : Bytes → Option Bytes
nonempty [] = none
nonempty (b ∷ bs) = some (b ∷ bs)

module _ {Config Db : Type 0} where
  -- `vallen` is what `*vallen` holds; the second result is what it holds afterwards.
  abbrev pub got_value : ℕ → Option Bytes → Op (State Config Db) (ℕ × ℕ)
  got_value vallen (some v) = leak_buf v
  got_value vallen none = done (null, vallen)

  -- A write through `actual_val`, which is NULL or holds the old value.
  abbrev pub write_through : Option ℕ → ℕ → Op (State Config Db) (Option ℕ)
  write_through none p = break_rule
  write_through (some old) p = done (some p)

  -- The results are the flag, `*actual_val` and `*actual_vallen`.
  abbrev pub compared : ℕ → Option ℕ → ℕ → CasResult Db → Op (State Config Db) (ℕ × Option ℕ × ℕ)
  compared db actual_val actual_vallen (swapped d') = do
    store_at db (database d')
    done (1, actual_val, actual_vallen)
  compared db actual_val actual_vallen (differs none) = done (0, actual_val, 0)
  compared db actual_val actual_vallen (differs (some v)) = do
    leaked ← leak_buf v
    actual ← write_through actual_val leaked.0
    done (0, actual, leaked.1)
  compared db actual_val actual_vallen cas_error = panic

  -- The pair's key and value, each with its length; `none` when the iterator is exhausted.
  abbrev pub advanced : ℕ → List ScanResult → Op (State Config Db) (Option ((ℕ × ℕ) × (ℕ × ℕ)))
  advanced iter [] = done none
  advanced iter (pair_read k v ∷ rest) = do
    store_at iter (iterator rest)
    key ← leak_buf k
    val ← leak_buf v
    done (some (key, val))
  advanced iter (scan_error ∷ rest) = panic

  unfoldable pub sled_iter_next : ℕ → Op (State Config Db) (Option ((ℕ × ℕ) × (ℕ × ℕ)))
  unfolding leak_buf
  sled_iter_next iter = do l ← deref_iter iter; advanced iter l

module _ (store : Store) where
  open store use {Config, Db}

  unfoldable pub sled_create_config : Op (State Config Db) ℕ
  sled_create_config = into_raw (config store.new_config)

  unfoldable pub sled_config_set_path : ℕ → ℕ → Op (State Config Db) ℕ
  unfolding unbox_config unbox_string
  sled_config_set_path p path = do
    c_str ← unbox_string path
    value ← unwrap c_str
    c ← unbox_config p
    into_raw (config (store.path c value))

  unfoldable pub sled_config_set_cache_capacity : ℕ → ℕ → Op (State Config Db) ℕ
  unfolding unbox_config
  sled_config_set_cache_capacity p capacity = do
    c ← unbox_config p
    into_raw (config (store.cache_capacity c capacity))

  unfoldable pub sled_config_use_compression : ℕ → ℕ → Op (State Config Db) ℕ
  unfolding unbox_config
  sled_config_use_compression p use_compression = do
    c ← unbox_config p
    into_raw (config (store.use_compression c (use_compression == 1)))

  unfoldable pub sled_config_flush_every_ms : ℕ → CInt → Op (State Config Db) ℕ
  unfolding unbox_config
  sled_config_flush_every_ms p flush_every = do
    c ← unbox_config p
    into_raw (config (store.flush_every_ms c (flush_interval flush_every)))

  unfoldable pub sled_open_db : ℕ → Op (State Config Db) ℕ
  unfolding unbox_config
  sled_open_db p = do c ← unbox_config p; d ← unwrap (store.open_db c); into_raw (database d)

  unfoldable pub sled_set : ℕ → Bytes → Bytes → Op (State Config Db) (Unit {0})
  sled_set db key val = do
    d ← deref_db db
    d' ← unwrap (store.insert d key val)
    store_at db (database d')

  unfoldable pub sled_get : ℕ → Bytes → ℕ → Op (State Config Db) (ℕ × ℕ)
  unfolding leak_buf
  sled_get db key vallen = do d ← deref_db db; res ← unwrap (store.get d key); got_value vallen res

  unfoldable pub sled_del : ℕ → Bytes → Op (State Config Db) (Unit {0})
  sled_del db key = do d ← deref_db db; d' ← unwrap (store.remove d key); store_at db (database d')

  unfoldable pub sled_compare_and_swap :
      ℕ → Bytes → Bytes → Bytes → Option ℕ → ℕ → Op (State Config Db) (ℕ × Option ℕ × ℕ)
  unfolding leak_buf
  sled_compare_and_swap db key old_val new_val actual_val actual_vallen = do
    d ← deref_db db
    compared db actual_val actual_vallen
        (store.compare_and_swap d key (nonempty old_val) (nonempty new_val))

  unfoldable pub sled_scan_prefix : ℕ → Bytes → Op (State Config Db) ℕ
  sled_scan_prefix db key = do d ← deref_db db; into_raw (iterator (store.scan_prefix d key))
