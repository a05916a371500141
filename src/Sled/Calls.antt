-- ===== src/Sled/Calls.antt =====
-- Any program over the C interface of lib/rust/sled/src/lib.rs, as the calls that it makes, and what
-- becomes of a pointer once a call has taken what it points to.
use llgoexamples.Base.{ℕ, suc, Option, List, [], ◌∷◌, Bytes}
use llgoexamples.Sled.Crate.{Store}
use llgoexamples.Sled.Memory.{
  State, CInt, Op, ◌>>=◌, ◌>>◌, done, strdup, sled_free_buf, sled_free_config, sled_close,
  sled_free_iter,
}
use llgoexamples.Sled.{
  sled_create_config, sled_config_set_path, sled_config_set_cache_capacity,
  sled_config_use_compression, sled_config_flush_every_ms, sled_open_db, sled_set, sled_get,
  sled_del, sled_compare_and_swap, sled_scan_prefix, sled_iter_next,
}

-- A call, with the pointers and values that it is handed; `copy` is strdup.
pub data SledCall : Type 0 where
  copy : Option Bytes → SledCall
  create_config : SledCall
  free_config close free_iter open_db iter_next : ℕ → SledCall
  config_set_path config_set_cache_capacity config_use_compression : ℕ → ℕ → SledCall
  config_flush_every_ms : ℕ → CInt → SledCall
  free_buf : ℕ → ℕ → SledCall
  set_key : ℕ → Bytes → Bytes → SledCall
  get_key : ℕ → Bytes → ℕ → SledCall
  del_key scan_prefix : ℕ → Bytes → SledCall
  compare_and_swap : ℕ → Bytes → Bytes → Bytes → Option ℕ → ℕ → SledCall

-- The pointer whose object a call takes for good; `none` if it takes none. A buffer of no bytes is
-- no object.
abbrev pub taken : SledCall → List ℕ
taken (free_config p) = p ∷ []
taken (close p) = p ∷ []
taken (free_iter p) = p ∷ []
taken (open_db p) = p ∷ []
taken (config_set_path p path) = p ∷ path ∷ []
taken (config_set_cache_capacity p n) = p ∷ []
taken (config_use_compression p n) = p ∷ []
taken (config_flush_every_ms p n) = p ∷ []
taken (free_buf p (suc n)) = p ∷ []
taken _ = []

-- The pointers that a call follows without taking what they point to.
abbrev pub followed : SledCall → List ℕ
followed (set_key p k v) = p ∷ []
followed (get_key p k n) = p ∷ []
followed (del_key p k) = p ∷ []
followed (scan_prefix p k) = p ∷ []
followed (compare_and_swap p k old new actual len) = p ∷ []
followed (iter_next p) = p ∷ []
followed _ = []

module _ (store : Store) where
  open store use {Config, Db}

  -- A call whose result is not looked at.
  abbrev pub perform : SledCall → Op (State Config Db) (Unit {0})
  perform (copy text) = do _ ← strdup text; done tt
  perform create_config = do _ ← sled_create_config store; done tt
  perform (free_config p) = sled_free_config p
  perform (close p) = sled_close p
  perform (free_iter p) = sled_free_iter p
  perform (open_db p) = do _ ← sled_open_db store p; done tt
  perform (iter_next p) = do _ ← sled_iter_next p; done tt
  perform (config_set_path p path) = do _ ← sled_config_set_path store p path; done tt
  perform (config_set_cache_capacity p n) = do _ ← sled_config_set_cache_capacity store p n; done tt
  perform (config_use_compression p n) = do _ ← sled_config_use_compression store p n; done tt
  perform (config_flush_every_ms p n) = do _ ← sled_config_flush_every_ms store p n; done tt
  perform (free_buf p n) = sled_free_buf p n
  perform (set_key p k v) = sled_set store p k v
  perform (get_key p k n) = do _ ← sled_get store p k n; done tt
  perform (del_key p k) = sled_del store p k
  perform (scan_prefix p k) = do _ ← sled_scan_prefix store p k; done tt
  perform (compare_and_swap p k old new actual len) = do
    _ ← sled_compare_and_swap store p k old new actual len
    done tt

  abbrev pub perform_all : List SledCall → Op (State Config Db) (Unit {0})
  perform_all [] = done tt
  perform_all (call ∷ calls) = do perform call; perform_all calls
