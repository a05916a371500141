-- ===== src/Sled/Held.antt =====
-- What lies on the heap of lib/rust/sled/src/lib.rs stays there until a call takes it.
use llgoexamples.Base.{
  ℕ, zero, suc, ◌≡◌, ◌≢◌, ◌≤◌, Bool, true, false, Option, none, some, List, [], ◌∷◌, Bytes,
  if◌then◌else◌, arith,
}
use llgoexamples.Boxes.{find, find-remove-other, find-replace-some}
use llgoexamples.Sled.Crate.{
  Store, ScanResult, pair_read, scan_error, CasResult, swapped, differs, cas_error,
}
use llgoexamples.Sled.Memory.{
  Object, State, Op, ◌>>=◌, done, panic, break_rule, unwrap, into_raw, store_at, release, config_in,
  database_in, iterator_in, buffer_in, text_in, strdup, unbox_config, unbox_string, leak_buf,
  sled_free_buf, sled_free_config, sled_close, sled_free_iter,
}
use llgoexamples.Sled.{
  got_value, write_through, compared, advanced, sled_create_config, sled_config_set_path,
  sled_config_set_cache_capacity, sled_config_use_compression, sled_config_flush_every_ms,
  sled_open_db, sled_set, sled_get, sled_del, sled_compare_and_swap, sled_scan_prefix,
  sled_iter_next,
}
use llgoexamples.Sled.Leads.{
  Ends, Ends-after, config_in-Ends, database_in-Ends, iterator_in-Ends, buffer_in-Ends,
  text_in-Ends,
}
use llgoexamples.Sled.Calls.{
  SledCall, copy, create_config, free_config, close, free_iter, open_db, iter_next, config_set_path,
  config_set_cache_capacity, config_use_compression, config_flush_every_ms, free_buf, set_key,
  get_key, del_key, scan_prefix, compare_and_swap, taken, perform, perform_all,
}

module _ {Config Db : Type 0} (p : ℕ) where
  -- Something lies at the address.
  abbrev pub Alive : State Config Db → Type 0
  Alive s = (p ≤ s.next) × (object : Object Config Db) × (find p s.heap ≡ some object)

  record Holds {A : Type 0} (m : Op (State Config Db) A) : Type 0 where
    goes : (s : State Config Db) → Alive s → Ends Alive (m s)

  Holds-done : {A : Type 0} (a : A) → Holds (done {A = A} a)
  Holds-done a = record { goes = λ s h. h }

  Holds-panic : {A : Type 0} → Holds (panic {A = A})
  Holds-panic = record { goes = λ s h. tt }

  Holds-break_rule : {A : Type 0} → Holds (break_rule {A = A})
  Holds-break_rule = record { goes = λ s h. tt }

  Holds-bind :
      {A B : Type 0} (m : Op (State Config Db) A) (f : A → Op (State Config Db) B)
      → Holds m
      → ((a : A) → Holds (f a))
      → Holds (m >>= f)
  Holds-bind m f hm hf = record {
    goes = λ s h. Ends-after Alive Alive (m s) f (hm.goes s h) (λ a t h'. (hf a).goes t h');
  }

  Holds-if :
      {A : Type 0} (b : Bool) (m n : Op (State Config Db) A)
      → Holds m
      → Holds n
      → Holds (if b then m else n)
  Holds-if true m n hm hn = hm
  Holds-if false m n hm hn = hn

  Holds-unwrap : {A : Type 0} (r : Option A) → Holds (unwrap r)
  Holds-unwrap none = Holds-panic
  Holds-unwrap (some a) = Holds-done a

  Holds-into_raw : (object : Object Config Db) → Holds (into_raw object)
  Holds-into_raw object = record {
    goes = λ s h. (omega (arith, h.0), h.1, let there = h.2 in ground (arith, there, h.0));
  }

  Holds-store_at : (q : ℕ) (object : Object Config Db) → Holds (store_at q object)
  Holds-store_at q object = record {
    goes = λ s h. let (kept, e) = find-replace-some p q object h.1 s.heap h.2 in (h.0, kept, e);
  }

  Holds-release : (q : ℕ) → q ≢ p → Holds (release q)
  Holds-release q other = record {
    goes = λ s h. (h.0, h.1, rw (find-remove-other p q s.heap other) h.2);
  }

  Holds-find_config : (q : ℕ) → Holds (λ s. config_in (find q s.heap) s)
  Holds-find_config q = record { goes = λ s h. config_in-Ends Alive (find q s.heap) s h }

  Holds-find_database : (q : ℕ) → Holds (λ s. database_in (find q s.heap) s)
  Holds-find_database q = record { goes = λ s h. database_in-Ends Alive (find q s.heap) s h }

  Holds-find_iterator : (q : ℕ) → Holds (λ s. iterator_in (find q s.heap) s)
  Holds-find_iterator q = record { goes = λ s h. iterator_in-Ends Alive (find q s.heap) s h }

  Holds-find_buffer : (q : ℕ) → Holds (λ s. buffer_in (find q s.heap) s)
  Holds-find_buffer q = record { goes = λ s h. buffer_in-Ends Alive (find q s.heap) s h }

  Holds-find_text : (q : ℕ) → Holds (λ s. text_in (find q s.heap) s)
  Holds-find_text q = record { goes = λ s h. text_in-Ends Alive (find q s.heap) s h }

  ruleset holds_rules = (
    Holds-done, Holds-panic, Holds-break_rule, Holds-bind, Holds-if, Holds-unwrap, Holds-into_raw,
    Holds-store_at, Holds-release, Holds-find_config, Holds-find_database, Holds-find_iterator,
    Holds-find_buffer, Holds-find_text,
  )

  Holds-leak_buf : (bs : Bytes) → Holds (leak_buf bs)
  unfolding leak_buf
  Holds-leak_buf [] = search holds_rules
  Holds-leak_buf (b ∷ bs) = search holds_rules

  Holds-got_value : (n : ℕ) (v : Option Bytes) → Holds (got_value n v)
  Holds-got_value n none = search holds_rules
  Holds-got_value n (some v) = Holds-leak_buf v

  Holds-write_through : (actual : Option ℕ) (q : ℕ) → Holds (write_through actual q)
  Holds-write_through none q = search holds_rules
  Holds-write_through (some old) q = search holds_rules

  Holds-compared :
      (db : ℕ) (actual : Option ℕ) (len : ℕ) (r : CasResult Db) → Holds (compared db actual len r)
  Holds-compared db actual len (swapped d) = search holds_rules
  Holds-compared db actual len (differs none) = search holds_rules
  Holds-compared db actual len (differs (some v)) =
      search (holds_rules, Holds-leak_buf, Holds-write_through)
  Holds-compared db actual len cas_error = search holds_rules

  Holds-advanced : (iter : ℕ) (l : List ScanResult) → Holds (advanced iter l)
  Holds-advanced iter [] = search holds_rules
  Holds-advanced iter (pair_read k v ∷ l) = search (holds_rules, Holds-leak_buf)
  Holds-advanced iter (scan_error ∷ l) = search holds_rules

-- The address is none of these.
abbrev pub IsNone : ℕ → List ℕ → Type 0
IsNone p [] = Unit {0}
IsNone p (q ∷ qs) = (q ≢ p) × IsNone p qs

abbrev pub Untaken : ℕ → List SledCall → Type 0
Untaken p [] = Unit {0}
Untaken p (call ∷ calls) = IsNone p (taken call) × Untaken p calls

module _ (store : Store) (p : ℕ) where
  open store use {Config, Db}

  Holds-perform : (call : SledCall) → IsNone p (taken call) → Holds p (perform store call)
  unfolding strdup unbox_config unbox_string sled_free_buf sled_free_config sled_close
      sled_free_iter sled_create_config sled_config_set_path sled_config_set_cache_capacity
      sled_config_use_compression sled_config_flush_every_ms sled_open_db sled_set sled_get sled_del
      sled_compare_and_swap sled_scan_prefix sled_iter_next
  Holds-perform (copy text) n = search holds_rules
  Holds-perform create_config n = search holds_rules
  Holds-perform (free_config q) (other, _) = search holds_rules
  Holds-perform (close q) (other, _) = search holds_rules
  Holds-perform (free_iter q) (other, _) = search holds_rules
  Holds-perform (open_db q) (other, _) = search holds_rules
  Holds-perform (iter_next q) n = search (holds_rules, Holds-advanced)
  Holds-perform (config_set_path q path) (other, (other', _)) = search holds_rules depth 9
  Holds-perform (config_set_cache_capacity q n) (other, _) = search holds_rules
  Holds-perform (config_use_compression q n) (other, _) = search holds_rules
  Holds-perform (config_flush_every_ms q n) (other, _) = search holds_rules
  Holds-perform (free_buf q zero) n = ground arith
  Holds-perform (free_buf q (suc n)) (other, _) = search holds_rules
  Holds-perform (set_key q k v) n = search holds_rules
  Holds-perform (get_key q k m) n = search (holds_rules, Holds-got_value)
  Holds-perform (del_key q k) n = search holds_rules
  Holds-perform (scan_prefix q k) n = search holds_rules
  Holds-perform (compare_and_swap q k old new actual len) n = search (holds_rules, Holds-compared)

  -- If something lies on the heap and none of the calls takes it, then it lies there when they have
  -- returned, whatever they are and whatever the store does.
  pub Untaken-Alive :
      (calls : List SledCall) (s : State Config Db)
      → Untaken p calls
      → Alive p s
      → Ends (Alive p) (perform_all store calls s)
  Untaken-Alive [] s n h = h
  Untaken-Alive (call ∷ calls) s n h =
      Ends-after (Alive p) (Alive p) (perform store call s) (λ _. perform_all store calls)
        ((Holds-perform call n.0).goes s h) (λ _ t h'. Untaken-Alive calls t n.1 h')
