-- ===== src/Sled/Examples.antt =====
-- Runs of the sled interface over a store that is a map.
use llgoexamples.Base.{
  ◌≢◌, ℕ, ◌≡◌, refl, false, Option, none, some, List, [], ◌∷◌, Bytes, if◌then◌else◌, arith,
}
use llgoexamples.Sled.Crate.{
  Store, StoreLaws, CasResult, swapped, differs, pair_read, update, value_eq,
}
use llgoexamples.Sled.Memory.{State, config, database, returned, undefined, strdup, unbox_config}
use llgoexamples.Sled.{sled_open_db, sled_get}
use llgoexamples.Sled.Forms.{slices, strings, cas_as}
use llgoexamples.Sled.Session.{Request, set, del, get, cas, session, empty, holding, answers_of}
use llgoexamples.Sled.Refines.{session-answers}
use llgoexamples.Sled.Scan.{scan, scan-Listed, Listed, pairs_of}
use llgoexamples.Sled.Calls.{SledCall, get_key, open_db, copy, perform_all}
use llgoexamples.Sled.Leads.{Ends}
use llgoexamples.Sled.Held.{Alive, Untaken-Alive}
use llgoexamples.Sled.Roundtrip.{set_then_get, set_then_get-returned}
use llgoexamples.Sled.Bare.{cas_as-Compared}

abbrev Map : Type 0
Map = Bytes → Option Bytes

abbrev nothing_stored : Map
nothing_stored k = none

abbrev map_cas : Map → Bytes → Option Bytes → Option Bytes → CasResult Map
map_cas m k old new = if value_eq (m k) old then swapped (update m k new) else differs (m k)

-- A configuration is the path. Each scan finds two pairs, the second with no value's bytes.
abbrev map_store : Store
map_store = record {
  Config = Bytes;
  Db = Map;
  new_config = [];
  path = λ c file. file;
  cache_capacity = λ c n. c;
  use_compression = λ c b. c;
  flush_every_ms = λ c n. c;
  open_db = λ c. some nothing_stored;
  insert = λ m k v. some (update m k (some v));
  get = λ m k. some (m k);
  remove = λ m k. some (update m k none);
  compare_and_swap = map_cas;
  scan_prefix = λ m k. pair_read (1 ∷ 2 ∷ []) (3 ∷ []) ∷ pair_read (1 ∷ 4 ∷ []) [] ∷ [];
}

abbrev map_store_laws : StoreLaws map_store
map_store_laws = record {
  view = λ m. m;
  get_view = λ m k. refl;
  insert_view = λ m k v. (update m k (some v), refl, refl);
  remove_view = λ m k. (update m k none, refl, refl);
  swap_view = λ m k old new e. (update m k new, rw e refl, refl);
  differ_view = λ m k old new e. rw e refl;
}

cons_ne_nil : {b : ℕ} {bs : Bytes} → b ∷ bs ≢ []
cons_ne_nil e = cc

abbrev requests : List Request
requests =
    set slices (1 ∷ []) (7 ∷ 8 ∷ [])
    ∷ get strings (1 ∷ [])
    ∷ cas strings (1 ∷ []) (7 ∷ []) (9 ∷ [])
    ∷ cas slices (1 ∷ []) (7 ∷ 8 ∷ []) []
    ∷ get strings (1 ∷ [])
    ∷ del strings (1 ∷ [])
    ∷ []

session-answers_example :
    (next : ℕ) × (session map_store requests empty
      ≡ returned (answers_of nothing_stored requests, record { heap = []; next = next }))
session-answers_example =
    session-answers map_store map_store_laws requests nothing_stored
      ((tt, tt), (cons_ne_nil, (cons_ne_nil, (tt, (cons_ne_nil, (cons_ne_nil, tt)))))) refl

scan-Listed_example :
    Listed
      (pairs_of (map_store.scan_prefix nothing_stored (1 ∷ [])))
      ((4, database nothing_stored) ∷ [])
      (scan map_store 3 4 (1 ∷ []) (holding 4 nothing_stored 4))
scan-Listed_example = scan-Listed map_store 3 4 4 nothing_stored (1 ∷ []) (omega arith)

cas_as-Compared_example :
    cas_as map_store strings 4
      (1 ∷ [])
      (7 ∷ [])
      (9 ∷ [])
      false
      (holding 4 (update nothing_stored (1 ∷ []) (some (8 ∷ []))) 4)
    ≡ undefined
cas_as-Compared_example =
    cas_as-Compared map_store map_store_laws 4 strings
      (update nothing_stored (1 ∷ []) (some (8 ∷ []))) 4 (1 ∷ []) (7 ∷ []) (9 ∷ []) cons_ne_nil

-- A heap on which a configuration lies over the database.
abbrev busy : State Bytes Map
busy = record { heap = (5, config (7 ∷ [])) ∷ (4, database nothing_stored) ∷ []; next = 5 }

set_then_get-returned_example :
    (m : Map) × (next : ℕ) × (set_then_get map_store slices strings 4 (1 ∷ []) (7 ∷ 8 ∷ []) busy
      ≡ returned
          (7 ∷ 8 ∷ [], record { heap = (5, config (7 ∷ [])) ∷ (4, database m) ∷ []; next = next }))
    × (map_store_laws.view m ≡ update nothing_stored (1 ∷ []) (some (7 ∷ 8 ∷ [])))
set_then_get-returned_example =
    set_then_get-returned map_store map_store_laws 4 slices strings busy nothing_stored (1 ∷ [])
      (7 ∷ 8 ∷ []) tt tt cons_ne_nil refl

abbrev using_both : List SledCall
using_both = copy (some (5 ∷ [])) ∷ open_db 5 ∷ get_key 4 (1 ∷ []) 0 ∷ []

Untaken-Alive_example : Ends (Alive 4) (perform_all map_store using_both busy)
Untaken-Alive_example =
    Untaken-Alive map_store 4 using_both busy (tt, ((omega arith, tt), (tt, tt)))
      (omega arith, database nothing_stored, refl)

-- These calls return.
both-return : (s : State Bytes Map) × (perform_all map_store using_both busy ≡ returned (tt, s))
unfolding strdup sled_open_db sled_get unbox_config
both-return = (_, refl)
