-- ===== src/Sled/Scan.antt =====
-- Reading all pairs under a prefix through the C interface of lib/rust/sled/src/lib.rs.
use llgoexamples.Base.{
  ℕ, zero, suc, ◌≡◌, ◌<◌, refl, sym, ◌∙◌, ap, Option, none, some, List, [], ◌∷◌, Bytes, length,
  ==-refl, arith,
}
use mathlib.Core.Option
use mathlib.Core.Path.{subst}
use llgoexamples.Sled.Crate.{Store, ScanResult, pair_read, scan_error}
use llgoexamples.Sled.Memory.{
  Object, iterator, database, State, Run, returned, panicked, Op, after, ◌>>=◌, ◌>>◌, done,
  leak_buf, sled_free_iter,
}
use llgoexamples.Sled.{sled_iter_next, sled_scan_prefix}
use llgoexamples.Sled.Buffers.{take_out, address, pushed, grown, take_out-pushed}
use llgoexamples.Sled.Session.{holding}

abbrev pub Pairs : Type 0
Pairs = List (Bytes × Bytes)

module _ {Config Db : Type 0} where
  abbrev take_pair : (ℕ × ℕ) × (ℕ × ℕ) → Op (State Config Db) (Bytes × Bytes)
  take_pair ((key, keylen), (val, vallen)) = do
    v ← take_out (record { at = val; size = vallen })
    k ← take_out (record { at = key; size = keylen })
    done (k, v)

  abbrev take_rest :
      Op (State Config Db) (Option Pairs)
      → Option ((ℕ × ℕ) × (ℕ × ℕ))
      → Op (State Config Db) (Option Pairs)
  take_rest rest none = done (some [])
  take_rest rest (some pair) = do p ← take_pair pair; ps ← rest; done (Option.map (λ l. p ∷ l) ps)

  -- `none` if the fuel is used up.
  abbrev pub read_all : ℕ → ℕ → Op (State Config Db) (Option Pairs)
  read_all zero iter = done none
  read_all (suc fuel) iter = do pair ← sled_iter_next iter; take_rest (read_all fuel iter) pair

module _ (store : Store) where
  open store use {Config, Db}

  unfoldable pub scan : ℕ → ℕ → Bytes → Op (State Config Db) (Option Pairs)
  unfolding sled_scan_prefix sled_iter_next sled_free_iter
  scan fuel db key = do
    iter ← sled_scan_prefix store db key
    pairs ← read_all fuel iter
    sled_free_iter iter
    done pairs

-- The pairs, unless an error comes among them.
abbrev pub pairs_of : List ScanResult → Option Pairs
pairs_of [] = some []
pairs_of (pair_read k v ∷ results) = Option.map (λ l. (k, v) ∷ l) (pairs_of results)
pairs_of (scan_error ∷ results) = none

module _ {Config Db : Type 0} where
  -- What reading all leaves, if the results hold these pairs: an error panics.
  abbrev pub Listed :
      Option Pairs → List (ℕ × Object Config Db) → Run (Option Pairs × State Config Db) → Type 0
  Listed none heap result = result ≡ panicked
  Listed (some pairs) heap result =
      (next : ℕ) × (result ≡ returned (some pairs, record { heap = heap; next = next }))

  Listed-more :
      (k v : Bytes) (pairs : Option Pairs) (heap : List (ℕ × Object Config Db))
      (r : Run (Option Pairs × State Config Db))
      → Listed pairs heap r
      → Listed
          (Option.map (λ l. (k, v) ∷ l) pairs)
          heap
          (after r (λ ps. done (Option.map (λ l. (k, v) ∷ l) ps)))
  Listed-more k v none heap r stopped =
      ap (λ r'. after r' (λ ps. done (Option.map (λ l. (k, v) ∷ l) ps))) stopped
  Listed-more k v (some pairs) heap r (next, listed) =
      (next, ap (λ r'. after r' (λ ps. done (Option.map (λ l. (k, v) ∷ l) ps))) listed)

module _ {Config Db : Type 0} (i : ℕ) where
  abbrev iterating : List ScanResult → List (ℕ × Object Config Db) → ℕ → State Config Db
  iterating results heap n = record { heap = (i, iterator results) ∷ heap; next = n }

  iter_next-pair :
      (k v : Bytes) (results : List ScanResult) (heap : List (ℕ × Object Config Db)) (n : ℕ)
      → sled_iter_next i (iterating (pair_read k v ∷ results) heap n)
        ≡ returned (
          some ((address k n, length k), (address v (grown k n), length v)),
          record {
            heap = pushed v (grown k n) (pushed k n ((i, iterator results) ∷ heap));
            next = grown v (grown k n);
          },
        )
  unfolding sled_iter_next leak_buf
  iter_next-pair [] [] results heap n = rw (==-refl i) ground (arith, ==-refl i)
  iter_next-pair [] (y ∷ v) results heap n = ground (arith, ==-refl i)
  iter_next-pair (x ∷ k) [] results heap n = ground (arith, ==-refl i)
  iter_next-pair (x ∷ k) (y ∷ v) results heap n = ground (arith, ==-refl i)

  iter_next-end :
      (heap : List (ℕ × Object Config Db)) (n : ℕ)
      → sled_iter_next i (iterating [] heap n) ≡ returned (none, iterating [] heap n)
  unfolding sled_iter_next
  iter_next-end heap n = rw (==-refl i) refl

  iter_next-error :
      (results : List ScanResult) (heap : List (ℕ × Object Config Db)) (n : ℕ)
      → sled_iter_next i (iterating (scan_error ∷ results) heap n) ≡ panicked
  unfolding sled_iter_next
  iter_next-error results heap n = rw (==-refl i) refl

  take_pair-pushed :
      (k v : Bytes) (heap : List (ℕ × Object Config Db)) (n m : ℕ)
      → take_pair
          ((address k n, length k), (address v (grown k n), length v))
          (record { heap = pushed v (grown k n) (pushed k n heap); next = m })
        ≡ returned ((k, v), record { heap = heap; next = m })
  take_pair-pushed k v heap n m =
      ap
        (λ r. after r (λ taken. do
          k' ← take_out (record { at = address k n; size = length k })
          done (k', taken)))
        (take_out-pushed v (pushed k n heap) (grown k n) m)
      ∙ ap (λ r. after r (λ k'. done (k', v))) (take_out-pushed k heap n m)

  read_all-Listed :
      (results : List ScanResult) (fuel n : ℕ) (heap : List (ℕ × Object Config Db))
      → length results < fuel
      → Listed
          (pairs_of results)
          ((i, iterator []) ∷ heap)
          (read_all fuel i (iterating results heap n))
  read_all-Listed results zero n heap enough = absurd (omega arith)
  read_all-Listed [] (suc fuel) n heap enough =
      (n, ap (λ r. after r (take_rest (read_all fuel i))) (iter_next-end heap n))
  read_all-Listed (pair_read k v ∷ results) (suc fuel) n heap enough =
      let m = grown v (grown k n) in
      let read : read_all (suc fuel) i (iterating (pair_read k v ∷ results) heap n)
          ≡ after (read_all fuel i (iterating results heap m))
              (λ ps. done (Option.map (λ l. (k, v) ∷ l) ps)) =
        ap (λ r. after r (take_rest (read_all fuel i))) (iter_next-pair k v results heap n)
        ∙ ap (λ r. after r (λ p. do ps ← read_all fuel i; done (Option.map (λ l. p ∷ l) ps)))
            (take_pair-pushed k v ((i, iterator results) ∷ heap) n m) in
      subst (Listed (pairs_of (pair_read k v ∷ results)) ((i, iterator []) ∷ heap)) (sym read) (
        Listed-more k v (pairs_of results) ((i, iterator []) ∷ heap) _
          (read_all-Listed results fuel m heap (omega arith)))
  read_all-Listed (scan_error ∷ results) (suc fuel) n heap enough =
      ap (λ r. after r (take_rest (read_all fuel i))) (iter_next-error results heap n)

module _ (store : Store) where
  open store use {Config, Db}

  -- With more steps than the prefix has results: the scan gives the pairs under the prefix, in the
  -- order of the store, and leaves only the database on the heap; or it panics, if the store
  -- reports an error among them.
  pub scan-Listed :
      (fuel p n : ℕ) (d : Db) (key : Bytes)
      → length (store.scan_prefix d key) < fuel
      → Listed
          (pairs_of (store.scan_prefix d key))
          ((p, database d) ∷ [])
          (scan store fuel p key (holding p d n))
  unfolding scan sled_scan_prefix sled_free_iter
  scan-Listed fuel p n d key enough = rw (==-refl p) (
      freed (pairs_of (store.scan_prefix d key)) _ (
        read_all-Listed (suc n) (store.scan_prefix d key) fuel (suc n) ((p, database d) ∷ [])
          enough))
    where
      freed :
          (pairs : Option Pairs) (r : Run (Option Pairs × State Config Db))
          → Listed pairs ((suc n, iterator []) ∷ (p, database d) ∷ []) r
          → Listed pairs ((p, database d) ∷ []) (after r (λ ps. do sled_free_iter (suc n); done ps))
      freed none r stopped = ap (λ r'. after r' (λ ps. do sled_free_iter (suc n); done ps)) stopped
      freed (some pairs) r (next, listed) = (
        next,
        ap (λ r'. after r' (λ ps. do sled_free_iter (suc n); done ps)) listed ∙ ground arith,
      )
