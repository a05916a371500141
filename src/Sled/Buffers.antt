-- ===== src/Sled/Buffers.antt =====
-- What a client does with a buffer that lib/rust/sled/src/lib.rs leaked to it: read it, and give it
-- back.
use llgoexamples.Base.{
  ℕ, suc, ◌≡◌, refl, false, List, [], ◌∷◌, Bytes, ◌==◌, if◌then◌else◌, arith, length,
}
use llgoexamples.Sled.Memory.{
  Object, buffer, State, Op, returned, ◌>>=◌, ◌>>◌, done, leak_buf, sled_free_buf, dangling,
}
use llgoexamples.Sled.Go.{Value, value_free, contents}

-- The bytes of a value, which is given back if it has any.
abbrev pub take_out : {Config Db : Type 0} → Value → Op (State Config Db) Bytes
take_out v = do bytes ← contents v; if v.size == 0 then done tt else value_free v; done bytes

-- Where a leaked buffer lies, and how many addresses are used then, if `n` are before.
abbrev pub address : Bytes → ℕ → ℕ
address [] n = dangling
address (b ∷ bs) n = suc n

abbrev pub grown : Bytes → ℕ → ℕ
grown [] n = n
grown (b ∷ bs) n = suc n

module _ {Config Db : Type 0} where
  -- A buffer at the front of the heap is read and given back.
  pub take_buffer :
      (q : ℕ) (b : ℕ) (bs : Bytes) (next : ℕ) (heap : List (ℕ × Object Config Db))
      → q == 0 ≡ false
      → take_out
          (record { at = q; size = suc (length bs) })
          (record { heap = (q, buffer (b ∷ bs)) ∷ heap; next = next })
        ≡ returned (b ∷ bs, record { heap = heap; next = next })
  unfolding contents value_free sled_free_buf
  take_buffer q b bs next heap real = ground (arith, real)

  -- The heap with a buffer that was leaked after `n` addresses were used, if it takes one.
  abbrev pub pushed : Bytes → ℕ → List (ℕ × Object Config Db) → List (ℕ × Object Config Db)
  pushed [] n heap = heap
  pushed (b ∷ bs) n heap = (suc n, buffer (b ∷ bs)) ∷ heap

  pub leak_buf-pushed :
      (bs : Bytes) (heap : List (ℕ × Object Config Db)) (n : ℕ)
      → leak_buf bs (record { heap = heap; next = n })
        ≡ returned
            ((address bs n, length bs), record { heap = pushed bs n heap; next = grown bs n })
  unfolding leak_buf
  leak_buf-pushed [] heap n = refl
  leak_buf-pushed (b ∷ bs) heap n = refl

  pub take_out-pushed :
      (bs : Bytes) (heap : List (ℕ × Object Config Db)) (n m : ℕ)
      → take_out
          (record { at = address bs n; size = length bs })
          (record { heap = pushed bs n heap; next = m })
        ≡ returned (bs, record { heap = heap; next = m })
  unfolding contents
  take_out-pushed [] heap n m = refl
  take_out-pushed (b ∷ bs) heap n m = take_buffer (suc n) b bs m heap (ground arith)
