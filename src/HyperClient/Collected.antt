-- ===== src/HyperClient/Collected.antt =====
-- What `AppendToResponseBody` of rust/hyper/_demo/hyper_client/hyper.go makes of the response: its
-- body is one block with the bytes of all chunks so far.
use llgoexamples.Base.{
  ℕ, ◌+◌, ◌<◌, ◌^◌, ◌≡◌, ◌≢◌, ◌⊎◌, refl, false, [], ◌∷◌, ◌++◌, Bytes, length, null, ◌==◌, inl, inr,
  Bool-cases, arith, ==-refl,
}
use llgoexamples.Hyper.{iter_continue, iter_break}
use llgoexamples.Hyper.Calls.{Call, Log}
use llgoexamples.World.{World}
use llgoexamples.HyperClient.State.{State, returned}
use llgoexamples.HyperClient.Memory.{cells}
use llgoexamples.HyperClient.Body.{append_to_response_body}
use llgoexamples.HyperClient.Blocks.{
  first_cells-cells, overwrite_start, overwrite_end, wrap-small, length-append,
}

-- The response has no body yet, and nothing is allocated.
pub record IsBlank (s : State) : Type 0 where
  pub no_body : s.response.response_body ≡ null
  pub no_len : s.response.response_body_len ≡ 0
  pub nothing : s.heap ≡ []

-- The only block is the body of the response, and it holds these bytes, all of which have a value.
pub record IsHolding (bs : Bytes) (s : State) : Type 0 where
  pub real : s.response.response_body ≢ null
  pub len : s.response.response_body_len ≡ length bs
  pub only : s.heap ≡ (s.response.response_body, cells bs) ∷ []

abbrev pub IsCollected : Bytes → State → Type 0
IsCollected bs s = (IsBlank s × (bs ≡ [])) ⊎ IsHolding bs s

-- The state after a chunk was appended in a new block.
abbrev pub appended : Bytes → Bytes → ℕ → Log → State → State
appended bs chunk new log s = record {
  world = record s.world { log = log };
  response = record s.response {
    response_body = new;
    response_body_len = length bs + length chunk;
  };
  heap = (new, cells (bs ++ chunk)) ∷ [];
}

module _ (answer : Log → ℕ) (chunk : Bytes) (s : State) where
  abbrev pub fresh_block : ℕ
  fresh_block = answer (Call.lent_buf chunk ∷ s.world.log)

  abbrev pub asked_block : Log
  asked_block = Call.malloc fresh_block ∷ Call.lent_buf chunk ∷ s.world.log

  pub append-IsBlank :
      IsBlank s
      → (fresh_block == null) ≡ false
      → length chunk < 2 ^ 64
      → append_to_response_body answer chunk s
        ≡ (returned iter_continue, appended [] chunk fresh_block asked_block s)
  unfolding append_to_response_body
  append-IsBlank b real small =
      let size : 0 + length chunk ≡ length chunk = omega arith in
      rw (b.no_body, b.no_len, b.nothing)
        (simp (real, ==-refl, size, wrap-small (length chunk) small, overwrite_end [] chunk))

  pub append-IsHolding :
      (bs : Bytes)
      → IsHolding bs s
      → (fresh_block == null) ≡ false
      → fresh_block ≢ s.response.response_body
      → length bs + length chunk < 2 ^ 64
      → append_to_response_body answer chunk s ≡ (
        returned iter_continue,
        appended bs chunk fresh_block (Call.free s.response.response_body ∷ asked_block) s,
      )
  unfolding append_to_response_body
  append-IsHolding bs h real apart small =
      let other : (fresh_block == s.response.response_body) ≡ false = ground arith in
      let old : (s.response.response_body == null) ≡ false = ground (arith, h.real) in
      rw (h.len, h.only)
        (simp (
          real,
          other,
          old,
          ==-refl,
          first_cells-cells,
          overwrite_start,
          overwrite_end,
          wrap-small _ small,
        ))

  -- `malloc` failed.
  append_failed :
      fresh_block ≡ null
      → append_to_response_body answer chunk s ≡ (
        returned iter_break,
        record s {
          world = record s.world {
            log = Call.eprintf "Failed to allocate memory for response body\n" ∷ asked_block;
          };
        },
      )
  unfolding append_to_response_body
  append_failed gone = rw gone refl

  elsewhere : {bs : Bytes} (w : World) → IsCollected bs s → IsCollected bs (record s { world = w })
  elsewhere w (inl (b, none_yet)) =
      inl (record { no_body = b.no_body; no_len = b.no_len; nothing = b.nothing }, none_yet)
  elsewhere w (inr h) = inr (record { real = h.real; len = h.len; only = h.only })

  -- A chunk is appended to what was collected, within the blocks, and the old block is freed; or
  -- malloc fails, the callback returns HYPER_ITER_BREAK, and all stays as it was. The new block must
  -- not be the old one, and the bytes must be fewer than 2 ^ 64.
  pub append-IsCollected :
      (bs : Bytes)
      → (s.response.response_body ≢ null → fresh_block ≢ s.response.response_body)
      → length bs + length chunk < 2 ^ 64
      → IsCollected bs s
      → let after = append_to_response_body answer chunk s in
        ((fresh_block ≡ null) × (after.0 ≡ returned iter_break) × IsCollected bs after.1)
        ⊎ ((fresh_block ≢ null)
            × (after.0 ≡ returned iter_continue)
            × IsHolding (bs ++ chunk) after.1)
  append-IsCollected bs apart small collected = elim (Bool-cases (fresh_block == null)) [
    | inl gone ↦
        let e : fresh_block ≡ null = ground arith in
        inl (e, rw (append_failed e) refl, rw (append_failed e) (elsewhere _ collected))
    | inr real ↦
        let (continues, holds) = stored real collected in
        inr (ground (arith, real), continues, holds)
  ]
    where
      stored :
          (fresh_block == null) ≡ false
          → IsCollected bs s
          → let after = append_to_response_body answer chunk s in
            (after.0 ≡ returned iter_continue) × IsHolding (bs ++ chunk) after.1
      stored real (inl (b, none_yet)) =
          let room : length chunk < 2 ^ 64 = omega arith in
          rw (append-IsBlank b real room, none_yet)
            (refl, record { real = ground (arith, real); len = omega arith; only = refl })
      stored real (inr h) = rw (append-IsHolding bs h real (apart h.real) small) (
        refl,
        record {
          real = ground (arith, real);
          len = omega (arith, length-append bs chunk);
          only = refl;
        },
      )
