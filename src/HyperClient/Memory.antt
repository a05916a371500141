-- ===== src/HyperClient/Memory.antt =====
-- The blocks that rust/hyper/_demo/hyper_client/hyper.go allocates with malloc: a byte that is read
-- or written outside of its block is undefined, and so is a block that is freed twice.
use llgoexamples.Base.{
  ℕ, zero, suc, ◌%◌, ◌^◌, Bool, true, false, Option, none, some, List, [], ◌∷◌, Bytes, is_null,
}
use llgoexamples.Boxes.{find, remove, replace}
use llgoexamples.Hyper.Calls.{Call, Log}
use llgoexamples.HyperClient.State.{Cell, Go, returned, ◌>>=◌, ◌>>◌, pure, break_rule, call, create}

-- A `uintptr` of 64 bits.
abbrev pub wrap : ℕ → ℕ
wrap n = n % 2 ^ 64

abbrev pub replicate : ℕ → Cell → List Cell
replicate zero c = []
replicate (suc n) c = c ∷ replicate n c

abbrev pub cons : Cell → Option (List Cell) → Option (List Cell)
cons c none = none
cons c (some block) = some (c ∷ block)

-- The first `n` bytes of a block, if it has so many.
abbrev pub first_cells : ℕ → List Cell → Option (List Cell)
first_cells zero block = some []
first_cells (suc n) [] = none
first_cells (suc n) (c ∷ block) = cons c (first_cells n block)

-- A block with some bytes written at an offset, if they lie within it.
abbrev pub overwrite : ℕ → List Cell → List Cell → Option (List Cell)
overwrite zero [] block = some block
overwrite zero (c ∷ cs) [] = none
overwrite zero (c ∷ cs) (b ∷ block) = cons c (overwrite zero cs block)
overwrite (suc n) cs [] = none
overwrite (suc n) cs (b ∷ block) = cons b (overwrite n cs block)

abbrev pub cells : Bytes → List Cell
cells [] = []
cells (b ∷ bs) = some b ∷ cells bs

abbrev pub allocate : Bool → ℕ → ℕ → List (ℕ × List Cell) → List (ℕ × List Cell)
allocate true p size heap = heap
allocate false p size heap = (p, replicate size none) ∷ heap

-- `malloc`, whose bytes have no value yet.
unfoldable pub malloc : (Log → ℕ) → ℕ → Go ℕ
malloc answer size = do
  p ← create answer Call.malloc
  (λ s. (returned p, record s { heap = allocate (is_null p) p size s.heap }))

abbrev pub freed : ℕ → Option (List Cell) → Go (Unit {0})
freed p none = break_rule
freed p (some block) = do
  call (Call.free p)
  (λ s. (returned tt, record s { heap = remove p s.heap }))

unfoldable pub free : ℕ → Go (Unit {0})
free p s = freed p (find p s.heap) s

abbrev pub cells_in : Option (List Cell) → Go (List Cell)
cells_in none = break_rule
cells_in (some cs) = pure cs

-- What `memcpy` reads at `p`.
unfoldable pub load : ℕ → ℕ → Go (List Cell)
load p n = do block ← (λ s. cells_in (find p s.heap) s); cells_in (first_cells n block)

-- What `memcpy` writes at an offset from `p`.
unfoldable pub store : ℕ → ℕ → List Cell → Go (Unit {0})
store p offset cs = do
  block ← (λ s. cells_in (find p s.heap) s)
  new ← cells_in (overwrite offset cs block)
  (λ s. (returned tt, record s { heap = replace p new s.heap }))
