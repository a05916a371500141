-- ===== src/HyperClient/Blocks.antt =====
-- What copying into a fresh block of HyperClient/Memory.antt gives.
use llgoexamples.Base.{
  ℕ, suc, ◌+◌, ◌^◌, ◌<◌, ◌≡◌, refl, ap, none, some, [], ◌∷◌, ◌++◌, Bytes, length, arith,
}
use llgoexamples.HyperClient.State.{Cell}
use llgoexamples.HyperClient.Memory.{wrap, replicate, first_cells, overwrite, cells}

pub first_cells-cells : (bs : Bytes) → first_cells (length bs) (cells bs) ≡ some (cells bs)
first_cells-cells [] = refl
first_cells-cells (b ∷ bs) = rw (first_cells-cells bs)

replicate-suc_add : (n m : ℕ) (c : Cell) → replicate (suc n + m) c ≡ c ∷ replicate (n + m) c
replicate-suc_add n m c =
    let count : suc n + m ≡ suc (n + m) = omega arith in ap (λ k. replicate k c) count

-- The old bytes at the start of a block with room for `m` more.
pub overwrite_start :
    (bs : Bytes) (m : ℕ)
    → overwrite 0 (cells bs) (replicate (length bs + m) none) ≡ some (cells bs ++ replicate m none)
overwrite_start [] m =
    let count : 0 + m ≡ m = omega arith in ap (λ k. some (replicate k none)) count
overwrite_start (b ∷ bs) m = rw (replicate-suc_add (length bs) m none, overwrite_start bs m)

overwrite_all : (cs : Bytes) → overwrite 0 (cells cs) (replicate (length cs) none) ≡ some (cells cs)
overwrite_all [] = refl
overwrite_all (c ∷ cs) = rw (overwrite_all cs)

-- The new bytes after the old ones.
pub overwrite_end :
    (bs cs : Bytes)
    → overwrite (length bs) (cells cs) (cells bs ++ replicate (length cs) none)
      ≡ some (cells (bs ++ cs))
overwrite_end [] cs = overwrite_all cs
overwrite_end (b ∷ bs) cs = rw (overwrite_end bs cs)

pub wrap-small : (n : ℕ) → n < 2 ^ 64 → wrap n ≡ n
wrap-small n small = omega arith

pub length-append : (bs cs : Bytes) → length (bs ++ cs) ≡ length bs + length cs
length-append [] cs = omega arith
length-append (b ∷ bs) cs = omega (arith, length-append bs cs)
