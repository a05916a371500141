-- ===== src/Boxes.antt =====
-- What foreign code holds by raw pointers: objects by the number of their address. Shared by the
-- Rust wrappers of lib/rust.
use llgoexamples.Base.{
  ◌≢◌, ℕ, ◌≡◌, ◌<◌, ◌≤◌, refl, Bool-cases, inl, inr, Option, none, some, List, [], ◌∷◌, ◌==◌,
  if◌then◌else◌, arith,
}

module _ {ℓ} {A : Type ℓ} where
  abbrev pub find : ℕ → List (ℕ × A) → Option A
  find p [] = none
  find p ((q, object) ∷ heap) = if q == p then some object else find p heap

  abbrev pub remove : ℕ → List (ℕ × A) → List (ℕ × A)
  remove p [] = []
  remove p ((q, object) ∷ heap) = if q == p then heap else (q, object) ∷ remove p heap

  abbrev pub replace : ℕ → A → List (ℕ × A) → List (ℕ × A)
  replace p new [] = []
  replace p new ((q, object) ∷ heap) =
      if q == p then (q, new) ∷ heap else (q, object) ∷ replace p new heap

  -- The addresses go down from the front, as they do when each object gets a new one, and all are
  -- below the bound.
  abbrev pub Descending : ℕ → List (ℕ × A) → Type 0
  Descending bound [] = Unit {0}
  Descending bound ((q, object) ∷ heap) = (q < bound) × Descending q heap

  pub Descending-weaken :
      (b c : ℕ) (heap : List (ℕ × A)) → b ≤ c → Descending b heap → Descending c heap
  Descending-weaken b c [] le down = tt
  Descending-weaken b c ((q, object) ∷ heap) le (less, down) = (omega arith, down)

  pub find-Descending :
      (p b : ℕ) (heap : List (ℕ × A)) → b ≤ p → Descending b heap → find p heap ≡ none
  find-Descending p b [] le down = refl
  find-Descending p b ((q, object) ∷ heap) le (less, down) =
      let rest = find-Descending p q heap (omega arith) down in ground (arith, rest)

  pub remove-Descending :
      (p b : ℕ) (heap : List (ℕ × A)) → Descending b heap → Descending b (remove p heap)
  remove-Descending p b [] down = tt
  remove-Descending p b ((q, object) ∷ heap) (less, down) = elim (Bool-cases (q == p)) [
    | inl same ↦ rw same (Descending-weaken q b heap (omega arith) down)
    | inr other ↦ rw other (less, remove-Descending p q heap down)
  ]

  pub replace-Descending :
      (p b : ℕ) (new : A) (heap : List (ℕ × A))
      → Descending b heap
      → Descending b (replace p new heap)
  replace-Descending p b new [] down = tt
  replace-Descending p b new ((q, object) ∷ heap) (less, down) = elim (Bool-cases (q == p)) [
    | inl same ↦ rw same (less, down)
    | inr other ↦ rw other (less, replace-Descending p q new heap down)
  ]

  pub find-remove :
      (p b : ℕ) (heap : List (ℕ × A)) → Descending b heap → find p (remove p heap) ≡ none
  find-remove p b [] down = refl
  find-remove p b ((q, object) ∷ heap) (less, down) = elim (Bool-cases (q == p)) [
    | inl same ↦ rw same (find-Descending p q heap (ground arith) down)
    | inr other ↦ rw (other, other) (find-remove p q heap down)
  ]

  pub find-remove-none :
      (p q : ℕ) (heap : List (ℕ × A)) → find p heap ≡ none → find p (remove q heap) ≡ none
  find-remove-none p q [] gone = refl
  find-remove-none p q ((r, object) ∷ heap) gone =
      let rest = find-remove-none p q heap in ground (arith, rest, gone)

  pub find-replace-none :
      (p q : ℕ) (new : A) (heap : List (ℕ × A))
      → find p heap ≡ none
      → find p (replace q new heap) ≡ none
  find-replace-none p q new [] gone = refl
  find-replace-none p q new ((r, object) ∷ heap) gone =
      let rest = find-replace-none p q new heap in ground (arith, rest, gone)

  pub find-replace :
      (p : ℕ) (old new : A) (heap : List (ℕ × A))
      → find p heap ≡ some old
      → find p (replace p new heap) ≡ some new
  find-replace p old new [] e = cc
  find-replace p old new ((q, object) ∷ heap) e = elim (Bool-cases (q == p)) [
    | inl same ↦ rw (same, same) refl
    | inr other ↦ rw (other, other) (find-replace p old new heap (rw other at e))
  ]

  pub find-remove-other :
      (p q : ℕ) (heap : List (ℕ × A)) → q ≢ p → find p (remove q heap) ≡ find p heap
  find-remove-other p q [] other = refl
  find-remove-other p q ((r, object) ∷ heap) other =
      let rest = find-remove-other p q heap other in ground (arith, rest, other)

  pub find-replace-some :
      (p q : ℕ) (new : A) (old : A) (heap : List (ℕ × A))
      → find p heap ≡ some old
      → (object : A) × (find p (replace q new heap) ≡ some object)
  find-replace-some p q new old [] e = (old, e)
  find-replace-some p q new old ((r, object) ∷ heap) e = elim (Bool-cases (r == q)) [
    | inl changed ↦ elim (Bool-cases (r == p)) [
      | inl here ↦ (new, rw (changed, here) refl)
      | inr there ↦ (old, rw (changed, there) (rw there at e))
    ]
    | inr other ↦ elim (Bool-cases (r == p)) [
      | inl here ↦ (object, rw (other, here) refl)
      | inr there ↦
          let (found, f) = find-replace-some p q new old heap (rw there at e) in
          (found, rw (other, there) f)
    ]
  ]
