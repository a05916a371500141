-- ===== src/Sled/Bare.antt =====
-- CASBytes and CASString of rust/sled/sled.go for a caller that passes no `actual`.
use llgoexamples.Base.{
  ℕ, ◌≡◌, refl, ◌∙◌, ap, Bool, Bool-cases, inl, inr, true, false, Option, none, some, [], ◌∷◌,
  Bytes, ◌==◌, ==-refl,
}
use llgoexamples.Sled.Crate.{Store, StoreLaws, CasResult, swapped, differs, update, value_eq}
use llgoexamples.Sled.Memory.{State, Run, returned, undefined, Op, ◌>>=◌, done, leak_buf}
use llgoexamples.Sled.{sled_compare_and_swap, compared, nonempty}
use llgoexamples.Sled.Go.{Value, actual_value}
use llgoexamples.Sled.Forms.{IsPassed, Form, cas_as, cas_as-sled_compare_and_swap}
use llgoexamples.Sled.Session.{holding}

module _ (store : Store) (laws : StoreLaws store) (p : ℕ) where
  open store use {Config, Db}

  -- What the call does, by whether the value is the old one, and by the value.
  abbrev pub Compared :
      Db
      → Bytes
      → Bytes
      → ℕ
      → Bool
      → Option Bytes
      → Run ((Bool × Option Value) × State Config Db)
      → Type 0
  Compared d key new_val next true current result =
      (d' : Db) × (result ≡ returned ((true, none), holding p d' next))
      × (laws.view d' ≡ update (laws.view d) key (nonempty new_val))
  Compared d key new_val next false none result =
      result ≡ returned ((false, none), holding p d next)
  Compared d key new_val next false (some v) result = result ≡ undefined

  abbrev outcome : CasResult Db → Op (State Config Db) (Bool × Option Value)
  outcome r = do ret ← compared p none 0 r; done (ret.0 == 1, actual_value store ret.1 ret.2)

  cas_as-outcome :
      (form : Form) (d : Db) (next : ℕ) (key old_val new_val : Bytes)
      → IsPassed form key
      → cas_as store form p key old_val new_val false (holding p d next)
        ≡ outcome
            (store.compare_and_swap d key (nonempty old_val) (nonempty new_val))
            (holding p d next)
  unfolding sled_compare_and_swap leak_buf
  cas_as-outcome form d next key old_val new_val passed =
      rw (cas_as-sled_compare_and_swap store form p key old_val new_val false passed, ==-refl p)
        refl

  outcome-swapped :
      (d d' : Db) (next : ℕ)
      → outcome (swapped d') (holding p d next) ≡ returned ((true, none), holding p d' next)
  outcome-swapped d d' next = rw (==-refl p) refl

  outcome-differs :
      (d : Db) (next : ℕ) (key new_val : Bytes) (v : Option Bytes)
      → Compared d key new_val next false v (outcome (differs v) (holding p d next))
  unfolding leak_buf
  outcome-differs d next key new_val none = refl
  outcome-differs d next key new_val (some []) = refl
  outcome-differs d next key new_val (some (b ∷ bs)) = refl

  -- If the store keeps its laws, and the key is a slice that is not nil or a string that is not
  -- empty: without an `actual`, either call swaps and returns true where the
  -- value is the old one; it returns false and changes nothing where there is no value and one was
  -- expected; and it is undefined where there is another value.
  pub cas_as-Compared :
      (form : Form) (d : Db) (next : ℕ) (key old_val new_val : Bytes)
      → IsPassed form key
      → Compared d key new_val next
          (value_eq (laws.view d key) (nonempty old_val))
          (laws.view d key)
          (cas_as store form p key old_val new_val false (holding p d next))
  cas_as-Compared form d next key old_val new_val passed =
      elim (Bool-cases (value_eq (laws.view d key) (nonempty old_val))) [
        | inl same ↦
            let (d', e, view) = laws.swap_view d key (nonempty old_val) (nonempty new_val) same in
            rw same (
              d',
              cas_as-outcome form d next key old_val new_val passed
                  ∙ ap (λ r. outcome r (holding p d next)) e
                  ∙ outcome-swapped d d' next,
              view,
            )
        | inr other ↦
            let e = laws.differ_view d key (nonempty old_val) (nonempty new_val) other in
            rw (other, cas_as-outcome form d next key old_val new_val passed, e)
              (outcome-differs d next key new_val (laws.view d key))
      ]
