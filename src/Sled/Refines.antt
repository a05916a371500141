-- ===== src/Sled/Refines.antt =====
-- A session with the database through its C interface gives the answers of a map.
use llgoexamples.Base.{
  ℕ, suc, ◌≡◌, refl, ◌∙◌, ap, Bool, true, false, Option, none, some, List, [], ◌∷◌, Bytes, ◌==◌,
  ==-refl, arith, inl, inr, Bool-cases,
}
use llgoexamples.Sled.Crate.{Store, StoreLaws, update, value_eq, CasResult, swapped, differs}
use llgoexamples.Sled.Memory.{
  State, Run, returned, after, Op, sled_close, unbox_config, ◌>>=◌, ◌>>◌, done, leak_buf,
}
use llgoexamples.Sled.{
  sled_create_config, sled_open_db, sled_set, sled_get, sled_del, sled_compare_and_swap, got_value,
  nonempty, compared,
}
use llgoexamples.Sled.Go.{Value, value_free, contents, actual_value}
use llgoexamples.Sled.Forms.{
  IsPassed, Form, set_as-sled_set, get_as-sled_get, del_as-sled_del, cas_as-sled_compare_and_swap,
}
use llgoexamples.Sled.Buffers.{take_out, take_buffer}
use llgoexamples.Sled.Session.{
  IsServable, AllServable, Request, set, del, get, cas, Answer, nothing, got, compared_to,
  take_actual, serve, serve_all, or_empty, answer_of, map_after, answers_of, map_after_all, holding,
  session, empty,
}

-- The last address handed out, once a value has been read.
abbrev next_after : Option Bytes → ℕ → ℕ
next_after (some (b ∷ bs)) next = suc next
next_after _ next = next

module _ {Config Db : Type 0} where
  -- What is done with the outcome of a lookup.
  abbrev answer_got : Run ((ℕ × ℕ) × State Config Db) → Run (Answer × State Config Db)
  answer_got r =
      after (after r (λ val. done (record { at = val.0; size = val.1 })))
        (λ v. do bytes ← take_out v; done (got bytes))

  answer_got-got_value :
      (p : ℕ) (v : Option Bytes) (d : Db) (next : ℕ)
      → answer_got (got_value 0 v (holding p d next))
        ≡ returned (got (or_empty v), holding p d (next_after v next))
  unfolding leak_buf contents
  answer_got-got_value p none d next = refl
  answer_got-got_value p (some []) d next = refl
  answer_got-got_value p (some (b ∷ bs)) d next =
      ap (λ r. after r (λ bytes. done (got bytes)))
        (take_buffer (suc next) b bs (suc next) _ (ground arith))

module _ (store : Store) (laws : StoreLaws store) (p : ℕ) where
  open store use {Config, Db}

  sled_set-view :
      (d : Db) (next : ℕ) (k v : Bytes)
      → (d' : Db) × (sled_set store p k v (holding p d next) ≡ returned (tt, holding p d' next))
        × (laws.view d' ≡ update (laws.view d) k (some v))
  unfolding sled_set
  sled_set-view d next k v =
      let (d', e, after_) = laws.insert_view d k v in
      (d', rw (==-refl p, e, ==-refl p) refl, after_)

  sled_del-view :
      (d : Db) (next : ℕ) (k : Bytes)
      → (d' : Db) × (sled_del store p k (holding p d next) ≡ returned (tt, holding p d' next))
        × (laws.view d' ≡ update (laws.view d) k none)
  unfolding sled_del
  sled_del-view d next k =
      let (d', e, after_) = laws.remove_view d k in (d', rw (==-refl p, e, ==-refl p) refl, after_)

  sled_get-view :
      (d : Db) (next : ℕ) (k : Bytes)
      → sled_get store p k 0 (holding p d next) ≡ got_value 0 (laws.view d k) (holding p d next)
  unfolding sled_get leak_buf
  sled_get-view d next k = rw (==-refl p, laws.get_view d k) refl

  -- A request is served as the map answers it.
  abbrev Served : Db → Request → Run (Answer × State Config Db) → Type 0
  Served d request result =
      (d' : Db) × (next : ℕ) × (result
        ≡ returned (answer_of (laws.view d) request, holding p d' next))
      × (laws.view d' ≡ map_after (laws.view d) request)

  -- What is done with the outcome of a comparison.
  abbrev answer_cas : CasResult Db → Op (State Config Db) Answer
  answer_cas result =
      let cas_result : Op (State Config Db) (Bool × Option Value) = do
        ret ← compared p (some 0) 0 result
        done (ret.0 == 1, actual_value store ret.1 ret.2)
      in do r ← cas_result; bytes ← take_actual r.1; done (compared_to r.0 bytes)

  cas-answer_cas :
      (form : Form) (d : Db) (next : ℕ) (k old new : Bytes)
      → IsPassed form k
      → serve store p (cas form k old new) (holding p d next)
        ≡ answer_cas (store.compare_and_swap d k (nonempty old) (nonempty new)) (holding p d next)
  unfolding sled_compare_and_swap leak_buf contents value_free
  cas-answer_cas form d next k old new passed =
      rw (cas_as-sled_compare_and_swap store form p k old new true passed, ==-refl p) refl

  differs-answer_cas :
      (v : Option Bytes) (d : Db) (next : ℕ)
      → answer_cas (differs v) (holding p d next)
        ≡ returned (compared_to false (or_empty v), holding p d (next_after v next))
  unfolding leak_buf contents
  differs-answer_cas none d next = refl
  differs-answer_cas (some []) d next = refl
  differs-answer_cas (some (b ∷ bs)) d next =
      ap (λ r. after r (λ bytes. done (compared_to false bytes)))
        (take_buffer (suc next) b bs (suc next) _ (ground arith))

  swapped-answer_cas :
      (d d' : Db) (next : ℕ)
      → answer_cas (swapped d') (holding p d next)
        ≡ returned (compared_to true [], holding p d' next)
  unfolding contents
  swapped-answer_cas d d' next = rw (==-refl p) refl

  serve-Served :
      (request : Request) (d : Db) (next : ℕ)
      → IsServable request
      → Served d request (serve store p request (holding p d next))
  serve-Served (set form k v) d next (pk, pv) =
      let (d', e, view) = sled_set-view d next k v in
      (
        d',
        next,
        rw (set_as-sled_set store form p k v pk pv) (ap (λ r. after r (λ _. done nothing)) e),
        view,
      )
  serve-Served (del form k) d next passed =
      let (d', e, view) = sled_del-view d next k in
      (
        d',
        next,
        rw (del_as-sled_del store form p k passed) (ap (λ r. after r (λ _. done nothing)) e),
        view,
      )
  serve-Served (get form k) d next passed = (
    d,
    next_after (laws.view d k) next,
    rw (get_as-sled_get store form p k passed)
        (ap answer_got (sled_get-view d next k) ∙ answer_got-got_value p (laws.view d k) d next),
    refl,
  )
  serve-Served (cas form k old new) d next passed =
      elim (Bool-cases (value_eq (laws.view d k) (nonempty old))) [
        | inl same ↦
            let (d', e, view) = laws.swap_view d k (nonempty old) (nonempty new) same in
            rw same (
              d',
              next,
              cas-answer_cas form d next k old new passed
                  ∙ ap (λ r. answer_cas r (holding p d next)) e
                  ∙ swapped-answer_cas d d' next,
              view,
            )
        | inr other ↦ rw other (
          d,
          next_after (laws.view d k) next,
          cas-answer_cas form d next k old new passed
              ∙ ap (λ r. answer_cas r (holding p d next))
                  (laws.differ_view d k (nonempty old) (nonempty new) other)
              ∙ differs-answer_cas (laws.view d k) d next,
          refl,
        )
      ]

  -- All requests are served as the map answers them.
  abbrev AllServed : Db → List Request → Run (List Answer × State Config Db) → Type 0
  AllServed d requests result =
      (d' : Db) × (next : ℕ) × (result
        ≡ returned (answers_of (laws.view d) requests, holding p d' next))
      × (laws.view d' ≡ map_after_all (laws.view d) requests)

  serve_all-AllServed :
      (requests : List Request) (d : Db) (next : ℕ)
      → AllServable requests
      → AllServed d requests (serve_all store p requests (holding p d next))
  serve_all-AllServed [] d next passed = (d, next, refl, refl)
  serve_all-AllServed (request ∷ requests) d next (passed, others) =
      let (d1, next1, answered, view1) = serve-Served request d next passed in
      let (d2, next2, all_answered, view2) = serve_all-AllServed requests d1 next1 others in
      let answer = answer_of (laws.view d) request in
      (
        d2,
        next2,
        ap (λ r. after r (λ a. do answers ← serve_all store p requests; done (a ∷ answers)))
              answered
            ∙ ap (λ r. after r (λ answers. done (answer ∷ answers))) all_answered
            ∙ ap (λ m. returned (answer ∷ answers_of m requests, holding p d2 next2)) view1,
        view2 ∙ ap (λ m. map_after_all m requests) view1,
      )

  sled_close-holding :
      (d : Db) (next : ℕ)
      → sled_close {Config = Config} {Db = Db} p (holding p d next)
        ≡ returned (tt, record { heap = []; next = next })
  unfolding sled_close
  sled_close-holding d next = ground (arith, ==-refl p)

module _ (store : Store) (laws : StoreLaws store) where
  open store use {Config, Db}

  -- If the store keeps its laws, a database can be opened with a new configuration, no slice is nil
  -- and no string that is a key or is set is empty: whatever a session asks for, by slices or by
  -- strings and in any order, it is answered as a map answers it, the one that the database stands
  -- for when it is opened; nothing it does is undefined or panics; and after the end nothing is left
  -- on the heap.
  pub session-answers :
      (requests : List Request) (d : Db)
      → AllServable requests
      → store.open_db store.new_config ≡ some d
      → (next : ℕ) × (session store requests empty
          ≡ returned (answers_of (laws.view d) requests, record { heap = []; next = next }))
  unfolding session sled_create_config sled_open_db unbox_config
  session-answers requests d passed e =
      let (d', next, served, view) = serve_all-AllServed store laws 2 requests d 2 passed in
      (
        next,
        rw e (
            ap (λ r. after r (λ answers. do sled_close 2; done answers)) served
            ∙ ap (λ r. after r (λ _. done (answers_of (laws.view d) requests)))
                (sled_close-holding store laws 2 d' next)),
      )
