-- ===== src/Sled/Roundtrip.antt =====
-- What is set through rust/sled/sled.go is what is got, whatever else lies on the heap.
use llgoexamples.Base.{
  ℕ, ◌≡◌, refl, ◌∙◌, ap, true, some, List, [], ◌∷◌, Bytes, ==-refl, length, if◌then◌else◌,
}
use llgoexamples.Boxes.{find, replace, find-replace}
use llgoexamples.Sled.Crate.{Store, StoreLaws, bytes_eq, update}
use llgoexamples.Sled.Memory.{Object, database, State, returned, Op, after, ◌>>=◌, ◌>>◌, done}
use llgoexamples.Sled.{sled_set, sled_get}
use llgoexamples.Sled.Forms.{IsPassed, Form, set_as, get_as, set_as-sled_set, get_as-sled_get}
use llgoexamples.Sled.Buffers.{take_out, address, pushed, grown, leak_buf-pushed, take_out-pushed}

bytes_eq_refl : (bs : Bytes) → bytes_eq bs bs ≡ true
bytes_eq_refl [] = refl
bytes_eq_refl (b ∷ bs) = rw (==-refl b) (bytes_eq_refl bs)

module _ (store : Store) where
  open store use {Config, Db}

  abbrev pub set_then_get : Form → Form → ℕ → Bytes → Bytes → Op (State Config Db) Bytes
  set_then_get f g db key val = do set_as store f db key val; v ← get_as store g db key; take_out v

module _ (store : Store) (laws : StoreLaws store) (p : ℕ) where
  open store use {Config, Db}

  set_as-replace :
      (f : Form) (s : State Config Db) (d d' : Db) (key val : Bytes)
      → IsPassed f key
      → IsPassed f val
      → find p s.heap ≡ some (database d)
      → store.insert d key val ≡ some d'
      → set_as store f p key val s
        ≡ returned (tt, record { heap = replace p (database d') s.heap; next = s.next })
  unfolding sled_set
  set_as-replace f s d d' key val pk pv e inserted =
      rw (set_as-sled_set store f p key val pk pv, e, inserted) refl

  get_as-pushed :
      (g : Form) (heap : List (ℕ × Object Config Db)) (next : ℕ) (d : Db) (key val : Bytes)
      → IsPassed g key
      → find p heap ≡ some (database d)
      → store.get d key ≡ some (some val)
      → get_as store g p key (record { heap = heap; next = next })
        ≡ returned (
          record { at = address val next; size = length val },
          record { heap = pushed val next heap; next = grown val next },
        )
  unfolding sled_get
  get_as-pushed g heap next d key val pk e found =
      rw (get_as-sled_get store g p key pk, e, found)
        (ap (λ r. after r (λ w. done (record { at = w.0; size = w.1 })))
          (leak_buf-pushed val heap next))

  -- If the store keeps its laws, an open database is at the address, no slice is nil and no string is
  -- empty, on any heap: setting a key and getting it, each by slices or by strings, gives the value,
  -- which may be an empty slice, and once the value is given back the heap is as before but for the
  -- database, in which only the key has changed.
  pub set_then_get-returned :
      (f g : Form) (s : State Config Db) (d : Db) (key val : Bytes)
      → IsPassed f key
      → IsPassed f val
      → IsPassed g key
      → find p s.heap ≡ some (database d)
      → (d' : Db) × (next : ℕ) × (set_then_get store f g p key val s
          ≡ returned (val, record { heap = replace p (database d') s.heap; next = next }))
        × (laws.view d' ≡ update (laws.view d) key (some val))
  set_then_get-returned f g s d key val pk pv gk e =
      let (d', inserted, view) = laws.insert_view d key val in
      let heap = replace p (database d') s.heap in
      let found : store.get d' key ≡ some (some val) =
        laws.get_view d' key
        ∙ ap (λ m. some (m key)) view
        ∙ ap (λ b. some (if b then some val else laws.view d key)) (bytes_eq_refl key) in
      (
        d',
        grown val s.next,
        ap (λ r. after r (λ _. do v ← get_as store g p key; take_out v))
              (set_as-replace f s d d' key val pk pv e inserted)
            ∙ ap (λ r. after r take_out)
                (get_as-pushed g heap s.next d' key val gk
                  (find-replace p (database d) (database d') s.heap e) found)
            ∙ take_out-pushed val heap s.next (grown val s.next),
        view,
      )
