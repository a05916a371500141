-- ===== src/Sled/Forms.antt =====
-- The functions of rust/sled/sled.go come in two forms, for byte slices, here not nil, and for strings.
use llgoexamples.Base.{◌≢◌, some, [], ◌∷◌, ℕ, ◌≡◌, refl, Bool, Option, Bytes, ◌==◌}
use llgoexamples.Sled.Crate.{Store}
use llgoexamples.Sled.Memory.{State, Op, ◌>>=◌, done}
use llgoexamples.Sled.{sled_set, sled_get, sled_del, sled_compare_and_swap}
use llgoexamples.Sled.Go.{
  Value, set_bytes, get_bytes, del_bytes, cas_bytes, set_string, get_string, del_string, cas_string,
  actual_pointer, actual_value,
}

pub data Form : Type 0 where
  slices strings : Form

-- Bytes that a valid pointer stands for: a slice that is not nil, or a string that is not empty.
abbrev pub IsPassed : Form → Bytes → Type 0
IsPassed slices bytes = Unit
IsPassed strings bytes = bytes ≢ []

module _ (store : Store) where
  open store use {Config, Db}

  abbrev pub set_as : Form → ℕ → Bytes → Bytes → Op (State Config Db) (Unit {0})
  set_as slices db key val = set_bytes store db (some key) (some val)
  set_as strings db key val = set_string store db key val

  abbrev pub get_as : Form → ℕ → Bytes → Op (State Config Db) Value
  get_as slices db key = get_bytes store db (some key)
  get_as strings db key = get_string store db key

  abbrev pub del_as : Form → ℕ → Bytes → Op (State Config Db) (Unit {0})
  del_as slices db key = del_bytes store db (some key)
  del_as strings db key = del_string store db key

  abbrev pub cas_as :
      Form → ℕ → Bytes → Bytes → Bytes → Bool → Op (State Config Db) (Bool × Option Value)
  cas_as slices db key old new wanted = cas_bytes store db (some key) (some old) (some new) wanted
  cas_as strings db key old new wanted = cas_string store db key old new wanted

  -- Each form makes the one call of the C interface.
  pub set_as-sled_set :
      (f : Form) (db : ℕ) (key val : Bytes)
      → IsPassed f key
      → IsPassed f val
      → set_as f db key val ≡ sled_set store db key val
  unfolding set_bytes set_string
  set_as-sled_set slices db key val k v = refl
  set_as-sled_set strings db [] val k v = absurd (k refl)
  set_as-sled_set strings db (b ∷ key) [] k v = absurd (v refl)
  set_as-sled_set strings db (b ∷ key) (c ∷ val) k v = refl

  pub get_as-sled_get :
      (f : Form) (db : ℕ) (key : Bytes)
      → IsPassed f key
      → get_as f db key
        ≡ (sled_get store db key 0 >>= λ val. done (record { at = val.0; size = val.1 }))
  unfolding get_bytes get_string
  get_as-sled_get slices db key k = refl
  get_as-sled_get strings db [] k = absurd (k refl)
  get_as-sled_get strings db (b ∷ key) k = refl

  pub del_as-sled_del :
      (f : Form) (db : ℕ) (key : Bytes) → IsPassed f key → del_as f db key ≡ sled_del store db key
  unfolding del_bytes del_string
  del_as-sled_del slices db key k = refl
  del_as-sled_del strings db [] k = absurd (k refl)
  del_as-sled_del strings db (b ∷ key) k = refl

  pub cas_as-sled_compare_and_swap :
      (f : Form) (db : ℕ) (key old new : Bytes) (wanted : Bool)
      → IsPassed f key
      → cas_as f db key old new wanted ≡ (
          sled_compare_and_swap store db key old new (actual_pointer store wanted) 0 >>= λ ret.
          done (ret.0 == 1, actual_value store ret.1 ret.2))
  unfolding cas_bytes cas_string
  cas_as-sled_compare_and_swap slices db key old new wanted k = refl
  cas_as-sled_compare_and_swap strings db [] old new wanted k = absurd (k refl)
  cas_as-sled_compare_and_swap strings db (b ∷ key) old new wanted k = refl
