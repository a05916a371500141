-- ===== src/Sled/Memory.antt =====
-- The heap of lib/rust/sled/src/lib.rs, the monad of its functions, and those of them that make and
-- free what lies there.
use llgoexamples.Base.{
  ℕ, suc, Option, none, some, List, [], ◌∷◌, Bytes, length, ◌==◌, if◌then◌else◌, is_null,
}
use llgoexamples.Boxes.{find, remove, replace}
use llgoexamples.Sled.Crate.{ScanResult}

pub data Object (Config Db : Type 0) : Type 0 where
  config : Config → Object Config Db
  database : Db → Object Config Db
  iterator : List ScanResult → Object Config Db
  buffer : Bytes → Object Config Db
  -- A C string, by its text, if that is UTF-8: one that `CString::into_raw` gave away, and one that
  -- malloc made room for.
  c_string malloc_string : Option Bytes → Object Config Db

pub record State (Config Db : Type 0) : Type 0 where
  pub heap : List (ℕ × Object Config Db)
  pub next : ℕ

-- What has become of a call: it returned, the Rust code panicked, or the caller broke a rule and
-- nothing is known.
pub data Run (A : Type 0) : Type 0 where
  returned : A → Run A
  panicked undefined : Run A

-- A C integer of 32 bits, by its sign: `negsuc n` is -(n + 1).
pub data CInt : Type 0 where
  pos negsuc : ℕ → CInt

-- The address of a buffer of no bytes: it is not NULL, and nothing is allocated there.
abbrev pub dangling : ℕ
dangling = 1

abbrev pub Op : Type 0 → Type 0 → Type 0
Op S A = S → Run (A × S)

abbrev pub after : {S A B : Type 0} → Run (A × S) → (A → Op S B) → Run (B × S)
after (returned (a, s)) f = f a s
after panicked f = panicked
after undefined f = undefined

infixl 5 ◌>>=◌ ◌>>◌
abbrev pub ◌>>=◌ : {S A B : Type 0} → Op S A → (A → Op S B) → Op S B
◌>>=◌ m f s = after (m s) f

abbrev pub ◌>>◌ : {S B : Type 0} → Op S (Unit {0}) → Op S B → Op S B
m >> k = m >>= λ _. k

module _ {S A : Type 0} where
  abbrev pub done : A → Op S A
  done a s = returned (a, s)

  abbrev pub panic : Op S A
  panic s = panicked

  abbrev pub break_rule : Op S A
  break_rule s = undefined

  -- `Result::unwrap`
  abbrev pub unwrap : Option A → Op S A
  unwrap none = panic
  unwrap (some a) = done a

module _ {Config Db : Type 0} where
  -- `Box::into_raw(Box::new(object))`
  abbrev pub into_raw : Object Config Db → Op (State Config Db) ℕ
  into_raw object s =
      let p = suc s.next in returned (p, record { heap = (p, object) ∷ s.heap; next = p })

  abbrev pub store_at : ℕ → Object Config Db → Op (State Config Db) (Unit {0})
  store_at p object s = returned (tt, record s { heap = replace p object s.heap })

  abbrev pub release : ℕ → Op (State Config Db) (Unit {0})
  release p s = returned (tt, record s { heap = remove p s.heap })

  abbrev pub config_in : Option (Object Config Db) → Op (State Config Db) Config
  config_in (some (config c)) = done c
  config_in _ = break_rule

  abbrev pub database_in : Option (Object Config Db) → Op (State Config Db) Db
  database_in (some (database d)) = done d
  database_in _ = break_rule

  abbrev pub iterator_in : Option (Object Config Db) → Op (State Config Db) (List ScanResult)
  iterator_in (some (iterator l)) = done l
  iterator_in _ = break_rule

  abbrev pub buffer_in : Option (Object Config Db) → Op (State Config Db) Bytes
  buffer_in (some (buffer bs)) = done bs
  buffer_in _ = break_rule

  abbrev pub text_in : Option (Object Config Db) → Op (State Config Db) (Option Bytes)
  text_in (some (c_string text)) = done text
  text_in _ = break_rule

  -- `(*db)`, `(*iter)`
  abbrev pub deref_db : ℕ → Op (State Config Db) Db
  deref_db p s = database_in (find p s.heap) s

  abbrev pub deref_iter : ℕ → Op (State Config Db) (List ScanResult)
  deref_iter p s = iterator_in (find p s.heap) s

  -- `Box::from_raw(config)`: the box is the callee's now.
  unfoldable pub unbox_config : ℕ → Op (State Config Db) Config
  unbox_config p = do c ← (λ s. config_in (find p s.heap) s); release p; done c

  -- `strdup`, whose copy is no string of `CString::into_raw`.
  unfoldable pub strdup : Option Bytes → Op (State Config Db) ℕ
  strdup text = into_raw (malloc_string text)

  -- `CString::from_raw(path)`, which may take only what `CString::into_raw` gave away: the string is
  -- the callee's now.
  unfoldable pub unbox_string : ℕ → Op (State Config Db) (Option Bytes)
  unbox_string p = do text ← (λ s. text_in (find p s.heap) s); release p; done text

  -- The buffer's address and its length, which goes to `*vallen`.
  unfoldable pub leak_buf : Bytes → Op (State Config Db) (ℕ × ℕ)
  leak_buf [] = done (dangling, 0)
  leak_buf (b ∷ bs) = do p ← into_raw (buffer (b ∷ bs)); done (p, length (b ∷ bs))

  -- `Vec::from_raw_parts(buf, sz, sz)` wants the length that was allocated.
  abbrev pub checked_release : ℕ → ℕ → Bytes → Op (State Config Db) (Unit {0})
  checked_release buf sz bs = if length bs == sz then release buf else break_rule

  unfoldable pub sled_free_buf : ℕ → ℕ → Op (State Config Db) (Unit {0})
  sled_free_buf buf sz =
      if is_null buf
      then break_rule
      else if sz == 0
      then done tt
      else do bs ← (λ s. buffer_in (find buf s.heap) s); checked_release buf sz bs

  unfoldable pub sled_free_config : ℕ → Op (State Config Db) (Unit {0})
  unfolding unbox_config
  sled_free_config p = do _ ← unbox_config p; done tt

  unfoldable pub sled_close : ℕ → Op (State Config Db) (Unit {0})
  sled_close db = do _ ← deref_db db; release db

  unfoldable pub sled_free_iter : ℕ → Op (State Config Db) (Unit {0})
  sled_free_iter iter = do _ ← deref_iter iter; release iter
