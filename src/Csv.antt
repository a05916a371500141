-- ===== src/Csv.antt =====
-- lib/rust/csv-wrapper/src/lib.rs: the CSV reader behind the interface of csv_wrapper.h. A pointer
-- is a number, NULL is 0, and the heap holds what `Box::into_raw` and `CString::into_raw` gave away.
-- The csv crate and the formatting of Rust are the parameters of `Crate`.
pub mod Demo
pub mod Printed
pub mod Go
mod Examples
use llgoexamples.Base.{
  ℕ, suc, Bool, true, false, Option, none, some, List, [], ◌∷◌, Bytes, ◌==◌, ◌||◌, if◌then◌else◌,
  null, is_null,
}
use llgoexamples.Boxes.{find, remove, replace}

-- What one call of `read_record` of the csv crate gives: a record's fields, the end, or an error.
pub data ReadResult : Type 0 where
  record_read : List Bytes → ReadResult
  at_end read_error : ReadResult

-- A reader is what its calls of `read_record` will give, and then the end.
pub data Object : Type 0 where
  csv_reader : List ReadResult → Object
  c_string : Bytes → Object

pub record Crate : Type 0 where
  pub is_utf8 : Bytes → Bool
  pub from_path : Bytes → Option (List ReadResult)
  -- `format!("{:?}\n", record)`
  pub format : List Bytes → Bytes

pub record State : Type 0 where
  pub heap : List (ℕ × Object)
  pub next : ℕ
  pub out : Bytes

abbrev pub into_raw : Object → State → ℕ × State
into_raw object s = let p = suc s.next in (p, record s { heap = (p, object) ∷ s.heap; next = p })

-- `CString::new` fails on a text that holds a NUL.
abbrev pub has_nul : Bytes → Bool
has_nul [] = false
has_nul (b ∷ bs) = (b == 0) || has_nul bs

-- What has become of a call: it returned, the Rust code panicked, or the caller broke a rule and
-- nothing is known.
pub data Run (A : Type 0) : Type 0 where
  returned : A → Run A
  panicked undefined : Run A

abbrev pub Op : Type 0 → Type 0
Op A = State → Run (A × State)

abbrev pub opened : Option (List ReadResult) → Op ℕ
opened none s = returned (null, s)
opened (some results) s = returned (into_raw (csv_reader results) s)

module _ (crate : Crate) where
  unfoldable pub csv_reader_new : Option Bytes → Op ℕ
  csv_reader_new none s = returned (null, s)
  csv_reader_new (some file_path) s =
      if crate.is_utf8 file_path then opened (crate.from_path file_path) s else returned (null, s)

  -- The match on what the csv crate read.
  abbrev pub record_string : ReadResult → Op ℕ
  record_string (record_read fields) s =
      let text = crate.format fields in
      if has_nul text then returned (null, s) else returned (into_raw (c_string text) s)
  record_string at_end s = returned (null, s)
  record_string read_error s = returned (null, s)

  abbrev pub read_from_object : ℕ → Option Object → Op ℕ
  read_from_object ptr (some (csv_reader [])) s = record_string at_end s
  read_from_object ptr (some (csv_reader (result ∷ rest))) s =
      record_string result (record s { heap = replace ptr (csv_reader rest) s.heap })
  read_from_object ptr _ s = undefined

  unfoldable pub csv_reader_read_record : ℕ → Op ℕ
  csv_reader_read_record ptr s =
      if is_null ptr then panicked else read_from_object ptr (find ptr s.heap) s

abbrev pub freed_reader : ℕ → Option Object → Op (Unit {0})
freed_reader ptr (some (csv_reader results)) s =
    returned (tt, record s { heap = remove ptr s.heap })
freed_reader ptr _ s = undefined

unfoldable pub csv_reader_free : ℕ → Op (Unit {0})
csv_reader_free ptr s =
    if is_null ptr then returned (tt, s) else freed_reader ptr (find ptr s.heap) s

abbrev pub freed_string : ℕ → Option Object → Op (Unit {0})
freed_string p (some (c_string text)) s = returned (tt, record s { heap = remove p s.heap })
freed_string p _ s = undefined

unfoldable pub free_string : ℕ → Op (Unit {0})
free_string p s = if is_null p then returned (tt, s) else freed_string p (find p s.heap) s
