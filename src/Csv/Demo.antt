-- ===== src/Csv/Demo.antt =====
-- lib/rust/csv-wrapper/test/main.c: print every record of a file.
use llgoexamples.Base.{
  ℕ, zero, suc, Bool, true, false, Option, none, some, ◌++◌, Bytes, codes, is_null,
}
use llgoexamples.Boxes.{find}
use llgoexamples.Csv.{
  Run, returned, panicked, undefined, Object, c_string, Crate, State, Op, csv_reader_new,
  csv_reader_read_record, csv_reader_free, free_string,
}

abbrev pub after : {A B : Type 0} → Run (A × State) → (A → Op B) → Run (B × State)
after (returned (a, s)) f = f a s
after panicked f = panicked
after undefined f = undefined

infixl 5 ◌>>=◌ ◌>>◌
abbrev pub ◌>>=◌ : {A B : Type 0} → Op A → (A → Op B) → Op B
◌>>=◌ m f s = after (m s) f

abbrev pub ◌>>◌ : {B : Type 0} → Op (Unit {0}) → Op B → Op B
m >> k = m >>= λ _. k

abbrev pub done : {A : Type 0} → A → Op A
done a s = returned (a, s)

-- `if` between actions: a branch runs only when it is taken.
abbrev pub choose : {A : Type 0} → Bool → Op A → Op A → Op A
choose true m n s = m s
choose false m n s = n s

abbrev pub text_of : Option Object → Op Bytes
text_of (some (c_string text)) s = returned (text, s)
text_of _ s = undefined

abbrev pub print : Bytes → Op (Unit {0})
print text s = returned (tt, record s { out = s.out ++ text })

-- `printf("%s", record)`
unfoldable pub print_string : ℕ → Op (Unit {0})
print_string p = do text ← (λ s. text_of (find p s.heap) s); print text

abbrev pub failed_message : Bytes
failed_message = codes "Failed to create CSV reader.\n"

-- The body of the loop.
unfoldable pub print_record : ℕ → Op (Unit {0})
unfolding print_string
print_record p = do print_string p; free_string p

module _ (crate : Crate) where
  -- The `while` loop with its body; false when `fuel` is used up before it ends.
  unfoldable pub print_records : (ℕ → Op (Unit {0})) → ℕ → ℕ → Op Bool
  print_records body zero reader = done false
  print_records body (suc fuel) reader = do
    record_ ← csv_reader_read_record crate reader
    choose (is_null record_) (done true) (do body record_; print_records body fuel reader)

  abbrev pub free_reader : ℕ → Bool → Op (Option ℕ)
  free_reader reader true = do csv_reader_free reader; done (some 0)
  free_reader reader false = done none

  -- After `csv_reader_new`; the result is what `main` returns, if the fuel was enough.
  unfoldable pub print_file : ℕ → ℕ → Op (Option ℕ)
  unfolding print_records print_record
  print_file fuel reader =
      choose (is_null reader) (do print failed_message; done (some 0))
        (do ended ← print_records print_record fuel reader; free_reader reader ended)

  unfoldable pub csv_main : ℕ → Op (Option ℕ)
  unfolding print_file
  csv_main fuel = do reader ← csv_reader_new crate (some (codes "data.csv")); print_file fuel reader
