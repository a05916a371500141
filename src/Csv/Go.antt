-- ===== src/Csv/Go.antt =====
-- rust/csv/_demo/csvdemo/csv.go: the Go program that prints every record of a file with its address.
use llgoexamples.Base.{
  ℕ, zero, suc, ◌≡◌, ◌≢◌, ◌<◌, refl, sym, ◌∙◌, ap, Option, none, some, List, [], ◌∷◌, ◌++◌, Bytes,
  codes, arith, length,
}
use mathlib.Core.Path.{subst}
use llgoexamples.Boxes.{find}
use llgoexamples.Csv.{
  Run, returned, panicked, ReadResult, Object, c_string, Crate, State, Op, opened, csv_reader_new,
  csv_reader_read_record, free_string,
}
use llgoexamples.Csv.Demo.{after, ◌>>=◌, ◌>>◌, done, text_of, print, print_records, free_reader}
use llgoexamples.Csv.Printed.{
  listing_from, Finished, opened_file, empty, print_records-Listed, reader-freed,
  csv_reader_new-opened,
}

-- How `%p` shows an address is a parameter.
module _ (pointer : ℕ → Bytes) where
  abbrev pub line : ℕ → Bytes → Bytes
  line record_ text = codes "Record: " ++ (pointer record_ ++ (codes " " ++ (text ++ codes "\n")))

  -- The body of the loop.
  unfoldable pub show_record : ℕ → Op (Unit {0})
  show_record p = do text ← (λ s. text_of (find p s.heap) s); print (line p text); free_string p

  show_record-front :
      (q next : ℕ) (text out : Bytes) (heap : List (ℕ × Object))
      → q ≢ 0
      → show_record q (record { heap = (q, c_string text) ∷ heap; next = next; out = out })
        ≡ returned (tt, record { heap = heap; next = next; out = out ++ line q text })
  unfolding show_record free_string
  show_record-front q next text out heap r = ground (arith, r)

module _ (crate : Crate) (pointer : ℕ → Bytes) where
  -- The deferred call frees the reader at the end. The reader is not tested for NULL.
  unfoldable pub csvdemo_main : ℕ → Op (Option ℕ)
  unfolding print_records show_record
  csvdemo_main fuel = do
    reader ← csv_reader_new crate (some (codes "data.csv"))
    ended ← print_records crate (show_record pointer) fuel reader
    free_reader crate reader ended

  -- What the program does, by whether the file can be opened.
  abbrev pub Shown : Option (List ReadResult) → Run (Option ℕ × State) → Type 0
  Shown none result = result ≡ panicked
  Shown (some results) result = Finished (listing_from crate (line pointer) 1 results) result

  shown :
      (file : Option (List ReadResult)) (fuel : ℕ)
      → 0 < fuel
      → ((results : List ReadResult) → file ≡ some results → length results < fuel)
      → Shown file (
          after (opened file empty) (λ reader. do
            ended ← print_records crate (show_record pointer) fuel reader
            free_reader crate reader ended))
  shown none zero some_fuel enough = absurd (omega arith)
  shown none (suc fuel) some_fuel enough =
      unfold print_records in unfold csv_reader_read_record in refl
  shown (some results) fuel some_fuel enough =
      let real : 1 ≢ 0 = omega arith in
      let (left, last, listed) =
        print_records-Listed crate 1 real (show_record pointer) (line pointer)
          (show_record-front pointer) results fuel 1 [] (enough results refl) in
      (
        last,
        ap (λ r. after r (λ ended. free_reader crate 1 ended)) listed
            ∙ ap (λ r. after r (λ _. done (some 0))) (reader-freed crate 1 real left last _),
      )

  -- With more steps of the loop than the file has records, and at least one: if the file can be
  -- opened, the Go program shows the same records as the C program, each in its own line and with its
  -- address, and its heap is empty at the end; if not, it panics, at the assertion of
  -- csv_reader_read_record that the reader is not NULL.
  pub csvdemo_main-Shown :
      (fuel : ℕ)
      → 0 < fuel
      → ((results : List ReadResult) → opened_file crate ≡ some results → length results < fuel)
      → Shown (opened_file crate) (csvdemo_main fuel empty)
  unfolding csvdemo_main
  csvdemo_main-Shown fuel some_fuel enough =
      subst (Shown (opened_file crate))
        (sym (
          ap
            (λ r. after r (λ reader. do
              ended ← print_records crate (show_record pointer) fuel reader
              free_reader crate reader ended))
            (csv_reader_new-opened crate)))
        (shown (opened_file crate) fuel some_fuel enough)
