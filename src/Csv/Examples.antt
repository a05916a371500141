-- ===== src/Csv/Examples.antt =====
-- Runs of Csv.Demo.
use llgoexamples.Base.{ℕ, Bytes, List, ◌<◌, ◌≡◌, refl, true, some, [], ◌∷◌, codes, arith, length}
use mathlib.Core.Option.{some-injective}
use llgoexamples.Csv.{ReadResult, Crate}
use llgoexamples.Csv.Go.{line, csvdemo_main, csvdemo_main-Shown}
use llgoexamples.Csv.Demo.{csv_main}
use llgoexamples.Csv.Printed.{listing_from, Finished, expected, opened_file, empty, csv_main-prints}

-- Two records of one field each, and a line that cannot be read.
abbrev results : List ReadResult
results =
    ReadResult.record_read (codes "a" ∷ [])
    ∷ ReadResult.record_read (codes "b" ∷ [])
    ∷ ReadResult.read_error
    ∷ []

abbrev crate : Crate
crate = record {
  is_utf8 = λ path. true;
  from_path = λ path. some results;
  format = λ fields. codes "record\n";
}

shorter : (l : List ReadResult) → some results ≡ some l → length l < 4
shorter l e = rw (← some-injective results l e) (omega arith)

csv_main-prints_example : Finished (expected crate (opened_file crate)) (csv_main crate 4 empty)
csv_main-prints_example = csv_main-prints crate 4 shorter

prints_two : expected crate (opened_file crate) ≡ codes "record\nrecord\n"
prints_two = refl

-- An address is shown by its number alone.
abbrev one_code : ℕ → Bytes
one_code p = p ∷ []

csvdemo_main-Shown_example :
    Finished (listing_from crate (line one_code) 1 results) (csvdemo_main crate one_code 4 empty)
csvdemo_main-Shown_example = csvdemo_main-Shown crate one_code 4 (omega arith) shorter
