-- ===== src/Csv/Printed.antt =====
-- What the program of Csv.Demo prints, and that it gives everything back.
use llgoexamples.Base.{
  ℕ, zero, suc, ◌≡◌, ◌≢◌, ◌<◌, refl, ◌∙◌, ap, Bool, true, false, Option, none, some, List, [], ◌∷◌,
  ◌++◌, Bytes, ◌==◌, if◌then◌else◌, null, is_null, arith, length, codes, inl, inr, Bool-cases,
}
use mathlib.Core.List.{append-nil, append_assoc}
use llgoexamples.Csv.{
  Run, returned, ReadResult, record_read, at_end, read_error, Object, csv_reader, c_string, Crate,
  State, has_nul, Op, csv_reader_new, csv_reader_read_record, csv_reader_free, free_string,
  record_string, opened,
}
use llgoexamples.Csv.Demo.{
  after, done, ◌>>◌, choose, print, failed_message, free_reader, print_string, print_record,
  print_records, print_file, csv_main,
}

-- What stands in the file, up to the first record that cannot be read or made into a C string.
abbrev pub listing : Crate → List ReadResult → Bytes
listing crate (record_read fields ∷ rest) =
    if has_nul (crate.format fields) then [] else crate.format fields ++ listing crate rest
listing crate _ = []

-- The same, where a record shows as `shown` says of its address and its text; `next` addresses are
-- used before.
abbrev pub listing_from : Crate → (ℕ → Bytes → Bytes) → ℕ → List ReadResult → Bytes
listing_from crate shown next (record_read fields ∷ rest) =
    if has_nul (crate.format fields)
    then []
    else shown (suc next) (crate.format fields) ++ listing_from crate shown (suc next) rest
listing_from crate shown next _ = []

listing_from-plain :
    (crate : Crate) (next : ℕ) (results : List ReadResult)
    → listing_from crate (λ q text. text) next results ≡ listing crate results
listing_from-plain crate next [] = refl
listing_from-plain crate next (record_read fields ∷ rest) =
    rw (listing_from-plain crate (suc next) rest) refl
listing_from-plain crate next (at_end ∷ rest) = refl
listing_from-plain crate next (read_error ∷ rest) = refl

-- A state in which only a reader is left, with what it will still give.
abbrev pub holding : ℕ → List ReadResult → ℕ → Bytes → State
holding p results next out = record { heap = (p, csv_reader results) ∷ []; next = next; out = out }

-- What the loop leaves: more was printed, and only the reader is on the heap.
abbrev pub Listed : ℕ → Bytes → Run (Bool × State) → Type 0
Listed p out result =
    (rest : List ReadResult) × (next : ℕ) × (result ≡ returned (true, holding p rest next out))

-- `main` returned 0, `out` was printed, and nothing is left on the heap.
abbrev pub Finished : Bytes → Run (Option ℕ × State) → Type 0
Finished out result =
    (next : ℕ) × (result ≡ returned (some 0, record { heap = []; next = next; out = out }))

print_record-front :
    (q next : ℕ) (text out : Bytes) (heap : List (ℕ × Object))
    → q ≢ null
    → print_record q (record { heap = (q, c_string text) ∷ heap; next = next; out = out })
      ≡ returned (tt, record { heap = heap; next = next; out = out ++ text })
unfolding print_record print_string free_string
print_record-front q next text out heap r = ground (arith, r)

module _ (crate : Crate) (p : ℕ) (real : p ≢ null) where
  not_null : (p == 0) ≡ false
  not_null = ground (arith, real)

  read-nothing :
      (next : ℕ) (out : Bytes)
      → csv_reader_read_record crate p (holding p [] next out)
        ≡ returned (null, holding p [] next out)
  unfolding csv_reader_read_record
  read-nothing next out = ground (arith, real)

  read-next :
      (result : ReadResult) (rest : List ReadResult) (next : ℕ) (out : Bytes)
      → csv_reader_read_record crate p (holding p (result ∷ rest) next out)
        ≡ record_string crate result (holding p rest next out)
  unfolding csv_reader_read_record
  read-next result rest next out = ground (arith, real)

-- The loop, whose body shows a record and frees it.
module _ (crate : Crate) (p : ℕ) (real : p ≢ null) (body : ℕ → Op (Unit {0}))
    (shown : ℕ → Bytes → Bytes)
    (front : (q next : ℕ) (text out : Bytes) (heap : List (ℕ × Object))
      → q ≢ null
      → body q (record { heap = (q, c_string text) ∷ heap; next = next; out = out })
        ≡ returned (tt, record { heap = heap; next = next; out = out ++ shown q text })) where
  print_records-suc :
      (fuel q : ℕ) (s s1 s2 : State)
      → csv_reader_read_record crate p s ≡ returned (suc q, s1)
      → body (suc q) s1 ≡ returned (tt, s2)
      → print_records crate body (suc fuel) p s ≡ print_records crate body fuel p s2
  unfolding print_records
  print_records-suc fuel q s s1 s2 e f =
      ap
        (λ r. after r (λ record_.
          choose (is_null record_) (done true) (body record_ >> print_records crate body fuel p)))
        e
      ∙ ap (λ b. choose b (done true) (body (suc q) >> print_records crate body fuel p) s1)
          string_real
      ∙ ap (λ r. after r (λ _. print_records crate body fuel p)) f
    where
      string_real : is_null (suc q) ≡ false
      string_real = ground arith

  pub print_records-Listed :
      (results : List ReadResult) (fuel next : ℕ) (out : Bytes)
      → length results < fuel
      → Listed p
          (out ++ listing_from crate shown next results)
          (print_records crate body fuel p (holding p results next out))
  unfolding print_records
  print_records-Listed results zero next out enough = absurd (omega arith)
  print_records-Listed [] (suc fuel) next out enough =
      ([], next, rw (read-nothing crate p real, append-nil) refl)
  print_records-Listed (record_read fields ∷ rest) (suc fuel) next out enough =
      elim (Bool-cases (has_nul (crate.format fields))) [
        | inl nul ↦ rw nul (
          rest,
          next,
          rw (read-next crate p real (record_read fields) rest, nul, append-nil) refl,
        )
        | inr whole ↦
            let text = crate.format fields in
            let (left, last, printed) =
              print_records-Listed rest fuel (suc next) (out ++ shown (suc next) text)
                (omega arith) in
            let read : csv_reader_read_record crate p
                  (holding p (record_read fields ∷ rest) next out)
                ≡ returned (
                  suc next,
                  record {
                    heap = (suc next, c_string text) ∷ (p, csv_reader rest) ∷ [];
                    next = suc next;
                    out = out;
                  },
                ) =
              read-next crate p real (record_read fields) rest next out ∙ rw whole refl in
            rw whole (
              left,
              last,
              print_records-suc fuel next _ _ _ read
                    (front (suc next) (suc next) text out _ (omega arith))
                  ∙ printed
                  ∙ ap (λ o. returned (true, holding p left last o))
                      (append_assoc out (shown (suc next) text) _),
            )
      ]
  print_records-Listed (at_end ∷ rest) (suc fuel) next out enough =
      (rest, next, rw (read-next crate p real at_end rest, append-nil) refl)
  print_records-Listed (read_error ∷ rest) (suc fuel) next out enough =
      (rest, next, rw (read-next crate p real read_error rest, append-nil) refl)

module _ (crate : Crate) (p : ℕ) (real : p ≢ null) where
  pub reader-freed :
      (rest : List ReadResult) (next : ℕ) (out : Bytes)
      → csv_reader_free p (holding p rest next out)
        ≡ returned (tt, record { heap = []; next = next; out = out })
  unfolding csv_reader_free
  reader-freed rest next out = ground (arith, real)

  print_file-prints :
      (results : List ReadResult) (fuel next : ℕ) (out : Bytes)
      → length results < fuel
      → Finished
          (out ++ listing crate results)
          (print_file crate fuel p (holding p results next out))
  unfolding print_file
  print_file-prints results fuel next out enough =
      let (left, last, listed) =
        print_records-Listed crate p real print_record (λ q text. text) print_record-front results
          fuel next out enough in
      let printed =
        listed
        ∙ ap (λ l. returned (true, holding p left last (out ++ l)))
            (listing_from-plain crate next results) in
      (
        last,
        ap
              (λ b.
                choose b (print failed_message >> done (some 0))
                  (λ s. after (print_records crate print_record fuel p s) (free_reader crate p))
                  (holding p results next out))
              (not_null crate p real)
            ∙ ap (λ r. after r (free_reader crate p)) printed
            ∙ ap (λ r. after r (λ _. done (some 0))) (reader-freed left last _),
      )

-- What opening the file gives, and what the program prints then.
abbrev pub opened_file : Crate → Option (List ReadResult)
opened_file crate =
    if crate.is_utf8 (codes "data.csv") then crate.from_path (codes "data.csv") else none

abbrev pub expected : Crate → Option (List ReadResult) → Bytes
expected crate none = failed_message
expected crate (some results) = listing crate results

abbrev pub empty : State
empty = record { heap = []; next = 0; out = [] }

module _ (crate : Crate) where
  opened-prints :
      (file : Option (List ReadResult)) (fuel : ℕ)
      → ((results : List ReadResult) → file ≡ some results → length results < fuel)
      → Finished (expected crate file) (after (opened file empty) (print_file crate fuel))
  opened-prints none fuel enough = unfold print_file in (0, refl)
  opened-prints (some results) fuel enough =
      print_file-prints crate 1 (λ e. absurd (omega arith)) results fuel 1 [] (enough results refl)

  pub csv_reader_new-opened :
      csv_reader_new crate (some (codes "data.csv")) empty ≡ opened (opened_file crate) empty
  unfolding csv_reader_new
  csv_reader_new-opened = elim (Bool-cases (crate.is_utf8 (codes "data.csv"))) [
    | inl valid ↦ rw valid refl
    | inr other ↦ rw other refl
  ]

  -- With more steps of the loop than the file has records: the program returns 0, it printed the
  -- file's records up to the first that cannot be read or holds a NUL, or the message if the file
  -- cannot be opened, no pointer was misused, and the heap is empty again.
  pub csv_main-prints :
      (fuel : ℕ)
      → ((results : List ReadResult) → opened_file crate ≡ some results → length results < fuel)
      → Finished (expected crate (opened_file crate)) (csv_main crate fuel empty)
  unfolding csv_main
  csv_main-prints fuel enough =
      let (last, printed) = opened-prints (opened_file crate) fuel enough in
      (last, ap (λ r. after r (print_file crate fuel)) csv_reader_new-opened ∙ printed)
