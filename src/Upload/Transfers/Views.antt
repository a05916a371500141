-- ===== src/Upload/Transfers/Views.antt =====
-- What is read off the log of Upload.antt about the request's body, and that only transfers count.
use llgoexamples.Base.{
  ℕ, ◌≡◌, ◌≤◌, refl, sym, ◌∙◌, ap, Bool, true, false, List, [], ◌∷◌, ret, errno, arith, length,
}
use llgoexamples.Hyper.Calls.{Call, Log}
use llgoexamples.Upload.Content.{bytes_of, copied, read_from}
use llgoexamples.Upload.Transfers.{transfers}

-- Whether hyper was told that the request's body is over.
abbrev pub ended : Log → Bool
ended [] = false
ended (Call.chunk_set_null ∷ log) = true
ended (_ ∷ log) = ended log

-- The sizes of the buffers that hyper was handed, the last one first.
abbrev pub sizes : Log → List ℕ
sizes [] = []
sizes (Call.buf_copy p bs b ∷ log) = length bs ∷ sizes log
sizes (_ ∷ log) = sizes log

abbrev pub AllBetween : ℕ → ℕ → List ℕ → Type 0
AllBetween low high [] = Unit {0}
AllBetween low high (n ∷ ns) = (low ≤ n) × (n ≤ high) × AllBetween low high ns

bytes_of-transfers : (file b : ℕ) (log : Log) → bytes_of b (transfers file log) ≡ bytes_of b log
bytes_of-transfers file b [] = refl
bytes_of-transfers file b (Call.buf_copy p bs c ∷ log) = rw (bytes_of-transfers file b log) refl
bytes_of-transfers file b (Call.read s n r ∷ log) =
    let rest = bytes_of-transfers file b log in ground (arith, rest)
bytes_of-transfers file b (Call.read_into s p n r ∷ log) =
    let rest = bytes_of-transfers file b log in ground (arith, rest)
bytes_of-transfers file b (_ ∷ log) = bytes_of-transfers file b log

pub copied-transfers : (file : ℕ) (log : Log) → copied (transfers file log) ≡ copied log
copied-transfers file [] = refl
copied-transfers file (Call.chunk_set b ∷ log) =
    rw (copied-transfers file log, bytes_of-transfers file b log) refl
copied-transfers file (Call.read_into s p n r ∷ log) =
    let rest = copied-transfers file log in ground (arith, rest)
copied-transfers file (Call.read s n r ∷ log) =
    let rest = copied-transfers file log in ground (arith, rest)
copied-transfers file (_ ∷ log) = copied-transfers file log

pub ended-transfers : (file : ℕ) (log : Log) → ended (transfers file log) ≡ ended log
ended-transfers file [] = refl
ended-transfers file (Call.chunk_set_null ∷ log) = refl
ended-transfers file (Call.read s n r ∷ log) =
    let rest = ended-transfers file log in ground (arith, rest)
ended-transfers file (Call.read_into s p n r ∷ log) =
    let rest = ended-transfers file log in ground (arith, rest)
ended-transfers file (_ ∷ log) = ended-transfers file log

pub read_from-transfers :
    (file : ℕ) (log : Log) → read_from file (transfers file log) ≡ read_from file log
read_from-transfers file [] = refl
read_from-transfers file (Call.read s n (ret bs) ∷ log) =
    let rest = read_from-transfers file log in ground (arith, rest)
read_from-transfers file (Call.read s n (errno e) ∷ log) =
    let rest = read_from-transfers file log in ground (arith, rest)
read_from-transfers file (Call.read_into s p n (ret bs) ∷ log) =
    let rest = read_from-transfers file log in ground (arith, rest)
read_from-transfers file (Call.read_into s p n (errno e) ∷ log) =
    let rest = read_from-transfers file log in ground (arith, rest)
read_from-transfers file (_ ∷ log) = read_from-transfers file log

pub sizes-transfers : (file : ℕ) (log : Log) → sizes (transfers file log) ≡ sizes log
sizes-transfers file [] = refl
sizes-transfers file (Call.buf_copy p bs b ∷ log) =
    ap (λ l. length bs ∷ l) (sizes-transfers file log)
sizes-transfers file (Call.read s n r ∷ log) =
    let rest = sizes-transfers file log in ground (arith, rest)
sizes-transfers file (Call.read_into s p n r ∷ log) =
    let rest = sizes-transfers file log in ground (arith, rest)
sizes-transfers file (_ ∷ log) = sizes-transfers file log

-- What a function of the log gives does not depend on the calls that are no transfers.
pub alike-by :
    {A : Type 0} (f : Log → A) (file : ℕ)
    → ((log : Log) → f (transfers file log) ≡ f log)
    → (l l' : Log) → transfers file l' ≡ transfers file l
    → f l' ≡ f l
alike-by f file e l l' same = sym (e l') ∙ ap f same ∙ e l
