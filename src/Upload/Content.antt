-- ===== src/Upload/Content.antt =====
-- What poll_req_upload of Upload.antt hands to hyper is what it reads from the file.
use llgoexamples.Base.{
  ℕ, zero, suc, ◌≡◌, ◌≤◌, [], ◌∷◌, ◌++◌, Bytes, ret, ◌<◌, take, drop, ◌==◌, if◌then◌else◌, length,
}
use llgoexamples.Hyper.Calls.{Call, Log}
use llgoexamples.Hyper.Env.{Env}
use llgoexamples.World.{World, M, pure, ◌>>=◌}
use llgoexamples.Upload.{Callback, UploadBody, poll_req_upload_cb}

-- The bytes that a buffer of hyper's holds: those that it was made of.
abbrev pub bytes_of : ℕ → Log → Bytes
bytes_of b [] = []
bytes_of b (Call.buf_copy p bs c ∷ log) = if c == b then bs else bytes_of b log
bytes_of b (_ ∷ log) = bytes_of b log

-- The bytes of the buffers that were handed to hyper through `*chunk`, in order.
abbrev pub copied : Log → Bytes
copied [] = []
copied (Call.chunk_set b ∷ log) = copied log ++ bytes_of b log
copied (_ ∷ log) = copied log

-- The bytes that were read from the descriptor `s`, in order.
abbrev pub read_from : ℕ → Log → Bytes
read_from s [] = []
read_from s (Call.read t n (ret bs) ∷ log) =
    if t == s then read_from s log ++ bs else read_from s log
read_from s (Call.read_into t p n (ret bs) ∷ log) =
    if t == s then read_from s log ++ bs else read_from s log
read_from s (_ ∷ log) = read_from s log

-- The data callback at work: hyper calls it until it answers that it is done, or fails.
module _ (env : Env Callback) (upload : UploadBody) where
  -- `n` calls of the callback, as hyper makes them while it sends the request's body.
  unfoldable pub poll_times : ℕ → M (Unit {0})
  poll_times zero = pure tt
  poll_times (suc n) = do _ ← poll_req_upload_cb env upload; poll_times n

-- The descriptor `s` is a regular file that holds `content`: each `read` gives the next bytes, at
-- most as many as were asked for, and none only at the end.
abbrev pub IsFile : {C : Type 0} → Env C → ℕ → Bytes → Type 0
IsFile env s content =
    (log : Log) (n : ℕ)
    → let rest = drop (length (read_from s log)) content in
      (k : ℕ) × (env.read log s n ≡ ret (take k rest)) × (k ≤ n) × (0 < n → 0 < length rest → 0 < k)
