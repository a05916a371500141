-- ===== src/Upload/Body.antt =====
-- The request's body and the callbacks of lib/rust/hyper/examples/upload.c (115-156).
use llgoexamples.Base.{ℕ, [], ◌∷◌, Bytes, SysResult, ret, errno}
use llgoexamples.Hyper.{poll_ready, poll_error}
use llgoexamples.Hyper.Calls.{Arg, Call}
use llgoexamples.Hyper.Env.{Env}
use llgoexamples.World.{M, pure, ◌>>=◌, ◌>>◌, call, ask, create, Verdict}
use llgoexamples.Client.{printf}

-- struct upload_body: the file, and the buffer that it is read through.
pub record UploadBody : Type 0 where
  pub fd : ℕ
  pub buf : ℕ
  pub len : ℕ

-- The callbacks of this program: the next piece of the request's body; a 1xx response, with its
-- status.
pub data Callback : Type 0 where
  poll_req_upload : Callback
  print_informational : ℕ → Callback

module _ (env : Env Callback) (upload : UploadBody) where
  unfoldable pub upload_result : SysResult Bytes → M ℕ
  upload_result (ret []) = do call Call.chunk_set_null; pure poll_ready
  upload_result (ret (b ∷ bs)) = do
    chunk ← create env.buf_copy (Call.buf_copy upload.buf (b ∷ bs))
    call (Call.chunk_set chunk)
    pure poll_ready
  upload_result (errno e) = do
    printf "error reading upload file: %d" (Arg.int e ∷ [])
    pure poll_error

  unfoldable pub poll_req_upload_cb : M ℕ
  unfolding upload_result
  poll_req_upload_cb = do
    res ← ask (λ log. env.read log upload.fd upload.len)
    call (Call.read_into upload.fd upload.buf upload.len res)
    upload_result res

unfoldable pub print_informational_cb : ℕ → M (Unit {0})
print_informational_cb http_status = do
  call (Call.lent_response_status http_status)
  printf "\nInformational (1xx): %d\n" (Arg.int http_status ∷ [])

-- A handler that leaves the variable `resp_body` as it is.
abbrev pub keeping : ℕ → M Verdict → M (Verdict × ℕ)
keeping body m w = let (v, w') = m w in ((v, body), w')
