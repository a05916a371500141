-- ===== src/Upload/Sent.antt =====
-- What hyper was handed of the request's body over a whole run of Upload.antt.
use llgoexamples.Base.{
  ℕ, ◌≡◌, ◌≤◌, refl, sym, true, List, [], ◌∷◌, ◌++◌, Bytes, SysResult, ret, errno, arith, null,
}
use mathlib.Core.Path.{subst}
use llgoexamples.Hyper.Calls.{Call, Log}
use llgoexamples.Hyper.Env.{Env, Laws}
use llgoexamples.World.{World, call}
use llgoexamples.Exchange.{start}
use llgoexamples.Upload.{Callback, UploadBody, upload_result, poll_req_upload_cb, main}
use llgoexamples.Upload.Content.{copied, read_from}
use llgoexamples.Upload.Transfers.{transfers}
use llgoexamples.Upload.Transfers.Views.{ended, sizes, AllBetween, sizes-transfers, alike-by}
use llgoexamples.Upload.Transfers.Loop.{run-Kept}
use llgoexamples.Upload.Whole.{main-Holds}

-- The part of a file that hyper was handed: all that was read, in order, and the whole file once
-- hyper was told that this was all.
pub record Fed (file : ℕ) (content : Bytes) (log : Log) : Type 0 where
  pub so_far : copied log ≡ read_from file log
  pub left : Bytes
  pub whole : copied log ++ left ≡ content
  pub complete : ended log ≡ true → left ≡ []

module _ (env : Env Callback) (upload : UploadBody) where
  polled-AllBetween :
      (laws : Laws env) (most : ℕ) (w : World)
      → upload.len ≤ most
      → AllBetween 1 most (sizes w.log)
      → AllBetween 1 most (sizes (poll_req_upload_cb env upload w).1.log)
  unfolding poll_req_upload_cb
  polled-AllBetween laws most w room h = polled (env.read w.log upload.fd upload.len) refl
    where
      polled :
          (r : SysResult Bytes)
          → env.read w.log upload.fd upload.len ≡ r
          → AllBetween 1 most (
              sizes
                (upload_result env upload r
                  (call (Call.read_into upload.fd upload.buf upload.len r) w).1).1.log)
      polled (ret []) e = h
      polled (ret (b ∷ bs)) e =
          let fits = laws.read_fits w.log upload.fd upload.len (b ∷ bs) e in
          (omega arith, omega (arith, fits), h)
      polled (errno n) e = h

AllBetween-alike :
    (low high file : ℕ) (l l' : Log)
    → transfers file l' ≡ transfers file l
    → AllBetween low high (sizes l)
    → AllBetween low high (sizes l')
AllBetween-alike low high file l l' same h =
    subst (AllBetween low high) (sym (alike-by sizes file (sizes-transfers file) l l' same)) h

module _ (env : Env Callback) (laws : Laws env) where
  -- Within `laws`: every buffer of the body that hyper was handed in a run, of any number of steps
  -- and with all arguments, holds at least one byte and at most 8192.
  pub sizes-upload-AllBetween :
      (fuel : ℕ) (argv : List Bytes) → AllBetween 1 8192 (sizes (main env fuel argv start).1.log)
  sizes-upload-AllBetween fuel argv =
      main-Holds env laws fuel (λ _ w. AllBetween 1 8192 (sizes w.log)) argv
        (λ w safe no_request untouched excuse. AllBetween-alike 1 8192 0 [] w.log (untouched 0) tt)
        (λ x sock w valid entered v.
          (run-Kept env x (λ log. AllBetween 1 8192 (sizes log))
            (AllBetween-alike 1 8192 x.upload.fd)
            (λ u h. polled-AllBetween env x.upload laws 8192 u (omega (arith, entered.room)) h) fuel
            null w
            (entered.apart, AllBetween-alike 1 8192 x.upload.fd [] w.log entered.untouched tt)).1)
