-- ===== src/Upload/Ownership/Body.antt =====
-- The data callback of Upload.antt: what it takes and hands over.
use llgoexamples.Base.{==-refl, ℕ, ◌≡◌, refl, ◌∙◌, [], ◌∷◌, Bytes, SysResult, ret, errno, arith}
use llgoexamples.Hyper.Calls.{Arg, Call, Handle}
use llgoexamples.Hyper.Env.{Env, Laws}
use llgoexamples.Hyper.Ledger.{alive}
use llgoexamples.World.{World, call}
use llgoexamples.Conn.Ownership.{owned, IsOwned, call-IsOwned}
use llgoexamples.Upload.{Callback, Context, upload_result, poll_req_upload_cb}
use llgoexamples.Upload.Ownership.{Temps, held, IsContext}

module _ (env : Env Callback) (laws : Laws env) (x : Context) (sock : ℕ) (valid : IsContext x) where
  upload_result-exactly :
      (t : Temps) (r : SysResult Bytes) (w : World)
      → IsOwned (held x sock t) w
      → (h : Handle)
      → alive (upload_result env x.upload r w).1.log h
        ≡ owned (held x sock t) (upload_result env x.upload r w).1.conn h
  unfolding upload_result
  upload_result-exactly t (ret []) w o h = o.exactly h
  upload_result-exactly t (ret (c ∷ bs)) w o (Handle.buf p) =
      ground (arith, o.exactly (Handle.buf p))
  upload_result-exactly t (ret (c ∷ bs)) w o (Handle.task p) = o.exactly (Handle.task p)
  upload_result-exactly t (ret (c ∷ bs)) w o h = o.exactly h
  upload_result-exactly t (errno e) w o h = o.exactly h

  upload_result-IsOwned :
      (t : Temps) (r : SysResult Bytes) (w : World)
      → IsOwned (held x sock t) w
      → IsOwned (held x sock t) (upload_result env x.upload r w).1
  unfolding upload_result
  upload_result-IsOwned t (ret []) w o = call-IsOwned Call.chunk_set_null w refl refl tt o
  upload_result-IsOwned t (ret (c ∷ bs)) w o = record {
    exactly = unfold upload_result in upload_result-exactly t (ret (c ∷ bs)) w o;
    apart = o.apart;
    safe = ground (
      arith,
      laws.buf_copy_fresh w.log,
      o.safe,
      o.exactly (Handle.mem x.upload.buf),
      valid.buf_real,
    );
    connected = o.connected;
  }
  upload_result-IsOwned t (errno e) w o =
      call-IsOwned (Call.printf "error reading upload file: %d" (Arg.int e ∷ [])) w refl refl tt o

  -- The data callback reads the file, and leaves the buffer that it makes to hyper.
  pub poll_req_upload-IsOwned :
      (t : Temps) (w : World)
      → IsOwned (held x sock t) w
      → IsOwned (held x sock t) (poll_req_upload_cb env x.upload w).1
  unfolding poll_req_upload_cb
  poll_req_upload-IsOwned t w o =
      let r = env.read w.log x.upload.fd x.upload.len in
      let c = Call.read_into x.upload.fd x.upload.buf x.upload.len r in
      upload_result-IsOwned t r (call c w).1 (
        call-IsOwned c w refl refl
          (
            o.exactly (Handle.fd x.upload.fd) ∙ ground arith,
            tt,
            (
              o.exactly (Handle.mem x.upload.buf) ∙ ground (arith, ==-refl x.upload.buf),
              valid.buf_real,
              tt,
            ),
          )
          o)
