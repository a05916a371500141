-- ===== src/Upload/Ownership/Request.antt =====
-- The handlers of Upload.antt up to the request: what they own, take and free.
use llgoexamples.Base.{
  ℕ, ◌≡◌, refl, ◌∙◌, some, [], ◌∷◌, Bytes, String, codes, ◌≢◌, null, arith, inl, inr, Bool-cases,
  ==-refl,
}
use llgoexamples.Hyper.{TaskReturnType, task_error, task_clientconn}
use llgoexamples.Hyper.Calls.{Call, Handle, Headers}
use llgoexamples.Hyper.Env.{Env, Laws}
use llgoexamples.Hyper.Ledger.{alive}
use llgoexamples.World.{World, branch}
use llgoexamples.Conn.Ownership.{owned, IsOwned, call-IsOwned}
use llgoexamples.Client.{failed}
use llgoexamples.Upload.{Callback, Context, send_request, set_uri, prepare_request, on_handshake}
use llgoexamples.Upload.Ownership.{Temps, idle, held, After, IsContext}

abbrev asking : ℕ → ℕ → Temps
asking client req = record idle { clientconn = some client; request = some req }

module _ (env : Env Callback) (laws : Laws env) (x : Context) (sock : ℕ) (valid : IsContext x) where
  send_request-exactly :
      (host : Bytes) (client req : ℕ) (w : World)
      → IsOwned (held x sock (asking client req)) w
      → (h : Handle)
      → alive (send_request env host x.setup client req w).1.log h
        ≡ owned (held x sock idle) (send_request env host x.setup client req w).1.conn h
  unfolding send_request
  send_request-exactly host client req w o (Handle.task p) =
      ground (arith, o.exactly (Handle.task p))
  send_request-exactly host client req w o (Handle.clientconn p) =
      ground (arith, o.exactly (Handle.clientconn p))
  send_request-exactly host client req w o (Handle.request p) =
      ground (arith, o.exactly (Handle.request p))
  send_request-exactly host client req w o (Handle.body p) =
      ground (arith, o.exactly (Handle.body p))
  send_request-exactly host client req w o h = ground (arith, o.exactly h)

  send_request-After :
      (host : Bytes) (client req : ℕ) (w : World)
      → client ≢ null
      → req ≢ null
      → IsOwned (held x sock (asking client req)) w
      → let after = send_request env host x.setup client req w in After x sock idle after.0 after.1
  unfolding send_request
  send_request-After host client req w cr rr o =
      let l1 =
        Call.request_on_informational req
        ∷ Call.printf "    with expect-continue ...\n" []
        ∷ Call.headers_set (Headers.of_request req) (codes "expect") (codes "100-continue")
        ∷ Call.headers_set (Headers.of_request req) (codes "host") host
        ∷ w.log in
      let b = env.body_new l1 in
      let l2 =
        Call.request_set_body req b
        ∷ Call.body_set_data_func b
        ∷ Call.body_set_userdata b
        ∷ Call.body_new b
        ∷ l1 in
      record {
        exactly = unfold send_request in send_request-exactly host client req w o;
        apart = o.apart;
        safe = ground (
          arith,
          o.exactly (Handle.clientconn client),
          o.exactly (Handle.request req),
          valid.exec_real,
          o.exactly (Handle.executor x.setup.exec),
          o.safe,
          laws.clientconn_send_fresh l2,
          laws.body_new_fresh l1,
        );
        connected = o.connected;
      }

  set_uri-After :
      (host path : Bytes) (client req : ℕ) (w : World)
      → client ≢ null
      → req ≢ null
      → IsOwned (held x sock (asking client req)) w
      → let after = set_uri env host path x.setup client req w in After x sock idle after.0 after.1
  unfolding set_uri
  set_uri-After host path client req w cr rr o =
      let o' =
        call-IsOwned (Call.request_set_uri req path) w refl refl
          (o.exactly (Handle.request req) ∙ ==-refl req, rr, tt) o in
      elim (Bool-cases (failed (env.request_set_uri w.log req path))) [
        | inl bad ↦ rw (bad, branch) (tt, tt, o'.safe)
        | inr good ↦ rw (good, branch) (send_request-After host client req _ cr rr o')
      ]

  -- After the client and the request were made, and the task freed.
  requested-exactly :
      (task client req : ℕ) (w : World) (message : String) (method : Bytes)
      → IsOwned (held x sock (record idle { task = some task })) w
      → (h : Handle)
      → alive
          (Call.request_set_method req method
            ∷ Call.request_new req
            ∷ Call.task_free task
            ∷ Call.task_value task (Handle.clientconn client)
            ∷ Call.printf message []
            ∷ w.log)
          h
        ≡ owned (held x sock (asking client req)) w.conn h
  requested-exactly task client req w m b o (Handle.task p) =
      ground (arith, o.exactly (Handle.task p))
  requested-exactly task client req w m b o (Handle.clientconn p) =
      ground (arith, o.exactly (Handle.clientconn p))
  requested-exactly task client req w m b o (Handle.request p) =
      ground (arith, o.exactly (Handle.request p))
  requested-exactly task client req w m b o h = ground (arith, o.exactly h)

  requested-IsOwned :
      (task client req : ℕ) (w : World) (message : String) (method : Bytes)
      → task ≢ null
      → req ≢ null
      → IsOwned (held x sock (record idle { task = some task })) w
      → IsOwned (held x sock (asking client req)) (record w {
        log =
            Call.request_set_method req method
            ∷ Call.request_new req
            ∷ Call.task_free task
            ∷ Call.task_value task (Handle.clientconn client)
            ∷ Call.printf message []
            ∷ w.log;
      })
  requested-IsOwned task client req w m b tr rr o = record {
    exactly = requested-exactly task client req w m b o;
    apart = o.apart;
    safe = ground (arith, o.exactly (Handle.task task), o.safe);
    connected = o.connected;
  }

  prepare_request-After :
      (host path : Bytes) (task : ℕ) (w : World)
      → task ≢ null
      → env.task_type w.log task ≡ task_clientconn
      → IsOwned (held x sock (record idle { task = some task })) w
      → let after = prepare_request env host path x.setup task w in
        After x sock idle after.0 after.1
  unfolding prepare_request
  prepare_request-After host path task w tr e o =
      let v = Call.printf "preparing http request ...\n" [] ∷ w.log in
      let client = env.task_value v task in
      let v' = Call.task_free task ∷ Call.task_value task (Handle.clientconn client) ∷ v in
      let req = env.request_new v' in
      let rr = (laws.request_new_fresh v').0 in
      let cr : client ≢ null =
        (laws.task_value_fresh v task (Handle.clientconn client)
          (rw (laws.task_type_kept w.log "preparing http request ...\n" [] task, e) refl)).0 in
      let o' =
        requested-IsOwned task client req w "preparing http request ...\n" (codes "POST") tr rr o in
      elim (Bool-cases
        (failed (env.request_set_method (Call.request_new req ∷ v') req (codes "POST")))) [
          | inl bad ↦ rw (bad, branch) (tt, tt, o'.safe)
          | inr good ↦ rw (good, branch) (set_uri-After host path client req _ cr rr o')
        ]

  pub on_handshake-After :
      (host path : Bytes) (task : ℕ) (ty : TaskReturnType) (w : World)
      → task ≢ null
      → env.task_type w.log task ≡ ty
      → IsOwned (held x sock (record idle { task = some task })) w
      → let after = on_handshake env host path x.setup task ty w in
        After x sock idle after.0 after.1
  unfolding on_handshake
  on_handshake-After host path task task_error w tr e o = (tt, tt, o.safe)
  on_handshake-After host path task task_clientconn w tr e o =
      prepare_request-After host path task w tr e o
  on_handshake-After host path task _ w tr e o = o.safe
