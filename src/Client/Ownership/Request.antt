-- ===== src/Client/Ownership/Request.antt =====
-- The handlers of Client.antt up to the request, and its error path: what they own, take and free.
use llgoexamples.Base.{
  ℕ, ◌≡◌, refl, ◌∙◌, true, some, [], ◌∷◌, Bytes, String, codes, ◌≢◌, null, is_null, arith, inl, inr,
  Bool-cases, ==-refl,
}
use llgoexamples.Hyper.{TaskReturnType, task_error, task_clientconn}
use llgoexamples.Hyper.Calls.{Call, Handle, Headers}
use llgoexamples.Hyper.Env.{Env, Laws, value_handle}
use llgoexamples.Hyper.Ledger.{alive, IsSafe}
use llgoexamples.World.{World, branch}
use llgoexamples.Conn.Ownership.{owned, IsOwned, call-IsOwned}
use llgoexamples.Client.{
  Callback, Setup, failed, print_error, task_failed, send_request, set_uri, prepare_request,
  on_handshake,
}
use llgoexamples.Client.Ownership.{idle, held, After}

module _ (env : Env Callback) (laws : Laws env) (s : Setup) (sock : ℕ)
    (exec_real : s.exec ≢ null) where
  send_request-exactly :
      (host : Bytes) (client req : ℕ) (w : World)
      → IsOwned (held s sock (record idle { clientconn = some client; request = some req })) w
      → (h : Handle)
      → alive (send_request env host s client req w).1.log h
        ≡ owned (held s sock idle) (send_request env host s client req w).1.conn h
  unfolding send_request
  send_request-exactly host client req w o (Handle.task p) =
      ground (arith, o.exactly (Handle.task p), laws.clientconn_send_fresh _)
  send_request-exactly host client req w o (Handle.clientconn p) =
      ground (arith, o.exactly (Handle.clientconn p))
  send_request-exactly host client req w o (Handle.request p) =
      ground (arith, o.exactly (Handle.request p))
  send_request-exactly host client req w o h = ground (arith, o.exactly h)

  send_request-After :
      (host : Bytes) (client req : ℕ) (w : World)
      → client ≢ null
      → req ≢ null
      → IsOwned (held s sock (record idle { clientconn = some client; request = some req })) w
      → let after = send_request env host s client req w in After s sock after.0 after.1
  unfolding send_request
  send_request-After host client req w cr rr o = record {
    exactly = unfold send_request in send_request-exactly host client req w o;
    apart = o.apart;
    safe = ground (
      arith,
      o.exactly (Handle.clientconn client),
      o.exactly (Handle.request req),
      o.exactly (Handle.executor s.exec),
      o.safe,
      laws.clientconn_send_fresh
          (Call.headers_set (Headers.of_request req) (codes "Host") host ∷ w.log),
    );
    connected = o.connected;
  }

  set_uri-After :
      (host path : Bytes) (client req : ℕ) (w : World)
      → client ≢ null
      → req ≢ null
      → IsOwned (held s sock (record idle { clientconn = some client; request = some req })) w
      → let after = set_uri env host path s client req w in After s sock after.0 after.1
  unfolding set_uri
  set_uri-After host path client req w cr rr o =
      let o' =
        call-IsOwned (Call.request_set_uri req path) w refl refl
          (o.exactly (Handle.request req) ∙ ==-refl req, rr, tt) o in
      elim (Bool-cases (failed (env.request_set_uri w.log req path))) [
        | inl bad ↦ rw (bad, branch) (tt, tt, o'.safe)
        | inr good ↦ rw (good, branch) (send_request-After host client req _ cr rr o')
      ]

  -- After the client and the request were made, and the task freed.
  requested-exactly :
      (task client req : ℕ) (w : World) (message : String) (method : Bytes)
      → IsOwned (held s sock (record idle { task = some task })) w
      → (h : Handle)
      → alive
          (Call.request_set_method req method
            ∷ Call.request_new req
            ∷ Call.task_free task
            ∷ Call.task_value task (Handle.clientconn client)
            ∷ Call.printf message []
            ∷ w.log)
          h
        ≡ owned
            (held s sock (record idle { clientconn = some client; request = some req }))
            w.conn
            h
  requested-exactly task client req w m b o (Handle.task p) =
      ground (arith, o.exactly (Handle.task p))
  requested-exactly task client req w m b o (Handle.clientconn p) =
      ground (arith, o.exactly (Handle.clientconn p))
  requested-exactly task client req w m b o (Handle.request p) =
      ground (arith, o.exactly (Handle.request p))
  requested-exactly task client req w m b o h = ground (arith, o.exactly h)

  requested-IsOwned :
      (task client req : ℕ) (w : World) (message : String) (method : Bytes)
      → task ≢ null
      → req ≢ null
      → IsOwned (held s sock (record idle { task = some task })) w
      → IsOwned
          (held s sock (record idle { clientconn = some client; request = some req }))
          (record w {
            log =
                Call.request_set_method req method
                ∷ Call.request_new req
                ∷ Call.task_free task
                ∷ Call.task_value task (Handle.clientconn client)
                ∷ Call.printf message []
                ∷ w.log;
          })
  requested-IsOwned task client req w m b tr rr o = record {
    exactly = requested-exactly task client req w m b o;
    apart = o.apart;
    safe = ground (arith, o.exactly (Handle.task task), o.safe);
    connected = o.connected;
  }

  -- The value of a task of a type that has one is not NULL, also after a message was printed.
  pub value_real :
      (task : ℕ) (w : World) (message : String) (ty : TaskReturnType) (h : Handle)
      → env.task_type w.log task ≡ ty
      → value_handle ty (env.task_value (Call.printf message [] ∷ w.log) task) ≡ some h
      → env.task_value (Call.printf message [] ∷ w.log) task ≢ null
  value_real task w message ty h e v =
      (laws.task_value_fresh (Call.printf message [] ∷ w.log) task h
        (rw (laws.task_type_kept w.log message [] task, e) v)).0

  prepare_request-After :
      (host path : Bytes) (task : ℕ) (w : World)
      → task ≢ null
      → env.task_type w.log task ≡ task_clientconn
      → IsOwned (held s sock (record idle { task = some task })) w
      → let after = prepare_request env host path s task w in After s sock after.0 after.1
  unfolding prepare_request
  prepare_request-After host path task w tr e o =
      let v = Call.printf "preparing http request ...\n" [] ∷ w.log in
      let client = env.task_value v task in
      let v' = Call.task_free task ∷ Call.task_value task (Handle.clientconn client) ∷ v in
      let req = env.request_new v' in
      let rr = (laws.request_new_fresh v').0 in
      let o' =
        requested-IsOwned task client req w "preparing http request ...\n" (codes "GET") tr rr o in
      elim (Bool-cases
        (failed (env.request_set_method (Call.request_new req ∷ v') req (codes "GET")))) [
          | inl bad ↦ rw (bad, branch) (tt, tt, o'.safe)
          | inr good ↦
              rw (good, branch)
                (set_uri-After host path client req _
                  (value_real task w "preparing http request ...\n" task_clientconn _ e refl) rr o')
        ]

  print_error-IsSafe :
      (err : ℕ) (w : World)
      → err ≢ null
      → alive w.log (Handle.error err) ≡ true
      → IsSafe w.log
      → IsSafe (print_error env err w).1.log
  unfolding print_error
  print_error-IsSafe err w r a s = ground (arith, a)

  -- A task that failed: its error is printed and freed, and the program exits with 1.
  pub task_failed-After :
      (message : String) (task : ℕ) (w : World)
      → task ≢ null
      → IsOwned (held s sock (record idle { task = some task })) w
      → let after = task_failed env message task w in After s sock after.0 after.1
  unfolding task_failed
  task_failed-After message task w tr o =
      let v = Call.printf message [] ∷ w.log in
      let err = env.task_value v task in
      let w' = record w { log = Call.task_value task (Handle.error err) ∷ v } in
      let safe : IsSafe w'.log =
        (tt, (o.exactly (Handle.task task) ∙ ==-refl task, tr, tt), (tt, tt, o.safe)) in
      elim (Bool-cases (is_null err)) [
        | inl none_ ↦ rw (none_, branch) safe
        | inr some_ ↦
            rw (some_, branch) (print_error-IsSafe err w' (ground arith) (ground arith) safe)
      ]

  pub on_handshake-After :
      (host path : Bytes) (task : ℕ) (ty : TaskReturnType) (w : World)
      → task ≢ null
      → env.task_type w.log task ≡ ty
      → IsOwned (held s sock (record idle { task = some task })) w
      → let after = on_handshake env host path s task ty w in After s sock after.0 after.1
  unfolding on_handshake
  on_handshake-After host path task task_error w tr e o = task_failed-After _ task w tr o
  on_handshake-After host path task task_clientconn w tr e o =
      prepare_request-After host path task w tr e o
  on_handshake-After host path task _ w tr e o = o.safe
