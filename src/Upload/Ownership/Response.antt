-- ===== src/Upload/Ownership/Response.antt =====
-- The handlers of Upload.antt for the response, its body and the file: what they own, take and free.
use llgoexamples.Base.{ℕ, ◌≡◌, ◌≢◌, refl, ◌∙◌, some, List, [], ◌∷◌, Bytes, null, arith, ==-refl}
use llgoexamples.Hyper.{TaskReturnType, task_error, task_response}
use llgoexamples.Hyper.Calls.{Arg, Call, Handle, Headers}
use llgoexamples.Hyper.Env.{Env, Laws}
use llgoexamples.Hyper.Ledger.{alive}
use llgoexamples.World.{World, Verdict}
use llgoexamples.Conn.Ownership.{owned, IsOwned, call-IsOwned}
use llgoexamples.Client.{foreach_header}
use llgoexamples.Client.Ownership.Response.{foreach_header-IsOwned}
use llgoexamples.Upload.{Callback, Context, start_body, read_response, on_send}
use llgoexamples.Upload.Ownership.{Temps, idle, held, After, IsContext}

-- While the response's body `b` is read.
abbrev pub reading : ℕ → Temps
reading b = record idle { body = some b }

abbrev with_response : ℕ → Temps
with_response resp = record idle { response = some resp }

module _ (env : Env Callback) (laws : Laws env) (x : Context) (sock : ℕ) (valid : IsContext x) where
  start_body-exactly :
      (resp : ℕ) (w : World)
      → IsOwned (held x sock (with_response resp)) w
      → (h : Handle)
      → let after = start_body env x.setup resp w in
        alive after.1.log h ≡ owned (held x sock (reading after.0.1)) after.1.conn h
  unfolding start_body
  start_body-exactly resp w o (Handle.task p) = ground (arith, o.exactly (Handle.task p))
  start_body-exactly resp w o (Handle.response p) = ground (arith, o.exactly (Handle.response p))
  start_body-exactly resp w o (Handle.body p) = ground (arith, o.exactly (Handle.body p))
  start_body-exactly resp w o h = ground (arith, o.exactly h)

  -- Handlers that may set `resp_body`.
  abbrev pub AfterSend : (Verdict × ℕ) × World → Type 0
  AfterSend after =
      After x sock (reading after.0.1) after.0.0 after.1
      × (after.0.0 ≡ Verdict.next → after.0.1 ≢ null)

  start_body-After :
      (resp : ℕ) (w : World)
      → resp ≢ null
      → IsOwned (held x sock (with_response resp)) w
      → AfterSend (start_body env x.setup resp w)
  unfolding start_body
  start_body-After resp w rr o =
      let v = Call.printf "\n" [] ∷ w.log in
      let v' = Call.response_body resp (env.response_body v) ∷ v in
      (
        record {
          exactly = unfold start_body in start_body-exactly resp w o;
          apart = o.apart;
          safe = ground (
            arith,
            o.exactly (Handle.response resp),
            o.exactly (Handle.executor x.setup.exec),
            o.safe,
            laws.response_body_fresh v,
            laws.body_data_fresh v',
            valid.exec_real,
          );
          connected = o.connected;
        },
        λ _. (laws.response_body_fresh v).0,
      )

  -- After the response was taken and the task freed.
  responded-exactly :
      (task resp : ℕ) (w : World)
      → IsOwned (held x sock (record idle { task = some task })) w
      → (h : Handle)
      → alive (Call.task_free task ∷ Call.task_value task (Handle.response resp) ∷ w.log) h
        ≡ owned (held x sock (with_response resp)) w.conn h
  responded-exactly task resp w o (Handle.task p) = ground (arith, o.exactly (Handle.task p))
  responded-exactly task resp w o (Handle.response p) =
      ground (arith, o.exactly (Handle.response p))
  responded-exactly task resp w o h = ground (arith, o.exactly h)

  -- The status and the headers are read and printed, for whatever they are.
  described-After :
      (resp : ℕ) (args : List Arg) (hs : List (Bytes × Bytes)) (w : World)
      → resp ≢ null
      → IsOwned (held x sock (with_response resp)) w
      → let v = record w {
        log =
            Call.headers_foreach (Headers.of_response resp)
            ∷ Call.printf "\nResponse Status: %d\n" args
            ∷ Call.response_status resp
            ∷ w.log;
      } in
        AfterSend (start_body env x.setup resp (foreach_header hs v).1)
  described-After resp args hs w rr o =
      let used = ==-refl resp in
      let o2 =
        call-IsOwned (Call.response_status resp) w refl refl
          (o.exactly (Handle.response resp) ∙ used, rr, tt) o in
      let o4 = call-IsOwned (Call.printf "\nResponse Status: %d\n" args) _ refl refl tt o2 in
      let o5 =
        call-IsOwned (Call.headers_foreach (Headers.of_response resp)) _ refl refl
          (o4.exactly (Handle.response resp) ∙ used, rr, tt) o4 in
      start_body-After resp _ rr (foreach_header-IsOwned hs _ o5)

  read_response-After :
      (task : ℕ) (w : World)
      → task ≢ null
      → env.task_type w.log task ≡ task_response
      → IsOwned (held x sock (record idle { task = some task })) w
      → AfterSend (read_response env x.setup task w)
  unfolding read_response
  read_response-After task w tr e o =
      let resp = env.task_value w.log task in
      let rr : resp ≢ null =
        (laws.task_value_fresh w.log task (Handle.response resp) (rw e refl)).0 in
      let w1 = record w {
        log = Call.task_free task ∷ Call.task_value task (Handle.response resp) ∷ w.log;
      } in
      let o1 : IsOwned (held x sock (with_response resp)) w1 = record {
        exactly = responded-exactly task resp w o;
        apart = o.apart;
        safe = ground (arith, o.exactly (Handle.task task), o.safe);
        connected = o.connected;
      } in
      let args = Arg.int (env.response_status w1.log resp) ∷ [] in
      let hs =
        env.response_headers
          (Call.printf "\nResponse Status: %d\n" args ∷ Call.response_status resp ∷ w1.log) resp in
      described-After resp args hs w1 rr o1

  pub on_send-After :
      (b task : ℕ) (ty : TaskReturnType) (w : World)
      → task ≢ null
      → env.task_type w.log task ≡ ty
      → IsOwned (held x sock (record idle { task = some task })) w
      → AfterSend (on_send env x.setup b task ty w)
  unfolding on_send
  on_send-After b task task_error w tr e o = ((tt, tt, o.safe), λ h. cc)
  on_send-After b task task_response w tr e o = read_response-After task w tr e o
  on_send-After b task _ w tr e o = (o.safe, λ h. cc)
