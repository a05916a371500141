-- ===== src/Client/Ownership/Response.antt =====
-- The handlers of Client.antt for the response and its body: what they own, take and free.
use llgoexamples.Base.{
  ℕ, ◌≡◌, refl, ◌∙◌, Bool, false, some, List, [], ◌∷◌, Bytes, ◌≢◌, null, ◌==◌, arith, ==-refl,
}
use llgoexamples.Hyper.{TaskReturnType, task_error, task_response, task_empty}
use llgoexamples.Hyper.Calls.{Arg, Call, Handle, Headers}
use llgoexamples.Hyper.Env.{Env, Laws}
use llgoexamples.Hyper.Ledger.{alive, same_handle}
use llgoexamples.World.{World}
use llgoexamples.Conn.Ownership.{owned, IsOwned, call-IsOwned, released, free_conn_data_lem}
use llgoexamples.Client.{
  Callback, Setup, foreach_header, start_body, read_response, on_send, finish, on_resp_body,
}
use llgoexamples.Client.Ownership.{Temps, idle, held, After}
use llgoexamples.Client.Ownership.Request.{task_failed-After}

module _ {rest : Handle → Bool} where
  pub foreach_header-IsOwned :
      (hs : List (Bytes × Bytes)) (w : World)
      → IsOwned rest w
      → IsOwned rest (foreach_header hs w).1
  unfolding foreach_header
  foreach_header-IsOwned [] w o = o
  foreach_header-IsOwned ((name, value) ∷ hs) w o =
      foreach_header-IsOwned hs _ (call-IsOwned _ w refl refl tt o)

module _ (env : Env Callback) (laws : Laws env) (s : Setup) (sock : ℕ)
    (exec_real : s.exec ≢ null) where
  abbrev with_response : ℕ → Temps
  with_response resp = record idle { response = some resp }

  start_body-exactly :
      (resp : ℕ) (w : World)
      → IsOwned (held s sock (with_response resp)) w
      → (h : Handle)
      → alive (start_body env s resp w).1.log h
        ≡ owned (held s sock idle) (start_body env s resp w).1.conn h
  unfolding start_body
  start_body-exactly resp w o (Handle.task p) = ground (arith, o.exactly (Handle.task p))
  start_body-exactly resp w o (Handle.response p) = ground (arith, o.exactly (Handle.response p))
  start_body-exactly resp w o (Handle.body p) = ground (arith, o.exactly (Handle.body p))
  start_body-exactly resp w o h = ground (arith, o.exactly h)

  start_body-After :
      (resp : ℕ) (w : World)
      → resp ≢ null
      → IsOwned (held s sock (with_response resp)) w
      → let after = start_body env s resp w in After s sock after.0 after.1
  unfolding start_body
  start_body-After resp w rr o =
      let v = Call.printf "\n" [] ∷ w.log in
      let v' = Call.response_body resp (env.response_body v) ∷ v in
      record {
        exactly = unfold start_body in start_body-exactly resp w o;
        apart = o.apart;
        safe = ground (
          arith,
          o.exactly (Handle.response resp),
          o.exactly (Handle.executor s.exec),
          o.safe,
          laws.response_body_fresh v,
          laws.body_foreach_fresh v',
        );
        connected = o.connected;
      }

  -- After the response was taken and the task freed.
  responded-exactly :
      (task resp : ℕ) (w : World)
      → IsOwned (held s sock (record idle { task = some task })) w
      → (h : Handle)
      → alive (Call.task_free task ∷ Call.task_value task (Handle.response resp) ∷ w.log) h
        ≡ owned (held s sock (with_response resp)) w.conn h
  responded-exactly task resp w o (Handle.task p) = ground (arith, o.exactly (Handle.task p))
  responded-exactly task resp w o (Handle.response p) =
      ground (arith, o.exactly (Handle.response p))
  responded-exactly task resp w o h = ground (arith, o.exactly h)

  -- The status and the headers are read and printed, for whatever they are.
  described-After :
      (resp : ℕ) (args : List Arg) (hs : List (Bytes × Bytes)) (w : World)
      → resp ≢ null
      → IsOwned (held s sock (with_response resp)) w
      → let v = record w {
        log =
            Call.headers_foreach (Headers.of_response resp)
            ∷ Call.printf "\nResponse Status: %d %.*s\n" args
            ∷ Call.response_reason_phrase resp
            ∷ Call.response_status resp
            ∷ w.log;
      } in
        let after = start_body env s resp (foreach_header hs v).1 in After s sock after.0 after.1
  described-After resp args hs w rr o =
      let used = ==-refl resp in
      let o2 =
        call-IsOwned (Call.response_status resp) w refl refl
          (o.exactly (Handle.response resp) ∙ used, rr, tt) o in
      let o3 =
        call-IsOwned (Call.response_reason_phrase resp) _ refl refl
          (o2.exactly (Handle.response resp) ∙ used, rr, tt) o2 in
      let o4 = call-IsOwned (Call.printf "\nResponse Status: %d %.*s\n" args) _ refl refl tt o3 in
      let o5 =
        call-IsOwned (Call.headers_foreach (Headers.of_response resp)) _ refl refl
          (o4.exactly (Handle.response resp) ∙ used, rr, tt) o4 in
      start_body-After resp _ rr (foreach_header-IsOwned hs _ o5)

  read_response-After :
      (task : ℕ) (w : World)
      → task ≢ null
      → env.task_type w.log task ≡ task_response
      → IsOwned (held s sock (record idle { task = some task })) w
      → let after = read_response env s task w in After s sock after.0 after.1
  unfolding read_response
  read_response-After task w tr e o =
      let resp = env.task_value w.log task in
      let rr : resp ≢ null =
        (laws.task_value_fresh w.log task (Handle.response resp) (rw e refl)).0 in
      let w1 = record w {
        log = Call.task_free task ∷ Call.task_value task (Handle.response resp) ∷ w.log;
      } in
      let o1 : IsOwned (held s sock (with_response resp)) w1 = record {
        exactly = responded-exactly task resp w o;
        apart = o.apart;
        safe = ground (arith, o.exactly (Handle.task task), o.safe);
        connected = o.connected;
      } in
      let l1 = Call.response_status resp ∷ w1.log in
      let l2 = Call.response_reason_phrase resp ∷ l1 in
      let args =
        Arg.int (env.response_status w1.log resp)
        ∷ Arg.text (env.response_reason_phrase l1 resp)
        ∷ [] in
      let hs = env.response_headers (Call.printf "\nResponse Status: %d %.*s\n" args ∷ l2) resp in
      described-After resp args hs w1 rr o1

  pub on_send-After :
      (task : ℕ) (ty : TaskReturnType) (w : World)
      → task ≢ null
      → env.task_type w.log task ≡ ty
      → IsOwned (held s sock (record idle { task = some task })) w
      → let after = on_send env s task ty w in After s sock after.0 after.1
  unfolding on_send
  on_send-After task task_error w tr e o = task_failed-After env laws s sock exec_real _ task w tr o
  on_send-After task task_response w tr e o = read_response-After task w tr e o
  on_send-After task _ w tr e o = o.safe

  -- When the executor and the last task are freed: the socket, the struct and the wakers are left.
  abbrev closing : Handle → Bool
  closing (Handle.fd p) = sock == p
  closing (Handle.mem p) = s.at == p
  closing _ = false

  closing-exactly :
      (task : ℕ) (w : World)
      → IsOwned (held s sock (record idle { task = some task })) w
      → (h : Handle)
      → alive
          (Call.executor_free s.exec
            ∷ Call.task_free task
            ∷ Call.printf "\n -- Done! -- \n" []
            ∷ w.log)
          h
        ≡ owned closing w.conn h
  closing-exactly task w o (Handle.task p) = ground (arith, o.exactly (Handle.task p))
  closing-exactly task w o (Handle.executor p) = ground (arith, o.exactly (Handle.executor p))
  closing-exactly task w o h = ground (arith, o.exactly h)

  released-closing : (h : Handle) → released s.at closing h ≡ same_handle (Handle.fd sock) h
  released-closing (Handle.mem p) = ground arith
  released-closing (Handle.fd p) = refl
  released-closing h = refl

  finish-After :
      (task : ℕ) (w : World)
      → task ≢ null
      → s.at ≢ null
      → IsOwned (held s sock (record idle { task = some task })) w
      → let after = finish env s task w in After s sock after.0 after.1
  unfolding finish
  finish-After task w tr ar o =
      let w' = record w {
        log =
            Call.executor_free s.exec
            ∷ Call.task_free task
            ∷ Call.printf "\n -- Done! -- \n" []
            ∷ w.log;
      } in
      let o' : IsOwned closing w' = record {
        exactly = closing-exactly task w o;
        apart = o.apart;
        safe =
            ground
              (arith, o.exactly (Handle.task task), o.exactly (Handle.executor s.exec), o.safe);
        connected = o.connected;
      } in
      let (freed, safe) = free_conn_data_lem s.at w' o' (==-refl s.at) ar in
      (λ h. freed h ∙ released-closing h, safe)

  pub on_resp_body-After :
      (task : ℕ) (ty : TaskReturnType) (w : World)
      → task ≢ null
      → s.at ≢ null
      → env.task_type w.log task ≡ ty
      → IsOwned (held s sock (record idle { task = some task })) w
      → let after = on_resp_body env s task ty w in After s sock after.0 after.1
  unfolding on_resp_body
  on_resp_body-After task task_error w tr ar e o =
      task_failed-After env laws s sock exec_real _ task w tr o
  on_resp_body-After task task_empty w tr ar e o = finish-After task w tr ar o
  on_resp_body-After task _ w tr ar e o = o.safe
