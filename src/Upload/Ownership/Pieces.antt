-- ===== src/Upload/Ownership/Pieces.antt =====
-- The handlers of Upload.antt for the pieces of the response's body: what they own, take and free.
use llgoexamples.Base.{some, ℕ, ◌≡◌, ◌≢◌, refl, ◌∙◌, Bool, false, ◌||◌, [], ◌∷◌, null, ◌==◌, arith}
use llgoexamples.Hyper.{TaskReturnType, task_error, task_empty, task_buf}
use llgoexamples.Hyper.Calls.{Call, Handle}
use llgoexamples.Hyper.Env.{Env, Laws}
use llgoexamples.Hyper.Ledger.{alive}
use llgoexamples.World.{World}
use llgoexamples.Conn.{free_conn_data}
use llgoexamples.Conn.Ownership.{owned, IsOwned, released, free_conn_data_lem}
use llgoexamples.Upload.{Callback, Context, write_chunk, finish, on_resp_body}
use llgoexamples.Upload.Ownership.{Temps, idle, held, left, After, IsContext}
use llgoexamples.Upload.Ownership.Response.{reading}

-- A finished task while the body `b` is read.
abbrev with_task : ℕ → ℕ → Temps
with_task b task = record idle { task = some task; body = some b }

module _ (env : Env Callback) (laws : Laws env) (x : Context) (sock : ℕ) (valid : IsContext x) where
  write_chunk-exactly :
      (b task : ℕ) (w : World)
      → IsOwned (held x sock (with_task b task)) w
      → (h : Handle)
      → let after = write_chunk env x.setup b task w in
        alive after.1.log h ≡ owned (held x sock (reading b)) after.1.conn h
  unfolding write_chunk
  write_chunk-exactly b task w o (Handle.task p) = ground (arith, o.exactly (Handle.task p))
  write_chunk-exactly b task w o (Handle.buf p) = ground (arith, o.exactly (Handle.buf p))
  write_chunk-exactly b task w o h = ground (arith, o.exactly h)

  write_chunk-After :
      (b task : ℕ) (w : World)
      → task ≢ null
      → b ≢ null
      → env.task_type w.log task ≡ task_buf
      → IsOwned (held x sock (with_task b task)) w
      → let after = write_chunk env x.setup b task w in After x sock (reading b) after.0 after.1
  unfolding write_chunk
  write_chunk-After b task w tr br e o =
      let chunk = env.task_value w.log task in
      let cr : chunk ≢ null = (laws.task_value_fresh w.log task (Handle.buf chunk) (rw e refl)).0 in
      let bytes = env.buf_bytes (Call.task_value task (Handle.buf chunk) ∷ w.log) chunk in
      let v =
        Call.task_free task
        ∷ Call.buf_free chunk
        ∷ Call.write_stdout bytes
        ∷ Call.buf_bytes chunk
        ∷ Call.task_value task (Handle.buf chunk)
        ∷ w.log in
      record {
        exactly = unfold write_chunk in write_chunk-exactly b task w o;
        apart = o.apart;
        safe = ground (
          arith,
          o.exactly (Handle.task task),
          o.exactly (Handle.body b),
          o.exactly (Handle.executor x.setup.exec),
          o.safe,
          laws.body_data_fresh v,
          valid.exec_real,
          cr,
        );
        connected = o.connected;
      }

  -- When the executor and the last task are freed.
  abbrev closing : Handle → Bool
  closing (Handle.fd p) = sock == p || x.upload.fd == p
  closing (Handle.mem p) = x.setup.at == p || x.upload.buf == p
  closing _ = false

  closing-exactly :
      (b task : ℕ) (w : World)
      → IsOwned (held x sock (with_task b task)) w
      → (h : Handle)
      → alive
          (Call.executor_free x.setup.exec
            ∷ Call.printf "\n -- Done! -- \n" []
            ∷ Call.body_free b
            ∷ Call.task_free task
            ∷ w.log)
          h
        ≡ owned closing w.conn h
  closing-exactly b task w o (Handle.task p) = ground (arith, o.exactly (Handle.task p))
  closing-exactly b task w o (Handle.body p) = ground (arith, o.exactly (Handle.body p))
  closing-exactly b task w o (Handle.executor p) = ground (arith, o.exactly (Handle.executor p))
  closing-exactly b task w o h = ground (arith, o.exactly h)

  finished-exactly :
      (w : World)
      → ((h : Handle) → alive w.log h ≡ released x.setup.at closing h)
      → (h : Handle) → alive (Call.free x.upload.buf ∷ w.log) h ≡ left x sock h
  finished-exactly w f (Handle.mem p) = ground (arith, f (Handle.mem p), valid.apart)
  finished-exactly w f (Handle.task p) = f (Handle.task p)
  finished-exactly w f h = f h

  finish-After :
      (b task : ℕ) (w : World)
      → task ≢ null
      → b ≢ null
      → IsOwned (held x sock (with_task b task)) w
      → let after = finish env x.upload x.setup b task w in After x sock (reading b) after.0 after.1
  unfolding finish
  finish-After b task w tr br o =
      let w' = record w {
        log =
            Call.executor_free x.setup.exec
            ∷ Call.printf "\n -- Done! -- \n" []
            ∷ Call.body_free b
            ∷ Call.task_free task
            ∷ w.log;
      } in
      let o' : IsOwned closing w' = record {
        exactly = closing-exactly b task w o;
        apart = o.apart;
        safe = ground (
          arith,
          o.exactly (Handle.task task),
          o.exactly (Handle.body b),
          valid.exec_real,
          o.exactly (Handle.executor x.setup.exec),
          o.safe,
        );
        connected = o.connected;
      } in
      let (freed, safe) = free_conn_data_lem x.setup.at w' o' (ground arith) valid.at_real in
      (
        finished-exactly (free_conn_data x.setup.at w').1 freed,
        (
          (freed (Handle.mem x.upload.buf) ∙ ground (arith, valid.apart), valid.buf_real, tt),
          tt,
          safe,
        ),
      )

  pub on_resp_body-After :
      (b task : ℕ) (ty : TaskReturnType) (w : World)
      → task ≢ null
      → b ≢ null
      → env.task_type w.log task ≡ ty
      → IsOwned (held x sock (with_task b task)) w
      → let after = on_resp_body env x.upload x.setup b task ty w in
        After x sock (reading b) after.0 after.1
  unfolding on_resp_body
  on_resp_body-After b task task_error w tr br e o = (tt, tt, o.safe)
  on_resp_body-After b task task_buf w tr br e o = write_chunk-After b task w tr br e o
  on_resp_body-After b task task_empty w tr br e o = finish-After b task w tr br o
  on_resp_body-After b task _ w tr br e o = o.safe
