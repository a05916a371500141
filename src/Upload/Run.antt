-- ===== src/Upload/Run.antt =====
-- Every run of the loop of Upload.antt keeps the invariant, or ends as `Final` says.
use llgoexamples.Base.{ℕ, zero, suc, ◌≡◌, ◌⊎◌, refl, ◌∙◌, ◌∷◌, [], inl, inr, ==-refl}
use llgoexamples.Hyper.Calls.{Arg, Call, Handle}
use llgoexamples.Hyper.Env.{Env, Laws, Reaction}
use llgoexamples.World.{World, M, call, Verdict, Outcome}
use llgoexamples.Conn.{wait_io}
use llgoexamples.Conn.Ownership.{
  call-IsOwned, read_cb-IsOwned, write_cb-IsOwned, wait_io-IsOwned, wait_io_cases,
}
use llgoexamples.Exchange.{read_cb-IsKept, write_cb-IsKept, wait_io-IsKept}
use llgoexamples.Upload.{
  Callback, poll_req_upload, print_informational, Context, react, step, conclude, run,
}
use llgoexamples.Upload.Ownership.{held, IsContext}
use llgoexamples.Upload.Ownership.Body.{poll_req_upload-IsOwned}
use llgoexamples.Upload.Progress.{poll_req_upload-IsKept}
use llgoexamples.Upload.Loop.{Inv, Inv-kept, Inv-IsSafe, Ends, Final, on_task-Ends}

module _ (env : Env Callback) (laws : Laws env) (x : Context) (sock : ℕ) (valid : IsContext x) where
  -- A poll that finds nothing ready uses the executor, which is alive.
  polled_none-Inv :
      {b : ℕ} {w : World}
      → Inv x sock b w
      → Inv x sock b (call (Call.executor_poll_none x.setup.exec) w).1
  polled_none-Inv {b} {w} v =
      Inv-kept env laws x sock valid (call (Call.executor_poll_none x.setup.exec) w).1
        (record { userdata = λ t. refl; sent_requests = refl; asked_bodies = refl })
        (λ t o.
          call-IsOwned (Call.executor_poll_none x.setup.exec) w refl refl
            (o.exactly (Handle.executor x.setup.exec) ∙ ==-refl x.setup.exec, valid.exec_real, tt)
            o)
        v

  wait_io-Ends :
      (b : ℕ) (w : World) → Inv x sock b w → Ends x sock (wait_io env w).0 b (wait_io env w).1
  wait_io-Ends b w v = waited (wait_io_cases env w)
    where
      v' : Inv x sock b (wait_io env w).1
      v' =
          Inv-kept env laws x sock valid (wait_io env w).1 (wait_io-IsKept env w)
            (λ t o. wait_io-IsOwned env laws (held x sock t) w o) v

      waited :
          ((wait_io env w).0 ≡ Verdict.next) ⊎ ((wait_io env w).0 ≡ Verdict.exit 1)
          → Ends x sock (wait_io env w).0 b (wait_io env w).1
      waited (inl next) = rw next v'
      waited (inr failed) = rw failed (Inv-IsSafe x sock v')

  react-Ends :
      (b : ℕ) (w : World) (r : Reaction Callback)
      → env.executor_poll w.log ≡ r
      → Inv x sock b w
      → let after = react env x b r w in Ends x sock after.0.0 after.0.1 after.1
  unfolding react
  react-Ends b w (Reaction.reads n) e v =
      Inv-kept env laws x sock valid _ (read_cb-IsKept env n w)
        (λ t o. read_cb-IsOwned env laws (held x sock t) n w o) v
  react-Ends b w (Reaction.writes buf) e v =
      Inv-kept env laws x sock valid _ (write_cb-IsKept env buf w)
        (λ t o. write_cb-IsOwned env laws (held x sock t) buf w o) v
  react-Ends b w (Reaction.calls poll_req_upload) e v =
      Inv-kept env laws x sock valid _ (poll_req_upload-IsKept env x w)
        (λ t o. poll_req_upload-IsOwned env laws x sock valid t w o) v
  react-Ends b w (Reaction.calls (print_informational status)) e v =
      Inv-kept env laws x sock valid _
        (record { userdata = λ t. refl; sent_requests = refl; asked_bodies = refl })
        (λ t o.
          call-IsOwned (Call.printf "\nInformational (1xx): %d\n" (Arg.int status ∷ [])) _ refl refl
            tt (call-IsOwned (Call.lent_response_status status) w refl refl tt o))
        v
  react-Ends b w Reaction.waits e v = wait_io-Ends b _ (polled_none-Inv v)
  react-Ends b w (Reaction.finished task) e v =
      on_task-Ends env laws x sock valid b task w (laws.poll_returns w.log task e).0 v

  -- One step keeps the invariant or ends the program, whatever hyper and the system answer.
  pub step-Ends :
      (b : ℕ) (w : World)
      → Inv x sock b w
      → let after = step env x b w in Ends x sock after.0.0 after.0.1 after.1
  unfolding step
  step-Ends b w v = react-Ends b w (env.executor_poll w.log) refl v

  conclude-Final :
      (again : ℕ → M Outcome) (v : Verdict) (b : ℕ) (w : World)
      → Ends x sock v b w
      → (Inv x sock b w → Final x sock (again b w).0 (again b w).1)
      → let after = conclude env x again (v, b) w in Final x sock after.0 after.1
  conclude-Final again Verdict.next b w e more = more e
  conclude-Final again (Verdict.exit zero) b w e more = e
  conclude-Final again (Verdict.exit (suc n)) b w e more = e
  conclude-Final again Verdict.abort b w e more = e

  pub run-Final :
      (fuel b : ℕ) (w : World)
      → Inv x sock b w
      → let after = run env x fuel b w in Final x sock after.0 after.1
  unfolding run
  run-Final zero b w v = Inv-IsSafe x sock v
  run-Final (suc fuel) b w v =
      let after = step env x b w in
      conclude-Final (run env x fuel) after.0.0 after.0.1 after.1 (step-Ends b w v)
        (run-Final fuel after.0.1 after.1)
