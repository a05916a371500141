-- ===== src/Upload/Whole.antt =====
-- From the set-up of Upload.Start to the loop of Upload.antt: what holds of the program if it holds of
-- the loop.
use llgoexamples.Base.{
  Bool, true, false, ℕ, ◌≡◌, ◌≢◌, refl, ◌∙◌, not, Option, none, some, List, [], ◌∷◌, Bytes, null,
  SysResult, ret, errno, arith, inl, inr, Bool-cases, codes, get_or,
}
use llgoexamples.Hyper.Calls.{Arg, Call, Handle}
use llgoexamples.Hyper.Env.{Env, Laws}
use llgoexamples.Hyper.Ledger.{alive, IsSafe}
use llgoexamples.World.{World, call, branch, Outcome}
use llgoexamples.Connect.{connect_to}
use llgoexamples.Connect.Sockets.{Connected, connect_to-Connected}
use llgoexamples.Exchange.{requests, start, IsKept, connect_to-IsKept}
use llgoexamples.Client.{set_up}
use llgoexamples.Upload.{Callback, Context, run, connected_main, opened_main, main}
use llgoexamples.Upload.Ownership.{IsContext}
use llgoexamples.Upload.Transfers.{transfers}
use llgoexamples.Upload.Transfers.Handlers.{Quiet-connect_to}
use llgoexamples.Upload.Loop.{Inv}
use llgoexamples.Upload.Start.{
  linked_as, IsExcused, opened_as, Entered, IsReady, opened, context, set_up-transfers, set_up-fd,
  set_up-IsContext, set_up-Inv, IsOpened,
}

not-true : (b : Bool) → not b ≡ true → b ≡ false
not-true true e = cc
not-true false e = refl

-- `Holds` is to hold of the loop whenever it is entered after the set-up, and of the exits before it.
module _ (env : Env Callback) (laws : Laws env) (fuel : ℕ) (Holds : Outcome → World → Type 0)
    (argv : List Bytes)
    (looped : (x : Context) (sock : ℕ) (w : World)
      → IsContext x
      → Entered env argv sock x w
      → Inv x sock null w
      → let after = run env x fuel null w in Holds after.0 after.1)
    (stopped : (w : World)
      → IsSafe w.log
      → requests w.log ≡ 0
      → ((f : ℕ) → transfers f w.log ≡ [])
      → IsExcused env argv
      → Holds (Outcome.exited 1) w)
    (host path : Bytes) (file : ℕ) (named : opened_as env argv ≡ ret file) where
  -- From the socket that `connect_to` returned.
  linked-exactly :
      (sock buf : ℕ) (w v : World)
      → IsOpened file w
      → Connected w (some sock) v
      → (h : Handle)
      → alive
          (Call.malloc buf
            ∷ Call.fcntl_nonblock sock
            ∷ Call.printf "connected to %s, now upload to %s\n" (Arg.text host ∷ Arg.text path ∷ [])
            ∷ v.log)
          h
        ≡ opened sock file buf h
  linked-exactly sock buf w v r c (Handle.fd p) =
      ground (arith, c.exactly (Handle.fd p), r.exactly (Handle.fd p))
  linked-exactly sock buf w v r c (Handle.mem p) =
      ground (arith, c.exactly (Handle.mem p), r.exactly (Handle.mem p))
  linked-exactly sock buf w v r c (Handle.task p) =
      ground (arith, c.exactly (Handle.task p), r.exactly (Handle.task p))
  linked-exactly sock buf w v r c h = ground (arith, c.exactly h, r.exactly h)

  connected_main-Holds :
      (s : Option ℕ) (w v : World)
      → linked_as env argv ≡ s
      → IsOpened file w
      → Connected w s v
      → IsKept w.log v.log
      → ((f : ℕ) → transfers f v.log ≡ transfers f w.log)
      → let after = connected_main env fuel host path file s v in Holds after.0 after.1
  unfolding connected_main
  connected_main-Holds none w v linked r c k q =
      stopped v c.safe (k.sent_requests ∙ r.no_request) (λ f. q f ∙ r.untouched f)
        (inr (inl linked))
  connected_main-Holds (some sock) w v linked r c k q =
      let l1 =
        Call.printf "connected to %s, now upload to %s\n" (Arg.text host ∷ Arg.text path ∷ [])
        ∷ v.log in
      let l2 = Call.fcntl_nonblock sock ∷ l1 in
      let buf = env.malloc l2 in
      let w2 = record v { log = Call.malloc buf ∷ l2 } in
      let apart : sock ≢ file = ground (arith, c.fresh, r.exactly (Handle.fd sock)) in
      let safe : IsSafe l2 = (
        tt,
        (c.exactly (Handle.fd sock) ∙ ground (arith, r.exactly (Handle.fd sock)), tt, tt),
        (tt, tt, c.safe),
      ) in
      elim (Bool-cases (not (env.fcntl_nonblock l1 sock))) [
        | inl blocking ↦
            rw (blocking, branch)
              (stopped _ (tt, tt, safe) (k.sent_requests ∙ r.no_request) (λ f. q f ∙ r.untouched f)
                (inr (inr (l1, sock, not-true _ blocking))))
        | inr ready ↦
            rw (ready, branch)
              (let r2 : IsReady sock file buf w2 = record {
                exactly = linked-exactly sock buf w v r c;
                safe = (tt, tt, safe);
                untagged = λ t. k.userdata t ∙ r.untagged t;
                no_request = k.sent_requests ∙ r.no_request;
                no_body = k.asked_bodies ∙ r.no_body;
              } in
                let br = (laws.malloc_fresh l2).0 in
                let x = context env laws host path sock file buf w2 r2 br in
                unfold context in
                looped x sock (set_up env sock w2).1
                  (set_up-IsContext env laws host path sock file buf w2 r2 br)
                  (record {
                    opened = named;
                    linked = linked;
                    parted = apart;
                    room = refl;
                    apart = rw (set_up-fd env sock w2) apart;
                    untouched = set_up-transfers env sock file w2 ∙ q file ∙ r.untouched file;
                  })
                  (set_up-Inv env laws host path sock file buf w2 r2 br null))
      ]

  -- From the descriptor that `open` returned.
  opened_main-Holds :
      (port : Bytes) (w : World)
      → linked_as env argv
        ≡ (connect_to env host port
            (call
              (Call.printf "connecting to port %s on %s...\n" (Arg.text port ∷ Arg.text host ∷ []))
              w).1).0
      → IsOpened file w
      → let after = opened_main env fuel host path port (ret file) w in Holds after.0 after.1
  unfolding opened_main
  opened_main-Holds port w linked r =
      let w' =
        (call (Call.printf "connecting to port %s on %s...\n" (Arg.text port ∷ Arg.text host ∷ []))
          w).1 in
      let r' : IsOpened file w' = record {
        untouched = r.untouched;
        exactly = r.exactly;
        safe = (tt, tt, r.safe);
        untagged = r.untagged;
        no_request = r.no_request;
        no_body = r.no_body;
      } in
      connected_main-Holds (connect_to env host port w').0 w' (connect_to env host port w').1 linked
        r' (connect_to-Connected env laws host port w' r'.safe) (connect_to-IsKept env host port w')
        (λ f. (Quiet-connect_to f env host port).silent w')

module _ (env : Env Callback) (laws : Laws env) (fuel : ℕ) (Holds : Outcome → World → Type 0)
    (argv : List Bytes)
    (looped : (x : Context) (sock : ℕ) (w : World)
      → IsContext x
      → Entered env argv sock x w
      → Inv x sock null w
      → let after = run env x fuel null w in Holds after.0 after.1)
    (stopped : (w : World)
      → IsSafe w.log
      → requests w.log ≡ 0
      → ((f : ℕ) → transfers f w.log ≡ [])
      → IsExcused env argv
      → Holds (Outcome.exited 1) w) where
  answered-Holds :
      (host path port name : Bytes) (r : SysResult ℕ)
      → opened_as env argv ≡ r
      → linked_as env argv
        ≡ (connect_to env host port
            (call
              (Call.printf "connecting to port %s on %s...\n" (Arg.text port ∷ Arg.text host ∷ []))
              (call (Call.open_file name r) start).1).1).0
      → let after = opened_main env fuel host path port r (call (Call.open_file name r) start).1 in
        Holds after.0 after.1
  unfolding opened_main
  answered-Holds host path port name (errno e) named linked =
      stopped _ (tt, tt, (tt, tt, tt)) refl (λ f. refl) (inl (e, named))
  answered-Holds host path port name (ret file) named linked =
      unfold opened_main in
      opened_main-Holds env laws fuel Holds argv looped stopped host path file named port
        (call (Call.open_file name (ret file)) start).1 linked
        (record {
          untouched = λ f. refl;
          exactly = λ h. ground arith;
          safe = (tt, tt, tt);
          untagged = λ t. refl;
          no_request = refl;
          no_body = refl;
        })

module _ (env : Env Callback) (laws : Laws env) (fuel : ℕ) (Holds : Outcome → World → Type 0) where
  pub main-Holds :
      (argv : List Bytes)
      → ((w : World)
          → IsSafe w.log
          → requests w.log ≡ 0
          → ((f : ℕ) → transfers f w.log ≡ [])
          → IsExcused env argv
          → Holds (Outcome.exited 1) w)
      → ((x : Context) (sock : ℕ) (w : World)
          → IsContext x
          → Entered env argv sock x w
          → Inv x sock null w
          → let after = run env x fuel null w in Holds after.0 after.1)
      → let after = main env fuel argv start in Holds after.0 after.1
  unfolding main
  main-Holds [] stopped looped = stopped _ (tt, tt, tt) refl (λ f. refl) (inl (0, refl))
  main-Holds (file ∷ argv) stopped looped =
      unfold main in
      answered-Holds env laws fuel Holds (file ∷ argv) looped stopped
        (get_or argv 0 (codes "httpbin.org")) (get_or argv 2 (codes "/post"))
        (get_or argv 1 (codes "80")) file (env.open_file [] file) refl refl
