-- ===== src/Client/Start.antt =====
-- `main` of Client.antt up to its loop: what the set-up establishes, and what holds of the program if
-- it holds of the loop.
use llgoexamples.Base.{
  ℕ, ◌≤◌, ◌≡◌, refl, ◌∙◌, false, not, Option, none, some, List, [], ◌∷◌, Bytes, ◌≢◌, null, arith,
  inl, inr, Bool-cases, ==-refl, codes, get_or,
}
use llgoexamples.Hyper.Calls.{Arg, Call, Handle}
use llgoexamples.Hyper.Env.{Env, Laws, userdata_of}
use llgoexamples.Hyper.Ledger.{alive, IsSafe}
use llgoexamples.World.{World, call, branch, Outcome}
use llgoexamples.Conn.Ownership.{owned}
use llgoexamples.Connect.{connect_to}
use llgoexamples.Connect.Sockets.{Connected, connect_to-Connected}
use llgoexamples.Client.{Callback, Setup, set_up, run, connected_main, main}
use llgoexamples.Client.Ownership.{idle, held}
use llgoexamples.Exchange.{requests, bodies, start, IsReady, IsKept, connect_to-IsKept}
use llgoexamples.Client.Progress.{handshaking}
use llgoexamples.Client.Loop.{Inv}

module _ (env : Env Callback) (laws : Laws env) (sock : ℕ) where
  set_up-exactly :
      (w : World)
      → IsReady sock w
      → (h : Handle)
      → alive (set_up env sock w).1.log h
        ≡ owned (held (set_up env sock w).0 sock idle) (set_up env sock w).1.conn h
  unfolding set_up
  set_up-exactly w r (Handle.mem p) = ground (arith, r.exactly (Handle.mem p))
  set_up-exactly w r (Handle.waker p) = ground (arith, r.exactly (Handle.waker p))
  set_up-exactly w r (Handle.io p) = ground (arith, r.exactly (Handle.io p))
  set_up-exactly w r (Handle.options p) = ground (arith, r.exactly (Handle.options p))
  set_up-exactly w r (Handle.executor p) = ground (arith, r.exactly (Handle.executor p))
  set_up-exactly w r (Handle.task p) = ground (arith, r.exactly (Handle.task p))
  set_up-exactly w r h = ground (arith, r.exactly h)

  pub set_up-Inv :
      (w : World)
      → IsReady sock w
      → Inv (set_up env sock w).0 sock (set_up env sock w).1
        × ((set_up env sock w).0.exec ≢ null)
        × ((set_up env sock w).0.at ≢ null)
  unfolding set_up
  set_up-Inv w r =
      let l1 = Call.malloc (env.malloc w.log) ∷ w.log in
      let i = env.io_new l1 in
      let l2 =
        Call.printf "http handshake (hyper v%s) ...\n" (Arg.text env.version ∷ [])
        ∷ Call.io_set_write i
        ∷ Call.io_set_read i
        ∷ Call.io_set_userdata i (env.malloc w.log)
        ∷ Call.io_new i
        ∷ l1 in
      let e = env.executor_new l2 in
      let l3 = Call.executor_new e ∷ l2 in
      let o = env.options_new l3 in
      let l4 = Call.options_exec o e ∷ Call.options_new o ∷ l3 in
      (
        record {
          ownership = record {
            exactly = unfold set_up in set_up-exactly w r;
            apart = λ _. refl;
            safe = ground (
              arith,
              r.safe,
              laws.malloc_fresh w.log,
              laws.io_new_fresh l1,
              laws.executor_new_fresh l2,
              laws.options_new_fresh l3,
              laws.clientconn_handshake_fresh l4,
            );
            connected = ==-refl sock;
          };
          stage = handshaking (env.clientconn_handshake l4) (record {
            tagged = λ t. ground (arith, r.untagged t);
            sent_requests = r.no_request;
            asked_bodies = r.no_body;
          });
        },
        (laws.executor_new_fresh l2).0,
        (laws.malloc_fresh w.log).0,
      )

-- The state when the set-up begins: the socket is non-blocking.
abbrev pub greeted : Bytes → Bytes → ℕ → World → World
greeted host path sock w = record w {
  log =
      Call.fcntl_nonblock sock
      ∷ Call.printf "connected to %s, now get %s\n" (Arg.text host ∷ Arg.text path ∷ [])
      ∷ w.log;
}

pub greeted-IsReady :
    (host path : Bytes) (sock : ℕ) (w : World)
    → IsReady sock w
    → IsReady sock (greeted host path sock w)
greeted-IsReady host path sock w r = record {
  exactly = r.exactly;
  safe = (tt, (r.exactly (Handle.fd sock) ∙ ==-refl sock, tt, tt), (tt, tt, r.safe));
  untagged = r.untagged;
  no_request = r.no_request;
  no_body = r.no_body;
}

-- `connect_to` succeeded where nothing was open.
pub Connected-IsReady :
    (sock : ℕ) (w v : World)
    → ((h : Handle) → alive w.log h ≡ false)
    → ((t : ℕ) → userdata_of w.log t ≡ null)
    → requests w.log ≡ 0
    → bodies w.log ≡ 0
    → Connected w (some sock) v
    → IsKept w.log v.log
    → IsReady sock v
Connected-IsReady sock w v a u n m c k = record {
  exactly = λ h. c.exactly h ∙ ground (arith, a h);
  safe = c.safe;
  untagged = λ t. k.userdata t ∙ u t;
  no_request = k.sent_requests ∙ n;
  no_body = k.asked_bodies ∙ m;
}

-- What holds of the loop whenever it is entered after the set-up, and of the early exits, holds of
-- the program.
module _ (env : Env Callback) (laws : Laws env) (fuel : ℕ) (Holds : Outcome → World → Type 0)
    (looped : (host path : Bytes) (s : Setup) (sock : ℕ) (w : World)
      → s.exec ≢ null
      → s.at ≢ null
      → Inv s sock w
      → let after = run env fuel host path s w in Holds after.0 after.1)
    (stopped : (w : World) → IsSafe w.log → requests w.log ≤ 1 → Holds (Outcome.exited 1) w) where
  connected_main-Holds :
      (host path : Bytes) (sock : ℕ) (w : World)
      → IsReady sock w
      → let after = connected_main env fuel host path (some sock) w in Holds after.0 after.1
  unfolding connected_main
  connected_main-Holds host path sock w r =
      let w1 = greeted host path sock w in
      let r1 = greeted-IsReady host path sock w r in
      elim (Bool-cases (
        not (
          env.fcntl_nonblock
            (Call.printf "connected to %s, now get %s\n" (Arg.text host ∷ Arg.text path ∷ [])
              ∷ w.log)
            sock))) [
              | inl blocking ↦
                  rw (blocking, branch) (stopped _ (tt, tt, r1.safe) (omega (arith, r1.no_request)))
              | inr ready ↦
                  rw (ready, branch)
                    (let (inv, exec_real, at_real) = set_up-Inv env laws sock w1 r1 in
                      let s = (set_up env sock w1).0 in
                      looped host path s sock (set_up env sock w1).1 exec_real at_real inv)
            ]

  -- From what `connect_to` left, started where nothing was open.
  Connected-Holds :
      (host path : Bytes) (r : Option ℕ) (w v : World)
      → ((h : Handle) → alive w.log h ≡ false)
      → ((t : ℕ) → userdata_of w.log t ≡ null)
      → requests w.log ≡ 0
      → bodies w.log ≡ 0
      → Connected w r v
      → IsKept w.log v.log
      → let after = connected_main env fuel host path r v in Holds after.0 after.1
  unfolding connected_main
  Connected-Holds host path none w v a u n m c k = stopped v c.safe (omega (arith, k.sent_requests))
  Connected-Holds host path (some sock) w v a u n m c k =
      connected_main-Holds host path sock v (Connected-IsReady sock w v a u n m c k)

  pub main-Holds :
      (argv : List Bytes) → let after = main env fuel argv start in Holds after.0 after.1
  unfolding main
  main-Holds argv =
      let host = get_or argv 0 (codes "httpbin.org") in
      let port = get_or argv 1 (codes "80") in
      let w =
        (call (Call.printf "connecting to port %s on %s...\n" (Arg.text port ∷ Arg.text host ∷ []))
          start).1 in
      Connected-Holds host (get_or argv 2 (codes "/")) (connect_to env host port w).0 w
        (connect_to env host port w).1 (λ h. refl) (λ t. refl) refl refl
        (connect_to-Connected env laws host port w (tt, tt, tt)) (connect_to-IsKept env host port w)
