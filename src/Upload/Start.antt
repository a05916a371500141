-- ===== src/Upload/Start.antt =====
-- `main` of Upload.antt up to its loop: what the set-up establishes.
use llgoexamples.Connect.{connect_to}
use llgoexamples.Base.{
  ◌⊎◌, Option, none, some, codes, get_or, ℕ, ◌≡◌, ◌≢◌, refl, Bool, false, ◌||◌, List, [], ◌∷◌,
  Bytes, null, SysResult, ret, errno, ◌==◌, arith,
}
use llgoexamples.Hyper.Calls.{Arg, Call, Handle, Log}
use llgoexamples.Hyper.Env.{Env, Laws, userdata_of}
use llgoexamples.Hyper.Ledger.{alive, IsSafe, same_handle}
use llgoexamples.World.{World, call}
use llgoexamples.Conn.Ownership.{owned}
use llgoexamples.Exchange.{requests, bodies, start}
use llgoexamples.Client.{set_up}
use llgoexamples.Upload.{Callback, Context}
use llgoexamples.Upload.Ownership.{idle, held, IsContext}
use llgoexamples.Upload.Transfers.{transfers}
use llgoexamples.Upload.Loop.{Inv, handshaking}

-- What is alive before the set-up: the socket, the file and the buffer.
abbrev pub opened : ℕ → ℕ → ℕ → Handle → Bool
opened sock file buf (Handle.fd p) = sock == p || file == p
opened sock file buf (Handle.mem p) = buf == p
opened sock file buf _ = false

pub record IsReady (sock file buf : ℕ) (w : World) : Type 0 where
  pub exactly : (h : Handle) → alive w.log h ≡ opened sock file buf h
  pub safe : IsSafe w.log
  pub untagged : (t : ℕ) → userdata_of w.log t ≡ null
  pub no_request : requests w.log ≡ 0
  pub no_body : bodies w.log ≡ 0

module _ (env : Env Callback) (laws : Laws env) (host path : Bytes) (sock file buf : ℕ) (w : World)
    (r : IsReady sock file buf w) (buf_real : buf ≢ null) where
  unfoldable pub context : Context
  context = record {
    host = host;
    path = path;
    upload = record { fd = file; buf = buf; len = 8192 };
    setup = (set_up env sock w).0;
  }

  set_up-exactly :
      (h : Handle)
      → alive (set_up env sock w).1.log h
        ≡ owned (held context sock idle) (set_up env sock w).1.conn h
  unfolding set_up context
  set_up-exactly (Handle.mem p) = ground (arith, r.exactly (Handle.mem p))
  set_up-exactly (Handle.waker p) = ground (arith, r.exactly (Handle.waker p))
  set_up-exactly (Handle.io p) = ground (arith, r.exactly (Handle.io p))
  set_up-exactly (Handle.options p) = ground (arith, r.exactly (Handle.options p))
  set_up-exactly (Handle.executor p) = ground (arith, r.exactly (Handle.executor p))
  set_up-exactly (Handle.task p) = ground (arith, r.exactly (Handle.task p))
  set_up-exactly h = ground (arith, r.exactly h)

  pub set_up-IsContext : IsContext context
  unfolding set_up context
  set_up-IsContext = record {
    exec_real = (laws.executor_new_fresh _).0;
    at_real = (laws.malloc_fresh w.log).0;
    buf_real = buf_real;
    apart = ground (arith, laws.malloc_fresh w.log, r.exactly (Handle.mem buf));
  }

  pub set_up-Inv : (b : ℕ) → Inv context sock b (set_up env sock w).1
  unfolding set_up context
  set_up-Inv b =
      let l1 = Call.malloc (env.malloc w.log) ∷ w.log in
      let i = env.io_new l1 in
      let l2 =
        Call.printf "http handshake (hyper v%s) ...\n" (Arg.text env.version ∷ [])
        ∷ Call.io_set_write i
        ∷ Call.io_set_read i
        ∷ Call.io_set_userdata i (env.malloc w.log)
        ∷ Call.io_new i
        ∷ l1 in
      let e = env.executor_new l2 in
      let l3 = Call.executor_new e ∷ l2 in
      let o = env.options_new l3 in
      let l4 = Call.options_exec o e ∷ Call.options_new o ∷ l3 in
      handshaking (env.clientconn_handshake l4)
        (record {
          tagged = λ t. ground (arith, r.untagged t);
          sent_requests = r.no_request;
          asked_bodies = r.no_body;
        })
        (record {
          exactly = unfold set_up context in set_up-exactly;
          apart = λ _. refl;
          safe = ground (
            arith,
            r.safe,
            laws.malloc_fresh w.log,
            laws.io_new_fresh l1,
            laws.executor_new_fresh l2,
            laws.options_new_fresh l3,
            laws.clientconn_handshake_fresh l4,
          );
          connected = ground arith;
        })

-- What `open` answers for the file of the arguments; without one, it is not called.
abbrev pub opened_as : Env Callback → List Bytes → SysResult ℕ
opened_as env [] = errno 0
opened_as env (name ∷ argv) = env.open_file [] name

-- What `connect_to` answers once the file is open.
abbrev pub linked_as : Env Callback → List Bytes → Option ℕ
linked_as env [] = none
linked_as env (name ∷ argv) =
    let host = get_or argv 0 (codes "httpbin.org") in
    let port = get_or argv 1 (codes "80") in
    let announce =
      Call.printf "connecting to port %s on %s...\n" (Arg.text port ∷ Arg.text host ∷ []) in
    (connect_to env host port
      (call announce (call (Call.open_file name (env.open_file [] name)) start).1).1).0

-- What stops the program before the loop: no file, no socket, or a socket that stays blocking.
abbrev pub IsExcused : Env Callback → List Bytes → Type 0
IsExcused env argv =
    ((e : ℕ) × (opened_as env argv ≡ errno e))
    ⊎ ((linked_as env argv ≡ none) ⊎ ((log : Log) × (fd : ℕ) × (env.fcntl_nonblock log fd ≡ false)))

-- How the loop is entered: with the socket that was connected, and with the file of the arguments, of which nothing was read, and which is
-- not the socket.
pub record Entered (env : Env Callback) (argv : List Bytes) (sock : ℕ) (x : Context) (w : World)
    : Type 0 where
  pub opened : opened_as env argv ≡ ret x.upload.fd
  pub linked : linked_as env argv ≡ some sock
  pub parted : sock ≢ x.upload.fd
  pub room : x.upload.len ≡ 8192
  pub apart : w.conn.fd ≢ x.upload.fd
  pub untouched : transfers x.upload.fd w.log ≡ []

pub set_up-transfers :
    (env : Env Callback) (sock file : ℕ) (w : World)
    → transfers file (set_up env sock w).1.log ≡ transfers file w.log
unfolding set_up
set_up-transfers env sock file w = refl

pub set_up-fd : (env : Env Callback) (sock : ℕ) (w : World) → (set_up env sock w).1.conn.fd ≡ sock
unfolding set_up
set_up-fd env sock w = refl

-- What the log says once only the file is open.
pub record IsOpened (file : ℕ) (w : World) : Type 0 where
  pub untouched : (f : ℕ) → transfers f w.log ≡ []
  pub exactly : (h : Handle) → alive w.log h ≡ same_handle (Handle.fd file) h
  pub safe : IsSafe w.log
  pub untagged : (t : ℕ) → userdata_of w.log t ≡ null
  pub no_request : requests w.log ≡ 0
  pub no_body : bodies w.log ≡ 0
