-- ===== src/Upload/Ownership.antt =====
-- What the program of Upload.antt owns between two steps, and what it owns when it ends.
pub mod Request
pub mod Response
pub mod Body
pub mod Pieces
use llgoexamples.Base.{ℕ, zero, suc, ◌≡◌, ◌≢◌, null, Bool, false, ◌||◌, Option, none, some, ◌==◌}
use llgoexamples.Hyper.Calls.{Handle}
use llgoexamples.Hyper.Ledger.{alive, IsSafe}
use llgoexamples.World.{World, Verdict}
use llgoexamples.Conn.Ownership.{IsOwned}
use llgoexamples.Client.Ownership.{is}
use llgoexamples.Upload.{Context}

-- The handles that are held for a while: by a handler, or while the response's body is read.
pub record Temps : Type 0 where
  pub task : Option ℕ
  pub clientconn : Option ℕ
  pub request : Option ℕ
  pub response : Option ℕ
  pub body : Option ℕ

abbrev pub idle : Temps
idle = record { task = none; clientconn = none; request = none; response = none; body = none }

-- Beside the wakers: the socket and the file, the struct and the buffer, the executor, and what is
-- held for a while.
abbrev pub held : Context → ℕ → Temps → Handle → Bool
held x sock t (Handle.fd p) = sock == p || x.upload.fd == p
held x sock t (Handle.mem p) = x.setup.at == p || x.upload.buf == p
held x sock t (Handle.executor p) = x.setup.exec == p
held x sock t (Handle.task p) = is t.task p
held x sock t (Handle.clientconn p) = is t.clientconn p
held x sock t (Handle.request p) = is t.request p
held x sock t (Handle.response p) = is t.response p
held x sock t (Handle.body p) = is t.body p
held x sock t _ = false

-- What a normal exit leaves open: the socket and the file.
abbrev pub left_open : ℕ → ℕ → Handle → Bool
left_open sock file (Handle.fd p) = sock == p || file == p
left_open sock file _ = false

abbrev pub left : Context → ℕ → Handle → Bool
left x sock h = left_open sock x.upload.fd h

-- What holds after a handler that goes on with `t` held.
abbrev pub After : Context → ℕ → Temps → Verdict → World → Type 0
After x sock t Verdict.next w = IsOwned (held x sock t) w
After x sock t (Verdict.exit zero) w = ((h : Handle) → alive w.log h ≡ left x sock h) × IsSafe w.log
After x sock t (Verdict.exit (suc n)) w = IsSafe w.log
After x sock t Verdict.abort w = IsSafe w.log

-- The pointers of the context are not NULL, and the two blocks of memory differ.
pub record IsContext (x : Context) : Type 0 where
  pub exec_real : x.setup.exec ≢ null
  pub at_real : x.setup.at ≢ null
  pub buf_real : x.upload.buf ≢ null
  pub apart : x.setup.at ≢ x.upload.buf
