-- ===== src/Exchange.antt =====
-- How far an exchange over hyper has come, read off the log: which task is awaited, how many
-- requests were sent, how many bodies were asked for. What the transport and `connect_to` do
-- leaves all of it as it was.
pub mod Reactions
pub mod Success
use llgoexamples.Base.{
  ℕ, suc, ◌≡◌, refl, ◌∙◌, false, Option, none, some, List, [], ◌∷◌, Bytes, ret, errno, SysResult,
  ◌==◌, if◌then◌else◌, arith, inl, inr, Bool-cases, null,
}
use llgoexamples.Hyper.Calls.{AddrInfo, Call, Handle, Log}
use llgoexamples.Hyper.Env.{Env, userdata_of}
use llgoexamples.Hyper.Ledger.{alive, IsSafe, same_handle}
use llgoexamples.World.{World, M, call, branch}
use llgoexamples.Conn.{read_cb, write_cb, wait_io}
use llgoexamples.Connect.{
  socket_result, try_addresses, report_connect, getaddrinfo_result, connect_to,
}

-- The requests that were sent.
abbrev pub requests : Log → ℕ
requests [] = 0
requests (Call.clientconn_send c r t ∷ log) = suc (requests log)
requests (_ ∷ log) = requests log

-- The response bodies that were asked for.
abbrev pub bodies : Log → ℕ
bodies [] = 0
bodies (Call.body_foreach b t ∷ log) = suc (bodies log)
bodies (_ ∷ log) = bodies log

-- `awaited` is the only task with userdata, which is `tag`.
pub record IsAt (tag awaited sent asked : ℕ) (log : Log) : Type 0 where
  pub tagged : (t : ℕ) → userdata_of log t ≡ (if awaited == t then tag else null)
  pub sent_requests : requests log ≡ sent
  pub asked_bodies : bodies log ≡ asked

-- The calls between two logs changed nothing of this.
pub record IsKept (log log' : Log) : Type 0 where
  pub userdata : (t : ℕ) → userdata_of log' t ≡ userdata_of log t
  pub sent_requests : requests log' ≡ requests log
  pub asked_bodies : bodies log' ≡ bodies log

pub IsKept-trans : {a b c : Log} → IsKept a b → IsKept b c → IsKept a c
IsKept-trans k l = record {
  userdata = λ t. l.userdata t ∙ k.userdata t;
  sent_requests = l.sent_requests ∙ k.sent_requests;
  asked_bodies = l.asked_bodies ∙ k.asked_bodies;
}

-- Asking what a task ended with changes nothing.
pub typed-IsAt :
    {tag awaited sent asked : ℕ} {log : Log} (task : ℕ)
    → IsAt tag awaited sent asked log
    → IsAt tag awaited sent asked (Call.task_type task ∷ log)
typed-IsAt task i = record {
  tagged = i.tagged;
  sent_requests = i.sent_requests;
  asked_bodies = i.asked_bodies;
}

pub IsAt-kept :
    {tag awaited sent asked : ℕ} {log log' : Log}
    → IsKept log log'
    → IsAt tag awaited sent asked log
    → IsAt tag awaited sent asked log'
IsAt-kept k i = record {
  tagged = λ t. rw (k.userdata t) (i.tagged t);
  sent_requests = rw k.sent_requests i.sent_requests;
  asked_bodies = rw k.asked_bodies i.asked_bodies;
}

-- Before the program's first call.
abbrev pub start : World
start = record { log = []; conn = record { fd = 0; read_waker = 0; write_waker = 0 } }

-- Connected: only the socket is owned, and nothing was asked of hyper.
pub record IsReady (sock : ℕ) (w : World) : Type 0 where
  pub exactly : (h : Handle) → alive w.log h ≡ same_handle (Handle.fd sock) h
  pub safe : IsSafe w.log
  pub untagged : (t : ℕ) → userdata_of w.log t ≡ null
  pub no_request : requests w.log ≡ 0
  pub no_body : bodies w.log ≡ 0

module _ {C : Type 0} (env : Env C) where
  pub read_cb-IsKept : (n : ℕ) (w : World) → IsKept w.log (read_cb env n w).1.log
  unfolding read_cb
  read_cb-IsKept n w = record {
    userdata = λ t. ground arith;
    sent_requests = ground arith;
    asked_bodies = ground arith;
  }

  pub write_cb-IsKept : (bs : Bytes) (w : World) → IsKept w.log (write_cb env bs w).1.log
  unfolding write_cb
  write_cb-IsKept bs w = record {
    userdata = λ t. ground arith;
    sent_requests = ground arith;
    asked_bodies = ground arith;
  }

  pub wait_io-IsKept : (w : World) → IsKept w.log (wait_io env w).1.log
  unfolding wait_io
  wait_io-IsKept w = record {
    userdata = λ t. ground arith;
    sent_requests = ground arith;
    asked_bodies = ground arith;
  }

-- `connect_to` asks nothing of hyper.
module _ {C : Type 0} (env : Env C) where
  socket_result-IsKept :
      (a : AddrInfo) (continue : M (Option ℕ)) (r : SysResult ℕ) (w : World)
      → ((v : World) → IsKept v.log (continue v).1.log)
      → IsKept w.log (socket_result env a continue r (call (Call.socket a r) w).1).1.log
  unfolding socket_result
  socket_result-IsKept a continue (errno e) w ih =
      let k = ih (call (Call.socket a (errno e)) w).1 in
      record {
        userdata = k.userdata;
        sent_requests = k.sent_requests;
        asked_bodies = k.asked_bodies;
      }
  socket_result-IsKept a continue (ret t) w ih =
      elim (Bool-cases (env.connect (Call.socket a (ret t) ∷ w.log) t a)) [
        | inl done ↦
            rw (done, branch)
              (record { userdata = λ u. refl; sent_requests = refl; asked_bodies = refl })
        | inr refused ↦
            rw (refused, branch)
              (let k = ih (record w {
                log = Call.close t ∷ Call.connect t a false ∷ Call.socket a (ret t) ∷ w.log;
              }) in
                record {
                  userdata = k.userdata;
                  sent_requests = k.sent_requests;
                  asked_bodies = k.asked_bodies;
                })
      ]

  try_addresses-IsKept :
      (l : List AddrInfo) (w : World) → IsKept w.log (try_addresses env l w).1.log
  unfolding try_addresses
  try_addresses-IsKept [] w = record {
    userdata = λ t. refl;
    sent_requests = refl;
    asked_bodies = refl;
  }
  try_addresses-IsKept (a ∷ rp) w =
      socket_result-IsKept a (try_addresses env rp) (env.socket w.log a) w
        (λ v. try_addresses-IsKept rp v)

  reported-IsKept :
      (host port : Bytes) (p : ℕ) (r : Option ℕ) (w w' : World)
      → IsKept (Call.getaddrinfo host port p ∷ w.log) w'.log
      → IsKept w.log (report_connect host r (call (Call.freeaddrinfo p) w').1).1.log
  unfolding report_connect
  reported-IsKept host port p none w w' k = record {
    userdata = k.userdata;
    sent_requests = k.sent_requests;
    asked_bodies = k.asked_bodies;
  }
  reported-IsKept host port p (some t) w w' k = record {
    userdata = k.userdata;
    sent_requests = k.sent_requests;
    asked_bodies = k.asked_bodies;
  }

  getaddrinfo_result-IsKept :
      (host port : Bytes) (r : Option (ℕ × List AddrInfo)) (w : World)
      → IsKept w.log (getaddrinfo_result env host port r w).1.log
  unfolding getaddrinfo_result
  getaddrinfo_result-IsKept host port none w = record {
    userdata = λ t. refl;
    sent_requests = refl;
    asked_bodies = refl;
  }
  getaddrinfo_result-IsKept host port (some (p, l)) w =
      let w1 = (call (Call.getaddrinfo host port p) w).1 in
      reported-IsKept host port p (try_addresses env l w1).0 w (try_addresses env l w1).1
        (try_addresses-IsKept l w1)

  pub connect_to-IsKept :
      (host port : Bytes) (w : World) → IsKept w.log (connect_to env host port w).1.log
  unfolding connect_to
  connect_to-IsKept host port w =
      getaddrinfo_result-IsKept host port (env.getaddrinfo w.log host port) w
