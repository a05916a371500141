-- ===== src/Client/Progress.antt =====
-- The stages of the exchange of Client.antt.
pub mod Handlers
use llgoexamples.Base.{ℕ, zero, suc, ◌≡◌, ◌≤◌, refl, List, [], ◌∷◌, Bytes, arith}
use llgoexamples.Hyper.Calls.{Arg, Call, Log}
use llgoexamples.World.{World, call, Verdict}
use llgoexamples.Exchange.{requests, bodies, IsAt, IsKept, IsAt-kept}
use llgoexamples.Client.{foreach_header}

-- Between two steps: the handshake runs, or the one request is sent, or its body is read.
pub data Stage (log : Log) : Type 0 where
  handshaking : (task : ℕ) → IsAt 1 task 0 0 log → Stage log
  sending : (task : ℕ) → IsAt 2 task 1 0 log → Stage log
  reading : (task : ℕ) → IsAt 3 task 1 1 log → Stage log

pub Stage-kept : {log log' : Log} → IsKept log log' → Stage log → Stage log'
Stage-kept k (handshaking t i) = handshaking t (IsAt-kept k i)
Stage-kept k (sending t i) = sending t (IsAt-kept k i)
Stage-kept k (reading t i) = reading t (IsAt-kept k i)

-- What a handler leaves: a stage again; after a normal exit one request and one body; after any
-- other end at most one request.
abbrev pub Progress : Verdict → Log → Type 0
Progress Verdict.next log = Stage log
Progress (Verdict.exit zero) log = (requests log ≡ 1) × (bodies log ≡ 1)
Progress (Verdict.exit (suc n)) log = requests log ≤ 1
Progress Verdict.abort log = requests log ≤ 1

pub requests-le_one : {log : Log} → Stage log → requests log ≤ 1
requests-le_one (handshaking t i) = omega arith
requests-le_one (sending t i) = omega arith
requests-le_one (reading t i) = omega arith

pub foreach_header-IsKept :
    (hs : List (Bytes × Bytes)) (w : World) → IsKept w.log (foreach_header hs w).1.log
unfolding foreach_header
foreach_header-IsKept [] w = record {
  userdata = λ t. refl;
  sent_requests = refl;
  asked_bodies = refl;
}
foreach_header-IsKept ((n, v) ∷ hs) w =
    let k =
      foreach_header-IsKept hs
        (call (Call.printf "%.*s: %.*s\n" (Arg.text n ∷ Arg.text v ∷ [])) w).1 in
    record { userdata = k.userdata; sent_requests = k.sent_requests; asked_bodies = k.asked_bodies }
