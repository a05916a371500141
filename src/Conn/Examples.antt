-- ===== src/Conn/Examples.antt =====
-- Runs of Conn.antt.
use llgoexamples.Base.{◌≡◌, refl, arith, Bool, false, [], ◌∷◌, ret, ◌==◌, null, errno}
use llgoexamples.Hyper.Calls.{Handle, Call}
use llgoexamples.Hyper.Env.{Env}
use llgoexamples.Hyper.Ledger.{alive, IsSafe}
use llgoexamples.Hyper.Sample.{sample, sample-Laws}
use llgoexamples.World.{World}
use llgoexamples.Conn.{read_cb, write_cb, free_conn_data}
use llgoexamples.Conn.Ownership.{IsOwned, released, owned, free_conn_data_lem}
use llgoexamples.Conn.Results.{ReadDecodes, WriteDecodes, read_cb_lem, write_cb_lem}
use llgoexamples.Client.{Callback}

abbrev env : Env Callback
env = sample

-- A connected socket, a struct at 3, and a read that waits.
abbrev waiting : World
waiting = record {
  log = Call.context_waker 5 ∷ Call.malloc 3 ∷ Call.open_file [] (ret 4) ∷ [];
  conn = record { fd = 4; read_waker = 5; write_waker = null };
}

abbrev rest : Handle → Bool
rest (Handle.fd p) = 4 == p
rest (Handle.mem p) = 3 == p
rest _ = false

waiting-exactly : (h : Handle) → alive waiting.log h ≡ owned rest waiting.conn h
waiting-exactly (Handle.waker p) = ground arith
waiting-exactly (Handle.fd p) = ground arith
waiting-exactly (Handle.mem p) = ground arith
waiting-exactly (Handle.task p) = refl
waiting-exactly h = refl

waiting-IsOwned : IsOwned rest waiting
waiting-IsOwned = record {
  exactly = waiting-exactly;
  apart = λ e. absurd (omega arith);
  safe = omega arith;
  connected = refl;
}

read_cb_lem_example : ReadDecodes 8 (errno 11) (read_cb env 8 waiting).0 (read_cb env 8 waiting).1
read_cb_lem_example = read_cb_lem env sample-Laws 8 waiting (omega arith)

write_cb_lem_example :
    WriteDecodes 2
      (ret 0)
      (write_cb env (1 ∷ 2 ∷ []) waiting).0
      (write_cb env (1 ∷ 2 ∷ []) waiting).1
write_cb_lem_example = write_cb_lem env sample-Laws (1 ∷ 2 ∷ []) waiting (omega arith)

free_conn_data_lem_example :
    ((h : Handle) → alive (free_conn_data 3 waiting).1.log h ≡ released 3 rest h)
    × IsSafe (free_conn_data 3 waiting).1.log
free_conn_data_lem_example = free_conn_data_lem 3 waiting waiting-IsOwned refl (omega arith)
