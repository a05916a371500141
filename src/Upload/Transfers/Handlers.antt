-- ===== src/Upload/Transfers/Handlers.antt =====
-- The transport, connecting and the headers leave the request's body of Upload.antt alone.
use llgoexamples.Base.{
  ℕ, ◌≡◌, ◌≢◌, refl, ◌∙◌, Bool, not, Option, none, some, List, [], ◌∷◌, Bytes, SysResult, ret,
  errno, is_null, Bool-cases, inl, inr, ◌==◌, arith,
}
use llgoexamples.Hyper.{iter_continue}
use llgoexamples.Hyper.Calls.{AddrInfo, Call}
use llgoexamples.Hyper.Env.{Env}
use llgoexamples.World.{World, M, branch}
use llgoexamples.Conn.{
  register_read, read_result, read_cb, register_write, write_result, write_cb, wake_read,
  wake_write, select_result, wait_io, free_read_waker, free_write_waker, free_conn_data,
}
use llgoexamples.Connect.{
  socket_result, try_addresses, report_connect, getaddrinfo_result, connect_to,
}
use llgoexamples.Client.{foreach_header, print_each_header}
use llgoexamples.Upload.Transfers.{
  transfers, Quiet, Quiet-branch, Quiet-bind, Quiet-ask, Quiet-call, Quiet-pure, quiet_rules,
}

module _ (file : ℕ) where
  Quiet-wake_read : Quiet file wake_read
  unfolding wake_read
  Quiet-wake_read = record { silent = λ w. refl; same_fd = λ w. refl }

  Quiet-wake_write : Quiet file wake_write
  unfolding wake_write
  Quiet-wake_write = record { silent = λ w. refl; same_fd = λ w. refl }

  Quiet-select_result : (r : SysResult (Bool × Bool)) → Quiet file (select_result r)
  unfolding select_result
  Quiet-select_result (errno e) = search quiet_rules
  Quiet-select_result (ret (read_ready, write_ready)) =
      search (quiet_rules, Quiet-wake_read, Quiet-wake_write)

  pub Quiet-wait_io : {C : Type 0} (env : Env C) → Quiet file (wait_io env)
  unfolding wait_io
  Quiet-wait_io env = record {
    silent = λ w. (Quiet-select_result (env.select w.log w.conn.fd _ _)).silent _;
    same_fd = λ w. (Quiet-select_result (env.select w.log w.conn.fd _ _)).same_fd _;
  }

  Quiet-free_read_waker : Quiet file free_read_waker
  unfolding free_read_waker
  Quiet-free_read_waker = record {
    silent = λ w. elim (Bool-cases (not (is_null w.conn.read_waker))) [
      | inl e ↦ rw (e, branch) refl
      | inr e ↦ rw (e, branch) refl
    ];
    same_fd = λ w. elim (Bool-cases (not (is_null w.conn.read_waker))) [
      | inl e ↦ rw (e, branch) refl
      | inr e ↦ rw (e, branch) refl
    ];
  }

module _ (file : ℕ) {C : Type 0} (env : Env C) where
  Quiet-socket_result :
      (a : AddrInfo) (continue : M (Option ℕ)) (r : SysResult ℕ)
      → Quiet file continue
      → Quiet file (socket_result env a continue r)
  unfolding socket_result
  Quiet-socket_result a continue (errno e) q = q
  Quiet-socket_result a continue (ret s) q = search quiet_rules

  Quiet-try_addresses : (l : List AddrInfo) → Quiet file (try_addresses env l)
  unfolding try_addresses
  Quiet-try_addresses [] = search quiet_rules
  Quiet-try_addresses (a ∷ l) = Quiet-bind file _ _ (Quiet-ask file (λ log. env.socket log a)) (λ r.
      Quiet-bind file _ _ (Quiet-call file (Call.socket a r) refl)
        (λ _. Quiet-socket_result a (try_addresses env l) r (Quiet-try_addresses l)))

  Quiet-report_connect : (host : Bytes) (r : Option ℕ) → Quiet file (report_connect host r)
  unfolding report_connect
  Quiet-report_connect host none = search quiet_rules
  Quiet-report_connect host (some s) = search quiet_rules

  Quiet-getaddrinfo_result :
      (host port : Bytes) (r : Option (ℕ × List AddrInfo))
      → Quiet file (getaddrinfo_result env host port r)
  unfolding getaddrinfo_result
  Quiet-getaddrinfo_result host port none = search quiet_rules
  Quiet-getaddrinfo_result host port (some (a, l)) =
      search (quiet_rules, Quiet-try_addresses, Quiet-report_connect)

  pub Quiet-connect_to : (host port : Bytes) → Quiet file (connect_to env host port)
  unfolding connect_to
  Quiet-connect_to host port = search (quiet_rules, Quiet-getaddrinfo_result)

-- While the connection's descriptor is another one.
module _ (file : ℕ) {C : Type 0} (env : Env C) where
  Quiet-register_read : Quiet file (register_read env)
  unfolding register_read
  Quiet-register_read = record {
    silent = λ w. elim (Bool-cases (not (is_null w.conn.read_waker))) [
      | inl e ↦ rw (e, branch) refl
      | inr e ↦ rw (e, branch) refl
    ];
    same_fd = λ w. refl;
  }

  Quiet-register_write : Quiet file (register_write env)
  unfolding register_write
  Quiet-register_write = record {
    silent = λ w. elim (Bool-cases (not (is_null w.conn.write_waker))) [
      | inl e ↦ rw (e, branch) refl
      | inr e ↦ rw (e, branch) refl
    ];
    same_fd = λ w. refl;
  }

  Quiet-read_result : (r : SysResult Bytes) → Quiet file (read_result env r)
  unfolding read_result
  Quiet-read_result (ret bs) = search quiet_rules
  Quiet-read_result (errno e) = search (quiet_rules, Quiet-register_read)

  Quiet-write_result : (r : SysResult ℕ) → Quiet file (write_result env r)
  unfolding write_result
  Quiet-write_result (ret n) = search quiet_rules
  Quiet-write_result (errno e) = search (quiet_rules, Quiet-register_write)

  pub Quiet-write_cb : (buf : Bytes) → Quiet file (write_cb env buf)
  unfolding write_cb
  Quiet-write_cb buf = record {
    silent = λ w. (Quiet-write_result (env.write w.log w.conn.fd buf)).silent _;
    same_fd = λ w. (Quiet-write_result (env.write w.log w.conn.fd buf)).same_fd _;
  }

  pub read_cb-silent :
      (n : ℕ) (w : World)
      → w.conn.fd ≢ file
      → transfers file (read_cb env n w).1.log ≡ transfers file w.log
  unfolding read_cb
  read_cb-silent n w apart =
      (Quiet-read_result (env.read w.log w.conn.fd n)).silent _ ∙ ground (arith, apart)

  pub read_cb-same_fd : (n : ℕ) (w : World) → (read_cb env n w).1.conn.fd ≡ w.conn.fd
  unfolding read_cb
  read_cb-same_fd n w = (Quiet-read_result (env.read w.log w.conn.fd n)).same_fd _

module _ (file : ℕ) where
  Quiet-free_write_waker : Quiet file free_write_waker
  unfolding free_write_waker
  Quiet-free_write_waker = record {
    silent = λ w. elim (Bool-cases (not (is_null w.conn.write_waker))) [
      | inl e ↦ rw (e, branch) refl
      | inr e ↦ rw (e, branch) refl
    ];
    same_fd = λ w. elim (Bool-cases (not (is_null w.conn.write_waker))) [
      | inl e ↦ rw (e, branch) refl
      | inr e ↦ rw (e, branch) refl
    ];
  }

  pub Quiet-free_conn_data : (at : ℕ) → Quiet file (free_conn_data at)
  unfolding free_conn_data
  Quiet-free_conn_data at = search (quiet_rules, Quiet-free_read_waker, Quiet-free_write_waker)

  Quiet-print_each_header : (name value : Bytes) → Quiet file (print_each_header name value)
  unfolding print_each_header
  Quiet-print_each_header name value = search quiet_rules

  pub Quiet-foreach_header : (hs : List (Bytes × Bytes)) → Quiet file (foreach_header hs)
  unfolding foreach_header
  Quiet-foreach_header [] = search quiet_rules
  Quiet-foreach_header ((name, value) ∷ hs) =
      Quiet-bind file _ _ (Quiet-print_each_header name value) (λ r.
        Quiet-branch file (r == iter_continue) _ _ (Quiet-foreach_header hs) (Quiet-pure file tt))
