-- ===== src/Conn/Ownership.antt =====
-- Who owns the wakers of a connection: what the callbacks and the wait of Conn.antt leave alive.
use llgoexamples.Base.{
  ℕ, ◌≡◌, ◌≢◌, refl, ◌∙◌, ◌⊎◌, Bool, true, false, not, ◌&&◌, ◌||◌, null, is_null, ◌==◌,
  if◌then◌else◌, arith, Bytes, ◌∷◌, SysResult, ret, errno, [], inl, inr, Bool-cases,
}
use llgoexamples.Hyper.Calls.{Handle, Call}
use llgoexamples.Hyper.Env.{Env, Laws}
use llgoexamples.Hyper.Ledger.{alive, IsSafe, makes, takes, uses, AllUsable}
use llgoexamples.World.{ConnData, World, call, branch, Verdict}
use llgoexamples.Conn.{
  read_cb, write_cb, wait_io, free_conn_data, register_read, read_result, register_write,
  write_result, select_result, eagain,
}

-- The wakers that are alive are those in the connection's two slots; of the other handles `rest`.
abbrev pub owned : (Handle → Bool) → ConnData → Handle → Bool
owned rest c (Handle.waker p) = not (is_null p) && (p == c.read_waker || p == c.write_waker)
owned rest c h = rest h

-- What is alive when the connection's data is freed.
abbrev pub released : ℕ → (Handle → Bool) → Handle → Bool
released at rest (Handle.waker p) = false
released at rest (Handle.mem p) = if p == at then false else rest (Handle.mem p)
released at rest h = rest h

-- The state of a program between two of its steps.
pub record IsOwned (rest : Handle → Bool) (w : World) : Type 0 where
  pub exactly : (h : Handle) → alive w.log h ≡ owned rest w.conn h
  pub apart : w.conn.read_waker ≡ w.conn.write_waker → w.conn.read_waker ≡ null
  pub safe : IsSafe w.log
  pub connected : rest (Handle.fd w.conn.fd) ≡ true

module _ {rest : Handle → Bool} where
  -- A call that hands out nothing and takes nothing leaves all as it was.
  pub call-IsOwned :
      (c : Call) (w : World)
      → makes c ≡ []
      → takes c ≡ []
      → AllUsable w.log (uses c)
      → IsOwned rest w
      → IsOwned rest (call c w).1
  call-IsOwned c w m t u o = record {
    exactly = λ h. rw (m, t) (o.exactly h);
    apart = o.apart;
    safe = (rw t tt, u, o.safe);
    connected = o.connected;
  }

  -- So does a question about a task that is held.
  pub asked-IsOwned :
      (c : Call) (task : ℕ) (w : World)
      → makes c ≡ []
      → takes c ≡ []
      → uses c ≡ Handle.task task ∷ []
      → task ≢ null
      → rest (Handle.task task) ≡ true
      → IsOwned rest w
      → IsOwned rest (call c w).1
  asked-IsOwned c task w m t u real is_held o =
      call-IsOwned c w m t (rw u (o.exactly (Handle.task task) ∙ is_held, real, tt)) o

module _ {C : Type 0} (env : Env C) (laws : Laws env) (rest : Handle → Bool) where
  register_read-exactly :
      (w : World)
      → IsOwned rest w
      → (h : Handle)
      → alive (register_read env w).1.log h ≡ owned rest (register_read env w).1.conn h
  unfolding register_read
  register_read-exactly w o (Handle.waker p) = ground (
    arith,
    o.exactly (Handle.waker p),
    o.apart,
    laws.context_waker_fresh w.log,
    laws.context_waker_fresh (Call.waker_free w.conn.read_waker ∷ w.log),
  )
  register_read-exactly w o (Handle.task p) = ground (arith, o.exactly (Handle.task p))
  register_read-exactly w o h = ground (arith, o.exactly h)

  register_read-IsOwned : (w : World) → IsOwned rest w → IsOwned rest (register_read env w).1
  unfolding register_read
  register_read-IsOwned w o = record {
    exactly = unfold register_read in register_read-exactly w o;
    apart = ground (
      arith,
      o.exactly (Handle.waker w.conn.write_waker),
      laws.context_waker_fresh w.log,
      laws.context_waker_fresh (Call.waker_free w.conn.read_waker ∷ w.log),
      o.apart,
    );
    safe = ground (arith, o.exactly (Handle.waker w.conn.read_waker), o.safe);
    connected = ground (arith, o.connected);
  }

  register_write-exactly :
      (w : World)
      → IsOwned rest w
      → (h : Handle)
      → alive (register_write env w).1.log h ≡ owned rest (register_write env w).1.conn h
  unfolding register_write
  register_write-exactly w o (Handle.waker p) = ground (
    arith,
    o.exactly (Handle.waker p),
    o.apart,
    laws.context_waker_fresh w.log,
    laws.context_waker_fresh (Call.waker_free w.conn.write_waker ∷ w.log),
  )
  register_write-exactly w o (Handle.task p) = ground (arith, o.exactly (Handle.task p))
  register_write-exactly w o h = ground (arith, o.exactly h)

  register_write-IsOwned : (w : World) → IsOwned rest w → IsOwned rest (register_write env w).1
  unfolding register_write
  register_write-IsOwned w o = record {
    exactly = unfold register_write in register_write-exactly w o;
    apart = ground (
      arith,
      o.exactly (Handle.waker w.conn.read_waker),
      laws.context_waker_fresh w.log,
      laws.context_waker_fresh (Call.waker_free w.conn.write_waker ∷ w.log),
      o.apart,
    );
    safe = ground (arith, o.exactly (Handle.waker w.conn.write_waker), o.safe);
    connected = ground (arith, o.connected);
  }

  read_result-IsOwned :
      (w : World) (r : SysResult Bytes) → IsOwned rest w → IsOwned rest (read_result env r w).1
  unfolding read_result
  read_result-IsOwned w (ret bytes) o = o
  read_result-IsOwned w (errno e) o = elim (Bool-cases (not (e == eagain))) [
    | inl other ↦ rw (other, branch) o
    | inr again ↦ rw (again, branch) (register_read-IsOwned w o)
  ]

  write_result-IsOwned :
      (w : World) (r : SysResult ℕ) → IsOwned rest w → IsOwned rest (write_result env r w).1
  unfolding write_result
  write_result-IsOwned w (ret n) o = o
  write_result-IsOwned w (errno e) o = elim (Bool-cases (not (e == eagain))) [
    | inl other ↦ rw (other, branch) o
    | inr again ↦ rw (again, branch) (register_write-IsOwned w o)
  ]

  pub read_cb-IsOwned : (n : ℕ) (w : World) → IsOwned rest w → IsOwned rest (read_cb env n w).1
  unfolding read_cb
  read_cb-IsOwned n w o =
      let r = env.read w.log w.conn.fd n in
      let c = Call.read w.conn.fd n r in
      read_result-IsOwned (call c w).1 r
        (call-IsOwned c w refl refl (o.exactly (Handle.fd w.conn.fd) ∙ o.connected, tt, tt) o)

  pub write_cb-IsOwned :
      (bs : Bytes) (w : World) → IsOwned rest w → IsOwned rest (write_cb env bs w).1
  unfolding write_cb
  write_cb-IsOwned bs w o =
      let r = env.write w.log w.conn.fd bs in
      let c = Call.write w.conn.fd bs r in
      write_result-IsOwned (call c w).1 r
        (call-IsOwned c w refl refl (o.exactly (Handle.fd w.conn.fd) ∙ o.connected, tt, tt) o)

-- `select` reports only directions that have a waker.
abbrev Asked : ConnData → Bool → Bool → Type 0
Asked c a b =
    (a ≡ true → not (is_null c.read_waker) ≡ true) × (b ≡ true → not (is_null c.write_waker) ≡ true)

module _ {rest : Handle → Bool} where
  select_result-exactly :
      (w : World) (a b : Bool)
      → IsOwned rest w
      → Asked w.conn a b
      → (h : Handle)
      → alive (select_result (ret (a, b)) w).1.log h
        ≡ owned rest (select_result (ret (a, b)) w).1.conn h
  unfolding select_result
  select_result-exactly w a b o q (Handle.waker i) =
      ground (arith, o.exactly (Handle.waker i), o.apart, q)
  select_result-exactly w a b o q (Handle.task i) = ground (arith, o.exactly (Handle.task i))
  select_result-exactly w a b o q h = ground (arith, o.exactly h)

  select_result-IsOwned :
      (w : World) (a b : Bool)
      → IsOwned rest w
      → Asked w.conn a b
      → IsOwned rest (select_result (ret (a, b)) w).1
  unfolding select_result
  select_result-IsOwned w a b o q = record {
    exactly = unfold select_result in select_result-exactly w a b o q;
    apart = ground (arith, o.apart);
    safe = ground (
      arith,
      o.exactly (Handle.waker w.conn.read_waker),
      o.apart,
      o.exactly (Handle.waker w.conn.write_waker),
      o.safe,
      q,
    );
    connected = ground (arith, o.connected);
  }

  free_conn_data-exactly :
      (at : ℕ) (w : World)
      → IsOwned rest w
      → (h : Handle) → alive (free_conn_data at w).1.log h ≡ released at rest h
  unfolding free_conn_data
  free_conn_data-exactly at w o (Handle.waker i) =
      ground (arith, o.exactly (Handle.waker i), o.apart)
  free_conn_data-exactly at w o (Handle.task i) = ground (arith, o.exactly (Handle.task i))
  free_conn_data-exactly at w o (Handle.mem i) = ground (arith, o.exactly (Handle.mem i))
  free_conn_data-exactly at w o h = ground (arith, o.exactly h)

  -- If the live wakers are those of the connection's two slots, and the struct is alive and its
  -- address `at` not NULL: after `free_conn_data` no waker and not the struct is alive, all else is as
  -- before, and the frees are safe.
  pub free_conn_data_lem :
      (at : ℕ) (w : World)
      → IsOwned rest w
      → rest (Handle.mem at) ≡ true
      → at ≢ null
      → ((h : Handle) → alive (free_conn_data at w).1.log h ≡ released at rest h)
        × IsSafe (free_conn_data at w).1.log
  unfolding free_conn_data
  free_conn_data_lem at w o m r = (
    unfold free_conn_data in free_conn_data-exactly at w o,
    ground (
      arith,
      o.exactly (Handle.waker w.conn.read_waker),
      o.apart,
      m,
      o.exactly (Handle.mem at),
      o.exactly (Handle.waker w.conn.write_waker),
      o.safe,
    ),
  )

-- The wait goes on with the loop, or ends the program with 1 when `select` failed.
pub wait_io_cases :
    {C : Type 0} (env : Env C) (w : World)
    → ((wait_io env w).0 ≡ Verdict.next) ⊎ ((wait_io env w).0 ≡ Verdict.exit 1)
unfolding wait_io
wait_io_cases env w = answered (env.select w.log w.conn.fd _ _) _
  where
    answered :
        (r : SysResult (Bool × Bool)) (v : World)
        → ((select_result r v).0 ≡ Verdict.next) ⊎ ((select_result r v).0 ≡ Verdict.exit 1)
    answered (errno e) v = inr refl
    answered (ret (a, b)) v = inl refl

module _ {C : Type 0} (env : Env C) (laws : Laws env) (rest : Handle → Bool) where
  pub wait_io-IsOwned : (w : World) → IsOwned rest w → IsOwned rest (wait_io env w).1
  unfolding wait_io
  wait_io-IsOwned w o = answered (env.select w.log w.conn.fd _ _) refl
    where
      c : Call
      c = Call.select w.conn.fd (not (is_null w.conn.read_waker)) (not (is_null w.conn.write_waker))

      o' : IsOwned rest (call c w).1
      o' = call-IsOwned c w refl refl (o.exactly (Handle.fd w.conn.fd) ∙ o.connected, tt, tt) o

      answered :
          (r : SysResult (Bool × Bool))
          → env.select w.log w.conn.fd
              (not (is_null w.conn.read_waker))
              (not (is_null w.conn.write_waker))
            ≡ r
          → IsOwned rest (select_result r (call c w).1).1
      answered (errno e) _ = call-IsOwned _ _ refl refl tt o'
      answered (ret (a, b)) e =
          select_result-IsOwned (call c w).1 a b o' (laws.select_asked _ _ _ _ a b e)
