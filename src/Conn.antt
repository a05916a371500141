-- ===== src/Conn.antt =====
-- The transport of lib/rust/hyper/examples/client.c and upload.c, which hold the same text of these
-- functions: the callbacks that hyper reads and writes through, and the wait for the socket.
pub mod Ownership
pub mod Results
mod Examples
use llgoexamples.Base.{ℕ, Bool, not, [], Bytes, SysResult, ret, errno, null, is_null, ◌==◌, length}
use llgoexamples.Hyper.{io_pending, io_error}
use llgoexamples.Hyper.Calls.{Call}
use llgoexamples.Hyper.Env.{Env}
use llgoexamples.World.{
  M, pure, ◌>>=◌, ◌>>◌, call, ask, create, get_conn, set_conn, branch, when, Verdict,
}

-- Linux's number of EAGAIN.
abbrev pub eagain : ℕ
eagain = 11

module _ {C : Type 0} (env : Env C) where
  -- The end of `read_cb` when the read would block: register interest. The waker that waited
  -- before is freed.
  unfoldable pub register_read : M ℕ
  register_read = do
    conn ← get_conn
    when (not (is_null conn.read_waker)) (call (Call.waker_free conn.read_waker))
    waker ← create env.context_waker Call.context_waker
    set_conn (record conn { read_waker = waker })
    pure io_pending

  unfoldable pub read_result : SysResult Bytes → M ℕ
  unfolding register_read
  read_result (ret bytes) = pure (length bytes)
  read_result (errno e) = branch (not (e == eagain)) (pure io_error) register_read

  unfoldable pub read_cb : ℕ → M ℕ
  unfolding read_result
  read_cb buf_len = do
    conn ← get_conn
    r ← ask (λ log. env.read log conn.fd buf_len)
    call (Call.read conn.fd buf_len r)
    read_result r

  unfoldable pub register_write : M ℕ
  register_write = do
    conn ← get_conn
    when (not (is_null conn.write_waker)) (call (Call.waker_free conn.write_waker))
    waker ← create env.context_waker Call.context_waker
    set_conn (record conn { write_waker = waker })
    pure io_pending

  unfoldable pub write_result : SysResult ℕ → M ℕ
  unfolding register_write
  write_result (ret n) = pure n
  write_result (errno e) = branch (not (e == eagain)) (pure io_error) register_write

  unfoldable pub write_cb : Bytes → M ℕ
  unfolding write_result
  write_cb buf = do
    conn ← get_conn
    r ← ask (λ log. env.write log conn.fd buf)
    call (Call.write conn.fd buf r)
    write_result r

-- Wake the task that waits to read, and forget its waker.
unfoldable pub wake_read : M (Unit {0})
wake_read = do
  conn ← get_conn
  call (Call.waker_wake conn.read_waker)
  set_conn (record conn { read_waker = null })

unfoldable pub wake_write : M (Unit {0})
wake_write = do
  conn ← get_conn
  call (Call.waker_wake conn.write_waker)
  set_conn (record conn { write_waker = null })

-- What follows `select`: it failed, or tells the directions that are ready.
unfoldable pub select_result : SysResult (Bool × Bool) → M Verdict
unfolding wake_read wake_write
select_result (errno e) = do call (Call.printf "select() error\n" []); pure (Verdict.exit 1)
select_result (ret (read_ready, write_ready)) = do
  when read_ready wake_read
  when write_ready wake_write
  pure Verdict.next

-- The end of a round of the outer loop: wait for the directions in which a waker is registered,
-- and wake those that are ready.
unfoldable pub wait_io : {C : Type 0} → Env C → M Verdict
unfolding select_result
wait_io env = do
  conn ← get_conn
  let want_read = not (is_null conn.read_waker)
  let want_write = not (is_null conn.write_waker)
  r ← ask (λ log. env.select log conn.fd want_read want_write)
  call (Call.select conn.fd want_read want_write)
  select_result r

unfoldable pub free_read_waker : M (Unit {0})
free_read_waker = do
  conn ← get_conn
  when (not (is_null conn.read_waker))
      (do call (Call.waker_free conn.read_waker); set_conn (record conn { read_waker = null }))

unfoldable pub free_write_waker : M (Unit {0})
free_write_waker = do
  conn ← get_conn
  when (not (is_null conn.write_waker))
      (do call (Call.waker_free conn.write_waker); set_conn (record conn { write_waker = null }))

-- `at` is the address of the struct, which `malloc` returned.
unfoldable pub free_conn_data : ℕ → M (Unit {0})
unfolding free_read_waker free_write_waker
free_conn_data at = do free_read_waker; free_write_waker; call (Call.free at)
