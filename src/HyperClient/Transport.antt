-- ===== src/HyperClient/Transport.antt =====
-- The transport of rust/hyper/_demo/hyper_client/hyper.go: the callbacks that hyper reads and writes
-- through, the wait for the socket, and the release of
-- the wakers. The garbage collector owns the struct ConnData.
use llgoexamples.Base.{
  ℕ, Bool, not, ◌||◌, [], Bytes, SysResult, ret, errno, null, is_null, ◌==◌, length,
}
use llgoexamples.Hyper.{io_pending, io_error}
use llgoexamples.Hyper.Calls.{Call}
use llgoexamples.Hyper.Env.{Env}
use llgoexamples.Conn.{eagain}
use llgoexamples.HyperClient.State.{
  Go, ◌>>=◌, ◌>>◌, pure, panic, call, ask, create, get_conn, set_conn, branch, when,
}

-- -1 and its `Errno` are `errno`.
module _ {C : Type 0} (env : Env C) where
  unfoldable pub read_register : Go ℕ
  read_register = do
    conn ← get_conn
    when (not (is_null conn.read_waker)) (call (Call.waker_free conn.read_waker))
    waker ← create env.context_waker Call.context_waker
    set_conn (record conn { read_waker = waker })
    pure io_pending

  unfoldable pub read_returned : SysResult Bytes → Go ℕ
  unfolding read_register
  read_returned (ret bytes) = pure (length bytes)
  read_returned (errno e) =
      branch (not (e == eagain)) (do call (Call.perror "[read callback fail]"); pure io_error)
        read_register

  unfoldable pub read_call_back : ℕ → Go ℕ
  unfolding read_returned
  read_call_back buf_len = do
    conn ← get_conn
    r ← ask (λ log. env.read log conn.fd buf_len)
    call (Call.read conn.fd buf_len r)
    read_returned r

  unfoldable pub write_register : Go ℕ
  write_register = do
    conn ← get_conn
    when (not (is_null conn.write_waker)) (call (Call.waker_free conn.write_waker))
    waker ← create env.context_waker Call.context_waker
    set_conn (record conn { write_waker = waker })
    pure io_pending

  unfoldable pub write_returned : SysResult ℕ → Go ℕ
  unfolding write_register
  write_returned (ret n) = pure n
  write_returned (errno e) =
      branch (not (e == eagain)) (do call (Call.perror "[write callback fail]"); pure io_error)
        write_register

  unfoldable pub write_call_back : Bytes → Go ℕ
  unfolding write_returned
  write_call_back buf = do
    conn ← get_conn
    r ← ask (λ log. env.write log conn.fd buf)
    call (Call.write conn.fd buf r)
    write_returned r

unfoldable pub release_read : Go (Unit {0})
release_read = do
  conn ← get_conn
  when (not (is_null conn.read_waker))
      (do call (Call.waker_free conn.read_waker); set_conn (record conn { read_waker = null }))

unfoldable pub release_write : Go (Unit {0})
release_write = do
  conn ← get_conn
  when (not (is_null conn.write_waker))
      (do call (Call.waker_free conn.write_waker); set_conn (record conn { write_waker = null }))

-- `FreeConnData`
unfoldable pub free_wakers : Go (Unit {0})
unfolding release_read release_write
free_wakers = do release_read; release_write

-- Wake the task that waits to read, and forget its waker.
unfoldable pub wake_reader : Go (Unit {0})
wake_reader = do
  conn ← get_conn
  call (Call.waker_wake conn.read_waker)
  set_conn (record conn { read_waker = null })

unfoldable pub wake_writer : Go (Unit {0})
wake_writer = do
  conn ← get_conn
  call (Call.waker_wake conn.write_waker)
  set_conn (record conn { write_waker = null })

-- What follows `Select`, whose answer is the number of the directions that are ready: none of them
-- is the end of the time.
unfoldable pub selected : SysResult (Bool × Bool) → Go (Unit {0})
unfolding wake_reader wake_writer
selected (errno e) = panic "select() error\n" []
selected (ret (read_ready, write_ready)) =
    branch (not (read_ready || write_ready)) (panic "select() timeout\n" [])
      (do when read_ready wake_reader; when write_ready wake_writer)

-- The end of a round of the outer loop.
unfoldable pub wait_for_io : {C : Type 0} → Env C → Go (Unit {0})
unfolding selected
wait_for_io env = do
  conn ← get_conn
  let want_read = not (is_null conn.read_waker)
  let want_write = not (is_null conn.write_waker)
  r ← ask (λ log. env.select log conn.fd want_read want_write)
  call (Call.select conn.fd want_read want_write)
  selected r
