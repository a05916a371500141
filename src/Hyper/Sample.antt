-- ===== src/Hyper/Sample.antt =====
-- An environment that meets `Laws`: a peer that answers every exchange, and that lets each read
-- wait once. Pointers are numbered upwards.
use mathlib.Core.Option.{some-injective}
use llgoexamples.Base.{
  ℕ, zero, suc, ◌≡◌, ◌≢◌, ◌≤◌, ◌<◌, refl, sym, ap, length, Bool, true, false, ◌||◌, Option, some,
  List, [], ◌∷◌, Bytes, SysResult, ret, errno, null, is_null, ◌==◌, leb, if◌then◌else◌, arith,
  codes,
}
use llgoexamples.Hyper.{
  TaskReturnType, task_empty, task_error, task_clientconn, task_response, task_buf, ok,
}
use llgoexamples.Hyper.Calls.{AddrInfo, Handle, Call, Log}
use llgoexamples.Hyper.Ledger.{alive, makes, mem_handle, same_handle}
use llgoexamples.Hyper.Env.{Env, Laws, Reaction, userdata_of, value_handle}

abbrev handle_id : Handle → ℕ
handle_id (Handle.waker a) = a
handle_id (Handle.task a) = a
handle_id (Handle.clientconn a) = a
handle_id (Handle.request a) = a
handle_id (Handle.response a) = a
handle_id (Handle.body a) = a
handle_id (Handle.buf a) = a
handle_id (Handle.error a) = a
handle_id (Handle.executor a) = a
handle_id (Handle.io a) = a
handle_id (Handle.options a) = a
handle_id (Handle.fd a) = a
handle_id (Handle.mem a) = a
handle_id (Handle.addrs a) = a

abbrev above_all : List Handle → ℕ → ℕ
above_all [] n = n
above_all (h ∷ hs) n =
    let m = above_all hs n in if leb m (handle_id h) then suc (handle_id h) else m

-- A number above those of all handles that were handed out.
abbrev pub above : Log → ℕ
above [] = 1
above (c ∷ log) = above_all (makes c) (above log)

same_handle-handle_id : (a b : Handle) → same_handle a b ≡ true → handle_id a ≡ handle_id b
same_handle-handle_id (Handle.waker a) (Handle.waker b) e = ground arith
same_handle-handle_id (Handle.task a) (Handle.task b) e = ground arith
same_handle-handle_id (Handle.clientconn a) (Handle.clientconn b) e = ground arith
same_handle-handle_id (Handle.request a) (Handle.request b) e = ground arith
same_handle-handle_id (Handle.response a) (Handle.response b) e = ground arith
same_handle-handle_id (Handle.body a) (Handle.body b) e = ground arith
same_handle-handle_id (Handle.buf a) (Handle.buf b) e = ground arith
same_handle-handle_id (Handle.error a) (Handle.error b) e = ground arith
same_handle-handle_id (Handle.executor a) (Handle.executor b) e = ground arith
same_handle-handle_id (Handle.io a) (Handle.io b) e = ground arith
same_handle-handle_id (Handle.options a) (Handle.options b) e = ground arith
same_handle-handle_id (Handle.fd a) (Handle.fd b) e = ground arith
same_handle-handle_id (Handle.mem a) (Handle.mem b) e = ground arith
same_handle-handle_id (Handle.addrs a) (Handle.addrs b) e = ground arith
same_handle-handle_id _ _ e = cc

above_all-le : (hs : List Handle) (n : ℕ) → n ≤ above_all hs n
above_all-le [] n = omega arith
above_all-le (h ∷ hs) n = ground (arith, above_all-le hs n)

mem_handle-lt-above :
    (h : Handle) (hs : List Handle) (n : ℕ) → mem_handle h hs ≡ true → handle_id h < above_all hs n
mem_handle-lt-above h [] n e = cc
mem_handle-lt-above h (k ∷ hs) n e =
    ground (arith, same_handle-handle_id k h, mem_handle-lt-above h hs n)

alive-lt-above : (log : Log) (h : Handle) → alive log h ≡ true → handle_id h < above log
alive-lt-above [] h e = cc
alive-lt-above (c ∷ log) h e = ground (
  arith,
  mem_handle-lt-above h (makes c) (above log),
  alive-lt-above log h,
  above_all-le (makes c) (above log),
)

above-ne-null : (log : Log) → above log ≢ null
above-ne-null [] = omega arith
above-ne-null (c ∷ log) = ground (arith, above-ne-null log, above_all-le (makes c) (above log))

above-dead : (log : Log) (h : Handle) → handle_id h ≡ above log → alive log h ≡ false
above-dead log h e = ground (arith, alive-lt-above log h)

-- The task that was pushed last.
abbrev last_pushed : Log → ℕ
last_pushed [] = null
last_pushed (Call.executor_push e t ∷ log) = t
last_pushed (_ ∷ log) = last_pushed log

abbrev hand_over : {C : Type 0} → Log → ℕ → Reaction C
hand_over log t =
    if is_null t || alive log (Handle.task t) then Reaction.waits else Reaction.finished t

-- Ask for bytes; wait; once woken, finish the task.
abbrev pub poll : {C : Type 0} → Log → Reaction C
poll [] = Reaction.waits
poll (Call.waker_wake p ∷ log) = hand_over (Call.waker_wake p ∷ log) (last_pushed log)
poll (Call.context_waker p ∷ log) = Reaction.waits
poll (_ ∷ log) = Reaction.reads 8

abbrev type_of : ℕ → TaskReturnType
type_of (suc zero) = task_clientconn
type_of (suc (suc zero)) = task_response
type_of _ = task_empty

-- Only the executor is left open.
abbrev pub sample_with : {C : Type 0} → (Log → Reaction C) → (Log → ℕ → ℕ → SysResult Bytes) → Env C
sample_with executor reader = record {
  getaddrinfo = λ log h p. some (
    above log,
    record { family = 10; socktype = 1; protocol = 6; addr = [] }
        ∷ record { family = 2; socktype = 1; protocol = 6; addr = 127 ∷ [] }
        ∷ [],
  );
  socket = λ log a. ret (above log);
  connect = λ log s a. a.family == 2;
  fcntl_nonblock = λ log s. true;
  open_file = λ log f. ret (above log);
  malloc = above;
  read = reader;
  write = λ log s bs. ret 0;
  select = λ log s r w. ret (r, w);
  version = codes "1.0.0";
  strerror = λ e. codes "error";
  io_new = above;
  executor_new = above;
  options_new = above;
  executor_poll = executor;
  task_type = λ log t. type_of (userdata_of log t);
  task_value = λ log t. above log;
  task_userdata = userdata_of;
  context_waker = above;
  clientconn_handshake = above;
  clientconn_send = above;
  request_new = above;
  request_set_method = λ log r bs. ok;
  request_set_uri = λ log r bs. ok;
  headers_set = λ log r n v. ok;
  executor_push = λ log e t. ok;
  response_status = λ log r. 200;
  response_reason_phrase = λ log r. codes "OK";
  response_headers = λ log r. (codes "server", codes "test") ∷ [];
  response_body = above;
  body_new = above;
  body_foreach = above;
  body_data = above;
  buf_copy = above;
  buf_bytes = λ log b. [];
  error_code = λ log e. ok;
  error_print = λ log e n. [];
}

-- Every read would block.
abbrev pub nothing_to_read : Log → ℕ → ℕ → SysResult Bytes
nothing_to_read log s n = errno 11

abbrev pub sample : {C : Type 0} → Env C
sample = sample_with poll nothing_to_read

value-handle_id :
    (ty : TaskReturnType) (p : ℕ) (h : Handle) → value_handle ty p ≡ some h → handle_id h ≡ p
value-handle_id task_empty p h e = cc
value-handle_id task_error p h e = sym (ap handle_id (some-injective _ _ e))
value-handle_id task_clientconn p h e = sym (ap handle_id (some-injective _ _ e))
value-handle_id task_response p h e = sym (ap handle_id (some-injective _ _ e))
value-handle_id task_buf p h e = sym (ap handle_id (some-injective _ _ e))

hand_over-returns :
    {C : Type 0} (log : Log) (s t : ℕ)
    → hand_over {C = C} log s ≡ Reaction.finished t
    → (t ≢ null) × (alive log (Handle.task t) ≡ false)
hand_over-returns log s t e = ground arith

poll-returns :
    {C : Type 0} (log : Log) (t : ℕ)
    → poll {C = C} log ≡ Reaction.finished t
    → (t ≢ null) × (alive log (Handle.task t) ≡ false)
poll-returns [] t e = cc
poll-returns (Call.waker_wake p ∷ log) t e =
    hand_over-returns (Call.waker_wake p ∷ log) (last_pushed log) t e
poll-returns (_ ∷ log) t e = cc

ret-value : {a b : ℕ} → ret a ≡ ret b → b ≡ a
ret-value e = cc

resolved-fresh :
    (log : Log) (a : ℕ) (l m : List AddrInfo)
    → ◌≡◌ {A = Option (ℕ × List AddrInfo)} (some (above log, l)) (some (a, m))
    → (a ≢ null) × (alive log (Handle.addrs a) ≡ false)
resolved-fresh log a l m e =
    let same : a ≡ above log = sym (ap (λ p. p.0) (some-injective _ _ e)) in
    rw same (above-ne-null log, above-dead log (Handle.addrs (above log)) refl)

wrote-nothing : (m n : ℕ) → ret 0 ≡ ret n → n ≤ m
wrote-nothing m n e = omega (arith, ret-value e)

ready-asked :
    (r w a b : Bool)
    → ◌≡◌ {A = SysResult (Bool × Bool)} (ret (r, w)) (ret (a, b))
    → (a ≡ true → r ≡ true) × (b ≡ true → w ≡ true)
ready-asked r w a b e = ground arith

pub sample_with-Laws :
    {C : Type 0} (executor : Log → Reaction C) (reader : Log → ℕ → ℕ → SysResult Bytes)
    → ((log : Log) (t : ℕ)
        → executor log ≡ Reaction.finished t
        → (t ≢ null) × (alive log (Handle.task t) ≡ false))
    → ((log : Log) (s n : ℕ) (bs : Bytes) → reader log s n ≡ ret bs → length bs ≤ n)
    → Laws (sample_with executor reader)
sample_with-Laws executor reader returns fits = record {
  malloc_fresh = λ log. (above-ne-null log, above-dead log _ refl);
  socket_fresh = λ log a s e. above-dead log (Handle.fd s) (ret-value e);
  open_fresh = λ log f s e. above-dead log (Handle.fd s) (ret-value e);
  getaddrinfo_fresh = λ log h p a l e. resolved-fresh log a _ l e;
  read_fits = fits;
  write_fits = λ log s bs n e. wrote-nothing (length bs) n e;
  select_asked = λ log s r w a b e. ready-asked r w a b e;
  io_new_fresh = λ log. (above-ne-null log, above-dead log _ refl);
  executor_new_fresh = λ log. (above-ne-null log, above-dead log _ refl);
  options_new_fresh = λ log. (above-ne-null log, above-dead log _ refl);
  context_waker_fresh = λ log. (above-ne-null log, above-dead log _ refl);
  clientconn_handshake_fresh = λ log. (above-ne-null log, above-dead log _ refl);
  clientconn_send_fresh = λ log. (above-ne-null log, above-dead log _ refl);
  request_new_fresh = λ log. (above-ne-null log, above-dead log _ refl);
  response_body_fresh = λ log. (above-ne-null log, above-dead log _ refl);
  body_new_fresh = λ log. (above-ne-null log, above-dead log _ refl);
  body_foreach_fresh = λ log. (above-ne-null log, above-dead log _ refl);
  body_data_fresh = λ log. (above-ne-null log, above-dead log _ refl);
  buf_copy_fresh = λ log. (above-ne-null log, above-dead log _ refl);
  task_value_fresh = λ log t h e. (above-ne-null log, above-dead log h (value-handle_id _ _ h e));
  task_type_kept = λ log f a t. refl;
  userdata_kept = λ log t. refl;
  poll_returns = returns;
}

pub nothing_to_read-fits :
    (log : Log) (s n : ℕ) (bs : Bytes) → nothing_to_read log s n ≡ ret bs → length bs ≤ n
nothing_to_read-fits log s n bs e = cc

pub sample-Laws : {C : Type 0} → Laws (sample {C = C})
sample-Laws = sample_with-Laws poll nothing_to_read poll-returns nothing_to_read-fits
