-- ===== src/Hyper/Calls.antt =====
-- The calls that the C programs make of hyper (lib/rust/hyper/hyper.h) and of the C library, as
-- the events of a log. A call that hands out a pointer carries that pointer last.
use llgoexamples.Base.{ℕ, Bool, List, Bytes, String, SysResult}

-- A resource that is acquired and given back, by the number that names it: a pointer, or a file
-- descriptor.
pub data Handle : Type 0 where
  waker task clientconn request response body buf : ℕ → Handle
  error executor io options fd mem addrs : ℕ → Handle

-- A borrowed header map belongs to its request or response.
pub data Headers : Type 0 where
  of_request of_response : ℕ → Headers

-- The arguments of `printf` after its format.
pub data Arg : Type 0 where
  text : Bytes → Arg
  int : ℕ → Arg

-- One entry of the list that `getaddrinfo` returns, for `socket` and `connect`.
pub record AddrInfo : Type 0 where
  pub family : ℕ
  pub socktype : ℕ
  pub protocol : ℕ
  pub addr : Bytes

pub data Call : Type 0 where
  -- the C library and the system
  printf : String → List Arg → Call
  -- what goes to the standard error
  perror eprintf : String → Call
  println : List Arg → Call
  getaddrinfo : Bytes → Bytes → ℕ → Call
  getaddrinfo_failed : Bytes → Bytes → Call
  freeaddrinfo : ℕ → Call
  socket : AddrInfo → SysResult ℕ → Call
  connect : ℕ → AddrInfo → Bool → Call
  close : ℕ → Call
  fcntl_nonblock : ℕ → Call
  open_file : Bytes → SysResult ℕ → Call
  malloc : ℕ → Call
  free : ℕ → Call
  -- `read` into a buffer that a callback is lent, and into a block of memory
  read : ℕ → ℕ → SysResult Bytes → Call
  read_into : ℕ → ℕ → ℕ → SysResult Bytes → Call
  write : ℕ → Bytes → SysResult ℕ → Call
  write_stdout : Bytes → Call
  select : ℕ → Bool → Bool → Call
  -- transport, executor and options
  io_new io_free : ℕ → Call
  io_set_userdata : ℕ → ℕ → Call
  -- userdata that a garbage collector owns
  io_set_own_userdata : ℕ → Call
  io_set_read io_set_write : ℕ → Call
  executor_new executor_free : ℕ → Call
  executor_push : ℕ → ℕ → Call
  executor_poll : ℕ → ℕ → Call
  executor_poll_none : ℕ → Call
  options_new options_free : ℕ → Call
  options_set_preserve_header_case options_set_preserve_header_order : ℕ → Bool → Call
  options_http2 options_http1_allow_multiline_headers : ℕ → Bool → Call
  options_exec : ℕ → ℕ → Call
  -- tasks and wakers
  task_set_userdata : ℕ → ℕ → Call
  task_userdata task_type : ℕ → Call
  task_value : ℕ → Handle → Call
  task_free : ℕ → Call
  context_waker waker_free waker_wake : ℕ → Call
  -- the client connection and its requests
  clientconn_handshake : ℕ → ℕ → ℕ → Call
  clientconn_send : ℕ → ℕ → ℕ → Call
  clientconn_free : ℕ → Call
  request_new request_free : ℕ → Call
  request_set_method request_set_uri : ℕ → Bytes → Call
  request_set_uri_parts : ℕ → Bytes → Bytes → Bytes → Call
  request_set_version : ℕ → ℕ → Call
  request_set_body : ℕ → ℕ → Call
  request_on_informational : ℕ → Call
  headers_set headers_add : Headers → Bytes → Bytes → Call
  headers_foreach : Headers → Call
  -- responses, bodies, buffers, errors
  response_version response_status response_reason_phrase response_free : ℕ → Call
  -- `hyper_response_status` of the response that a callback is lent, with its answer
  lent_response_status : ℕ → Call
  response_body : ℕ → ℕ → Call
  body_new body_free : ℕ → Call
  body_set_userdata body_set_data_func : ℕ → Call
  body_foreach : ℕ → ℕ → Call
  body_data : ℕ → ℕ → Call
  -- from a block of memory, that many of its bytes
  buf_copy : ℕ → Bytes → ℕ → Call
  buf_bytes buf_free : ℕ → Call
  -- `hyper_buf_bytes` and `hyper_buf_len` of the buffer that a callback is lent, with the answers
  lent_buf : Bytes → Call
  -- `*chunk = buf` in a data callback: hyper takes the buffer over
  chunk_set : ℕ → Call
  chunk_set_null : Call
  error_code error_print error_free : ℕ → Call

-- What has been called so far, the latest call first.
abbrev pub Log : Type 0
Log = List Call
