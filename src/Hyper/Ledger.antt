-- ===== src/Hyper/Ledger.antt =====
-- Who owns what, read off a log of calls: the ownership rules of lib/rust/hyper/hyper.h and of the
-- C library as a table, which handles are alive after a log, and when a log is free of double
-- frees and of uses after free. A specification, independent of the programs.
use llgoexamples.Base.{◌≡◌, ◌≢◌, null, Bool, true, false, List, [], ◌∷◌, ret, ◌==◌, if◌then◌else◌}
use llgoexamples.Hyper.Calls.{Handle, Headers, Call, Log}

abbrev pub same_handle : Handle → Handle → Bool
same_handle (Handle.waker a) (Handle.waker b) = a == b
same_handle (Handle.task a) (Handle.task b) = a == b
same_handle (Handle.clientconn a) (Handle.clientconn b) = a == b
same_handle (Handle.request a) (Handle.request b) = a == b
same_handle (Handle.response a) (Handle.response b) = a == b
same_handle (Handle.body a) (Handle.body b) = a == b
same_handle (Handle.buf a) (Handle.buf b) = a == b
same_handle (Handle.error a) (Handle.error b) = a == b
same_handle (Handle.executor a) (Handle.executor b) = a == b
same_handle (Handle.io a) (Handle.io b) = a == b
same_handle (Handle.options a) (Handle.options b) = a == b
same_handle (Handle.fd a) (Handle.fd b) = a == b
same_handle (Handle.mem a) (Handle.mem b) = a == b
same_handle (Handle.addrs a) (Handle.addrs b) = a == b
same_handle _ _ = false

-- The handles that a call hands to its caller.
abbrev pub makes : Call → List Handle
makes (Call.getaddrinfo h p a) = Handle.addrs a ∷ []
makes (Call.socket a (ret s)) = Handle.fd s ∷ []
makes (Call.open_file f (ret s)) = Handle.fd s ∷ []
makes (Call.malloc p) = Handle.mem p ∷ []
makes (Call.io_new i) = Handle.io i ∷ []
makes (Call.executor_new e) = Handle.executor e ∷ []
makes (Call.executor_poll e t) = Handle.task t ∷ []
makes (Call.options_new o) = Handle.options o ∷ []
makes (Call.task_value t h) = h ∷ []
makes (Call.context_waker w) = Handle.waker w ∷ []
makes (Call.clientconn_handshake i o t) = Handle.task t ∷ []
makes (Call.clientconn_send c r t) = Handle.task t ∷ []
makes (Call.request_new r) = Handle.request r ∷ []
makes (Call.response_body r b) = Handle.body b ∷ []
makes (Call.body_new b) = Handle.body b ∷ []
makes (Call.body_foreach b t) = Handle.task t ∷ []
makes (Call.body_data b t) = Handle.task t ∷ []
makes (Call.buf_copy p bs b) = Handle.buf b ∷ []
makes _ = []

-- The handles that a call frees or takes over: they are no longer the caller's.
abbrev pub takes : Call → List Handle
takes (Call.freeaddrinfo a) = Handle.addrs a ∷ []
takes (Call.close s) = Handle.fd s ∷ []
takes (Call.free p) = Handle.mem p ∷ []
takes (Call.io_free i) = Handle.io i ∷ []
takes (Call.options_free o) = Handle.options o ∷ []
takes (Call.request_free r) = Handle.request r ∷ []
takes (Call.executor_free e) = Handle.executor e ∷ []
takes (Call.executor_push e t) = Handle.task t ∷ []
takes (Call.task_free t) = Handle.task t ∷ []
takes (Call.waker_free w) = Handle.waker w ∷ []
takes (Call.waker_wake w) = Handle.waker w ∷ []
takes (Call.clientconn_handshake i o t) = Handle.io i ∷ Handle.options o ∷ []
takes (Call.clientconn_send c r t) = Handle.request r ∷ []
takes (Call.clientconn_free c) = Handle.clientconn c ∷ []
takes (Call.request_set_body r b) = Handle.body b ∷ []
takes (Call.response_free r) = Handle.response r ∷ []
takes (Call.body_free b) = Handle.body b ∷ []
takes (Call.body_foreach b t) = Handle.body b ∷ []
takes (Call.buf_free b) = Handle.buf b ∷ []
takes (Call.chunk_set b) = Handle.buf b ∷ []
takes (Call.error_free e) = Handle.error e ∷ []
takes _ = []

abbrev pub owner : Headers → Handle
owner (Headers.of_request r) = Handle.request r
owner (Headers.of_response r) = Handle.response r

-- The handles that a call reads or changes, and that stay the caller's.
abbrev pub uses : Call → List Handle
uses (Call.connect s a b) = Handle.fd s ∷ []
uses (Call.fcntl_nonblock s) = Handle.fd s ∷ []
uses (Call.read s n r) = Handle.fd s ∷ []
uses (Call.read_into s p n r) = Handle.fd s ∷ Handle.mem p ∷ []
uses (Call.write s bs r) = Handle.fd s ∷ []
uses (Call.select s r w) = Handle.fd s ∷ []
uses (Call.io_set_userdata i p) = Handle.io i ∷ Handle.mem p ∷ []
uses (Call.io_set_read i) = Handle.io i ∷ []
uses (Call.io_set_write i) = Handle.io i ∷ []
uses (Call.executor_push e t) = Handle.executor e ∷ []
uses (Call.executor_poll e t) = Handle.executor e ∷ []
uses (Call.executor_poll_none e) = Handle.executor e ∷ []
uses (Call.options_set_preserve_header_case o b) = Handle.options o ∷ []
uses (Call.options_set_preserve_header_order o b) = Handle.options o ∷ []
uses (Call.options_http2 o b) = Handle.options o ∷ []
uses (Call.options_http1_allow_multiline_headers o b) = Handle.options o ∷ []
uses (Call.options_exec o e) = Handle.options o ∷ Handle.executor e ∷ []
uses (Call.task_set_userdata t u) = Handle.task t ∷ []
uses (Call.task_userdata t) = Handle.task t ∷ []
uses (Call.task_type t) = Handle.task t ∷ []
uses (Call.task_value t h) = Handle.task t ∷ []
uses (Call.clientconn_send c r t) = Handle.clientconn c ∷ []
uses (Call.request_set_method r bs) = Handle.request r ∷ []
uses (Call.request_set_uri r bs) = Handle.request r ∷ []
uses (Call.request_set_uri_parts r scheme authority path) = Handle.request r ∷ []
uses (Call.request_set_version r n) = Handle.request r ∷ []
uses (Call.request_set_body r b) = Handle.request r ∷ []
uses (Call.request_on_informational r) = Handle.request r ∷ []
uses (Call.headers_set h n v) = owner h ∷ []
uses (Call.headers_add h n v) = owner h ∷ []
uses (Call.headers_foreach h) = owner h ∷ []
uses (Call.response_version r) = Handle.response r ∷ []
uses (Call.response_status r) = Handle.response r ∷ []
uses (Call.response_reason_phrase r) = Handle.response r ∷ []
uses (Call.response_body r b) = Handle.response r ∷ []
uses (Call.body_set_userdata b) = Handle.body b ∷ []
uses (Call.body_set_data_func b) = Handle.body b ∷ []
uses (Call.body_data b t) = Handle.body b ∷ []
uses (Call.buf_copy p bs b) = Handle.mem p ∷ []
uses (Call.buf_bytes b) = Handle.buf b ∷ []
uses (Call.error_code e) = Handle.error e ∷ []
uses (Call.error_print e) = Handle.error e ∷ []
uses _ = []

abbrev pub mem_handle : Handle → List Handle → Bool
mem_handle h [] = false
mem_handle h (k ∷ ks) = if same_handle k h then true else mem_handle h ks

-- A handle is alive from the call that hands it out to the call that takes it back.
abbrev pub alive : Log → Handle → Bool
alive [] h = false
alive (c ∷ log) h =
    if mem_handle h (makes c) then true else if mem_handle h (takes c) then false else alive log h

-- A pointer that is not NULL. File descriptors start at 0.
abbrev pub IsReal : Handle → Type 0
IsReal (Handle.fd s) = Unit
IsReal (Handle.waker p) = p ≢ null
IsReal (Handle.task p) = p ≢ null
IsReal (Handle.clientconn p) = p ≢ null
IsReal (Handle.request p) = p ≢ null
IsReal (Handle.response p) = p ≢ null
IsReal (Handle.body p) = p ≢ null
IsReal (Handle.buf p) = p ≢ null
IsReal (Handle.error p) = p ≢ null
IsReal (Handle.executor p) = p ≢ null
IsReal (Handle.io p) = p ≢ null
IsReal (Handle.options p) = p ≢ null
IsReal (Handle.mem p) = p ≢ null
IsReal (Handle.addrs p) = p ≢ null

abbrev pub AllUsable : Log → List Handle → Type 0
AllUsable log [] = Unit
AllUsable log (h ∷ hs) = (alive log h ≡ true) × IsReal h × AllUsable log hs

-- Every call of the log took and used only handles that were alive when it was made, and none that
-- is NULL.
abbrev pub IsSafe : Log → Type 0
IsSafe [] = Unit
IsSafe (c ∷ log) = AllUsable log (takes c) × AllUsable log (uses c) × IsSafe log
