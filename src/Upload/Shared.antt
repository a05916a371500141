-- ===== src/Upload/Shared.antt =====
-- The functions of lib/rust/hyper/examples/upload.c (17-113, 143-150, 366-395) whose text is that of
-- client.c, word for word: the transport and connecting, the wait for the socket, and the callback
-- for a header.
use llgoexamples.Base.{ℕ, Option, Bytes}
use llgoexamples.Hyper.Env.{Env}
use llgoexamples.World.{M, Verdict}
use llgoexamples.Conn
use llgoexamples.Connect
use llgoexamples.Client

module _ {C : Type 0} (env : Env C) where
  abbrev pub read_cb : ℕ → M ℕ
  read_cb buf_len = Conn.read_cb env buf_len

  abbrev pub write_cb : Bytes → M ℕ
  write_cb buf = Conn.write_cb env buf

  -- The end of a round of the loop (366-395).
  abbrev pub wait_io : M Verdict
  wait_io = Conn.wait_io env

  abbrev pub connect_to : Bytes → Bytes → M (Option ℕ)
  connect_to host port = Connect.connect_to env host port

abbrev pub free_conn_data : ℕ → M (Unit {0})
free_conn_data conn = Conn.free_conn_data conn

abbrev pub print_each_header : Bytes → Bytes → M ℕ
print_each_header name value = Client.print_each_header name value
