-- ===== src/HyperClient/Sockets.antt =====
-- `ConnectTo` of rust/hyper/_demo/hyper_client/hyper.go, which panics where the C program returns -1,
-- and which makes the socket non-blocking itself.
use llgoexamples.Base.{
  ℕ, not, Option, none, some, List, [], ◌∷◌, Bytes, SysResult, ret, errno, ◌==◌, if◌then◌else◌,
}
use llgoexamples.Hyper.Calls.{AddrInfo, Arg, Call}
use llgoexamples.Hyper.Env.{Env}
use llgoexamples.HyperClient.State.{Go, ◌>>=◌, ◌>>◌, pure, panic, call, ask, branch}

-- The bytes of a Go string that a C function sees: those before the first NUL.
abbrev pub c_string : Bytes → Bytes
c_string [] = []
c_string (b ∷ bs) = if b == 0 then [] else b ∷ c_string bs

module _ {C : Type 0} (env : Env C) where
  -- The body of the loop; `continue` is the rest of the loop. `none` is `rp == nil`.
  unfoldable pub try_socket : AddrInfo → Go (Option ℕ) → SysResult ℕ → Go (Option ℕ)
  try_socket a continue (errno e) = continue
  try_socket a continue (ret sfd) = do
    connected ← ask (λ log. env.connect log sfd a)
    call (Call.connect sfd a connected)
    branch connected (pure (some sfd)) (do call (Call.close sfd); continue)

  unfoldable pub first_socket : List AddrInfo → Go (Option ℕ)
  unfolding try_socket
  first_socket [] = pure none
  first_socket (a ∷ rp) = do
    r ← ask (λ log. env.socket log a)
    call (Call.socket a r)
    try_socket a (first_socket rp) r

  -- After the loop.
  unfoldable pub set_nonblocking : Bytes → Option ℕ → Go ℕ
  set_nonblocking host none = panic "connect failed for %s\n" (Arg.text host ∷ [])
  set_nonblocking host (some sfd) = do
    nonblocking ← ask (λ log. env.fcntl_nonblock log sfd)
    call (Call.fcntl_nonblock sfd)
    branch (not nonblocking) (panic "failed to set net to non-blocking\n" []) (pure sfd)

  unfoldable pub resolved : Bytes → Bytes → Option (ℕ × List AddrInfo) → Go ℕ
  unfolding first_socket set_nonblocking
  resolved host port none = do
    call (Call.getaddrinfo_failed (c_string host) (c_string port))
    panic "dns failed for %s\n" (Arg.text host ∷ [])
  resolved host port (some (result, addrs)) = do
    call (Call.getaddrinfo (c_string host) (c_string port) result)
    sfd ← first_socket addrs
    call (Call.freeaddrinfo result)
    set_nonblocking host sfd

  unfoldable pub connect_to : Bytes → Bytes → Go ℕ
  unfolding resolved
  connect_to host port = do
    r ← ask (λ log. env.getaddrinfo log (c_string host) (c_string port))
    resolved host port r
