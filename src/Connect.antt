-- ===== src/Connect.antt =====
-- `connect_to` of lib/rust/hyper/examples/client.c and upload.c, which hold the same text: resolve
-- a name, and take the first of its addresses that accepts a connection.
pub mod Sockets
pub mod Order
mod Examples
use llgoexamples.Base.{ℕ, Option, none, some, List, [], ◌∷◌, Bytes, SysResult, ret, errno}
use llgoexamples.Hyper.Calls.{AddrInfo, Arg, Call}
use llgoexamples.Hyper.Env.{Env}
use llgoexamples.World.{M, pure, ◌>>=◌, ◌>>◌, call, ask, branch}

-- -1 is `none`.
module _ {C : Type 0} (env : Env C) where
  -- The body of the loop at the address `a`; `continue` is the rest of the loop.
  unfoldable pub socket_result : AddrInfo → M (Option ℕ) → SysResult ℕ → M (Option ℕ)
  socket_result a continue (errno e) = continue
  socket_result a continue (ret sfd) = do
    connected ← ask (λ log. env.connect log sfd a)
    call (Call.connect sfd a connected)
    branch connected (pure (some sfd)) (do call (Call.close sfd); continue)

  unfoldable pub try_addresses : List AddrInfo → M (Option ℕ)
  unfolding socket_result
  try_addresses [] = pure none
  try_addresses (a ∷ rp) = do
    r ← ask (λ log. env.socket log a)
    call (Call.socket a r)
    socket_result a (try_addresses rp) r

-- After the loop: no address succeeded, or one did.
unfoldable pub report_connect : Bytes → Option ℕ → M (Option ℕ)
report_connect host none = do
  call (Call.printf "connect failed for %s\n" (Arg.text host ∷ []))
  pure none
report_connect host (some sfd) = pure (some sfd)

module _ {C : Type 0} (env : Env C) where
  unfoldable pub getaddrinfo_result : Bytes → Bytes → Option (ℕ × List AddrInfo) → M (Option ℕ)
  unfolding try_addresses report_connect
  getaddrinfo_result host port none = do
    call (Call.getaddrinfo_failed host port)
    call (Call.printf "dns failed for %s\n" (Arg.text host ∷ []))
    pure none
  getaddrinfo_result host port (some (result, addrs)) = do
    call (Call.getaddrinfo host port result)
    sfd ← try_addresses env addrs
    call (Call.freeaddrinfo result)
    report_connect host sfd

  unfoldable pub connect_to : Bytes → Bytes → M (Option ℕ)
  unfolding getaddrinfo_result
  connect_to host port = do
    r ← ask (λ log. env.getaddrinfo log host port)
    getaddrinfo_result host port r
