-- ===== src/HyperClient/Agrees.antt =====
-- The transport and the connecting of rust/hyper/_demo/hyper_client/hyper.go do what those of
-- lib/rust/hyper/examples/client.c do.
use llgoexamples.Base.{
  ℕ, ◌≡◌, refl, Option, none, some, String, List, [], ◌∷◌, Bytes, SysResult, ret, errno,
  if◌then◌else◌, inl, inr, Bool-cases,
}
use llgoexamples.Hyper.Calls.{AddrInfo, Arg, Call, Log}
use llgoexamples.Hyper.Env.{Env}
use llgoexamples.World
use llgoexamples.World.{World, M}
use llgoexamples.Connect
use llgoexamples.Connect.{socket_result, try_addresses, report_connect, getaddrinfo_result}
use llgoexamples.HyperClient.State.{State, Result, returned, panicked, Go, lift, branch}
use llgoexamples.HyperClient.Sockets.{
  c_string, try_socket, first_socket, set_nonblocking, resolved, connect_to,
}

-- A log without the message that `perror` printed last.
abbrev pub but_message : Log → Log
but_message (Call.perror text ∷ log) = log
but_message log = log

-- The Go callback `go` returns what the C callback `c` returns from the same state, with the same
-- connection and the same calls, but for a message.
abbrev pub Agrees : {A : Type 0} → State → A × World → Result A × State → Type 0
Agrees s c go =
    (go.0 ≡ returned c.0)
    × (go.1 ≡ record s { world = record c.1 { log = go.1.world.log } })
    × (but_message go.1.world.log ≡ c.1.log)

module _ {C : Type 0} (env : Env C) where
  try_socket-socket_result :
      (a : AddrInfo) (r : SysResult ℕ) (go : Go (Option ℕ)) (c : M (Option ℕ)) (s : State)
      → ((t : State) → go t ≡ lift c t)
      → try_socket env a go r s ≡ lift (socket_result env a c r) s
  unfolding try_socket socket_result
  try_socket-socket_result a (errno e) go c s same = same s
  try_socket-socket_result a (ret fd) go c s same =
      elim (Bool-cases (env.connect s.world.log fd a)) [
        | inl done ↦ rw (done, branch, World.branch) refl
        | inr refused ↦ rw (refused, branch, World.branch) (same _)
      ]

  first_socket-try_addresses :
      (l : List AddrInfo) (s : State) → first_socket env l s ≡ lift (try_addresses env l) s
  unfolding first_socket try_addresses
  first_socket-try_addresses [] s = refl
  first_socket-try_addresses (a ∷ l) s =
      try_socket-socket_result a (env.socket s.world.log a) (first_socket env l)
        (try_addresses env l) _ (first_socket-try_addresses l)

  -- How `ConnectTo` ends from a state, given how `connect_to` of client.c does.
  abbrev pub Connects : Bytes → State → Option ℕ × World → Result ℕ × State → Type 0
  Connects host s (none, w) go =
      ((text : String) × (go.0 ≡ panicked text (Arg.text host ∷ []))
        × (w.log ≡ Call.printf text (Arg.text (c_string host) ∷ []) ∷ go.1.world.log))
      × (go.1 ≡ record s { world = record w { log = go.1.world.log } })
  Connects host s (some sock, w) go =
      (go.0 ≡ (
        if env.fcntl_nonblock w.log sock
        then returned sock
        else panicked "failed to set net to non-blocking\n" []))
      × (go.1 ≡ record s { world = record w { log = Call.fcntl_nonblock sock ∷ w.log } })

  set_nonblocking-Connects :
      (host : Bytes) (r : Option ℕ) (s : State) (w : World)
      → Connects host s
          (report_connect (c_string host) r w)
          (set_nonblocking env host r (record s { world = w }))
  unfolding set_nonblocking report_connect
  set_nonblocking-Connects host none s w = (("connect failed for %s\n", refl, refl), refl)
  set_nonblocking-Connects host (some sock) s w =
      elim (Bool-cases (env.fcntl_nonblock w.log sock)) [
        | inl done ↦ rw (done, branch) (refl, refl)
        | inr failed ↦ rw (failed, branch) (refl, refl)
      ]

  resolved-Connects :
      (host port : Bytes) (r : Option (ℕ × List AddrInfo)) (s : State)
      → Connects host s
          (getaddrinfo_result env (c_string host) (c_string port) r s.world)
          (resolved env host port r s)
  unfolding resolved getaddrinfo_result
  resolved-Connects host port none s = (("dns failed for %s\n", refl, refl), refl)
  resolved-Connects host port (some (p, l)) s =
      let w = (World.call (Call.getaddrinfo (c_string host) (c_string port) p) s.world).1 in
      rw (first_socket-try_addresses l (record s { world = w })) (
        set_nonblocking-Connects host (try_addresses env l w).0 s
          (World.call (Call.freeaddrinfo p) (try_addresses env l w).1).1)

  -- `ConnectTo` makes the calls that `connect_to` of client.c makes for the parts of the host and the
  -- port before a NUL. Where that returns a socket, it then sets the socket to non-blocking, and
  -- returns it unless this fails. Where that prints a message and returns -1, it panics with this
  -- message.
  pub connect_to-Connects :
      (host port : Bytes) (s : State)
      → Connects host s
          (Connect.connect_to env (c_string host) (c_string port) s.world)
          (connect_to env host port s)
  unfolding connect_to Connect.connect_to
  connect_to-Connects host port s =
      resolved-Connects host port (env.getaddrinfo s.world.log (c_string host) (c_string port)) s
