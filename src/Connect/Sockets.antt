-- ===== src/Connect/Sockets.antt =====
-- What sockets `connect_to` of Connect.antt leaves open.
use llgoexamples.Base.{
  ℕ, ◌≡◌, ◌≢◌, null, refl, sym, ◌∙◌, Bool, true, false, Option, none, some, List, [], ◌∷◌, Bytes,
  SysResult, ret, errno, if◌then◌else◌, arith, inl, inr, Bool-cases,
}
use llgoexamples.Hyper.Calls.{AddrInfo, Call, Handle}
use llgoexamples.Hyper.Env.{Env, Laws}
use llgoexamples.Hyper.Ledger.{alive, IsSafe, same_handle}
use llgoexamples.World.{World, M, call, branch}
use llgoexamples.Connect.{
  socket_result, try_addresses, report_connect, getaddrinfo_result, connect_to,
}

-- What is alive after `connect_to` returned `r`: what was before, and the socket it returned.
abbrev pub with_socket : Option ℕ → (Handle → Bool) → Handle → Bool
with_socket none before h = before h
with_socket (some s) before h = if same_handle (Handle.fd s) h then true else before h

abbrev pub IsNew : Option ℕ → (Handle → Bool) → Type 0
IsNew none before = Unit {0}
IsNew (some s) before = before (Handle.fd s) ≡ false

-- `r` and `w'` are what `connect_to` leaves, from `w`.
pub record Connected (w : World) (r : Option ℕ) (w' : World) : Type 0 where
  pub exactly : (h : Handle) → alive w'.log h ≡ with_socket r (alive w.log) h
  pub safe : IsSafe w'.log
  pub unmoved : w'.conn ≡ w.conn
  pub fresh : IsNew r (alive w.log)

Connected-from :
    (v w : World) (r : Option ℕ) {w' : World}
    → ((h : Handle) → alive v.log h ≡ alive w.log h)
    → v.conn ≡ w.conn
    → Connected v r w'
    → Connected w r w'
Connected-from v w none e k c = record {
  exactly = λ h. c.exactly h ∙ e h;
  safe = c.safe;
  unmoved = c.unmoved ∙ k;
  fresh = tt;
}
Connected-from v w (some s) e k c = record {
  exactly = λ h. rw (← e h) (c.exactly h);
  safe = c.safe;
  unmoved = c.unmoved ∙ k;
  fresh = sym (e (Handle.fd s)) ∙ c.fresh;
}

-- A socket that could not be connected is closed again, and nothing is left of it.
closed-alive :
    (a : AddrInfo) (s : ℕ) (b : Bool) (w : World)
    → alive w.log (Handle.fd s) ≡ false
    → (h : Handle)
    → alive (Call.close s ∷ Call.connect s a b ∷ Call.socket a (ret s) ∷ w.log) h ≡ alive w.log h
closed-alive a s b w f (Handle.fd t) = ground (arith, f)
closed-alive a s b w f (Handle.task t) = refl
closed-alive a s b w f h = refl

-- A new socket is alive, also after `connect` used it.
socket-alive :
    (a : AddrInfo) (s : ℕ) (w : World) → alive (Call.socket a (ret s) ∷ w.log) (Handle.fd s) ≡ true
socket-alive a s w = ground arith

module _ {C : Type 0} (env : Env C) (laws : Laws env) where
  socket_result-Connected :
      (a : AddrInfo) (continue : M (Option ℕ)) (w : World) (r : SysResult ℕ)
      → env.socket w.log a ≡ r
      → IsSafe w.log
      → ((v : World) → IsSafe v.log → Connected v (continue v).0 (continue v).1)
      → let after = socket_result env a continue r (call (Call.socket a r) w).1 in
        Connected w after.0 after.1
  unfolding socket_result
  socket_result-Connected a continue w (errno e) q s ih =
      let v = (call (Call.socket a (errno e)) w).1 in
      Connected-from v w _ (λ h. refl) refl (ih v (tt, tt, s))
  socket_result-Connected a continue w (ret t) q s ih =
      elim (Bool-cases (env.connect (Call.socket a (ret t) ∷ w.log) t a)) [
        | inl done ↦
            rw (done, branch)
              (record {
                exactly = λ h. ground arith;
                safe = (tt, (socket-alive a t w, tt, tt), (tt, tt, s));
                unmoved = refl;
                fresh = laws.socket_fresh w.log a t q;
              })
        | inr refused ↦
            rw (refused, branch)
              (let v = record w {
                log = Call.close t ∷ Call.connect t a false ∷ Call.socket a (ret t) ∷ w.log;
              } in
                Connected-from v w _ (closed-alive a t false w (laws.socket_fresh w.log a t q)) refl
                  (ih v (
                    (socket-alive a t w, tt, tt),
                    tt,
                    (tt, (socket-alive a t w, tt, tt), (tt, tt, s)),
                  )))
      ]

  try_addresses-Connected :
      (l : List AddrInfo) (w : World)
      → IsSafe w.log
      → Connected w (try_addresses env l w).0 (try_addresses env l w).1
  unfolding try_addresses
  try_addresses-Connected [] w s = record {
    exactly = λ h. refl;
    safe = s;
    unmoved = refl;
    fresh = tt;
  }
  try_addresses-Connected (a ∷ rp) w s =
      socket_result-Connected a (try_addresses env rp) w (env.socket w.log a) refl s
        (λ v. try_addresses-Connected rp v)

got-alive :
    (host port : Bytes) (p : ℕ) (w : World)
    → alive (Call.getaddrinfo host port p ∷ w.log) (Handle.addrs p) ≡ true
got-alive host port p w = ground arith

freed-alive :
    (host port : Bytes) (p : ℕ) (w : World)
    → alive w.log (Handle.addrs p) ≡ false
    → (r : Option ℕ) (w' : World) → Connected (call (Call.getaddrinfo host port p) w).1 r w'
    → (h : Handle) → alive (Call.freeaddrinfo p ∷ w'.log) h ≡ with_socket r (alive w.log) h
freed-alive host port p w f none w' c (Handle.addrs q) = ground (arith, c.exactly (Handle.addrs q))
freed-alive host port p w f none w' c (Handle.task q) = c.exactly (Handle.task q)
freed-alive host port p w f none w' c h = c.exactly h
freed-alive host port p w f (some t) w' c (Handle.addrs q) =
    ground (arith, c.exactly (Handle.addrs q))
freed-alive host port p w f (some t) w' c (Handle.task q) = c.exactly (Handle.task q)
freed-alive host port p w f (some t) w' c h = c.exactly h

-- The list of addresses is freed, also where no address succeeded.
freed-Connected :
    (host port : Bytes) (p : ℕ) (w : World)
    → (p ≢ null) × (alive w.log (Handle.addrs p) ≡ false)
    → (r : Option ℕ) (w' : World) → Connected (call (Call.getaddrinfo host port p) w).1 r w'
    → let after = report_connect host r (call (Call.freeaddrinfo p) w').1 in
      Connected w after.0 after.1
unfolding report_connect
freed-Connected host port p w f none w' c = record {
  fresh = tt;
  exactly = freed-alive host port p w f.1 none w' c;
  safe = (tt, tt, ((c.exactly (Handle.addrs p) ∙ got-alive host port p w, f.0, tt), tt, c.safe));
  unmoved = c.unmoved;
}
freed-Connected host port p w f (some t) w' c = record {
  fresh = c.fresh;
  exactly = freed-alive host port p w f.1 (some t) w' c;
  safe = ((c.exactly (Handle.addrs p) ∙ got-alive host port p w, f.0, tt), tt, c.safe);
  unmoved = c.unmoved;
}

module _ {C : Type 0} (env : Env C) (laws : Laws env) where
  getaddrinfo_result-Connected :
      (host port : Bytes) (w : World) (r : Option (ℕ × List AddrInfo))
      → env.getaddrinfo w.log host port ≡ r
      → IsSafe w.log
      → let after = getaddrinfo_result env host port r w in Connected w after.0 after.1
  unfolding getaddrinfo_result
  getaddrinfo_result-Connected host port w none e s = record {
    exactly = λ h. refl;
    safe = (tt, tt, (tt, tt, s));
    unmoved = refl;
    fresh = tt;
  }
  getaddrinfo_result-Connected host port w (some (p, l)) e s =
      freed-Connected host port p w (laws.getaddrinfo_fresh w.log host port p l e) _ _
        (try_addresses-Connected env laws l _ (tt, tt, s))

  -- Within `laws`, from a safe log: after `connect_to` the same is alive as before it, and the socket
  -- that it returns if it returns one, which was not alive before; its calls are safe; and the
  -- connection's data is unchanged.
  pub connect_to-Connected :
      (host port : Bytes) (w : World)
      → IsSafe w.log
      → Connected w (connect_to env host port w).0 (connect_to env host port w).1
  unfolding connect_to
  connect_to-Connected host port w s =
      getaddrinfo_result-Connected host port w (env.getaddrinfo w.log host port) refl s
