-- ===== src/Connect/Order.antt =====
-- The order in which `connect_to` of Connect.antt tries the addresses of a name.
use llgoexamples.Base.{
  ℕ, ◌≡◌, refl, ap, true, false, Option, none, some, List, [], ◌∷◌, ◌++◌, SysResult, ret, errno,
  inl, inr, Bool-cases,
}
use llgoexamples.Hyper.Calls.{AddrInfo, Call, Log}
use llgoexamples.Hyper.Env.{Env}
use llgoexamples.World.{World, M, call, branch}
use llgoexamples.Connect.{socket_result, try_addresses}

-- The addresses for which a socket was asked, the latest first.
abbrev pub tried : Log → List AddrInfo
tried [] = []
tried (Call.socket a r ∷ log) = a ∷ tried log
tried (_ ∷ log) = tried log

abbrev pub reverse_onto : List AddrInfo → List AddrInfo → List AddrInfo
reverse_onto [] l = l
reverse_onto (a ∷ as_) l = reverse_onto as_ (a ∷ l)

-- The sockets for which `connect` succeeded, the latest first.
abbrev pub accepted : Log → List ℕ
accepted [] = []
accepted (Call.connect s a true ∷ log) = s ∷ accepted log
accepted (_ ∷ log) = accepted log

abbrev pub onto : Option ℕ → List ℕ → List ℕ
onto none l = l
onto (some s) l = s ∷ l

-- The last call was the `connect` that succeeded.
abbrev pub JustConnected : Option ℕ → Log → Type 0
JustConnected none log = Unit
JustConnected (some s) log =
    (a : AddrInfo) × (before : Log) × (log ≡ Call.connect s a true ∷ before)

-- The addresses of `front` were tried in order, all of them if the result is -1, and the result is
-- the only socket that was connected.
pub record Ordered (l : List AddrInfo) (w : World) (r : Option ℕ) (v : World) : Type 0 where
  pub front : List AddrInfo
  pub rest : List AddrInfo
  pub split : l ≡ front ++ rest
  pub in_order : tried v.log ≡ reverse_onto front (tried w.log)
  pub exhausted : r ≡ none → rest ≡ []
  pub chosen : accepted v.log ≡ onto r (accepted w.log)
  pub stopped : JustConnected r v.log

module _ {C : Type 0} (env : Env C) where
  socket_result-Ordered :
      (a : AddrInfo) (l : List AddrInfo) (continue : M (Option ℕ)) (r : SysResult ℕ) (w : World)
      → ((v : World) → Ordered l v (continue v).0 (continue v).1)
      → let after = socket_result env a continue r (call (Call.socket a r) w).1 in
        Ordered (a ∷ l) w after.0 after.1
  unfolding socket_result
  socket_result-Ordered a l continue (errno e) w ih =
      let o = ih (call (Call.socket a (errno e)) w).1 in
      record {
        front = a ∷ o.front;
        rest = o.rest;
        split = ap (λ t. a ∷ t) o.split;
        in_order = o.in_order;
        exhausted = o.exhausted;
        chosen = o.chosen;
        stopped = o.stopped;
      }
  socket_result-Ordered a l continue (ret t) w ih =
      elim (Bool-cases (env.connect (Call.socket a (ret t) ∷ w.log) t a)) [
        | inl done ↦
            rw (done, branch)
              (record {
                front = a ∷ [];
                rest = l;
                split = refl;
                in_order = refl;
                exhausted = λ e. cc;
                chosen = refl;
                stopped = (a, (Call.socket a (ret t) ∷ w.log), refl);
              })
        | inr refused ↦
            rw (refused, branch)
              (let o = ih (record w {
                log = Call.close t ∷ Call.connect t a false ∷ Call.socket a (ret t) ∷ w.log;
              }) in
                record {
                  front = a ∷ o.front;
                  rest = o.rest;
                  split = ap (λ u. a ∷ u) o.split;
                  in_order = o.in_order;
                  exhausted = o.exhausted;
                  chosen = o.chosen;
                  stopped = o.stopped;
                })
      ]

  -- The addresses that are tried are the first ones of the list, in its order, and all of them if
  -- the result is -1; the result is the only socket that was connected, by the last call.
  pub try_addresses-Ordered :
      (l : List AddrInfo) (w : World)
      → Ordered l w (try_addresses env l w).0 (try_addresses env l w).1
  unfolding try_addresses
  try_addresses-Ordered [] w = record {
    front = [];
    rest = [];
    split = refl;
    in_order = refl;
    exhausted = λ e. refl;
    chosen = refl;
    stopped = tt;
  }
  try_addresses-Ordered (a ∷ rp) w =
      socket_result-Ordered a rp (try_addresses env rp) (env.socket w.log a) w
        (λ v. try_addresses-Ordered rp v)
