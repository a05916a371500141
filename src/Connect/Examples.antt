-- ===== src/Connect/Examples.antt =====
-- Runs of Connect.antt: the first address is refused, the second accepts.
use llgoexamples.Base.{◌≡◌, refl, some, [], ◌∷◌}
use llgoexamples.Hyper.Calls.{AddrInfo}
use llgoexamples.Hyper.Env.{Env}
use llgoexamples.Hyper.Sample.{sample, sample-Laws}
use llgoexamples.Exchange.{start}
use llgoexamples.Connect.{connect_to, try_addresses}
use llgoexamples.Connect.Sockets.{Connected, connect_to-Connected}
use llgoexamples.Connect.Order.{Ordered, try_addresses-Ordered}
use llgoexamples.Client.{Callback}

abbrev env : Env Callback
env = sample

abbrev refusing : AddrInfo
refusing = record { family = 10; socktype = 1; protocol = 6; addr = [] }

abbrev accepting : AddrInfo
accepting = record { family = 2; socktype = 1; protocol = 6; addr = [] }

second_accepts : (connect_to env [] [] start).0 ≡ some 3
unfolding connect_to
second_accepts = refl

connect_to-Connected_example :
    Connected start (connect_to env [] [] start).0 (connect_to env [] [] start).1
connect_to-Connected_example = connect_to-Connected env sample-Laws [] [] start tt

try_addresses-Ordered_example :
    let l = refusing ∷ accepting ∷ refusing ∷ [] in
    Ordered l start (try_addresses env l start).0 (try_addresses env l start).1
try_addresses-Ordered_example =
    try_addresses-Ordered env (refusing ∷ accepting ∷ refusing ∷ []) start
