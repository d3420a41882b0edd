-- ===== src/Tests/Multicast.antt =====
-- discovery/multicast/interfaces.rs: a machine with a bridge and two networks.
use localsend_rs.Base.{
  true, ◌↔◌, false, ◌≡◌, List, [], ◌∷◌, none, some, contains, AnyOf, Distinct, refl,
}
use localsend_rs.Error.{ok, bytes}
use localsend_rs.Discovery.Multicast.Interfaces.{
  Interface, select_multicast_candidate_addresses, insert_sorted,
}
use localsend_rs.Discovery.Multicast.Interfaces.Eligible.{IsCandidate, candidates-contains}
use localsend_rs.Discovery.Multicast.Device.{MulticastDiscovery, panics, start, stop}
use localsend_rs.Discovery.Multicast.Device.Rounds.{opens_socket, start_panics_iff}
use localsend_rs.Tests.Samples.{alice}

-- 172.17.0.1 on docker0, 192.168.0.2 on eth0 and 10.0.0.2 on wg0.
abbrev machine : List Interface
machine =
    record { name = bytes "docker0"; address = 2886795265; netmask = 4294901760 }
    ∷ record { name = bytes "eth0"; address = 3232235522; netmask = 4294967040 }
    ∷ record { name = bytes "wg0"; address = 167772162; netmask = 4294967040 }
    ∷ []

bridges_skipped :
    select_multicast_candidate_addresses machine none (some 3232235522)
    ≡ 3232235522 ∷ 167772162 ∷ []
unfolding select_multicast_candidate_addresses insert_sorted
bridges_skipped = refl

candidates-contains_example :
    ((contains (select_multicast_candidate_addresses machine none (some 3232235522)) 167772162
        ≡ true)
      ↔ AnyOf (IsCandidate none (some 3232235522) machine 167772162) machine)
    × Distinct (select_multicast_candidate_addresses machine none (some 3232235522))
candidates-contains_example = candidates-contains machine none (some 3232235522) 167772162

abbrev discovery : MulticastDiscovery
discovery = record {
  local_device = alice;
  config = record { address = 3758096551; port = 53317; interface_names = none };
  sockets = 3232235522 ∷ [];
  running = true;
  tx = true;
  client_certificate = none;
}

start_panics_iff_example :
    (((start (ok (3232235522 ∷ [])) (stop discovery)).1 ≡ panics)
      ↔ ((false ≡ false) × ((false ≡ false) × (opens_socket (ok (3232235522 ∷ [])) ≡ true))))
    × (opens_socket (ok (3232235522 ∷ [])) ≡ true
        → (start (ok (3232235522 ∷ [])) (stop (stop discovery))).1 ≡ panics)
unfolding stop
start_panics_iff_example = start_panics_iff (ok (3232235522 ∷ [])) (stop discovery)
