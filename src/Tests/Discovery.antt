-- ===== src/Tests/Discovery.antt =====
-- discovery/http.rs: a small network, and the source's own unit tests of a network's hosts.
use localsend_rs.Base.{ℕ, ◌≡◌, ◌≢◌, ◌↔◌, ◌≤◌, ◌<◌, refl, true, none, some, List, [], ◌∷◌, All}
use localsend_rs.Error.{bytes, ok}
use localsend_rs.Protocol.{Text, DeviceInfo}
use localsend_rs.Discovery.Probe
use localsend_rs.Discovery.Probe.{get_info, post_register, failed, responds, Network, probe_info}
use localsend_rs.Discovery.Probe.Disclosure.{IsWarranted, probe_info-IsWarranted}
use localsend_rs.Discovery.Probe.Answers.{IsAnswer, probe_info-IsAnswer}
use localsend_rs.Discovery.Scan.{Tick, answered, deadline, contains_text, scan_hosts}
use localsend_rs.Discovery.Scan.Kept.{first_with, AreDistinct}
use localsend_rs.Discovery.Scan.Found.{IsFirstAnswer, HasDeadline, probes, scan_hosts-first_with}
use localsend_rs.Discovery.Subnet.{parse_ipv4, with_dots, host_of, subnet_hosts}
use localsend_rs.Discovery.Subnet.Hosts.{subnet_hosts-contains}
use localsend_rs.Tests.Samples.{alice}

abbrev bob : DeviceInfo
bob = record alice { alias = bytes "bob"; fingerprint = bytes "b" }

abbrev found_bob : DeviceInfo
found_bob = record bob { ip = some 5; port = 53317 }

-- A host without `/info` that registers, and one that is not reached.
abbrev registers : Network
registers (get_info _ _ _) = responds 404 none
registers (post_register _ _ _ _) = responds 200 (some bob)

abbrev refuses : Network
refuses _ = failed

abbrev ticks : List Tick
ticks = answered 5 registers ∷ answered 6 refuses ∷ deadline ∷ answered 8 registers ∷ []

base_parses : parse_ipv4 (bytes "192.0.2.10") ≡ some (192, 0, 2, 10)
unfolding parse_ipv4
base_parses = refl

no_leading_zeros : parse_ipv4 (bytes "192.0.02.10") ≡ none
unfolding parse_ipv4
no_leading_zeros = refl

probe_info-IsWarranted_example :
    All (IsWarranted registers alice 5 53317 true) (probe_info registers alice 5 53317 true).0
probe_info-IsWarranted_example = probe_info-IsWarranted registers alice 5 53317 true

bob_found : (probe_info registers alice 5 53317 true).1 ≡ some found_bob
unfolding probe_info Probe.probe_info_on Probe.protocol_candidates Probe.probe_info_with
    Probe.probe_register_with Probe.register_fallback_status
bob_found = refl

probe_info-IsAnswer_example : IsAnswer registers alice 5 53317 true found_bob
probe_info-IsAnswer_example = probe_info-IsAnswer registers alice 5 53317 true found_bob bob_found

scan_hosts-first_with_example :
    let scan = scan_hosts alice 53317 true ticks in
    AreDistinct scan.devices
    × (((first_with (bytes "b") scan.devices ≡ some found_bob) ↔ (
          (bytes "b" ≢ [])
          × ((bytes "b" ≢ alice.fingerprint)
              × IsFirstAnswer (probes alice 53317 true) (bytes "b") ticks found_bob)))
        × ((scan.complete ≡ true) ↔ (¬ HasDeadline ticks)))
scan_hosts-first_with_example = scan_hosts-first_with alice 53317 true ticks (bytes "b") found_bob

subnet_hosts-contains_example :
    (hosts : List Text) × ((subnet_hosts (bytes "192.0.2.10") ≡ ok hosts)
      × ((contains_text hosts (bytes "192.0.2.254") ≡ true) ↔ (
          ((h : ℕ) × ((1 ≤ h)
              × ((h < 255) × (bytes "192.0.2.254" ≡ host_of (with_dots 192 0 2) h))))
          × (bytes "192.0.2.254" ≢ bytes "192.0.2.10"))))
subnet_hosts-contains_example =
    subnet_hosts-contains (bytes "192.0.2.10") (bytes "192.0.2.254") 192 0 2 10 base_parses
