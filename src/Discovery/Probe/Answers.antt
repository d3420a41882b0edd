-- ===== src/Discovery/Probe/Answers.antt =====
-- discovery/http.rs: the devices that a probe returns are what the host answered.
use localsend_rs.Base.{
  ℕ, ◌≡◌, ◌⊎◌, ◌≤◌, ◌<◌, inl, inr, sym, Bool, true, Option, none, some, List, [], ◌∷◌, arith,
  Bool-cases,
}
use localsend_rs.Protocol.{IpAddr, DeviceInfo, Protocol}
use localsend_rs.Discovery.Probe.{
  Request, get_info, post_register, responds, Network, found, probe_info_with, probe_register_with,
  protocol_candidates, probe_info_on, probe_info, located, decoded, is_success,
}
use localsend_rs.Discovery.Probe.Disclosure.{LacksInfo, lacks_info, ProbeOutcome-cases, Reply-cases}

-- A request that was answered with success and a device, of which the probe's result has all but the
-- place where the host was asked.
abbrev pub IsAnswered : Network → Request → IpAddr → ℕ → Protocol → DeviceInfo → Type 0
IsAnswered net request ip port protocol d =
    (code : ℕ) × ((body : DeviceInfo) × ((200 ≤ code)
        × ((code < 300)
            × ((net request ≡ responds code (some body))
                × (d ≡ record body { ip = some ip; port = port; protocol = protocol })))))

-- The host gave the device to `/info`, or, where it has none and that is allowed, on registering.
abbrev pub IsAnswer : Network → DeviceInfo → IpAddr → ℕ → Bool → DeviceInfo → Type 0
IsAnswer net self ip port allow d =
    (protocol : Protocol) × (IsAnswered net (get_info protocol ip port) ip port protocol d
      ⊎ ((allow ≡ true)
          × (LacksInfo net ip port protocol
              × IsAnswered net (post_register protocol ip port self) ip port protocol d)))

decoded-found :
    (net : Network) (request : Request) (ip : IpAddr) (port : ℕ) (protocol : Protocol)
    (d : DeviceInfo) (code : ℕ) (body : Option DeviceInfo)
    → net request ≡ responds code body
    → is_success code ≡ true
    → decoded ip port protocol body ≡ found d
    → IsAnswered net request ip port protocol d
decoded-found net request ip port protocol d code none answer good e = absurd (ground (arith, e))
decoded-found net request ip port protocol d code (some body) answer good e =
    let same : located ip port protocol body ≡ d = ground (arith, e) in
    (code, (body, (ground (arith, good), (ground (arith, good), (answer, sym same)))))

probe_info_with-found :
    (net : Network) (ip : IpAddr) (port : ℕ) (protocol : Protocol) (d : DeviceInfo)
    → probe_info_with net ip port protocol ≡ found d
    → IsAnswered net (get_info protocol ip port) ip port protocol d
unfolding probe_info_with
probe_info_with-found net ip port protocol d e =
    elim (Reply-cases (net (get_info protocol ip port))) [
      | inl late ↦ absurd (ground (arith, e, late))
      | inr (inl broken) ↦ absurd (ground (arith, e, broken))
      | inr (inr (code, (body, answer))) ↦ elim (Bool-cases (is_success code)) [
        | inl good ↦
            decoded-found net (get_info protocol ip port) ip port protocol d code body answer good
              (ground (arith, e, answer, good))
        | inr bad ↦ absurd (ground (arith, e, answer, bad))
      ]
    ]

probe_register_with-found :
    (net : Network) (self : DeviceInfo) (ip : IpAddr) (port : ℕ) (protocol : Protocol)
    (d : DeviceInfo)
    → probe_register_with net self ip port protocol ≡ found d
    → IsAnswered net (post_register protocol ip port self) ip port protocol d
unfolding probe_register_with
probe_register_with-found net self ip port protocol d e =
    elim (Reply-cases (net (post_register protocol ip port self))) [
      | inl late ↦ absurd (ground (arith, e, late))
      | inr (inl broken) ↦ absurd (ground (arith, e, broken))
      | inr (inr (code, (body, answer))) ↦ elim (Bool-cases (is_success code)) [
        | inl good ↦
            decoded-found net (post_register protocol ip port self) ip port protocol d code body
              answer good (ground (arith, e, answer, good))
        | inr bad ↦ absurd (ground (arith, e, answer, bad))
      ]
    ]

probe_info_on-IsAnswer :
    (net : Network) (self : DeviceInfo) (ip : IpAddr) (port : ℕ) (allow : Bool)
    (protocols : List Protocol) (d : DeviceInfo)
    → (probe_info_on net self ip port allow protocols).1 ≡ some d
    → IsAnswer net self ip port allow d
unfolding probe_info_on
probe_info_on-IsAnswer net self ip port allow [] d e = absurd (ground (arith, e))
probe_info_on-IsAnswer net self ip port allow (protocol ∷ protocols) d e =
    let later = probe_info_on-IsAnswer net self ip port allow protocols d in
    elim (ProbeOutcome-cases (probe_info_with net ip port protocol)) [
      | inl (device, it) ↦
          let same : device ≡ d = ground (arith, e, it) in
          (protocol, inl (probe_info_with-found net ip port protocol d (ground (arith, it, same))))
      | inr (inl it) ↦ absurd (ground (arith, e, it))
      | inr (inr (inl it)) ↦ later (ground (arith, e, it))
      | inr (inr (inr it)) ↦ elim (Bool-cases allow) [
        | inr forbidden ↦ later (ground (arith, e, it, forbidden))
        | inl allowed ↦ elim (ProbeOutcome-cases (probe_register_with net self ip port protocol)) [
          | inl (device, given) ↦
              let same : device ≡ d = ground (arith, e, it, allowed, given) in
              let answer =
                probe_register_with-found net self ip port protocol d
                  (ground (arith, given, same)) in
              (protocol, inr (allowed, (lacks_info net ip port protocol it, answer)))
          | inr (inl given) ↦ absurd (ground (arith, e, it, allowed, given))
          | inr (inr (inl given)) ↦ later (ground (arith, e, it, allowed, given))
          | inr (inr (inr given)) ↦ later (ground (arith, e, it, allowed, given))
        ]
      ]
    ]

-- A device that a probe returns is one that the host answered with, under a status of success, but for
-- its address, port and scheme, which are those of the request: to `/info`, or, where the fallback is
-- allowed and the host answered `/info` on that scheme with 404 or 405, to the registration of this
-- device.
pub probe_info-IsAnswer :
    (net : Network) (self : DeviceInfo) (ip : IpAddr) (port : ℕ) (allow : Bool) (d : DeviceInfo)
    → (probe_info net self ip port allow).1 ≡ some d
    → IsAnswer net self ip port allow d
unfolding probe_info
probe_info-IsAnswer net self ip port allow d e =
    probe_info_on-IsAnswer net self ip port allow (protocol_candidates self) d e
