-- ===== src/Discovery/Probe/Disclosure.antt =====
-- discovery/http.rs: to whom a probe discloses this device, and what it returns.
use localsend_rs.Base.{
  ℕ, ◌≡◌, ◌⊎◌, inl, inr, refl, Bool, true, Option, none, some, List, [], ◌∷◌, arith, All, subst,
  Bool-cases,
}
use localsend_rs.Protocol.{IpAddr, DeviceInfo, Protocol}
use localsend_rs.Discovery.Probe.{
  Request, get_info, post_register, Reply, timed_out, failed, responds, Network, ProbeOutcome,
  found, unreachable, miss, register_fallback, register_fallback_status, probe_info_with,
  probe_register_with, protocol_candidates, probe_info_on, probe_info, probe_peer_on, probe_peer,
  after,
}

-- The host said on this scheme that it has no `/info`.
abbrev pub LacksInfo : Network → IpAddr → ℕ → Protocol → Type 0
LacksInfo net ip port protocol =
    (body : Option DeviceInfo) × ((net (get_info protocol ip port) ≡ responds 404 body)
      ⊎ (net (get_info protocol ip port) ≡ responds 405 body))

-- A request that discloses nothing, or that follows a `/info` that is missing, where it is allowed.
abbrev pub IsWarranted : Network → DeviceInfo → IpAddr → ℕ → Bool → Request → Type 0
IsWarranted net self ip port allow (get_info protocol i p) = (i ≡ ip) × (p ≡ port)
IsWarranted net self ip port allow (post_register protocol i p device) =
    (allow ≡ true) × ((i ≡ ip) × ((p ≡ port) × ((device ≡ self) × LacksInfo net ip port protocol)))

pub ProbeOutcome-cases :
    (o : ProbeOutcome)
    → ((device : DeviceInfo) × (o ≡ found device))
      ⊎ ((o ≡ unreachable) ⊎ ((o ≡ miss) ⊎ (o ≡ register_fallback)))
ProbeOutcome-cases (found device) = inl (device, refl)
ProbeOutcome-cases unreachable = inr (inl refl)
ProbeOutcome-cases miss = inr (inr (inl refl))
ProbeOutcome-cases register_fallback = inr (inr (inr refl))

pub Reply-cases :
    (r : Reply)
    → (r ≡ timed_out)
      ⊎ ((r ≡ failed) ⊎ ((code : ℕ) × ((body : Option DeviceInfo) × (r ≡ responds code body))))
Reply-cases timed_out = inl refl
Reply-cases failed = inr (inl refl)
Reply-cases (responds code body) = inr (inr (code, (body, refl)))

pub lacks_info :
    (net : Network) (ip : IpAddr) (port : ℕ) (protocol : Protocol)
    → probe_info_with net ip port protocol ≡ register_fallback
    → LacksInfo net ip port protocol
unfolding probe_info_with register_fallback_status
lacks_info net ip port protocol e = elim (Reply-cases (net (get_info protocol ip port))) [
  | inl late ↦ absurd (ground (arith, e))
  | inr (inl broken) ↦ absurd (ground (arith, e))
  | inr (inr (code, (none, answer))) ↦ (none, ground (arith, e))
  | inr (inr (code, (some device, answer))) ↦ (some device, ground (arith, e))
]

probe_info_on-IsWarranted :
    (net : Network) (self : DeviceInfo) (ip : IpAddr) (port : ℕ) (allow : Bool)
    (protocols : List Protocol)
    → All (IsWarranted net self ip port allow) (probe_info_on net self ip port allow protocols).0
unfolding probe_info_on
probe_info_on-IsWarranted net self ip port allow [] = tt
probe_info_on-IsWarranted net self ip port allow (protocol ∷ protocols) =
    let W = IsWarranted net self ip port allow in
    let rest = probe_info_on net self ip port allow protocols in
    let later = probe_info_on-IsWarranted net self ip port allow protocols in
    let asked = get_info protocol ip port ∷ [] in
    let both = get_info protocol ip port ∷ post_register protocol ip port self ∷ [] in
    let get : W (get_info protocol ip port) = (refl, refl) in
    let run = probe_info_on net self ip port allow (protocol ∷ protocols) in
    elim (ProbeOutcome-cases (probe_info_with net ip port protocol)) [
      | inl (device, e) ↦
          let same : (asked, some device) ≡ run = ground arith in
          subst (λ r. All W r.0) same (get, tt)
      | inr (inl e) ↦
          let same : (asked, none) ≡ run = ground arith in subst (λ r. All W r.0) same (get, tt)
      | inr (inr (inl e)) ↦
          let same : after asked rest ≡ run = ground arith in
          subst (λ r. All W r.0) same (get, later)
      | inr (inr (inr e)) ↦ elim (Bool-cases allow) [
        | inr forbidden ↦
            let same : after asked rest ≡ run = ground arith in
            subst (λ r. All W r.0) same (get, later)
        | inl allowed ↦
            let post : W (post_register protocol ip port self) =
              (allowed, (refl, (refl, (refl, lacks_info net ip port protocol e)))) in
            elim (ProbeOutcome-cases (probe_register_with net self ip port protocol)) [
              | inl (device, e') ↦
                  let same : (both, some device) ≡ run = ground arith in
                  subst (λ r. All W r.0) same (get, (post, tt))
              | inr (inl e') ↦
                  let same : (both, none) ≡ run = ground arith in
                  subst (λ r. All W r.0) same (get, (post, tt))
              | inr (inr (inl e')) ↦
                  let same : after both rest ≡ run = ground arith in
                  subst (λ r. All W r.0) same (get, (post, later))
              | inr (inr (inr e')) ↦
                  let same : after both rest ≡ run = ground arith in
                  subst (λ r. All W r.0) same (get, (post, later))
            ]
      ]
    ]

peer-info_on :
    (net : Network) (self : DeviceInfo) (ip : IpAddr) (port : ℕ) (protocols : List Protocol)
    → probe_peer_on net self ip port protocols ≡ probe_info_on net self ip port true protocols
unfolding probe_peer_on probe_info_on
peer-info_on net self ip port [] = refl
peer-info_on net self ip port (protocol ∷ protocols) =
    ground (arith, peer-info_on net self ip port protocols)

-- Every request of a probe goes to the host and the port that are asked for. A probe posts this
-- device to the host only where the fallback is allowed, and only on a scheme on which the host
-- answered `/info` with 404 or 405.
pub probe_info-IsWarranted :
    (net : Network) (self : DeviceInfo) (ip : IpAddr) (port : ℕ) (allow : Bool)
    → All (IsWarranted net self ip port allow) (probe_info net self ip port allow).0
unfolding probe_info
probe_info-IsWarranted net self ip port allow =
    probe_info_on-IsWarranted net self ip port allow (protocol_candidates self)

-- The probe of a known peer is the probe of a scan with the fallback allowed.
pub probe_peer-probe_info :
    (net : Network) (self : DeviceInfo) (ip : IpAddr) (port : ℕ)
    → probe_peer net self ip port ≡ probe_info net self ip port true
unfolding probe_peer probe_info
probe_peer-probe_info net self ip port = peer-info_on net self ip port (protocol_candidates self)
