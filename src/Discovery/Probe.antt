-- ===== src/Discovery/Probe.antt =====
-- discovery/http.rs: the probes of one host. The HTTP client is another crate's: a probe is given
-- what the network answers, and returns the requests that it made with its result.
pub mod Disclosure
pub mod Answers
use localsend_rs.Base.{
  ℕ, Bool, ◌&&◌, ◌||◌, not, Option, none, some, List, [], ◌∷◌, ◌==◌, leb, ltb, if◌then◌else◌,
}
use localsend_rs.Protocol.{IpAddr, DeviceInfo, Protocol, http, https}

-- `GET …/info` and `POST …/register`, the latter with the device that it discloses.
pub data Request : Type 0 where
  get_info : Protocol → IpAddr → ℕ → Request
  post_register : Protocol → IpAddr → ℕ → DeviceInfo → Request

-- `is_timeout()`, another error, or a status with what its body decodes to.
pub data Reply : Type 0 where
  timed_out failed : Reply
  responds : ℕ → Option DeviceInfo → Reply

abbrev pub Network : Type 0
Network = Request → Reply

pub data ProbeOutcome : Type 0 where
  found : DeviceInfo → ProbeOutcome
  unreachable miss register_fallback : ProbeOutcome

abbrev pub not_found : ℕ
not_found = 404

abbrev pub method_not_allowed : ℕ
method_not_allowed = 405

-- `StatusCode::is_success` of the HTTP crate.
abbrev pub is_success : ℕ → Bool
is_success code = leb 200 code && ltb code 300

unfoldable pub register_fallback_status : ℕ → Bool
register_fallback_status code = code == not_found || code == method_not_allowed

-- The address is the connection's, whatever the body says.
abbrev pub located : IpAddr → ℕ → Protocol → DeviceInfo → DeviceInfo
located ip port protocol device = record device { ip = some ip; port = port; protocol = protocol }

abbrev pub decoded : IpAddr → ℕ → Protocol → Option DeviceInfo → ProbeOutcome
decoded ip port protocol none = miss
decoded ip port protocol (some device) = found (located ip port protocol device)

unfoldable pub probe_info_with : Network → IpAddr → ℕ → Protocol → ProbeOutcome
unfolding register_fallback_status
probe_info_with net ip port protocol = elim (net (get_info protocol ip port)) [
  | timed_out ↦ unreachable
  | failed ↦ miss
  | responds code body ↦
      if not (is_success code)
      then (if register_fallback_status code then register_fallback else miss)
      else decoded ip port protocol body
]

unfoldable pub probe_register_with : Network → DeviceInfo → IpAddr → ℕ → Protocol → ProbeOutcome
probe_register_with net local_device ip port protocol =
    elim (net (post_register protocol ip port local_device)) [
      | timed_out ↦ unreachable
      | failed ↦ miss
      | responds code body ↦ if not (is_success code) then miss else decoded ip port protocol body
    ]

unfoldable pub protocol_candidates : DeviceInfo → List Protocol
protocol_candidates local_device = elim local_device.protocol [
  | https ↦ https ∷ http ∷ []
  | http ↦ http ∷ https ∷ []
]

abbrev pub Probed : Type 0
Probed = List Request × Option DeviceInfo

-- One round of a loop over the schemes ends it, or leaves it to the rounds that follow.
abbrev pub after : List Request → Probed → Probed
after [] rest = rest
after (r ∷ rs) rest = (r ∷ (after rs rest).0, (after rs rest).1)

unfoldable pub probe_info_on : Network → DeviceInfo → IpAddr → ℕ → Bool → List Protocol → Probed
unfolding probe_info_with probe_register_with
probe_info_on net local_device ip port allow [] = ([], none)
probe_info_on net local_device ip port allow (protocol ∷ protocols) =
    let rest = probe_info_on net local_device ip port allow protocols in
    let get = get_info protocol ip port in
    let post = post_register protocol ip port local_device in
    elim (probe_info_with net ip port protocol) [
      | found device ↦ (get ∷ [], some device)
      | unreachable ↦ (get ∷ [], none)
      | register_fallback ↦
          if allow
          then (elim (probe_register_with net local_device ip port protocol) [
            | found device ↦ (get ∷ post ∷ [], some device)
            | unreachable ↦ (get ∷ post ∷ [], none)
            | miss ↦ after (get ∷ post ∷ []) rest
            | register_fallback ↦ after (get ∷ post ∷ []) rest
          ])
          else after (get ∷ []) rest
      | miss ↦ after (get ∷ []) rest
    ]

unfoldable pub probe_info : Network → DeviceInfo → IpAddr → ℕ → Bool → Probed
unfolding probe_info_on protocol_candidates
probe_info net local_device ip port allow =
    probe_info_on net local_device ip port allow (protocol_candidates local_device)

pub probe_register_on : Network → DeviceInfo → IpAddr → List Protocol → Probed
unfolding probe_register_with
probe_register_on net local_device ip [] = ([], none)
probe_register_on net local_device ip (protocol ∷ protocols) =
    let rest = probe_register_on net local_device ip protocols in
    let post = post_register protocol ip local_device.port local_device in
    elim (probe_register_with net local_device ip local_device.port protocol) [
      | found device ↦ (post ∷ [], some device)
      | unreachable ↦ (post ∷ [], none)
      | miss ↦ after (post ∷ []) rest
      | register_fallback ↦ after (post ∷ []) rest
    ]

pub probe_register_peer : Network → DeviceInfo → IpAddr → Probed
unfolding probe_register_on protocol_candidates
probe_register_peer net local_device ip =
    probe_register_on net local_device ip (protocol_candidates local_device)

pub probe_peer_on : Network → DeviceInfo → IpAddr → ℕ → List Protocol → Probed
unfolding probe_info_with probe_register_with
probe_peer_on net local_device ip port [] = ([], none)
probe_peer_on net local_device ip port (protocol ∷ protocols) =
    let rest = probe_peer_on net local_device ip port protocols in
    let get = get_info protocol ip port in
    let post = post_register protocol ip port local_device in
    elim (probe_info_with net ip port protocol) [
      | found device ↦ (get ∷ [], some device)
      | unreachable ↦ (get ∷ [], none)
      | register_fallback ↦ elim (probe_register_with net local_device ip port protocol) [
        | found device ↦ (get ∷ post ∷ [], some device)
        | unreachable ↦ (get ∷ post ∷ [], none)
        | miss ↦ after (get ∷ post ∷ []) rest
        | register_fallback ↦ after (get ∷ post ∷ []) rest
      ]
      | miss ↦ after (get ∷ []) rest
    ]

pub probe_peer : Network → DeviceInfo → IpAddr → ℕ → Probed
unfolding probe_peer_on protocol_candidates
probe_peer net local_device ip port =
    probe_peer_on net local_device ip port (protocol_candidates local_device)
