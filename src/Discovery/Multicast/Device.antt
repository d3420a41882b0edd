-- ===== src/Discovery/Multicast/Device.antt =====
-- discovery/multicast.rs: the discovery object. Its sockets are named by their interfaces, `tx` says
-- whether its channel is there, and a certificate stands for its fingerprint.
pub mod Rounds
use localsend_rs.Base.{
  ℕ, ◌/◌, ◌^◌, Bool, true, false, ◌&&◌, not, Option, none, some, List, [], ◌∷◌, ◌++◌, ◌==◌,
  if◌then◌else◌, any, is_some,
}
use localsend_rs.Protocol.{
  Text, IpAddr, DeviceInfo, DeviceType, Protocol, https, http, text_eq, is_empty,
}
use localsend_rs.Error.{Result, ok, err, network, invalid_port, invalid_multicast_address, bytes}
use localsend_rs.Discovery.Multicast.Interfaces.{
  Ipv4, Interface, select_multicast_candidate_addresses, select_interface_addresses,
}
use localsend_rs.Discovery.Multicast.Announcement.{
  AnnouncementSendSummary, empty_summary, send_announcement_round, needs_recovery_retry,
}
use localsend_rs.Discovery.Multicast.Announcement

pub record MulticastConfig : Type 0 where
  pub address : Ipv4
  pub port : ℕ
  pub interface_names : Option (List Text)

-- `Ipv4Addr::is_multicast`: `224.0.0.0/4`.
abbrev pub is_multicast : Ipv4 → Bool
is_multicast address = address / 2 ^ 28 == 14

-- `print` is the text of an address.
unfoldable pub new_config : (Ipv4 → Text) → Ipv4 → ℕ → Option (List Text) → Result MulticastConfig
new_config print address port interface_names =
    if not (is_multicast address)
    then err (invalid_multicast_address (print address))
    else if port == 0
    then err (invalid_port (bytes "0"))
    else ok (record { address = address; port = port; interface_names = interface_names })

pub record MulticastDiscovery : Type 0 where
  pub local_device : DeviceInfo
  pub config : MulticastConfig
  pub sockets : List Ipv4
  pub running : Bool
  pub tx : Bool
  pub client_certificate : Option Text

unfoldable pub new_with_device_and_config :
    (Ipv4 → Text) → DeviceInfo → MulticastConfig → Result MulticastDiscovery
unfolding new_config
new_with_device_and_config print device config =
    elim (new_config print config.address config.port config.interface_names) [
      | err e ↦ err e
      | ok checked ↦ ok (record {
        local_device = device;
        config = checked;
        sockets = [];
        running = false;
        tx = true;
        client_certificate = none;
      })
    ]

unfoldable pub set_local_device : DeviceInfo → MulticastDiscovery → MulticastDiscovery
set_local_device device d = record d { local_device = device }

abbrev pub with_fingerprint : Text → DeviceInfo → DeviceInfo
with_fingerprint fingerprint device = record device { fingerprint = fingerprint }

unfoldable pub set_client_certificate : Text → MulticastDiscovery → MulticastDiscovery
set_client_certificate fingerprint d = elim d.local_device.protocol [
  | https ↦ record d {
    local_device = with_fingerprint fingerprint d.local_device;
    client_certificate = some fingerprint;
  }
  | http ↦ record d { client_certificate = some fingerprint }
]

-- `multicast_interfaces`: `listed` is the machine's listing, less IPv6 and what its own test calls a
-- loopback, or the text of its error; `local_ip` the address that routes to the outside.
unfoldable pub multicast_interfaces :
    Result (List Interface) → Option Ipv4 → Option (List Text) → Result (List Ipv4)
unfolding select_multicast_candidate_addresses select_interface_addresses
multicast_interfaces listed local_ip interface_names = elim listed [
  | err e ↦ err e
  | ok addresses ↦ elim interface_names [
    | some names ↦ ok (select_multicast_candidate_addresses addresses (some names) none)
    | none ↦
        let candidates = select_multicast_candidate_addresses addresses none local_ip in
        let interfaces =
          if is_empty candidates && is_some local_ip
          then select_interface_addresses addresses none none
          else candidates in
        if is_empty interfaces then ok (0 ∷ []) else ok interfaces
  ]
]

-- What a call of `start` comes to. A panic is that of `tx.as_ref().unwrap()`, at the first socket.
pub data Started : Type 0 where
  returns : Result (Unit {0}) → Started
  panics : Started

-- `opened` is the sockets over the interfaces, or the first error in listing and opening them.
unfoldable pub start : Result (List Ipv4) → MulticastDiscovery → MulticastDiscovery × Started
start opened d =
    if d.running
    then (d, returns (err (network (bytes "Discovery already running"))))
    else elim opened [
      | err e ↦ (d, returns (err e))
      | ok sockets ↦
          let d' = record d { sockets = sockets; running = true } in
          if not (is_empty sockets) && not d.tx then (d', panics) else (d', returns (ok tt))
    ]

unfoldable pub stop : MulticastDiscovery → MulticastDiscovery
stop d = record d { sockets = []; running = false; tx = false }

-- The rounds of `announce_presence`: `sends` gives what the sockets answered in each. Three go out in
-- any case, and up to two more while none was taken.
unfoldable pub retry_rounds :
    (ℕ → List (Option Text)) → List ℕ → AnnouncementSendSummary → AnnouncementSendSummary
unfolding needs_recovery_retry send_announcement_round
retry_rounds sends [] s = s
retry_rounds sends (attempt ∷ attempts) s =
    let next = retry_rounds sends attempts (send_announcement_round (sends attempt) s) in
    if not (needs_recovery_retry s) then s else next

unfoldable pub announce_presence : (ℕ → List (Option Text)) → MulticastDiscovery → Result (Unit {0})
unfolding retry_rounds Announcement.finish
announce_presence sends d =
    if is_empty d.sockets
    then err (network (bytes "Discovery not started"))
    else Announcement.finish (
        retry_rounds sends (3 ∷ 4 ∷ []) (
          send_announcement_round (sends 2)
            (send_announcement_round (sends 1) (send_announcement_round (sends 0) empty_summary))))

-- What a datagram says, where it is an announcement.
pub record AnnouncementMessage : Type 0 where
  pub alias : Text
  pub version : Text
  pub device_model : Option Text
  pub device_type : Option DeviceType
  pub fingerprint : Text
  pub port : ℕ
  pub protocol : Protocol
  pub download : Bool
  pub announce : Bool
  pub announcement : Option Bool

-- What this device announces.
unfoldable pub announcement_of : DeviceInfo → AnnouncementMessage
announcement_of device = record {
  alias = device.alias;
  version = device.version;
  device_model = device.device_model;
  device_type = device.device_type;
  fingerprint = device.fingerprint;
  port = device.port;
  protocol = device.protocol;
  download = device.download;
  announce = true;
  announcement = some true;
}

-- The device that an announcement is answered for; `local_fingerprint` is the one at the start.
unfoldable pub announced : Text → IpAddr → Option AnnouncementMessage → Option DeviceInfo
unfolding text_eq
announced local_fingerprint src none = none
announced local_fingerprint src (some m) =
    if text_eq m.fingerprint local_fingerprint
    then none
    else some (record {
      alias = m.alias;
      version = m.version;
      device_model = m.device_model;
      device_type = m.device_type;
      fingerprint = m.fingerprint;
      port = m.port;
      protocol = m.protocol;
      download = m.download;
      ip = some src;
    })

-- `respond_to_announcement`: the client that registers, and whether the peer confirmed.
unfoldable pub respond_to_announcement : Result (Unit {0}) → Result DeviceInfo → Bool
respond_to_announcement (err _) registered = false
respond_to_announcement (ok _) (err _) = false
respond_to_announcement (ok _) (ok _) = true

-- The callback of `scan`: one entry for each fingerprint.
unfoldable pub push_device : DeviceInfo → List DeviceInfo → List DeviceInfo
unfolding text_eq
push_device device devices =
    if not (any (λ d. text_eq d.fingerprint device.fingerprint) devices)
    then devices ++ device ∷ []
    else devices
