-- ===== src/Discovery/Local.antt =====
-- discovery/http.rs: the discovery object. It is passive: it is started and stopped, and it announces
-- nothing. The HTTP client that it holds is another crate's, and `tx` the presence of its channel.
use localsend_rs.Base.{Bool, true, false, none, some, List, [], ℕ, if◌then◌else◌}
use localsend_rs.Protocol.{Text, DeviceInfo, DeviceType, Protocol}
use localsend_rs.Error.{Result, ok, err, network, bytes}

pub record HttpDiscovery : Type 0 where
  pub local_device : DeviceInfo
  pub running : Bool
  pub tx : Bool

-- `built` is what building the client came to.
pub with_client_identity : DeviceInfo → Result (Unit {0}) → Result HttpDiscovery
with_client_identity device built = elim built [
  | err e ↦ err e
  | ok _ ↦ ok (record { local_device = device; running = false; tx = false })
]

-- `HttpDiscovery::new` and `new_with_client_certificate`: the model and the type are the machine's,
-- the fingerprint is a new one or the certificate's.
pub new_device : Text → DeviceType → Text → ℕ → Protocol → Text → DeviceInfo
new_device model device_type alias port protocol fingerprint = record {
  alias = alias;
  version = bytes "2.1";
  device_model = some model;
  device_type = some device_type;
  fingerprint = fingerprint;
  port = port;
  protocol = protocol;
  download = false;
  ip = none;
}

pub start : HttpDiscovery → HttpDiscovery × Result (Unit {0})
start d =
    if d.running
    then (d, err (network (bytes "Discovery already running")))
    else (record d { running = true; tx = true }, ok tt)

pub stop : HttpDiscovery → HttpDiscovery
stop d = record d { running = false; tx = false }

pub announce_presence : HttpDiscovery → Result (Unit {0})
announce_presence d = err (network (bytes "HTTP discovery doesn't support announce"))

pub get_known_devices : HttpDiscovery → List DeviceInfo
get_known_devices d = []
