-- ===== src/Discovery/Scan.antt =====
-- discovery/http.rs: the scans of many hosts. The probes of a scan run at the same time; a scan is
-- given what it takes from their stream, in the order in which they end.
pub mod Kept
pub mod Found
use localsend_rs.Base.{ℕ, Bool, true, false, ◌||◌, Option, none, some, List, [], ◌∷◌, if◌then◌else◌}
use localsend_rs.Protocol.{Text, IpAddr, DeviceInfo, text_eq, is_empty}
use localsend_rs.Discovery.Probe.{Network, probe_info, probe_register_peer}

-- The next probe that ended, with what the network answered it, or the deadline. No further entry
-- is the end of the stream.
pub data Tick : Type 0 where
  answered : IpAddr → Network → Tick
  deadline : Tick

pub record ScanOutcome : Type 0 where
  pub devices : List DeviceInfo
  pub complete : Bool

abbrev pub push_found : Option DeviceInfo → List DeviceInfo → List DeviceInfo
push_found none devices = devices
push_found (some device) devices = device ∷ devices

-- The loop: the devices in the order of their answers, and whether the stream came to its end.
unfoldable pub collect : (IpAddr → Network → Option DeviceInfo) → List Tick → List DeviceInfo × Bool
collect probe [] = ([], true)
collect probe (deadline ∷ _) = ([], false)
collect probe (answered ip net ∷ ticks) =
    let rest = collect probe ticks in (push_found (probe ip net) rest.0, rest.1)

-- `HashSet::contains`, over the fingerprints seen.
unfoldable pub contains_text : List Text → Text → Bool
contains_text [] t = false
contains_text (s ∷ ss) t = text_eq s t || contains_text ss t

-- The loop over what was discovered: this device and repeated fingerprints are left out.
unfoldable pub deduplicate : Text → List Text → List DeviceInfo → List DeviceInfo
unfolding contains_text
deduplicate own seen [] = []
deduplicate own seen (device ∷ devices) =
    let skipped = deduplicate own seen devices in
    let added = deduplicate own (device.fingerprint ∷ seen) devices in
    if is_empty device.fingerprint || text_eq device.fingerprint own
    then skipped
    else if contains_text seen device.fingerprint
    then skipped
    else device ∷ added

unfoldable pub scan_hosts : DeviceInfo → ℕ → Bool → List Tick → ScanOutcome
unfolding collect deduplicate
scan_hosts local_device target_port allow_register_fallback ticks =
    let discovered =
      collect (λ ip net. (probe_info net local_device ip target_port allow_register_fallback).1)
        ticks in
    record {
      devices = deduplicate local_device.fingerprint [] discovered.0;
      complete = discovered.1;
    }

unfoldable pub scan_register_hosts : DeviceInfo → List Tick → ScanOutcome
unfolding collect deduplicate
scan_register_hosts local_device ticks =
    let discovered = collect (λ ip net. (probe_register_peer net local_device ip).1) ticks in
    record {
      devices = deduplicate local_device.fingerprint [] discovered.0;
      complete = discovered.1;
    }
