-- ===== src/Discovery/Subnet.antt =====
-- discovery/http.rs: the hosts of a network, and the scans of it.
pub mod Hosts
use localsend_rs.Base.{
  ℕ, suc, zero, ◌+◌, ◌*◌, ◌-◌, Bool, true, false, ◌&&◌, ◌||◌, not, Option, none, some, List, [],
  ◌∷◌, ◌++◌, ◌==◌, leb, ltb, if◌then◌else◌, length, all, map, retain,
}
use localsend_rs.Protocol.{Text, DeviceInfo, text_eq, is_empty}
use localsend_rs.Error.{Result, ok, err, network, bytes, ◌>>=◌}
use localsend_rs.PathSafety.{split}
use localsend_rs.Sink.Names.{decimal}
use localsend_rs.Discovery.Scan.{Tick, ScanOutcome, scan_hosts, scan_register_hosts}

-- `str::parse::<Ipv4Addr>`: four decimal numbers of at most three digits, up to 255, without
-- leading zeros, between dots.
abbrev pub is_digit : ℕ → Bool
is_digit c = leb b'0' c && leb c b'9'

unfoldable pub value_of : ℕ → Text → ℕ
value_of n [] = n
value_of n (c ∷ cs) = value_of (n * 10 + (c - b'0')) cs

abbrev pub leads_with_zero : Text → Bool
leads_with_zero [] = false
leads_with_zero (c ∷ []) = false
leads_with_zero (c ∷ _ ∷ _) = c == b'0'

unfoldable pub parse_octet : Text → Option ℕ
unfolding value_of
parse_octet t =
    if is_empty t || ltb 3 (length t) || leads_with_zero t || not (all is_digit t)
    then none
    else if ltb 255 (value_of 0 t)
    then none
    else some (value_of 0 t)

abbrev pub Octets : Type 0
Octets = ℕ × ℕ × ℕ × ℕ

unfoldable pub parse_pieces : List Text → Option Octets
unfolding parse_octet
parse_pieces (p ∷ q ∷ r ∷ s ∷ []) = elim (parse_octet p) [
  | none ↦ none
  | some a ↦ elim (parse_octet q) [
    | none ↦ none
    | some b ↦ elim (parse_octet r) [
      | none ↦ none
      | some c ↦ elim (parse_octet s) [ none ↦ none | some d ↦ some (a, b, c, d) ]
    ]
  ]
]
parse_pieces _ = none

unfoldable pub parse_ipv4 : Text → Option Octets
unfolding split parse_pieces
parse_ipv4 t = parse_pieces (split b'.' t)

unfoldable pub with_dots : ℕ → ℕ → ℕ → Text
unfolding decimal
with_dots a b c = decimal a ++ (b'.' ∷ (decimal b ++ (b'.' ∷ decimal c)))

-- `format!("{prefix}.{host}")`.
unfoldable pub host_of : Text → ℕ → Text
unfolding decimal
host_of prefix host = prefix ++ (b'.' ∷ decimal host)

-- The numbers from one on.
unfoldable pub numbers_from : ℕ → ℕ → List ℕ
numbers_from n zero = []
numbers_from n (suc k) = n ∷ numbers_from (suc n) k

unfoldable pub subnet_hosts : Text → Result (List Text)
unfolding parse_ipv4 with_dots host_of numbers_from
subnet_hosts base_ip = elim (parse_ipv4 base_ip) [
  | none ↦ err (network (bytes "Invalid base IP for subnet scan: " ++ base_ip))
  | some (a, b, c, d) ↦ ok (
      retain (λ ip. not (text_eq ip base_ip))
        (map (host_of (with_dots a b c)) (numbers_from 1 254)))
]

-- What a scan takes from the stream over its targets.
abbrev pub Stream : Type 0
Stream = List Text → List Tick

unfoldable pub scan_subnet_within : DeviceInfo → Stream → Text → Result ScanOutcome
unfolding subnet_hosts scan_hosts
scan_subnet_within local_device stream base_ip = subnet_hosts base_ip >>= λ hosts.
    ok (scan_hosts local_device local_device.port false (stream hosts))

pub scan_subnet : DeviceInfo → Stream → Text → Result (List DeviceInfo)
unfolding subnet_hosts scan_hosts
scan_subnet local_device stream base_ip = subnet_hosts base_ip >>= λ hosts.
    ok (scan_hosts local_device local_device.port false (stream hosts)).devices

pub scan_subnet_register_within : DeviceInfo → Stream → Text → Result ScanOutcome
unfolding subnet_hosts scan_register_hosts
scan_subnet_register_within local_device stream base_ip =
    subnet_hosts base_ip >>= λ hosts. ok (scan_register_hosts local_device (stream hosts))

pub scan_ips : DeviceInfo → Stream → List Text → Result (List DeviceInfo)
unfolding scan_hosts
scan_ips local_device stream ips =
    ok (scan_hosts local_device local_device.port true (stream ips)).devices

pub scan_ips_within : DeviceInfo → Stream → List Text → Result ScanOutcome
unfolding scan_hosts
scan_ips_within local_device stream ips =
    ok (scan_hosts local_device local_device.port true (stream ips))
