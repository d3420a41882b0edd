-- ===== src/Discovery/Multicast/Interfaces.antt =====
-- discovery/multicast/interfaces.rs: the addresses that multicast is sent from. An IPv4 address is
-- its number, `u32::from_be_bytes(octets)`, by which `Ipv4Addr` is ordered too.
pub mod Candidates
pub mod Eligible
use Prim.Native.Nat.{bit_and}
use localsend_rs.Base.{
  ℕ, ◌/◌, ◌^◌, Bool, true, false, ◌&&◌, ◌||◌, not, Option, none, some, List, [], ◌∷◌, ◌++◌, ◌==◌,
  ltb, if◌then◌else◌, contains, retain, map, any,
}
use localsend_rs.Protocol.{Text, is_empty}
use localsend_rs.Error.{bytes}
use localsend_rs.Discovery.Scan.{contains_text}

abbrev pub Ipv4 : Type 0
Ipv4 = ℕ

-- The name of an interface, its address and its netmask.
pub record Interface : Type 0 where
  pub name : Text
  pub address : Ipv4
  pub netmask : Ipv4

abbrev pub is_unspecified : Ipv4 → Bool
is_unspecified address = address == 0

-- `127.0.0.0/8`.
abbrev pub is_loopback : Ipv4 → Bool
is_loopback address = address / 2 ^ 24 == 127

unfoldable pub same_subnet : Ipv4 → Ipv4 → Ipv4 → Bool
same_subnet address primary netmask = bit_and address netmask == bit_and primary netmask

-- `collect::<BTreeSet<_>>()`, in the order of iteration.
unfoldable pub insert_sorted : ℕ → List ℕ → List ℕ
insert_sorted a [] = a ∷ []
insert_sorted a (x ∷ xs) =
    let rest = insert_sorted a xs in
    if ltb a x then a ∷ x ∷ xs else if a == x then x ∷ xs else x ∷ rest

unfoldable pub btree_set : List ℕ → List ℕ
unfolding insert_sorted
btree_set [] = []
btree_set (x ∷ xs) = insert_sorted x (btree_set xs)

abbrev pub is_none_or {ℓ} : {A : Type ℓ} → Option A → (A → Bool) → Bool
is_none_or none p = true
is_none_or (some a) p = p a

-- What the three filters let through.
unfoldable pub is_selected : Option (List Text) → Option Ipv4 → Interface → Bool
unfolding same_subnet contains_text
is_selected interface_names primary i =
    is_none_or interface_names (λ names. contains_text names i.name)
    && (not (is_unspecified i.address) && not (is_loopback i.address))
    && is_none_or primary (λ p. same_subnet i.address p i.netmask)

unfoldable pub select_interface_addresses :
    List Interface → Option (List Text) → Option Ipv4 → List Ipv4
unfolding btree_set is_selected
select_interface_addresses addresses interface_names primary =
    btree_set (map (λ i. i.address) (retain (is_selected interface_names primary) addresses))

unfoldable pub starts_with : Text → Text → Bool
starts_with s [] = true
starts_with [] (c ∷ prefix) = false
starts_with (b ∷ s) (c ∷ prefix) = b == c && starts_with s prefix

abbrev pub prefixes : List Text
prefixes =
    bytes "br-"
    ∷ bytes "docker"
    ∷ bytes "veth"
    ∷ bytes "virbr"
    ∷ bytes "vboxnet"
    ∷ bytes "vmnet"
    ∷ bytes "lxcbr"
    ∷ bytes "lxdbr"
    ∷ bytes "podman"
    ∷ bytes "cni-"
    ∷ []

unfoldable pub is_container_bridge : Text → Bool
unfolding starts_with
is_container_bridge name = any (starts_with name) prefixes

abbrev pub is_primary : Option Ipv4 → Ipv4 → Bool
is_primary none address = false
is_primary (some p) address = address == p

unfoldable pub without_container_bridges : List Interface → Option Ipv4 → List Interface
unfolding is_container_bridge
without_container_bridges addresses primary =
    let kept =
      retain (λ i. is_primary primary i.address || not (is_container_bridge i.name)) addresses in
    if is_empty kept then addresses else kept

-- The loop that adds the addresses that are not yet candidates.
unfoldable pub push_missing : List Ipv4 → List Ipv4 → List Ipv4
push_missing candidates [] = candidates
push_missing candidates (address ∷ addresses) =
    push_missing
      (if not (contains candidates address) then candidates ++ address ∷ [] else candidates)
      addresses

unfoldable pub select_multicast_candidate_addresses :
    List Interface → Option (List Text) → Option Ipv4 → List Ipv4
unfolding select_interface_addresses without_container_bridges push_missing
select_multicast_candidate_addresses addresses (some names) primary =
    select_interface_addresses addresses (some names) none
select_multicast_candidate_addresses addresses none primary =
    let kept = without_container_bridges addresses primary in
    push_missing (select_interface_addresses kept none primary)
      (select_interface_addresses kept none none)
