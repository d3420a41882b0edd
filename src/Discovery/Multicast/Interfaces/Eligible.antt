-- ===== src/Discovery/Multicast/Interfaces/Eligible.antt =====
-- discovery/multicast/interfaces.rs: the candidates, described by the interfaces alone.
use localsend_rs.Base.{
  ◌≡◌, ◌≢◌, ◌<◌, ◌≤◌, ◌⊎◌, ◌↔◌, ◌∙◌, sym, inl, inr, refl, arith, Bool, true, false, ◌&&◌, ◌||◌, not,
  Option, none, some, List, [], ◌∷◌, ◌++◌, ◌==◌, contains, retain, any, All, Distinct, Bool-cases,
  ==_iff, if◌then◌else◌, AnyOf, or_iff, and_iff, not_iff, iff_trans, any_iff,
}
use localsend_rs.Protocol.{Text, is_empty, text_eq, text_eq_iff}
use localsend_rs.Error.{bytes}
use localsend_rs.Discovery.Scan.{contains_text}
use localsend_rs.Discovery.Multicast.Interfaces.{
  Ipv4, Interface, is_selected, is_unspecified, is_loopback, starts_with, is_container_bridge,
  is_primary, without_container_bridges, select_multicast_candidate_addresses,
}
use localsend_rs.Discovery.Multicast.Interfaces.Candidates.{candidates-considered}

-- The interfaces of container and virtual machine runtimes, by how their names begin.
abbrev pub runtimes : List Text
runtimes =
    bytes "br-"
    ∷ bytes "docker"
    ∷ bytes "veth"
    ∷ bytes "virbr"
    ∷ bytes "vboxnet"
    ∷ bytes "vmnet"
    ∷ bytes "lxcbr"
    ∷ bytes "lxdbr"
    ∷ bytes "podman"
    ∷ bytes "cni-"
    ∷ []

abbrev pub StartsWith : Text → Text → Type 0
StartsWith name prefix = (rest : Text) × (name ≡ prefix ++ rest)

pub IsBridge : Text → Type 0
IsBridge name = AnyOf (StartsWith name) runtimes

starts_with_iff : (s prefix : Text) → (starts_with s prefix ≡ true) ↔ StartsWith s prefix
unfolding starts_with
starts_with_iff s [] = (λ _. (s, refl), λ _. ground arith)
starts_with_iff [] (c ∷ prefix) = (λ e. ground (arith, e), λ (rest, e). ground (arith, e))
starts_with_iff (b ∷ s) (c ∷ prefix) =
    iff_trans _ _ _
      (and_iff (b == c) (starts_with s prefix) (b ≡ c) (StartsWith s prefix) (==_iff b c)
        (starts_with_iff s prefix))
      (
        λ (head, (rest, tail)). (rest, ground (arith, head, tail)),
        λ (rest, e). (ground (arith, e), (rest, ground (arith, e))),
      )

is_container_bridge_iff : (name : Text) → (is_container_bridge name ≡ true) ↔ IsBridge name
unfolding is_container_bridge IsBridge
is_container_bridge_iff name =
    any_iff (starts_with name) (StartsWith name) runtimes (starts_with_iff name)

abbrev pub IsIn : Text → List Text → Type 0
IsIn t names = AnyOf (λ n. n ≡ t) names

contains_text_iff : (names : List Text) (t : Text) → (contains_text names t ≡ true) ↔ IsIn t names
unfolding contains_text
contains_text_iff [] t = (λ e. ground (arith, e), λ never. absurd never)
contains_text_iff (n ∷ names) t =
    or_iff (text_eq n t) (contains_text names t) (n ≡ t) (IsIn t names) (text_eq_iff n t)
      (contains_text_iff names t)

is_primary_iff :
    (primary : Option Ipv4) (a : Ipv4) → (is_primary primary a ≡ true) ↔ (primary ≡ some a)
is_primary_iff none a = (λ e. ground (arith, e), λ e. ground (arith, e))
is_primary_iff (some p) a = (λ e. ground (arith, e), λ e. ground (arith, e))

-- Neither 0.0.0.0 nor one of 127.0.0.0 up to 127.255.255.255.
abbrev pub IsUsable : Ipv4 → Type 0
IsUsable a = (a ≢ 0) × ((a < 2130706432) ⊎ (2147483648 ≤ a))

is_loopback-IsUsable :
    (a : Ipv4) → ((not (is_unspecified a) && not (is_loopback a)) ≡ true) ↔ IsUsable a
is_loopback-IsUsable a =
    (λ e. (ground (arith, e), ground (arith, e)), λ u. ground (arith, u.0, u.1))

-- The interface has the primary address, or is none of a runtime's.
abbrev pub IsPreferred : Option Ipv4 → Interface → Type 0
IsPreferred primary i = (primary ≡ some i.address) ⊎ (¬ IsBridge i.name)

is_preferred : Option Ipv4 → Interface → Bool
is_preferred primary i = is_primary primary i.address || not (is_container_bridge i.name)

is_preferred_iff :
    (primary : Option Ipv4) (i : Interface)
    → (is_preferred primary i ≡ true) ↔ IsPreferred primary i
unfolding is_preferred
is_preferred_iff primary i =
    or_iff (is_primary primary i.address) (not (is_container_bridge i.name))
      (primary ≡ some i.address) (¬ IsBridge i.name) (is_primary_iff primary i.address)
      (not_iff (is_container_bridge i.name) (IsBridge i.name) (is_container_bridge_iff i.name))

-- With names given, the interface has one of them; else it is preferred, or no interface is.
abbrev pub IsConsidered : Option (List Text) → Option Ipv4 → List Interface → Interface → Type 0
IsConsidered (some names) primary addresses i = IsIn i.name names
IsConsidered none primary addresses i =
    IsPreferred primary i ⊎ All (λ j. ¬ IsPreferred primary j) addresses

abbrev pub IsCandidate :
    Option (List Text) → Option Ipv4 → List Interface → Ipv4 → Interface → Type 0
IsCandidate names primary addresses a i =
    ((i.address ≡ a) × IsUsable i.address) × IsConsidered names primary addresses i

is_empty-retain_iff :
    (p : Interface → Bool) (P : Interface → Type 0) (is : List Interface)
    → ((i : Interface) → (p i ≡ true) ↔ P i)
    → (is_empty (retain p is) ≡ true) ↔ All (λ i. ¬ P i) is
is_empty-retain_iff p P [] h = (λ _. tt, λ _. refl)
is_empty-retain_iff p P (i ∷ is) h = iff_trans _ _ _ (emptied (p i) (retain p is)) (
  λ e. (((not_iff (p i) (P i) (h i)).0 e.0), ((is_empty-retain_iff p P is h).0 e.1)),
  λ e. (((not_iff (p i) (P i) (h i)).1 e.0), ((is_empty-retain_iff p P is h).1 e.1)),
)
  where
    emptied :
        (b : Bool) (rest : List Interface)
        → (is_empty (if b then i ∷ rest else rest) ≡ true)
          ↔ ((not b ≡ true) × (is_empty rest ≡ true))
    emptied true rest = (λ e. ground (arith, e), λ e. ground (arith, e.0))
    emptied false rest = (λ e. (refl, e), λ e. e.1)

any-every :
    (p q : Interface → Bool) (is : List Interface) → any q is ≡ any (λ i. q i && (p i || true)) is
any-every p q [] = refl
any-every p q (i ∷ is) = ground (arith, any-every p q is)

any-retained :
    (p q : Interface → Bool) (is : List Interface)
    → any q (retain p is) ≡ any (λ i. q i && (p i || false)) is
any-retained p q [] = refl
any-retained p q (i ∷ is) = ground (arith, any-retained p q is)

any-considered :
    (q : Interface → Bool) (primary : Option Ipv4) (is : List Interface)
    → any q (without_container_bridges is primary)
      ≡ any (λ i. q i && (is_preferred primary i || is_empty (retain (is_preferred primary) is))) is
unfolding without_container_bridges is_preferred
any-considered q primary is = elim (Bool-cases (is_empty (retain (is_preferred primary) is))) [
  | inl gone ↦ rw gone (any-every (is_preferred primary) q is)
  | inr some' ↦ rw some' (any-retained (is_preferred primary) q is)
]

offered_iff :
    (a : Ipv4) (i : Interface)
    → ((i.address == a && is_selected none none i) ≡ true) ↔ ((i.address ≡ a) × IsUsable i.address)
unfolding is_selected
offered_iff a i =
    and_iff (i.address == a) (is_selected none none i) (i.address ≡ a) (IsUsable i.address)
      (==_iff i.address a)
      (
        λ e. (is_loopback-IsUsable i.address).0 (ground (arith, e)),
        λ u. ground (arith, (is_loopback-IsUsable i.address).1 u),
      )

named_iff :
    (names : List Text) (a : Ipv4) (i : Interface)
    → ((i.address == a && is_selected (some names) none i) ≡ true)
      ↔ (((i.address ≡ a) × IsUsable i.address) × IsIn i.name names)
unfolding is_selected
named_iff names a i = iff_trans _ _ _ (ground arith) (
    and_iff (i.address == a && is_selected none none i) (contains_text names i.name)
      ((i.address ≡ a) × IsUsable i.address) (IsIn i.name names) (offered_iff a i)
      (contains_text_iff names i.name))

-- An address is a candidate exactly when some interface has it, it is neither 0.0.0.0 nor between
-- 127.0.0.0 and 127.255.255.255, and either names are given and the interface has one of them, or none
-- are given and the interface has the primary address, or its name does not begin like those of the
-- container and virtual machine runtimes, or no interface at all is of those two kinds. Each candidate
-- stands once.
pub candidates-contains :
    (addresses : List Interface) (names : Option (List Text)) (primary : Option Ipv4) (a : Ipv4)
    → ((contains (select_multicast_candidate_addresses addresses names primary) a ≡ true)
        ↔ AnyOf (IsCandidate names primary addresses a) addresses)
      × Distinct (select_multicast_candidate_addresses addresses names primary)
candidates-contains addresses (some names) primary a =
    let shown = candidates-considered addresses (some names) primary a in
    let listed =
      any_iff (λ i. i.address == a && is_selected (some names) none i)
        (IsCandidate (some names) primary addresses a) addresses (named_iff names a) in
    ((λ e. listed.0 (sym shown.0 ∙ e), λ c. shown.0 ∙ listed.1 c), shown.1.0)
candidates-contains addresses none primary a =
    let shown = candidates-considered addresses none primary a in
    let q : Interface → Bool = λ i. i.address == a && is_selected none none i in
    let alone = is_empty (retain (is_preferred primary) addresses) in
    let over = shown.0 ∙ any-considered q primary addresses in
    let listed =
      any_iff (λ i. q i && (is_preferred primary i || alone)) (IsCandidate none primary addresses a)
        addresses
        (λ i.
          and_iff (q i) (is_preferred primary i || alone) ((i.address ≡ a) × IsUsable i.address)
            (IsConsidered none primary addresses i) (offered_iff a i)
            (or_iff (is_preferred primary i) alone (IsPreferred primary i)
              (All (λ j. ¬ IsPreferred primary j) addresses) (is_preferred_iff primary i)
              (is_empty-retain_iff (is_preferred primary) (IsPreferred primary) addresses
                (is_preferred_iff primary)))) in
    ((λ e. listed.0 (sym over ∙ e), λ c. over ∙ listed.1 c), shown.1.0)
