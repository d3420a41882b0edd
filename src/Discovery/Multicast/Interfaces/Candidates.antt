-- ===== src/Discovery/Multicast/Interfaces/Candidates.antt =====
-- discovery/multicast/interfaces.rs: which addresses are chosen.
use localsend_rs.Base.{
  ℕ, ◌≡◌, ◌<◌, ◌∙◌, sym, inl, inr, refl, arith, Bool, false, ◌&&◌, ◌||◌, not, Option, none, some,
  List, [], ◌∷◌, ◌++◌, ◌==◌, ltb, contains, retain, map, any, Distinct, Bool-cases,
}
use localsend_rs.Protocol.{Text, is_empty}
use localsend_rs.Discovery.Multicast.Interfaces.{
  Ipv4, Interface, insert_sorted, btree_set, is_selected, select_interface_addresses,
  is_container_bridge, is_primary, without_container_bridges, push_missing,
  select_multicast_candidate_addresses,
}

contains-insert_sorted :
    (a b : ℕ) (xs : List ℕ) → contains (insert_sorted a xs) b ≡ (a == b || contains xs b)
unfolding insert_sorted
contains-insert_sorted a b [] = ground arith
contains-insert_sorted a b (x ∷ xs) = ground (arith, contains-insert_sorted a b xs)

contains-btree_set : (b : ℕ) (xs : List ℕ) → contains (btree_set xs) b ≡ contains xs b
unfolding btree_set
contains-btree_set b [] = refl
contains-btree_set b (x ∷ xs) =
    ground (arith, contains-insert_sorted x b (btree_set xs), contains-btree_set b xs)

-- Whether an address is that of a selected interface.
abbrev pub is_offered : Option (List Text) → Option Ipv4 → Ipv4 → List Interface → Bool
is_offered names primary a addresses =
    any (λ i. i.address == a && is_selected names primary i) addresses

select-contains :
    (addresses : List Interface) (names : Option (List Text)) (primary : Option Ipv4) (a : Ipv4)
    → contains (select_interface_addresses addresses names primary) a
      ≡ is_offered names primary a addresses
unfolding select_interface_addresses
select-contains addresses names primary a = contains-btree_set a _ ∙ go addresses
  where
    go :
        (is : List Interface)
        → contains (map (λ i. i.address) (retain (is_selected names primary) is)) a
          ≡ is_offered names primary a is
    go [] = refl
    go (i ∷ is) = ground (arith, go is)

-- Strictly increasing.
abbrev pub IsAbove : ℕ → List ℕ → Type 0
IsAbove a [] = Unit
IsAbove a (x ∷ xs) = a < x

abbrev pub IsSorted : List ℕ → Type 0
IsSorted [] = Unit
IsSorted (x ∷ xs) = IsAbove x xs × IsSorted xs

sorted_absent : (a x : ℕ) (xs : List ℕ) → a < x → IsSorted (x ∷ xs) → contains (x ∷ xs) a ≡ false
sorted_absent a x [] less sorted = ground (arith, less)
sorted_absent a x (y ∷ ys) less (above, sorted) =
    ground (arith, less, above, sorted_absent a y ys, sorted)

insert_sorted-IsAbove :
    (b a : ℕ) (xs : List ℕ) → b < a → IsAbove b xs → IsAbove b (insert_sorted a xs)
unfolding insert_sorted
insert_sorted-IsAbove b a [] less above = less
insert_sorted-IsAbove b a (x ∷ xs) less above = elim (Bool-cases (ltb a x)) [
  | inl first ↦ rw first less
  | inr later ↦ elim (Bool-cases (a == x)) [
    | inl same ↦ rw (later, same) above
    | inr other ↦ rw (later, other) above
  ]
]

insert_sorted-IsSorted : (a : ℕ) (xs : List ℕ) → IsSorted xs → IsSorted (insert_sorted a xs)
unfolding insert_sorted
insert_sorted-IsSorted a [] sorted = (tt, tt)
insert_sorted-IsSorted a (x ∷ xs) (above, sorted) = elim (Bool-cases (ltb a x)) [
  | inl first ↦ rw first (ground (arith, first), (above, sorted))
  | inr later ↦ elim (Bool-cases (a == x)) [
    | inl same ↦ rw (later, same) (above, sorted)
    | inr other ↦
        rw (later, other)
          (
            insert_sorted-IsAbove x a xs (ground (arith, later, other)) above,
            insert_sorted-IsSorted a xs sorted,
          )
  ]
]

btree_set-IsSorted : (xs : List ℕ) → IsSorted (btree_set xs)
unfolding btree_set
btree_set-IsSorted [] = tt
btree_set-IsSorted (x ∷ xs) = insert_sorted-IsSorted x (btree_set xs) (btree_set-IsSorted xs)

sorted-Distinct : (xs : List ℕ) → IsSorted xs → Distinct xs
sorted-Distinct [] sorted = tt
sorted-Distinct (x ∷ []) sorted = (refl, tt)
sorted-Distinct (x ∷ y ∷ ys) (above, sorted) =
    (sorted_absent x y ys above sorted, sorted-Distinct (y ∷ ys) sorted)

select-Distinct :
    (addresses : List Interface) (names : Option (List Text)) (primary : Option Ipv4)
    → Distinct (select_interface_addresses addresses names primary)
unfolding select_interface_addresses
select-Distinct addresses names primary =
    let chosen = map (λ i. i.address) (retain (is_selected names primary) addresses) in
    sorted-Distinct (btree_set chosen) (btree_set-IsSorted chosen)

contains-append :
    (xs ys : List ℕ) (a : ℕ) → contains (xs ++ ys) a ≡ (contains xs a || contains ys a)
contains-append [] ys a = refl
contains-append (x ∷ xs) ys a = ground (arith, contains-append xs ys a)

Distinct-append_one :
    (xs : List ℕ) (a : ℕ) → contains xs a ≡ false → Distinct xs → Distinct (xs ++ a ∷ [])
Distinct-append_one [] a absent distinct = (refl, tt)
Distinct-append_one (x ∷ xs) a absent (new, distinct) = (
  ground (arith, contains-append xs (a ∷ []) x, new, absent),
  Distinct-append_one xs a (ground (arith, absent)) distinct,
)

push_missing-contains :
    (candidates addresses : List Ipv4) (a : Ipv4)
    → contains (push_missing candidates addresses) a
      ≡ (contains candidates a || contains addresses a)
unfolding push_missing
push_missing-contains candidates [] a = ground arith
push_missing-contains candidates (address ∷ addresses) a = ground (
  arith,
  push_missing-contains candidates addresses a,
  push_missing-contains (candidates ++ address ∷ []) addresses a,
  contains-append candidates (address ∷ []) a,
)

push_missing-Distinct :
    (candidates addresses : List Ipv4)
    → Distinct candidates
    → Distinct (push_missing candidates addresses)
unfolding push_missing
push_missing-Distinct candidates [] distinct = distinct
push_missing-Distinct candidates (address ∷ addresses) distinct =
    elim (Bool-cases (contains candidates address)) [
      | inl old ↦ rw old (push_missing-Distinct candidates addresses distinct)
      | inr new ↦ rw new (
          push_missing-Distinct (candidates ++ address ∷ []) addresses
            (Distinct-append_one candidates address new distinct))
    ]

-- An interface in the primary's network is an interface.
is_offered-either :
    (primary : Option Ipv4) (a : Ipv4) (is : List Interface)
    → (is_offered none primary a is || is_offered none none a is) ≡ is_offered none none a is
unfolding is_selected
is_offered-either primary a [] = refl
is_offered-either primary a (i ∷ is) = ground (arith, is_offered-either primary a is)

any-retain :
    (p q : Interface → Bool) (is : List Interface) → any p (retain (λ i. p i || q i) is) ≡ any p is
any-retain p q [] = refl
any-retain p q (i ∷ is) = ground (arith, any-retain p q is)

is_empty-retain :
    (p : Interface → Bool) (is : List Interface)
    → is_empty (retain p is) ≡ false
    → is_empty is ≡ false
is_empty-retain p [] e = e
is_empty-retain p (i ∷ is) e = refl

-- The interfaces that are considered: all of them where names are given.
abbrev pub considered : List Interface → Option (List Text) → Option Ipv4 → List Interface
considered addresses (some names) primary = addresses
considered addresses none primary = without_container_bridges addresses primary

-- The filter of bridges keeps an interface with the primary address, and leaves none only where
-- there was none.
without_container_bridges-keeps :
    (addresses : List Interface) (primary : Option Ipv4)
    → (any (λ i. is_primary primary i.address) addresses
        ≡ any (λ i. is_primary primary i.address) (without_container_bridges addresses primary))
      × (is_empty (without_container_bridges addresses primary) ≡ is_empty addresses)
unfolding without_container_bridges
without_container_bridges-keeps addresses primary =
    let p : Interface → Bool = λ i. is_primary primary i.address in
    let q : Interface → Bool = λ i. not (is_container_bridge i.name) in
    let kept = retain (λ i. p i || q i) addresses in
    elim (Bool-cases (is_empty kept)) [
      | inl gone ↦ rw gone (refl, refl)
      | inr some' ↦ rw some' (
        sym (any-retain p q addresses),
        some' ∙ sym (is_empty-retain (λ i. p i || q i) addresses some'),
      )
    ]

-- The candidates are the addresses that the filters let through among the considered interfaces, each
-- once. What is considered has an interface with the primary address if any interface has it, and is
-- empty only where there is no interface.
pub candidates-considered :
    (addresses : List Interface) (names : Option (List Text)) (primary : Option Ipv4) (a : Ipv4)
    → (contains (select_multicast_candidate_addresses addresses names primary) a
        ≡ is_offered names none a (considered addresses names primary))
      × (Distinct (select_multicast_candidate_addresses addresses names primary)
          × ((any (λ i. is_primary primary i.address) addresses
                ≡ any (λ i. is_primary primary i.address) (considered addresses names primary))
              × (is_empty (considered addresses names primary) ≡ is_empty addresses)))
unfolding select_multicast_candidate_addresses
candidates-considered addresses (some names) primary a = (
  select-contains addresses (some names) none a,
  (select-Distinct addresses (some names) none, (refl, refl)),
)
candidates-considered addresses none primary a =
    let kept = without_container_bridges addresses primary in
    let near = select-contains kept none primary a in
    let rest = select-contains kept none none a in
    let both : (contains (select_interface_addresses kept none primary) a
          || contains (select_interface_addresses kept none none) a)
        ≡ (is_offered none primary a kept || is_offered none none a kept) =
      ground (arith, near, rest) in
    (
      push_missing-contains (select_interface_addresses kept none primary)
            (select_interface_addresses kept none none) a
          ∙ (both ∙ is_offered-either primary a kept),
      (
        push_missing-Distinct (select_interface_addresses kept none primary)
            (select_interface_addresses kept none none) (select-Distinct kept none primary),
        without_container_bridges-keeps addresses primary,
      ),
    )
