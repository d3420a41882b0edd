-- ===== src/Pin/Table.antt =====
-- server/pin.rs: the lockout table stays bounded, and its counters never reach their type's end.
use localsend_rs.Base.{
  ℕ, suc, ◌-◌, ◌<◌, ◌≤◌, ◌≡◌, ◌≢◌, refl, Bool, none, some, [], ◌∷◌, ltb, if◌then◌else◌, Map, lookup,
  insert, remove, length, retain, arith, ◌⊎◌, inl, inr, Bool-cases, Option-cases, length-remove-le,
  lookup-insert, lookup-remove, length-retain-le, ap,
}
use localsend_rs.Protocol.{IpAddr, Instant}
use localsend_rs.Pin.{
  Failure, max_tracked_peers, lockout, oldest, is_fresh, evict_oldest, make_room,
}

-- Removal of some entries, as `retain` makes it, can show an entry that another one shadowed.
-- The keys of a table are distinct, so it shows none.
abbrev pub Keyed : Map Failure → Type 0
Keyed [] = Unit
Keyed ((p, f) ∷ m) = (lookup p m ≡ none) × Keyed m

lookup-retain :
    (keep : IpAddr × Failure → Bool) (p : IpAddr) (m : Map Failure)
    → Keyed m
    → lookup p (retain keep m)
      ≡ elim (lookup p m) [ none ↦ none | some f ↦ if keep (p, f) then some f else none ]
unfolding lookup
lookup-retain keep p [] k = refl
lookup-retain keep p ((q, f) ∷ m) k = ground (arith, lookup-retain keep p m k.1)

Keyed-retain : (keep : IpAddr × Failure → Bool) (m : Map Failure) → Keyed m → Keyed (retain keep m)
Keyed-retain keep [] k = tt
Keyed-retain keep ((q, f) ∷ m) k =
    ground (arith, lookup-retain keep q m k.1, Keyed-retain keep m k.1)

pub Keyed-remove : (p : IpAddr) (m : Map Failure) → Keyed m → Keyed (remove p m)
unfolding remove
Keyed-remove p [] k = tt
Keyed-remove p ((q, f) ∷ m) k = ground (arith, lookup-remove p q m, Keyed-remove p m k.1)

pub Keyed-insert : (p : IpAddr) (f : Failure) (m : Map Failure) → Keyed m → Keyed (insert p f m)
unfolding insert lookup
Keyed-insert p f [] k = (refl, tt)
Keyed-insert p f ((q, e) ∷ m) k = ground (arith, lookup-insert p q f m, Keyed-insert p f m k.1)

-- The entry that `min_by_key` picks is in the table, and none is older.
oldest-cons :
    (q : IpAddr) (f : Failure) (m : Map Failure)
    → oldest ((q, f) ∷ m) ≡ elim (oldest m) [
      | none ↦ some (q, f.1)
      | some (p, t) ↦ if ltb t f.1 then some (p, t) else some (q, f.1)
    ]
unfolding oldest
oldest-cons q (count, at) m = refl

oldest-none : (m : Map Failure) → oldest m ≡ none → m ≡ []
unfolding oldest
oldest-none [] e = refl
oldest-none ((q, (c, at)) ∷ m) e = ground arith

oldest-mem :
    (m : Map Failure) (p : IpAddr) (t : Instant)
    → Keyed m
    → oldest m ≡ some (p, t)
    → (c : ℕ) × (lookup p m ≡ some (c, t))
unfolding lookup
oldest-mem [] p t k e = unfold oldest in cc
oldest-mem ((q, (c, at)) ∷ m) p t k e = elim (Option-cases (oldest m)) [
  | inl eo ↦ (c, ground (arith, oldest-cons q (c, at) m))
  | inr ((p', t'), eo) ↦ elim (Bool-cases (ltb t' at)) [
    | inr later ↦ (c, ground (arith, oldest-cons q (c, at) m))
    | inl older ↦
        let (d, found) = oldest-mem m p' t' k.1 eo in (d, ground (arith, oldest-cons q (c, at) m))
  ]
]

oldest-le :
    (m : Map Failure) (p : IpAddr) (t : Instant)
    → oldest m ≡ some (p, t)
    → (q : IpAddr) (f : Failure) → lookup q m ≡ some f
    → t ≤ f.1
unfolding lookup
oldest-le [] p t e q f h = cc
oldest-le ((r, (c, at)) ∷ m) p t e q f h = elim (Option-cases (oldest m)) [
  | inl eo ↦ let em = oldest-none m eo in ground (arith, oldest-cons r (c, at) m)
  | inr ((p', t'), eo) ↦ ground (arith, oldest-cons r (c, at) m, oldest-le m p' t' eo q f)
]

-- Eviction makes room: the oldest entry goes, and the entry of every other peer stays.
evict_oldest_lem :
    (m : Map Failure)
    → Keyed m
    → m ≢ []
    → (p : IpAddr) × (t : Instant) × (evict_oldest m ≡ remove p m)
      × ((c : ℕ) × (lookup p m ≡ some (c, t)))
      × ((q : IpAddr) (f : Failure) → lookup q m ≡ some f → t ≤ f.1)
unfolding evict_oldest
evict_oldest_lem m k ne = elim (Option-cases (oldest m)) [
  | inl eo ↦ absurd (ne (oldest-none m eo))
  | inr ((p, t), eo) ↦ (p, t, rw (eo, evict_oldest), oldest-mem m p t k eo, oldest-le m p t eo)
]

length-remove_old :
    (p : IpAddr) (f : Failure) (m : Map Failure)
    → lookup p m ≡ some f
    → suc (length (remove p m)) ≤ length m
unfolding lookup remove
length-remove_old p f [] h = cc
length-remove_old p f ((q, e) ∷ m) h = ground (arith, length-remove_old p f m, length-remove-le p m)

length-evict_oldest-lt : (m : Map Failure) → Keyed m → m ≢ [] → length (evict_oldest m) < length m
length-evict_oldest-lt m k ne =
    let (p, t, e, (c, found), _) = evict_oldest_lem m k ne in
    rw e (length-remove_old p (c, t) m found)

Keyed-evict_oldest : (m : Map Failure) → Keyed m → Keyed (evict_oldest m)
unfolding evict_oldest
Keyed-evict_oldest m k = elim (Option-cases (oldest m)) [
  | inl eo ↦ rw (eo, evict_oldest) k
  | inr ((p, t), eo) ↦ rw (eo, evict_oldest) (Keyed-remove p m k)
]

not_empty : (m : Map Failure) → 0 < length m → m ≢ []
not_empty m h e = absurd (omega (arith, ap {A = Map Failure} length e))

-- Every entry of the first table stands in the second.
abbrev pub Within : Map Failure → Map Failure → Type 0
Within m' m = (p : IpAddr) (f : Failure) → lookup p m' ≡ some f → lookup p m ≡ some f

Within-retain :
    (keep : IpAddr × Failure → Bool) (m : Map Failure) → Keyed m → Within (retain keep m) m
Within-retain keep m k p f h = ground (arith, lookup-retain keep p m k)

pub Within-remove : (q : IpAddr) (m : Map Failure) → Within (remove q m) m
Within-remove q m p f h = ground (arith, lookup-remove q p m)

Within-evict_oldest : (m : Map Failure) → Within (evict_oldest m) m
unfolding evict_oldest
Within-evict_oldest m = elim (Option-cases (oldest m)) [
  | inl eo ↦ rw (eo, evict_oldest) (λ p f h. h)
  | inr ((q, t), eo) ↦ rw (eo, evict_oldest) (Within-remove q m)
]

-- An entry that eviction drops is no newer than any that it keeps.
evict_oldest_drops :
    (m : Map Failure) (p q : IpAddr) (f h : Failure)
    → lookup p m ≡ some f
    → lookup p (evict_oldest m) ≡ none
    → Keyed m
    → lookup q (evict_oldest m) ≡ some h
    → f.1 ≤ h.1
unfolding evict_oldest
evict_oldest_drops m p q f h held gone k kept = elim (Option-cases (oldest m)) [
  | inl eo ↦ absurd (ground arith)
  | inr ((r, t), eo) ↦
      let (c, found) = oldest-mem m r t k eo in
      ground (arith, lookup-remove r p m, lookup-remove r q m, oldest-le m r t eo q h)
]

-- What making room for a new peer leaves: fewer than the limit, each key once, and no entry that
-- was not there.
pub record HasRoom (m' m : Map Failure) : Type 0 where
  pub room : length m' < max_tracked_peers
  pub keyed : Keyed m'
  pub within : Within m' m

-- From a table with each key once and no more than 1024 entries, making room leaves fewer than 1024,
-- each key once, and no entry that was not there.
pub make_room-HasRoom :
    (now : Instant) (m : Map Failure)
    → Keyed m
    → length m ≤ max_tracked_peers
    → HasRoom (make_room now m) m
unfolding make_room
make_room-HasRoom now m k h = elim (Bool-cases (ltb (length m) max_tracked_peers)) [
  | inl room ↦ rw (room, make_room) (record { room = ground arith; keyed = k; within = λ p f e. e })
  | inr full ↦ elim (Bool-cases (ltb (length swept) max_tracked_peers)) [
    | inl room ↦
        rw (full, make_room)
          (rw (room, make_room)
            (record {
              room = ground arith;
              keyed = swept_keyed;
              within = Within-retain (is_fresh now) m k;
            }))
    | inr still ↦
        rw (full, make_room)
          (rw (still, make_room)
            (record {
              room = ground (
                arith,
                length-evict_oldest-lt swept swept_keyed (not_empty swept (ground arith)),
                length-retain-le (is_fresh now) m,
              );
              keyed = Keyed-evict_oldest swept swept_keyed;
              within =
                  λ p f e. Within-retain (is_fresh now) m k p f (Within-evict_oldest swept p f e);
            }))
  ]
]
  where
    swept : Map Failure
    swept = retain (is_fresh now) m

    swept_keyed : Keyed swept
    swept_keyed = Keyed-retain (is_fresh now) m k

-- Making room drops an entry only if its lockout is over, or if it is no newer than every entry
-- that is kept; a table below the limit keeps all.
pub make_room_drops :
    (now : Instant) (m : Map Failure) (p : IpAddr) (f : Failure)
    → Keyed m
    → lookup p m ≡ some f
    → lookup p (make_room now m) ≡ none
    → (max_tracked_peers ≤ length m)
      × ((lockout ≤ now - f.1)
          ⊎ ((q : IpAddr) (h : Failure) → lookup q (make_room now m) ≡ some h → f.1 ≤ h.1))
unfolding make_room
make_room_drops now m p f k held gone = elim (Bool-cases (ltb (length m) max_tracked_peers)) [
  | inl room ↦ absurd (ground arith)
  | inr full ↦ (
    ground arith,
    elim (Bool-cases (ltb (now - f.1) lockout)) [
      | inr over ↦ inl (ground arith)
      | inl live ↦ inr (λ q h kept. ground (
        arith,
        lookup-retain (is_fresh now) p m k,
        evict_oldest_drops (retain (is_fresh now) m) p q f h,
        Keyed-retain (is_fresh now) m k,
      ))
    ],
  )
]
