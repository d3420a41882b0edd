-- ===== src/Discovery/Scan/Found.antt =====
-- discovery/http.rs: which devices a scan returns.
use localsend_rs.Base.{
  ℕ, ◌≡◌, ◌≢◌, ◌⊎◌, ◌↔◌, inl, inr, refl, ap, Bool, true, false, Option, none, some, List, [], ◌∷◌,
  ◌++◌, arith, Bool-cases,
}
use localsend_rs.Protocol.{Text, IpAddr, DeviceInfo, text_eq, text_eq_iff}
use localsend_rs.Discovery.Probe.{Network, probe_info}
use localsend_rs.Discovery.Scan.{
  push_found, Tick, answered, deadline, collect, contains_text, deduplicate, scan_hosts,
}
use localsend_rs.Discovery.Scan.Kept.{first_with, AreDistinct, deduplicate-AreDistinct, kept_iff}

abbrev pub Finds : Type 0
Finds = IpAddr → Network → Option DeviceInfo

-- An answer under another fingerprint, or none.
abbrev pub IsPassed : Text → Option DeviceInfo → Type 0
IsPassed t none = Unit
IsPassed t (some e) = e.fingerprint ≢ t

abbrev pub IsAnswer : Text → Option DeviceInfo → DeviceInfo → Type 0
IsAnswer t r d = (r ≡ some d) × (d.fingerprint ≡ t)

-- The device is what the first host gave that answered with this fingerprint, and no deadline comes
-- before that answer.
abbrev pub IsFirstAnswer : Finds → Text → List Tick → DeviceInfo → Type 0
IsFirstAnswer find t [] d = ⊥
IsFirstAnswer find t (deadline ∷ ticks) d = ⊥
IsFirstAnswer find t (answered ip net ∷ ticks) d =
    IsAnswer t (find ip net) d ⊎ (IsPassed t (find ip net) × IsFirstAnswer find t ticks d)

abbrev pub HasDeadline : List Tick → Type 0
HasDeadline [] = ⊥
HasDeadline (deadline ∷ ticks) = Unit
HasDeadline (answered ip net ∷ ticks) = HasDeadline ticks

first_with-push_found :
    (t : Text) (r : Option DeviceInfo) (ds : List DeviceInfo) (Later : Type 0) (d : DeviceInfo)
    → (first_with t ds ≡ some d) ↔ Later
    → (first_with t (push_found r ds) ≡ some d) ↔ (IsAnswer t r d ⊎ (IsPassed t r × Later))
unfolding first_with
first_with-push_found t none ds Later d later = (there, back)
  where
    there : first_with t ds ≡ some d → IsAnswer t none d ⊎ (IsPassed t none × Later)
    there h = inr (tt, later.0 h)

    back : IsAnswer t none d ⊎ (IsPassed t none × Later) → first_with t ds ≡ some d
    back (inl (e, _)) = absurd (ground (arith, e))
    back (inr (_, l)) = later.1 l
first_with-push_found t (some e) ds Later d later = (there, back)
  where
    there :
        first_with t (e ∷ ds) ≡ some d
        → ((some e ≡ some d) × (d.fingerprint ≡ t)) ⊎ ((e.fingerprint ≢ t) × Later)
    there h = elim (Bool-cases (text_eq e.fingerprint t)) [
      | inl same ↦
          let it : some e ≡ some d = ground (arith, h, same) in
          let named : e.fingerprint ≡ t = (text_eq_iff e.fingerprint t).0 same in
          inl (it, ground (arith, it, named))
      | inr other ↦
          let differs : e.fingerprint ≢ t =
            λ n. ground (arith, other, (text_eq_iff e.fingerprint t).1 n) in
          inr (differs, later.0 (ground (arith, h, other)))
    ]

    back :
        ((some e ≡ some d) × (d.fingerprint ≡ t)) ⊎ ((e.fingerprint ≢ t) × Later)
        → first_with t (e ∷ ds) ≡ some d
    back (inl (it, named)) =
        let mine : e.fingerprint ≡ t = ground (arith, it, named) in
        ground (arith, it, (text_eq_iff e.fingerprint t).1 mine)
    back (inr (other, l)) = elim (Bool-cases (text_eq e.fingerprint t)) [
      | inl same ↦ absurd (other ((text_eq_iff e.fingerprint t).0 same))
      | inr differs ↦ ground (arith, differs, later.1 l)
    ]

collect-IsFirstAnswer :
    (find : Finds) (t : Text) (ticks : List Tick) (d : DeviceInfo)
    → (first_with t (collect find ticks).0 ≡ some d) ↔ IsFirstAnswer find t ticks d
unfolding collect first_with
collect-IsFirstAnswer find t [] d = (λ e. ground (arith, e), λ never. absurd never)
collect-IsFirstAnswer find t (deadline ∷ ticks) d = (λ e. ground (arith, e), λ never. absurd never)
collect-IsFirstAnswer find t (answered ip net ∷ ticks) d =
    first_with-push_found t (find ip net) (collect find ticks).0 (IsFirstAnswer find t ticks d) d
      (collect-IsFirstAnswer find t ticks d)

collect-complete_iff :
    (find : Finds) (ticks : List Tick) → ((collect find ticks).1 ≡ true) ↔ (¬ HasDeadline ticks)
unfolding collect
collect-complete_iff find [] = (λ e never. never, λ _. refl)
collect-complete_iff find (deadline ∷ ticks) = (λ e _. ground (arith, e), λ h. absurd (h tt))
collect-complete_iff find (answered ip net ∷ ticks) = collect-complete_iff find ticks

abbrev pub probes : DeviceInfo → ℕ → Bool → Finds
probes self port allow ip net = (probe_info net self ip port allow).1

-- The devices of a scan have distinct fingerprints, and it has a device under a fingerprint exactly
-- when the fingerprint is neither empty nor this device's own, and the device is what the first probe
-- found whose find has that fingerprint, with no deadline before it. A scan says that it is complete
-- exactly when no deadline came at all.
pub scan_hosts-first_with :
    (self : DeviceInfo) (port : ℕ) (allow : Bool) (ticks : List Tick) (t : Text) (d : DeviceInfo)
    → let scan = scan_hosts self port allow ticks in
      AreDistinct scan.devices
      × (((first_with t scan.devices ≡ some d) ↔ (
            (t ≢ []) × ((t ≢ self.fingerprint) × IsFirstAnswer (probes self port allow) t ticks d)))
          × ((scan.complete ≡ true) ↔ (¬ HasDeadline ticks)))
unfolding scan_hosts contains_text
scan_hosts-first_with self port allow ticks t d =
    let find = probes self port allow in
    let devices = (collect find ticks).0 in
    (
      deduplicate-AreDistinct self.fingerprint [] devices,
      (
        kept_iff self.fingerprint t devices d (IsFirstAnswer find t ticks d)
            (collect-IsFirstAnswer find t ticks d),
        collect-complete_iff find ticks,
      ),
    )

collect-cut :
    (probe : IpAddr → Network → Option DeviceInfo) (ticks later : List Tick)
    → (collect probe ticks).1 ≡ true
    → collect probe (ticks ++ deadline ∷ later) ≡ ((collect probe ticks).0, false)
unfolding collect
collect-cut probe [] later e = refl
collect-cut probe (deadline ∷ ticks) later e = ground arith
collect-cut probe (answered ip net ∷ ticks) later e =
    ap (λ r. (push_found (probe ip net) r.0, r.1)) (collect-cut probe ticks later e)

-- A deadline takes away nothing that answered before it: a scan that is cut off has the devices of
-- the scan that ended there, and says that it is not complete.
pub scan_hosts-cut :
    (self : DeviceInfo) (port : ℕ) (allow : Bool) (ticks later : List Tick)
    → (scan_hosts self port allow ticks).complete ≡ true
    → scan_hosts self port allow (ticks ++ deadline ∷ later)
      ≡ record { devices = (scan_hosts self port allow ticks).devices; complete = false }
unfolding scan_hosts
scan_hosts-cut self port allow ticks later e =
    ap (λ r. record { devices = deduplicate self.fingerprint [] r.0; complete = r.1 })
      (collect-cut (λ ip net. (probe_info net self ip port allow).1) ticks later e)
