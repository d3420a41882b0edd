-- ===== src/Discovery/Subnet/Hosts.antt =====
-- discovery/http.rs: which hosts a scan of a network asks.
use localsend_rs.Base.{
  ℕ, suc, zero, ◌+◌, ◌≤◌, ◌<◌, ◌≡◌, ◌≢◌, ◌==◌, ◌∙◌, ◌↔◌, inl, inr, refl, sym, ap, true, ◌&&◌, not,
  some, List, [], ◌∷◌, arith, Bool-cases, map, retain,
}
use localsend_rs.Protocol.{Text, text_eq, text_eq_iff}
use localsend_rs.Error.{ok}
use localsend_rs.Discovery.Scan.{contains_text}
use localsend_rs.Discovery.Subnet.{parse_ipv4, with_dots, host_of, numbers_from, subnet_hosts}

contains-retain :
    (base t : Text) (ts : List Text)
    → contains_text (retain (λ ip. not (text_eq ip base)) ts) t
      ≡ (contains_text ts t && not (text_eq t base))
unfolding contains_text
contains-retain base t [] = refl
contains-retain base t (s ∷ ts) = elim (Bool-cases (text_eq s t)) [
  | inl same ↦
      let equal = ap (λ u. text_eq u base) ((text_eq_iff s t).0 same) in
      ground (arith, contains-retain base t ts, equal)
  | inr other ↦ ground (arith, contains-retain base t ts)
]

contains-numbers_from :
    (f : ℕ → Text) (t : Text) (n k : ℕ)
    → (contains_text (map f (numbers_from n k)) t ≡ true)
      ↔ ((h : ℕ) × ((n ≤ h) × ((h < n + k) × (t ≡ f h))))
unfolding contains_text numbers_from
contains-numbers_from f t n zero =
    (λ e. ground arith, λ (h, (low, (high, e))). ground (arith, low, high))
contains-numbers_from f t n (suc k) = (
  λ e. elim (Bool-cases (text_eq (f n) t)) [
    | inl same ↦ (n, (omega arith, (omega arith, sym ((text_eq_iff (f n) t).0 same))))
    | inr other ↦
        let (h, (low, (high, same))) =
          (contains-numbers_from f t (suc n) k).0 (ground (arith, e)) in
        (h, (omega (arith, low), (omega (arith, high), same)))
  ],
  λ (h, (low, (high, e))). elim (Bool-cases (n == h)) [
    | inl here ↦
        let n_h : n ≡ h = ground arith in
        let same : text_eq (f n) t ≡ true = (text_eq_iff (f n) t).1 (ap f n_h ∙ sym e) in
        ground (arith, same)
    | inr later ↦
        let rest =
          (contains-numbers_from f t (suc n) k).1
            (h, (ground (arith, low), (ground (arith, high), e))) in
        ground (arith, rest)
  ],
)

-- The hosts of a scan of a network: of the addresses with the base's first three numbers and a last
-- one from 1 to 254, all but the base itself, and no other text.
pub subnet_hosts-contains :
    (base t : Text) (a b c d : ℕ)
    → parse_ipv4 base ≡ some (a, b, c, d)
    → (hosts : List Text) × ((subnet_hosts base ≡ ok hosts)
        × ((contains_text hosts t ≡ true) ↔ (
            ((h : ℕ) × ((1 ≤ h) × ((h < 255) × (t ≡ host_of (with_dots a b c) h)))) × (t ≢ base))))
unfolding subnet_hosts
subnet_hosts-contains base t a b c d e =
    let all = map (host_of (with_dots a b c)) (numbers_from 1 254) in
    let member = contains-numbers_from (host_of (with_dots a b c)) t 1 254 in
    let kept = contains-retain base t all in
    let fresh = text_eq_iff t base in
    (
      retain (λ ip. not (text_eq ip base)) all,
      (
        ground (arith, e),
        (
          λ h. (member.0 (ground (arith, kept)), λ same. ground (arith, kept, fresh)),
          λ (found, other). ground (arith, kept, member.1 found, fresh, other),
        ),
      ),
    )
