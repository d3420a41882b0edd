-- ===== src/Sink/Names/Numbered.antt =====
-- core/sink.rs: what a numbered name of the collision series keeps of the offered one.
use localsend_rs.Base.{
  ℕ, ◌+◌, ◌-◌, ◌≡◌, ◌∙◌, sym, ap, refl, inl, inr, arith, [], ◌++◌, ltb, leb, length, take, drop,
  take-drop, append-nil, append_assoc, Bool-cases, Option-cases,
}
use localsend_rs.Protocol.{Text}
use localsend_rs.Error.{bytes}
use localsend_rs.Sink.Names.{
  max_component_bytes, decimal, back_up, truncate_utf8, rfind_dot, split_extension, suffix_of,
  assemble, place, collision_leaf,
}
use localsend_rs.Sink.Names.Laws.{value, value-decimal}

-- The name is the beginning of the offered one, the number between ` (` and `)`, and an end of the
-- offered one; what is left out stood between the two.
abbrev pub IsNumbered : Text → ℕ → Text → Type 0
IsNumbered leaf n name =
    (cut : Text) × ((dropped : Text) × ((extension : Text) × ((digits : Text) × ((leaf
              ≡ cut ++ (dropped ++ extension))
            × ((name ≡ cut ++ ((bytes " (" ++ (digits ++ bytes ")")) ++ extension))
                × (value 0 digits ≡ n))))))

truncate_utf8-append : (v : Text) (n : ℕ) → (dropped : Text) × (truncate_utf8 v n ++ dropped ≡ v)
unfolding truncate_utf8
truncate_utf8-append v n = elim (Bool-cases (leb (length v) n)) [
  | inl fits ↦ ([], rw fits (append-nil v))
  | inr long ↦ (drop (back_up v n) v, rw long (take-drop (back_up v n) v))
]

split_extension-append : (leaf : Text) → (split_extension leaf).0 ++ (split_extension leaf).1 ≡ leaf
unfolding split_extension
split_extension-append leaf = elim (Option-cases (rfind_dot leaf)) [
  | inl missing ↦
      let e : split_extension leaf ≡ (leaf, []) = ground (arith, missing) in
      ap (λ p. p.0 ++ p.1) e ∙ append-nil leaf
  | inr (i, dot) ↦ elim (Bool-cases (ltb 0 i)) [
    | inl inside ↦
        let e : split_extension leaf ≡ (take i leaf, drop i leaf) = ground (arith, dot, inside) in
        ap (λ p. p.0 ++ p.1) e ∙ take-drop i leaf
    | inr first ↦
        let e : split_extension leaf ≡ (leaf, []) = ground (arith, dot, first) in
        ap (λ p. p.0 ++ p.1) e ∙ append-nil leaf
  ]
]

assemble-IsNumbered :
    (leaf stem extension : Text) (n : ℕ)
    → stem ++ extension ≡ leaf
    → IsNumbered leaf n (assemble stem (suffix_of n) extension)
unfolding assemble suffix_of
assemble-IsNumbered leaf stem extension n whole =
    let (dropped, kept) =
      truncate_utf8-append stem (max_component_bytes - length (suffix_of n) - length extension) in
    let cut = truncate_utf8 stem (max_component_bytes - length (suffix_of n) - length extension) in
    (
      cut,
      (
        dropped,
        (
          extension,
          (
            decimal n,
            (
              sym whole
                  ∙ (ap (λ s. s ++ extension) (sym kept) ∙ append_assoc cut dropped extension),
              (refl, value-decimal n),
            ),
          ),
        ),
      ),
    )

-- A numbered name keeps a beginning and an end of the offered one around its number.
pub collision_leaf-IsNumbered : (leaf : Text) (n : ℕ) → IsNumbered leaf n (collision_leaf leaf n)
unfolding collision_leaf place
collision_leaf-IsNumbered leaf n =
    let extension = (split_extension leaf).1 in
    elim (Bool-cases (leb max_component_bytes (length extension + length (suffix_of n)))) [
      | inl crowded ↦ rw crowded (assemble-IsNumbered leaf leaf [] n (append-nil leaf))
      | inr roomy ↦ rw roomy (
          assemble-IsNumbered leaf (split_extension leaf).0 extension n
            (split_extension-append leaf))
    ]
