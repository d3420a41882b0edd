-- ===== src/Sink/Receive/Reserved.antt =====
-- core/sink.rs: the name that `reserve_free_name` takes.
use localsend_rs.Base.{
  ℕ, zero, suc, ◌+◌, ◌≤◌, ◌<◌, ◌≡◌, inl, inr, sym, subst, arith, true, none, [], ◌∷◌, ◌++◌, ◌==◌,
  Bool-cases, Option-cases, is_some,
}
use localsend_rs.Protocol.{Text}
use localsend_rs.Sink.Names.{max_collision_attempts}
use localsend_rs.Sink.Disk.{FilePath, Disk, Faults, open_new}
use localsend_rs.Sink.Receive.{Outcome, done, candidate, reserve_from, reserve_free_name}

-- The path of an attempt.
abbrev pub path_of : FilePath → Text → ℕ → FilePath
path_of dir leaf n = dir ++ candidate leaf n ∷ []

-- The first free attempt from one on, and what is taken.
abbrev pub IsFirstFree : FilePath → Text → ℕ → ℕ → Disk → Outcome FilePath → Type 0
IsFirstFree dir leaf attempt last disk result =
    (m : ℕ) × ((attempt ≤ m)
      × ((m ≤ last)
          × ((result ≡ done (path_of dir leaf m))
              × ((disk (path_of dir leaf m) ≡ none)
                  × ((k : ℕ) → attempt ≤ k → k < m → is_some (disk (path_of dir leaf k)) ≡ true)))))

reserve_from-IsFirstFree :
    (faults : Faults) (dir : FilePath) (leaf : Text) (attempt left d : ℕ) (disk : Disk)
    → ((path : FilePath) → faults.create_new path ≡ none)
    → d < left
    → disk (path_of dir leaf (attempt + d)) ≡ none
    → IsFirstFree dir leaf attempt
        (attempt + d)
        disk
        (reserve_from faults dir leaf attempt left disk).1
unfolding reserve_from open_new
reserve_from-IsFirstFree faults dir leaf attempt zero d disk fine less free = ground (arith, less)
reserve_from-IsFirstFree faults dir leaf attempt (suc left) zero disk fine less free =
    let here : disk (path_of dir leaf attempt) ≡ none =
      subst (λ n. disk (path_of dir leaf n) ≡ none) (omega arith) free in
    (
      attempt,
      (
        omega arith,
        (
          omega arith,
          (
            ground (arith, fine (path_of dir leaf attempt)),
            (here, λ k low high. ground (arith, low, high)),
          ),
        ),
      ),
    )
reserve_from-IsFirstFree faults dir leaf attempt (suc left) (suc d) disk fine less free =
    elim (Option-cases (disk (path_of dir leaf attempt))) [
      | inl here ↦ (
        attempt,
        (
          omega arith,
          (
            omega arith,
            (
              ground (arith, fine (path_of dir leaf attempt)),
              (here, λ k low high. ground (arith, low, high)),
            ),
          ),
        ),
      )
      | inr (n, taken) ↦
          let later : disk (path_of dir leaf (suc attempt + d)) ≡ none =
            subst (λ n. disk (path_of dir leaf n) ≡ none) (omega arith) free in
          let (m, (low, (high, (result, (open', others))))) =
            reserve_from-IsFirstFree faults dir leaf (suc attempt) left d disk fine (omega arith)
              later in
          (
            m,
            (
              omega (arith, low),
              (
                omega (arith, high),
                (
                  ground (arith, fine (path_of dir leaf attempt), result),
                  (
                    open',
                    λ k from to. elim (Bool-cases (attempt == k)) [
                      | inl first ↦
                          let same : attempt ≡ k = ground arith in
                          subst (λ j. is_some (disk (path_of dir leaf j)) ≡ true) same
                            (ground (arith, taken))
                      | inr rest ↦ others k (ground (arith, from)) to
                    ],
                  ),
                ),
              ),
            ),
          )
    ]

-- If one of the 1025 names of the series is free, and the operating system fails no creation, then
-- the loop ends with a name: the first free one, all those before it being taken.
pub reserve_free_name-IsFirstFree :
    (faults : Faults) (dir : FilePath) (leaf : Text) (n : ℕ) (disk : Disk)
    → ((path : FilePath) → faults.create_new path ≡ none)
    → n ≤ max_collision_attempts
    → disk (path_of dir leaf n) ≡ none
    → IsFirstFree dir leaf 0 n disk (reserve_free_name faults dir leaf disk).1
unfolding reserve_free_name
reserve_free_name-IsFirstFree faults dir leaf n disk fine bound free =
    let sum : n ≡ 0 + n = omega arith in
    let result = (reserve_free_name faults dir leaf disk).1 in
    subst (λ last. IsFirstFree dir leaf 0 last disk result) (sym sum)
      (reserve_from-IsFirstFree faults dir leaf 0 (suc max_collision_attempts) n disk fine
        (omega (arith, bound)) (subst (λ k. disk (path_of dir leaf k) ≡ none) sum free))
