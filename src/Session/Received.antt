-- ===== src/Session/Received.antt =====
-- core/session.rs: the tokens of a session, and when its files have all arrived.
use localsend_rs.Base.{
  ℕ, ◌≡◌, refl, ◌↔◌, inl, inr, true, none, some, List, [], ◌∷◌, ◌==◌, if◌then◌else◌, Map, lookup,
  keys, contains, contains_key, set_insert, arith, Distinct, Subset, Subset_full,
  Distinct-set_insert, Subset-set_insert, contains-keys, Bool-cases, ◌&&◌, ◌||◌, ◌∙◌, ap, length,
  length-keys, contains-set_insert, ==_iff,
}
use localsend_rs.Protocol.{FileId, SessionId, Token, Text, Instant, FileMetadata}
use localsend_rs.Session.{Session, new, collect, verify_token, mark_received}

lookup-collect {ℓ κ} :
    {V : Type ℓ} {W : Type κ} (f : FileId → W) (k : FileId) (m : Map V)
    → lookup k (collect f m) ≡ (if contains_key k m then some (f k) else none)
unfolding lookup collect
lookup-collect f k [] = refl
lookup-collect f k ((j, v) ∷ m) = ground (arith, lookup-collect f k m)

-- A new session takes a token for a file exactly if the file is one of its own and the token is
-- the one that was drawn for that file.
pub verify_token-new :
    (id : SessionId) (draw : FileId → Token) (address : ℕ) (now : Instant) (alias : Text)
    (files : Map FileMetadata) (f : FileId) (token : Token)
    → (verify_token f token (new id draw address now alias files).0 ≡ true)
      ↔ ((contains_key f files ≡ true) × (draw f ≡ token))
unfolding verify_token new
verify_token-new id draw address now alias files f token =
    ground (arith, lookup-collect draw f files)

-- The received files are distinct files of the session.
pub record Tracks (s : Session) : Type 0 where
  pub keys_distinct : Distinct (keys s.files)
  pub received_distinct : Distinct s.received
  pub received_offered : Subset s.received (keys s.files)

pub new-Tracks :
    (id : SessionId) (draw : FileId → Token) (address : ℕ) (now : Instant) (alias : Text)
    (files : Map FileMetadata)
    → Distinct (keys files)
    → Tracks (new id draw address now alias files).0
unfolding new
new-Tracks id draw address now alias files d = record {
  keys_distinct = d;
  received_distinct = tt;
  received_offered = λ a h. absurd (ground arith);
}

pub mark_received-Tracks :
    (now : Instant) (f : FileId) (s : Session) → Tracks s → Tracks (mark_received now f s).0
unfolding mark_received
mark_received-Tracks now f s t = elim (Bool-cases (contains_key f s.files)) [
  | inr e ↦ rw (e, mark_received) t
  | inl e ↦
      rw (e, mark_received)
        (record {
          keys_distinct = t.keys_distinct;
          received_distinct = Distinct-set_insert f s.received t.received_distinct;
          received_offered =
              Subset-set_insert f s.received (keys s.files) (rw (contains-keys f s.files) e)
                t.received_offered;
        })
]

-- The files recorded one after another.
pub mark_all : Instant → List FileId → Session → Session
mark_all now [] s = s
mark_all now (f ∷ fs) s = mark_all now fs (mark_received now f s).0

pub mark_all-Tracks :
    (now : Instant) (fs : List FileId) (s : Session) → Tracks s → Tracks (mark_all now fs s)
unfolding mark_all
mark_all-Tracks now [] s t = t
mark_all-Tracks now (f ∷ fs) s t =
    mark_all-Tracks now fs (mark_received now f s).0 (mark_received-Tracks now f s t)

mark_received_lem :
    (now : Instant) (f : FileId) (s : Session)
    → Tracks s
    → ((mark_received now f s).1 ≡ true)
      ↔ ((contains_key f s.files ≡ true) × Subset (keys s.files) (mark_received now f s).0.received)
unfolding mark_received
mark_received_lem now f s t = elim (Bool-cases (contains_key f s.files)) [
  | inr e ↦ rw (e, mark_received) (λ h. cc, λ h. cc h.0)
  | inl e ↦ rw (e, mark_received) (λ h. (refl, (whole e).0 h), λ h. (whole e).1 h.1)
]
  where
    whole :
        contains_key f s.files ≡ true
        → ((length (set_insert f s.received) == length s.files) ≡ true)
          ↔ Subset (keys s.files) (set_insert f s.received)
    whole e = rw length-keys at (
        Subset_full (set_insert f s.received) (keys s.files)
          (Distinct-set_insert f s.received t.received_distinct) t.keys_distinct
          (Subset-set_insert f s.received (keys s.files) (rw (contains-keys f s.files) e)
            t.received_offered))

received-mark_received :
    (now : Instant) (f g : FileId) (s : Session)
    → ((mark_received now f s).0.files ≡ s.files)
      × (contains (mark_received now f s).0.received g
          ≡ (contains s.received g || (f == g && contains_key f s.files)))
unfolding mark_received
received-mark_received now f g s = ground (arith, contains-set_insert f g s.received)

files-mark_all :
    (now : Instant) (fs : List FileId) (s : Session) → (mark_all now fs s).files ≡ s.files
unfolding mark_all
files-mark_all now [] s = refl
files-mark_all now (f ∷ fs) s =
    files-mark_all now fs (mark_received now f s).0 ∙ (received-mark_received now f f s).0

received-mark_all :
    (now : Instant) (fs : List FileId) (g : FileId) (s : Session)
    → contains (mark_all now fs s).received g
      ≡ (contains s.received g || (contains fs g && contains_key g s.files))
unfolding mark_all
received-mark_all now [] g s = ground arith
received-mark_all now (f ∷ fs) g s = ground (
  arith,
  received-mark_all now fs g (mark_received now f s).0,
  received-mark_received now f g s,
  ==_iff f g,
)

-- A session opened with distinct file ids in which `fs` were recorded reports that everything has
-- arrived with the record of `f` exactly if `f` is one of its files and each of its files is `f` or
-- stands in `fs`. Ids that are not the session's, and repeated ids, change nothing of that.
pub complete_iff :
    (id : SessionId) (draw : FileId → Token) (address : ℕ) (now : Instant) (alias : Text)
    (files : Map FileMetadata) (fs : List FileId) (f : FileId)
    → Distinct (keys files)
    → let s = mark_all now fs (new id draw address now alias files).0 in
      ((mark_received now f s).1 ≡ true) ↔ (
        (contains_key f files ≡ true)
        × ((g : FileId) → contains_key g files ≡ true → (f == g || contains fs g) ≡ true))
unfolding new
complete_iff id draw address now alias files fs f d = (
  λ h. (rw same at ((all.0 h).0), λ g hg. ground (arith, (all.0 h).1 g, arrived g, keyed g)),
  λ h. all.1 (rw same h.0, λ g hg. ground (arith, h.1 g, arrived g, keyed g)),
)
  where
    first : Session
    first = (new id draw address now alias files).0

    s : Session
    s = mark_all now fs first

    same : s.files ≡ files
    same = files-mark_all now fs first

    all : ((mark_received now f s).1 ≡ true) ↔ (
        (contains_key f s.files ≡ true) × Subset (keys s.files) (mark_received now f s).0.received)
    all =
        mark_received_lem now f s
          (mark_all-Tracks now fs first (new-Tracks id draw address now alias files d))

    keyed : (g : FileId) → contains (keys s.files) g ≡ contains_key g files
    keyed g = contains-keys g s.files ∙ ap (λ m. contains_key g m) same

    arrived :
        (g : FileId)
        → contains (mark_received now f s).0.received g
          ≡ ((contains fs g && contains_key g files) || (f == g && contains_key f files))
    arrived g =
        rw ((received-mark_received now f g s).1, received-mark_all now fs g first, same) refl
