-- ===== src/Server/Body/Integrity.antt =====
-- server/handlers.rs: an upload that is answered with 200 was received whole and unaltered.
use mathlib.Core.List.{append_assoc, append-nil}
use localsend_rs.Base.{
  ℕ, suc, ◌+◌, ◌-◌, ◌%◌, ◌<◌, ◌≡◌, ◌≢◌, refl, ◌∙◌, Bool, true, Option, none, some, List, [], ◌∷◌,
  ◌++◌, length, length-append, u64_max, arith, ap,
}
use localsend_rs.Protocol.{Text}
use localsend_rs.Session.{StandardPublicationPermit}
use localsend_rs.Server.Http.{StatusCode, ok}
use localsend_rs.Server.State.{World}
use localsend_rs.Server.Upload.{Upload, add}
use localsend_rs.Server.Body.{
  Chunk, chunk, broken, unwritable, BodyItem, BodyResult, cancelled, failed, written, write_body,
  Finished, answer, publishing, discard, matches_sha, publish, finish_body, progress_of, UploadCall,
  Created, created, create_rejected, create_failed, receive,
}

-- The bytes of a body whose pieces all arrive and are all written.
pub payload : List BodyItem → Option Text
payload [] = some []
payload (item ∷ items) = elim item.piece [
  | broken ↦ none
  | unwritable _ ↦ none
  | chunk c ↦ elim (payload items) [ none ↦ none | some p ↦ some (c ++ p) ]
]

abbrev piece_payload : Chunk → Option Text → Option Text
piece_payload broken rest = none
piece_payload (unwritable _) rest = none
piece_payload (chunk c) none = none
piece_payload (chunk c) (some p) = some (c ++ p)

payload-cons :
    (item : BodyItem) (items : List BodyItem)
    → payload (item ∷ items) ≡ piece_payload item.piece (payload items)
unfolding payload
payload-cons item items = ground arith

module _ (sha256 : Text → Text) where
  -- What a body that was written to its end says of the pieces.
  abbrev Whole : List BodyItem → Bool → ℕ → Text → ℕ → Text → Type 0
  Whole items flushed bytes hashed n h =
      (p : Text) × (payload items ≡ some p)
      × (n ≡ (bytes + length p) % suc u64_max)
      × (h ≡ sha256 (hashed ++ p))
      × (flushed ≡ true)

  write_body_continues :
      (u : Upload) (item : BodyItem) (items : List BodyItem) (flushed : Bool) (bytes : ℕ)
      (hashed : Text) (w : World) (n : ℕ) (h : Text) (x : Chunk)
      → item.piece ≡ x
      → (write_body sha256 u (item ∷ items) flushed bytes hashed w).1 ≡ written n h
      → (c : Text) × (x ≡ chunk c)
        × (let next = (bytes + length c) % suc u64_max in
            (write_body sha256 u items flushed next
              (hashed ++ c)
              (add (progress_of u) (next - bytes) (item.meanwhile w))).1
            ≡ written n h)
  unfolding write_body
  write_body_continues u item items flushed bytes hashed w n h broken e r = absurd (ground arith)
  write_body_continues u item items flushed bytes hashed w n h (unwritable _) e r =
      absurd (ground arith)
  write_body_continues u item items flushed bytes hashed w n h (chunk c) e r =
      (c, refl, ground arith)

  write_body-Whole :
      (u : Upload) (items : List BodyItem) (flushed : Bool) (bytes : ℕ) (hashed : Text) (w : World)
      (n : ℕ) (h : Text)
      → bytes < suc u64_max
      → (write_body sha256 u items flushed bytes hashed w).1 ≡ written n h
      → Whole items flushed bytes hashed n h
  unfolding write_body payload
  write_body-Whole u [] flushed bytes hashed w n h small e =
      ([], refl, ground arith, rw append-nil (ground arith), ground arith)
  write_body-Whole u (item ∷ items) flushed bytes hashed w n h small e =
      let (c, ec, r) =
        write_body_continues u item items flushed bytes hashed w n h item.piece refl e in
      let (p, ep, en, eh, ef) =
        write_body-Whole u items flushed ((bytes + length c) % suc u64_max) (hashed ++ c)
          (add (progress_of u) ((bytes + length c) % suc u64_max - bytes) (item.meanwhile w)) n h
          (omega arith) r in
      (
        c ++ p,
        ground arith,
        omega (arith, en, length-append c p),
        eh ∙ ap sha256 (append_assoc hashed c p),
        ef,
      )

-- An upload that goes on to publication had the declared size and hash.
finish_body_publishing :
    (u : Upload) (pending : ℕ) (body : BodyResult) (w : World) (n : ℕ)
    (permit : StandardPublicationPermit)
    → (finish_body u pending body w).1 ≡ publishing n permit
    → (h : Text) × (body ≡ written n h)
      × (n ≡ u.declared_size)
      × (matches_sha u.declared_sha h ≡ true)
unfolding finish_body
finish_body_publishing u pending (cancelled k) w n permit e =
    absurd (unfold discard in ground arith)
finish_body_publishing u pending (failed k) w n permit e = absurd (unfold discard in ground arith)
finish_body_publishing u pending (written k h) w n permit e =
    (h, ground arith, ground arith, ground arith)

publish_refuses :
    (u : Upload) (pending n : ℕ) (w : World) (code : StatusCode)
    → (publish u pending n w).1 ≡ answer code
    → code ≢ ok
unfolding publish
publish_refuses u pending n w code e r = absurd (ground arith)

-- An upload that stops before publication is not answered with success.
pub finish_body_refuses :
    (u : Upload) (pending : ℕ) (body : BodyResult) (w : World) (code : StatusCode)
    → (finish_body u pending body w).1 ≡ answer code
    → code ≢ ok
unfolding finish_body discard
finish_body_refuses u pending (cancelled k) w code e r = absurd (ground arith)
finish_body_refuses u pending (failed k) w code e r = absurd (ground arith)
finish_body_refuses u pending (written k h) w code e r =
    absurd (ground (arith, publish_refuses u pending k w code))

-- Whether all bytes came, were written, had the declared number, and had the declared hash.
abbrev pub IsIntact : (Text → Text) → UploadCall → Upload → Type 0
IsIntact sha256 call u =
    (p : Text) × (payload call.body ≡ some p)
    × (call.flushed ≡ true)
    × (length p % suc u64_max ≡ u.declared_size)
    × (matches_sha u.declared_sha (sha256 p) ≡ true)

module _ (sha256 : Text → Text) (call : UploadCall) (u : Upload) (w : World) where
  -- The upload's destination was created, and its body passed the checks.
  abbrev Published : Type 0
  Published =
      (pending : ℕ) × (n : ℕ) × (permit : StandardPublicationPermit) × (call.creation
        ≡ created pending)
      × ((finish_body u pending
            ((write_body sha256 u call.body call.flushed 0 [] (call.while_creating w)).1)
            ((write_body sha256 u call.body call.flushed 0 [] (call.while_creating w)).0)).1
          ≡ publishing n permit)

  receive_created :
      (pending : ℕ) (f : Finished)
      → call.creation ≡ created pending
      → (finish_body u pending
          ((write_body sha256 u call.body call.flushed 0 [] (call.while_creating w)).1)
          ((write_body sha256 u call.body call.flushed 0 [] (call.while_creating w)).0)).1
        ≡ f
      → (receive sha256 call u w).1 ≡ some ok
      → Published
  unfolding receive
  receive_created pending (answer code) ec ef e =
      absurd (finish_body_refuses u pending _ _ code ef (ground arith))
  receive_created pending (publishing n permit) ec ef e = (pending, n, permit, ec, ef)

  receive_publishes :
      (c : Created) → call.creation ≡ c → (receive sha256 call u w).1 ≡ some ok → Published
  unfolding receive
  receive_publishes create_rejected ec e = absurd (ground arith)
  receive_publishes create_failed ec e = absurd (ground arith)
  receive_publishes (created pending) ec e = receive_created pending _ ec refl e

  -- An upload that is answered with 200 was intact: its pieces all came and were written, they have
  -- the declared number of bytes as a `u64` counts them, and their hash is the declared one, if one was declared.
  pub receive-IsIntact : (receive sha256 call u w).1 ≡ some ok → IsIntact sha256 call u
  receive-IsIntact e =
      let (pending, n, permit, ec, ef) = receive_publishes call.creation refl e in
      let (h, ew, en, eh) =
        finish_body_publishing u pending
          ((write_body sha256 u call.body call.flushed 0 [] (call.while_creating w)).1)
          ((write_body sha256 u call.body call.flushed 0 [] (call.while_creating w)).0) n permit
          ef in
      let (p, ep, en', eh', efl) =
        write_body-Whole sha256 u call.body call.flushed 0 [] (call.while_creating w) n h
          (omega arith) ew in
      (p, ep, efl, ground arith, ground arith)
