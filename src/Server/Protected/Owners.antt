-- ===== src/Server/Protected/Owners.antt =====
-- server/handlers.rs and server/server.rs: the owners of protected uploads.
use localsend_rs.Base.{
  ◌≡◌, ◌≢◌, refl, ◌⊎◌, inl, inr, true, none, some, ◌∷◌, ℕ, arith, Bool-cases, Option-cases,
}
use localsend_rs.Protocol.{PrepareUploadRequest, PrepareUploadResponse}
use localsend_rs.Server.Http.{Response, status, prepared, service_unavailable}
use localsend_rs.Server.State.{World, CrossCopyAuthorizedPrepareMetadata, new_protected}
use localsend_rs.Server.Lifetime.{stop, stop_standard, stop_protected}
use localsend_rs.Server.Protected.{
  ProtectedCall, install_owner, take_upload, handle_crosscopy_authorized_prepare, parse,
  single_file,
}

-- An owner that the gate gave is installed in the one protected session, or it is cancelled and the
-- session stays as it was.
pub install_owner_linear :
    (call : ProtectedCall) (metadata : CrossCopyAuthorizedPrepareMetadata) (owner : ℕ) (w : World)
    → (let w' = (install_owner call metadata owner w).0 in
        ((w'.crosscopy_authorized_session
            ≡ some (new_protected call.session_id call.token call.created metadata owner))
          × (w.crosscopy_authorized_session ≡ none)
          × (w'.cancelled_owners ≡ w.cancelled_owners))
        ⊎ ((w'.crosscopy_authorized_session ≡ w.crosscopy_authorized_session)
            × (w'.cancelled_owners ≡ owner ∷ w.cancelled_owners)))
unfolding install_owner
install_owner_linear call metadata owner w = elim (Bool-cases w.crosscopy_authorized_stopping) [
  | inl stopping ↦ inr (ground arith, ground arith)
  | inr running ↦ elim (Option-cases w.crosscopy_authorized_session) [
    | inl free ↦ inl (ground arith, free, ground arith)
    | inr (session, taken) ↦ inr (ground arith, ground arith)
  ]
]

stop-stopping :
    (w : World)
    → ((stop w).crosscopy_authorized_stopping ≡ true)
      × ((stop w).crosscopy_authorized_session ≡ none)
unfolding stop stop_standard stop_protected
stop-stopping w = (ground arith, refl)

install_owner_stopped :
    (call : ProtectedCall) (metadata : CrossCopyAuthorizedPrepareMetadata) (owner : ℕ) (w : World)
    → w.crosscopy_authorized_stopping ≡ true
    → ((install_owner call metadata owner w).0.crosscopy_authorized_session
        ≡ w.crosscopy_authorized_session)
      × ((install_owner call metadata owner w).1 ≡ status service_unavailable)
unfolding install_owner
install_owner_stopped call metadata owner w e = (ground arith, ground arith)

-- The state holds no protected session, and the answer admits no upload.
abbrev pub Refused : World × Response → Type 0
Refused r =
    (r.0.crosscopy_authorized_session ≡ none) × ((p : PrepareUploadResponse) → r.1 ≢ prepared p)

take_upload_overtaken :
    (call : ProtectedCall) (metadata : CrossCopyAuthorizedPrepareMetadata) (w v : World)
    → w.crosscopy_authorized_session ≡ none
    → call.meanwhile w ≡ stop v
    → Refused (take_upload call metadata w)
unfolding take_upload
take_upload_overtaken call metadata w v free e = elim (Option-cases call.owner) [
  | inl refused ↦ (ground (arith, stop-stopping v), λ p r. absurd (ground arith))
  | inr (owner, given) ↦
      let (running, cleared) = stop-stopping v in
      let (kept, answer) = install_owner_stopped call metadata owner (stop v) running in
      (ground (arith, kept, cleared), λ p r. absurd (ground (arith, answer)))
]

-- At a receiver without a protected session, a protected prepare that the stop of the server
-- overtakes while the gate answers installs nothing and admits nothing.
pub stop_overtakes :
    (call : ProtectedCall) (request : PrepareUploadRequest) (w v : World)
    → w.crosscopy_authorized_session ≡ none
    → call.meanwhile w ≡ stop v
    → Refused (handle_crosscopy_authorized_prepare call request w)
unfolding handle_crosscopy_authorized_prepare
stop_overtakes call request w v free e = elim (Option-cases call.values) [
  | inl no_text ↦ (ground arith, λ p r. absurd (ground arith))
  | inr (values, given) ↦ elim (Option-cases (parse values)) [
    | inl malformed ↦ (ground arith, λ p r. absurd (ground arith))
    | inr (handoff, parsed) ↦ elim (Option-cases (single_file request)) [
      | inl other ↦ (ground arith, λ p r. absurd (ground arith))
      | inr (metadata, single) ↦
          let (kept, refused) = take_upload_overtaken call metadata w v free e in
          (ground arith, λ p r. refused p (ground arith))
    ]
  ]
]
