-- ===== src/Server/WebShare/Consent/Granted.antt =====
-- server/web_share.rs and server/server.rs: consent under every operation, and the downloads.
use localsend_rs.Base.{
  ◌≡◌, inl, inr, Bool, true, false, Option, none, some, List, [], ◌∷◌, lookup, insert, contains_key,
  arith, Option-cases, set_insert,
}
use localsend_rs.Protocol.{Text, FileId, SessionId, IpAddr}
use localsend_rs.Server.WebShare.{
  WebShareFile, WebShareSession, WebShareState, WebWorld, FinishTask, set_share, set_events,
  start_web_share, stop_web_share, new_share, may_download, announce, abandon_prepare,
}
use localsend_rs.Server.WebShare.Downloads.{
  ProgressStream, Polled, serves, chunk, failed, ends, pending, serve_file, OnDisk, handle_download,
  finish_file, poll_next, record_download, run_task,
}
use localsend_rs.Server.WebShare.Consent.{
  Step, starts, stops, responds, begins, announces, abandons, concludes, polls, finishes, Reach,
  here, next, Consented, IsConsenting, AreSound-insert, IsConsenting-some, IsConsenting-none,
  IsConsenting-same,
}
use localsend_rs.Server.WebShare.Consent.Requests.{
  begin-IsConsenting, respond-IsConsenting, conclude-IsConsenting,
}

start-IsConsenting :
    (running : Bool) (files : List WebShareFile) (pin : Option Text) (auto : Bool) (w : WebWorld)
    → IsConsenting w
    → IsConsenting (start_web_share running files pin auto w).0
unfolding start_web_share set_share new_share lookup
start-IsConsenting running [] pin auto w all = all
start-IsConsenting false (_ ∷ _) pin auto w all = all
start-IsConsenting true (file ∷ files) pin auto w all =
    IsConsenting-some (new_share (file ∷ files) pin auto) w.answers
      (start_web_share true (file ∷ files) pin auto w).0 (ground arith) (ground arith)
      (λ id s found. ground arith)

stop-IsConsenting :
    (running : Bool) (w : WebWorld) → IsConsenting w → IsConsenting (stop_web_share running w).0
unfolding stop_web_share set_share
stop-IsConsenting false w all = all
stop-IsConsenting true w all = IsConsenting-none (stop_web_share true w).0 (ground arith)

pub poll-keeps :
    (p : Polled) (s : ProgressStream) (w : WebWorld)
    → ((poll_next p s w).0.share ≡ w.share) × ((poll_next p s w).0.answers ≡ w.answers)
unfolding poll_next finish_file set_events
poll-keeps (chunk n) s w = ground arith
poll-keeps failed s w = ground arith
poll-keeps ends s w = ground arith
poll-keeps pending s w = ground arith

finish-IsConsenting :
    (task : FinishTask) (w : WebWorld) → IsConsenting w → IsConsenting (run_task task w)
unfolding run_task record_download set_share set_events
finish-IsConsenting task w all =
    let after = run_task task w in
    elim (Option-cases w.share) [
      | inl e ↦ IsConsenting-same w after (ground arith) (ground arith) all
      | inr (web, e) ↦ elim (Option-cases (lookup task.session_id web.sessions)) [
        | inl e' ↦ IsConsenting-same w after (ground arith) (ground arith) all
        | inr (s, found) ↦
            let recorded = record s {
              downloaded_files = set_insert task.file_id s.downloaded_files;
            } in
            let before = all web e task.session_id s found in
            IsConsenting-some
              (record web { sessions = insert task.session_id recorded web.sessions }) w.answers
              after (ground arith) (ground arith)
              (AreSound-insert web w.answers task.session_id recorded (all web e)
                (record { consented = before.consented; unanswered = before.unanswered }))
      ]
    ]

Step-IsConsenting : {u v : WebWorld} → Step u v → IsConsenting u → IsConsenting v
unfolding announce set_events abandon_prepare
Step-IsConsenting (starts running files pin auto w) all =
    start-IsConsenting running files pin auto w all
Step-IsConsenting (stops running w) all = stop-IsConsenting running w all
Step-IsConsenting (responds running id accepted w) all =
    respond-IsConsenting running id accepted w all
Step-IsConsenting (begins known pin peer now fresh w unused) all =
    begin-IsConsenting known pin peer now fresh w unused all
Step-IsConsenting (announces reached fresh peer w) all =
    IsConsenting-same w (announce reached fresh peer w).0 (ground arith) (ground arith) all
Step-IsConsenting (abandons fresh w) all =
    IsConsenting-same w (abandon_prepare fresh w) (ground arith) (ground arith) all
Step-IsConsenting (concludes in_time fresh w) all = conclude-IsConsenting in_time fresh w all
Step-IsConsenting (polls p s w) all =
    IsConsenting-same w (poll_next p s w).0 (poll-keeps p s w).0 (poll-keeps p s w).1 all
Step-IsConsenting (finishes task w) all = finish-IsConsenting task w all

Reach-IsConsenting : {u v : WebWorld} → Reach u v → IsConsenting u → IsConsenting v
Reach-IsConsenting here all = all
Reach-IsConsenting (next r step) all = Step-IsConsenting step (Reach-IsConsenting r all)

-- What stands behind a download: a session of this peer, which was consented to.
abbrev pub IsGranted : SessionId → FileId → IpAddr → WebWorld → Type 0
IsGranted id file_id peer w =
    (web : WebShareState) × ((w.share ≡ some web)
      × ((contains_key file_id web.files ≡ true)
          × ((session : WebShareSession) × ((lookup id web.sessions ≡ some session)
                × ((session.ip ≡ peer) × Consented web.auto_accept (lookup id w.answers))))))

download-approved :
    (id : SessionId) (file_id : FileId) (peer : IpAddr) (disk : OnDisk) (w : WebWorld)
    (file : WebShareFile) (s : ProgressStream)
    → handle_download id file_id peer disk w ≡ serves file s
    → (web : WebShareState) × ((w.share ≡ some web)
        × ((contains_key file_id web.files ≡ true)
            × ((session : WebShareSession) × ((lookup id web.sessions ≡ some session)
                  × ((session.ip ≡ peer) × (session.approved ≡ true))))))
unfolding handle_download serve_file may_download
download-approved id file_id peer disk w file s served = elim (Option-cases w.share) [
  | inl e ↦ absurd (ground (arith, served))
  | inr (web, e) ↦ elim (Option-cases (lookup id web.sessions)) [
    | inl e' ↦ absurd (ground (arith, served))
    | inr (session, found) ↦ (
      web,
      (
        e,
        (
          ground (arith, served),
          (session, (found, (ground (arith, served), ground (arith, served)))),
        ),
      ),
    )
  ]
]

-- Whatever order the share's operations come in, from a server with no share: a download is served
-- only for a file of the share, to the address that a session was opened from, and only if the
-- consumer said yes to that session or the share accepts everybody.
pub handle_download-IsGranted :
    (u w : WebWorld) (id : SessionId) (file_id : FileId) (peer : IpAddr) (disk : OnDisk)
    (file : WebShareFile) (s : ProgressStream)
    → u.share ≡ none
    → Reach u w
    → handle_download id file_id peer disk w ≡ serves file s
    → IsGranted id file_id peer w
handle_download-IsGranted u w id file_id peer disk file s idle r served =
    let (web, (e, (offered, (session, (found, (ip, approved)))))) =
      download-approved id file_id peer disk w file s served in
    let sound = Reach-IsConsenting r (IsConsenting-none u idle) web e id session found in
    (web, (e, (offered, (session, (found, (ip, sound.consented approved))))))
