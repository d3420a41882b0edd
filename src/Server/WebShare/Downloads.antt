-- ===== src/Server/WebShare/Downloads.antt =====
-- server/web_share.rs: a download, its progress, and the end of a share's session.
pub mod Streams
use localsend_rs.Base.{
  ℕ, Bool, true, false, not, none, some, List, [], ◌∷◌, ◌++◌, retain, ◌==◌, if◌then◌else◌, lookup,
  insert, length, leb, set_insert, saturating_add, u64_max,
}
use localsend_rs.Error.{bytes}
use localsend_rs.Protocol.{Text, FileId, SessionId, IpAddr}
use localsend_rs.Server.Events.{
  web_share_download_progress, web_share_session_done, try_send, enqueue,
}
use localsend_rs.Server.Http.{StatusCode, forbidden, not_found, internal_server_error}
use localsend_rs.Server.WebShare.{
  WebWorld, WebShareFile, inline, path, FinishTask, may_download, set_share, set_events,
}

-- `WebShareProgressStream`, less its source.
pub record ProgressStream : Type 0 where
  pub session_id : SessionId
  pub file_id : FileId
  pub bytes_sent : ℕ
  pub total_bytes : ℕ
  pub finished : Bool

-- What a file on disk comes to when it is opened: nothing, a file whose size is unknown, a size.
pub data OnDisk : Type 0 where
  missing unreadable : OnDisk
  sized : ℕ → OnDisk

pub data Download : Type 0 where
  denied : StatusCode → Download
  serves : WebShareFile → ProgressStream → Download

unfoldable pub serve_file : SessionId → FileId → WebShareFile → ℕ → Download
serve_file session_id file_id file total = serves file (record {
  session_id = session_id;
  file_id = file_id;
  bytes_sent = 0;
  total_bytes = total;
  finished = false;
})

unfoldable pub handle_download : SessionId → FileId → IpAddr → OnDisk → WebWorld → Download
unfolding serve_file
handle_download session_id file_id peer on_disk w = elim w.share [
  | none ↦ denied forbidden
  | some web ↦
      if not (may_download session_id peer web)
      then denied forbidden
      else elim (lookup file_id web.files) [
        | none ↦ denied forbidden
        | some file ↦ elim file.source [
          | inline contents ↦ serve_file session_id file_id file (length contents)
          | path _ ↦ elim on_disk [
            | missing ↦ denied not_found
            | unreadable ↦ denied internal_server_error
            | sized total ↦ serve_file session_id file_id file total
          ]
        ]
      ]
]

-- `file_name.replace(['/', '\\'], "-")`.
pub safe_name : Text → Text
safe_name [] = []
safe_name (b ∷ name) = (if b == b'/' then b'-' else if b == b'\\' then b'-' else b) ∷ safe_name name

-- `finish_file`: at most one task for a stream.
unfoldable pub finish_file : ProgressStream → WebWorld → WebWorld × ProgressStream
finish_file s w = if s.finished then (w, s) else (
  record w { tasks = record { session_id = s.session_id; file_id = s.file_id } ∷ w.tasks },
  record s { finished = true },
)

unfoldable pub disposition : Text → Text
unfolding safe_name
disposition name =
    bytes "attachment; filename=\""
    ++ (retain (λ c. not (c == b'"')) (safe_name name) ++ bytes "\"")

-- What the source gives when it is polled.
pub data Polled : Type 0 where
  chunk : ℕ → Polled
  failed ends pending : Polled

unfoldable pub poll_next : Polled → ProgressStream → WebWorld → WebWorld × ProgressStream
unfolding finish_file set_events try_send
poll_next (chunk n) s w =
    let sent = saturating_add u64_max s.bytes_sent n in
    let s' = record s { bytes_sent = sent } in
    let w' =
      set_events
        (try_send (web_share_download_progress s.session_id s.file_id sent s.total_bytes)
          w.events_tx)
        w in
    if leb s.total_bytes sent then finish_file s' w' else (w', s')
poll_next ends s w = if not s.finished then finish_file s w else (w, s)
poll_next failed s w = (w, s)
poll_next pending s w = (w, s)

pub poll_all : List Polled → ProgressStream → WebWorld → WebWorld × ProgressStream
poll_all [] s w = (w, s)
poll_all (p ∷ ps) s w = poll_all ps (poll_next p s w).1 (poll_next p s w).0

-- The task of a finished download: it records the file, and reports the session when the number of
-- its files is the share's.
unfoldable pub record_download : FinishTask → WebWorld → WebWorld × Bool
unfolding set_share
record_download task w = elim w.share [
  | none ↦ (w, false)
  | some web ↦ elim (lookup task.session_id web.sessions) [
    | none ↦ (w, false)
    | some session ↦
        let downloaded = set_insert task.file_id session.downloaded_files in
        (
          set_share
              (some (record web {
                sessions =
                    insert task.session_id (record session { downloaded_files = downloaded })
                      web.sessions;
              }))
              w,
          length downloaded == length web.files,
        )
  ]
]

unfoldable pub run_task : FinishTask → WebWorld → WebWorld
unfolding record_download set_events enqueue
run_task task w =
    let (w', done) = record_download task w in
    if done
    then set_events (enqueue (web_share_session_done task.session_id) w'.events_tx) w'
    else w'
