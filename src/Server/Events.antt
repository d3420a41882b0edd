-- ===== src/Server/Events.antt =====
-- server/events.rs: the events for the consumer, the channel that carries them, and the consumer's
-- answers.
use localsend_rs.Base.{ℕ, Bool, ◌&&◌, Option, List, [], ◌∷◌, ◌++◌, ltb, if◌then◌else◌, Map, length}
use localsend_rs.Protocol.{Text, FileId, SessionId, IpAddr, DeviceInfo, FileMetadata}

pub data ServerEvent : Type 0 where
  peer_registered : DeviceInfo → ServerEvent
  transfer_request : DeviceInfo → Map FileMetadata → ServerEvent
  -- session_id, text, sender_alias
  text_received : SessionId → Text → Text → ServerEvent
  web_share_request : SessionId → IpAddr → ServerEvent
  -- session_id, file_id, bytes_sent, total_bytes
  web_share_download_progress : SessionId → FileId → ℕ → ℕ → ServerEvent
  web_share_session_done : SessionId → ServerEvent
  -- session_id, file_id, file_name, sender_alias, bytes_received, total_bytes, file_count
  file_receive_progress : SessionId → FileId → Text → Text → ℕ → ℕ → ℕ → ServerEvent
  -- session_id, file_id, file_name, path, size, sender_alias, message_text
  file_received : SessionId → FileId → Text → List Text → ℕ → Text → Option Text → ServerEvent
  session_done : SessionId → ServerEvent

-- The sending half of a bounded channel: what the consumer has not taken yet, and whether there is
-- a consumer.
pub record Sender : Type 0 where
  pub queue : List ServerEvent
  pub is_open : Bool

-- `mpsc::channel(64)`.
abbrev pub event_capacity : ℕ
event_capacity = 64

-- `let _ = events_tx.try_send(event)`: a full or closed channel drops the event.
unfoldable pub try_send : ServerEvent → Sender → Sender
try_send event tx =
    if tx.is_open && ltb (length tx.queue) event_capacity
    then record tx { queue = tx.queue ++ event ∷ [] }
    else tx

-- An event that the channel takes once it has room.
unfoldable pub enqueue : ServerEvent → Sender → Sender
enqueue event tx = if tx.is_open then record tx { queue = tx.queue ++ event ∷ [] } else tx

pub data TransferDecision : Type 0 where
  accept : TransferDecision
  accept_files : List FileId → TransferDecision
  decline : TransferDecision
  refuse : Text → TransferDecision
