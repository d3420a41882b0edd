-- ===== src/Tests/Samples.antt =====
-- A receiver, two offered files, and the requests that the instances are about.
use localsend_rs.Base.{ℕ, ◌*◌, true, false, none, some, [], ◌∷◌, Map}
use localsend_rs.Error.{bytes}
use localsend_rs.Protocol.{
  Text, FileId, Token, DeviceInfo, http, FileMetadata, PrepareUploadRequest, from_secs,
}
use localsend_rs.Server.Events.{accept_files, refuse}
use localsend_rs.Server.State.{World}
use localsend_rs.Server.Prepare.{Fresh, PrepareCall, answered, install_session}

abbrev pub alice : DeviceInfo
alice = record {
  alias = bytes "alice";
  version = bytes "2.0";
  device_model = none;
  device_type = none;
  fingerprint = bytes "f";
  port = 53317;
  protocol = http;
  download = false;
  ip = none;
}

abbrev pub file_of : FileId → Text → ℕ → FileMetadata
file_of id name size = record {
  id = id;
  file_name = name;
  size = size;
  file_type = bytes "text/plain";
  sha256 = some name;
  preview = none;
  metadata = none;
}

abbrev pub two_files : Map FileMetadata
two_files = (1, file_of 1 (bytes "abc") 3) ∷ (2, file_of 2 (bytes "hello") 5) ∷ []

abbrev pub offer : PrepareUploadRequest
offer = record { info = alice; files = two_files }

abbrev pub idle : World
idle = record {
  state = record {
    device = alice;
    current_session = none;
    current_session_from = none;
    awaiting_consent = none;
    save_dir = bytes "downloads" ∷ [];
    events_tx = record { queue = []; is_open = true };
    auto_accept = false;
    accept_timeout = from_secs 60;
    session_timeout = from_secs 300;
    receive_rate_limit_bytes_per_second = none;
    pin_gate = record { pin = none; failures = []; wrong_values = 0 };
    crosscopy_authorized_upload_gate = true;
    crosscopy_authorized_session = none;
    crosscopy_authorized_active_upload = none;
    crosscopy_authorized_stopping = false;
  };
  lifecycles = [];
  counters = [];
  withdrawn = [];
  cancelled_owners = [];
  cancelled_tokens = [];
  sink_calls = [];
}

abbrev pub draw : FileId → Token
draw f = f * 10

abbrev pub fresh_at : ℕ → Fresh
fresh_at n = record { session_id = n; address = n; draw = draw }

-- A session of both files, as the consumer's acceptance leaves it.
unfoldable pub receiving_world : World
unfolding install_session
receiving_world = (install_session (fresh_at 100) 0 (bytes "alice") two_files idle).0

-- The consumer takes the first file only.
abbrev pub takes_first : PrepareCall
takes_first = record {
  placeholder = fresh_at 99;
  real = fresh_at 100;
  pin = none;
  peer = 7;
  arrived = 0;
  decided = 5;
  sent = true;
  answer = answered (accept_files (1 ∷ []));
  meanwhile = λ w. w;
  before_settling = λ w. w;
}

abbrev pub declines : PrepareCall
declines = record takes_first { answer = answered (refuse (bytes "busy")) }
