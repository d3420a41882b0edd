-- ===== src/Tests/WebShare.antt =====
-- server/web_share.rs: a share of one file, which the consumer grants to one peer.
use localsend_rs.Base.{◌≡◌, refl, true, false, none, [], ◌∷◌, arith, lookup, insert}
use localsend_rs.Error.{bytes}
use localsend_rs.Pin
use localsend_rs.Server.WebShare.{
  WebShareFile, WebWorld, inline_file, start_web_share, begin_prepare, announce, respond_web_share,
  conclude_prepare,
}
use localsend_rs.Server.WebShare.Downloads.{
  ProgressStream, chunk, ends, pending, missing, handle_download, poll_all,
}
use localsend_rs.Server.WebShare.Downloads.Streams.{given, has_end, task_of, poll_all-tasks}
use localsend_rs.Server.WebShare.Consent.{
  starts, begins, announces, responds, concludes, Reach, here, next,
}
use localsend_rs.Server.WebShare.Consent.Granted.{IsGranted, handle_download-IsGranted}
use localsend_rs.Tests.Samples.{alice}

abbrev idle_host : WebWorld
idle_host = record {
  host = record {
    device = alice;
    events_tx = record { queue = []; is_open = true };
    accept_timeout = 60;
    share = none;
  };
  answers = [];
  gone = [];
  tasks = [];
  announced = false;
  own = false;
}

abbrev note : WebShareFile
note = inline_file (λ name. bytes "text/plain") 1 (bytes "note.txt") (bytes "hello")

abbrev shared : WebWorld
shared = (start_web_share true (note ∷ []) none false idle_host).0

abbrev asked : WebWorld
asked = (begin_prepare none none 7 3 50 shared).0

abbrev told : WebWorld
told = (announce true 50 7 asked).0

abbrev accepted : WebWorld
accepted = (respond_web_share true 50 true told).0

abbrev granted : WebWorld
granted = (conclude_prepare true 50 accepted).0

abbrev stream : ProgressStream
stream = record { session_id = 50; file_id = 1; bytes_sent = 0; total_bytes = 5; finished = false }

granted-Reach : Reach idle_host granted
unfolding lookup start_web_share
granted-Reach =
    next
      (next
        (next
          (next (next here (starts true (note ∷ []) none false idle_host))
            (begins none none 7 3 50 shared refl))
          (announces true 50 7 asked))
        (responds true 50 true told))
      (concludes true 50 accepted)

handle_download-IsGranted_example : IsGranted 50 1 7 granted
unfolding handle_download conclude_prepare respond_web_share announce begin_prepare start_web_share
    Pin.check lookup insert inline_file
handle_download-IsGranted_example =
    handle_download-IsGranted idle_host granted 50 1 7 missing note stream refl granted-Reach refl

poll_all-tasks_example :
    (poll_all (chunk 2 ∷ pending ∷ chunk 3 ∷ ends ∷ []) stream granted).0.tasks
    ≡ task_of stream ∷ granted.tasks
unfolding given has_end
poll_all-tasks_example =
    poll_all-tasks (chunk 2 ∷ pending ∷ chunk 3 ∷ ends ∷ []) stream granted refl (omega arith)
      (omega arith)
