-- ===== src/Discovery/Multicast/Announcement.antt =====
-- discovery/multicast/announcement.rs: what a round of announcements comes to. A send gave nothing
-- or an error, as its text.
use localsend_rs.Base.{
  ℕ, ◌+◌, ◌≡◌, ◌↔◌, arith, Bool, true, false, not, Option, none, some, List, [], ◌∷◌, ◌++◌, ◌==◌,
  ltb, if◌then◌else◌, any,
}
use localsend_rs.Protocol.{Text}
use localsend_rs.Error.{Result, ok, err, network, bytes}

pub record AnnouncementSendSummary : Type 0 where
  pub successful_sends : ℕ
  pub failed_sends : ℕ
  pub first_failure : Option Text

abbrev pub empty_summary : AnnouncementSendSummary
empty_summary = record { successful_sends = 0; failed_sends = 0; first_failure = none }

abbrev pub or_first : Option Text → Text → Option Text
or_first none error = some error
or_first (some first) error = some first

unfoldable pub record_send : Option Text → AnnouncementSendSummary → AnnouncementSendSummary
record_send none s = record s { successful_sends = s.successful_sends + 1 }
record_send (some error) s = record s {
  failed_sends = s.failed_sends + 1;
  first_failure = or_first s.first_failure error;
}

-- `send_announcement_round`, over the results of the sockets in their order.
unfoldable pub send_announcement_round :
    List (Option Text) → AnnouncementSendSummary → AnnouncementSendSummary
unfolding record_send
send_announcement_round [] s = s
send_announcement_round (result ∷ results) s =
    send_announcement_round results (record_send result s)

abbrev pub unwrap_or : Option Text → Text → Text
unwrap_or none t = t
unwrap_or (some s) t = s

unfoldable pub finish : AnnouncementSendSummary → Result (Unit {0})
finish s =
    if ltb 0 s.successful_sends
    then ok tt
    else err (
        network (
          bytes "Failed to announce presence on every interface: "
          ++ unwrap_or s.first_failure (bytes "no interface accepted the datagram")))

unfoldable pub needs_recovery_retry : AnnouncementSendSummary → Bool
needs_recovery_retry s = s.successful_sends == 0

-- The first error of a round.
pub first_error : List (Option Text) → Option Text
first_error [] = none
first_error (none ∷ results) = first_error results
first_error (some error ∷ results) = some error

abbrev pub is_sent : Option Text → Bool
is_sent none = true
is_sent (some _) = false

abbrev pub or_else : Option Text → Option Text → Option Text
or_else none other = other
or_else (some e) other = some e

pub round-counts :
    (results : List (Option Text)) (s : AnnouncementSendSummary)
    → (ltb 0 (send_announcement_round results s).successful_sends
        ≡ (if ltb 0 s.successful_sends then true else any is_sent results))
      × ((send_announcement_round results s).first_failure
          ≡ or_else s.first_failure (first_error results))
unfolding send_announcement_round first_error
round-counts [] s = ground arith
round-counts (none ∷ results) s = ground (arith, round-counts results (record_send none s))
round-counts (some error ∷ results) s =
    ground (arith, round-counts results (record_send (some error) s))

-- A round over any sockets succeeds exactly if one of them took the announcement. Otherwise its error
-- names the first socket's failure, if there was one, and it is the round that asks for a retry.
pub round-finish :
    (results : List (Option Text))
    → (let s = send_announcement_round results empty_summary in
        ((finish s ≡ ok tt) ↔ (any is_sent results ≡ true))
        × ((needs_recovery_retry s ≡ not (any is_sent results))
            × (s.first_failure ≡ first_error results)))
unfolding finish needs_recovery_retry
round-finish results = let counts = round-counts results empty_summary in ground (arith, counts)
