-- ===== src/Discovery/Multicast/Device/Rounds.antt =====
-- discovery/multicast.rs: what starting and announcing come to.
use localsend_rs.Base.{ℕ, ◌≡◌, ◌↔◌, arith, Bool, not, true, false, Option, List, [], ◌∷◌, any}
use localsend_rs.Protocol.{Text, is_empty}
use localsend_rs.Error.{Result, ok, err}
use localsend_rs.Discovery.Multicast.Announcement.{
  empty_summary, send_announcement_round, needs_recovery_retry, is_sent, round-counts,
}
use localsend_rs.Discovery.Multicast.Announcement
use localsend_rs.Discovery.Multicast.Interfaces.{Ipv4}
use localsend_rs.Discovery.Multicast.Device.{
  MulticastDiscovery, panics, start, stop, retry_rounds, announce_presence,
}

abbrev pub opens_socket : Result (List Ipv4) → Bool
opens_socket (err e) = false
opens_socket (ok sockets) = not (is_empty sockets)

-- A start panics exactly where the discovery is not running, a socket was opened, and the channel is
-- gone. So every start after a stop panics that opens a socket.
pub start_panics_iff :
    (opened : Result (List Ipv4)) (d : MulticastDiscovery)
    → (((start opened d).1 ≡ panics)
        ↔ ((d.running ≡ false) × ((d.tx ≡ false) × (opens_socket opened ≡ true))))
      × (opens_socket opened ≡ true → (start opened (stop d)).1 ≡ panics)
unfolding start stop
start_panics_iff (err e) d = ground arith
start_panics_iff (ok sockets) d = ground arith

-- An announcement over sockets that are open succeeds exactly if a socket would take it in one of
-- its five rounds.
announce_presence_iff :
    (sends : ℕ → List (Option Text)) (d : MulticastDiscovery)
    → is_empty d.sockets ≡ false
    → (announce_presence sends d ≡ ok tt)
      ↔ (any (λ n. any is_sent (sends n)) (0 ∷ 1 ∷ 2 ∷ 3 ∷ 4 ∷ []) ≡ true)
unfolding announce_presence retry_rounds Announcement.finish needs_recovery_retry
announce_presence_iff sends d started =
    let s0 = send_announcement_round (sends 0) empty_summary in
    let s1 = send_announcement_round (sends 1) s0 in
    let s2 = send_announcement_round (sends 2) s1 in
    let s3 = send_announcement_round (sends 3) s2 in
    ground (
      arith,
      started,
      (round-counts (sends 0) empty_summary).0,
      (round-counts (sends 1) s0).0,
      (round-counts (sends 2) s1).0,
      (round-counts (sends 3) s2).0,
      (round-counts (sends 4) s3).0,
    )
