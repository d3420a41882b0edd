-- ===== src/Server/WebShare/Consent/Requests.antt =====
-- server/web_share.rs: consent through the stretches of a request for a share's files.
use localsend_rs.Base.{
  ◌≡◌, ◌⊎◌, refl, inl, inr, Bool, true, false, ◌&&◌, Option, none, some, [], if◌then◌else◌, lookup,
  insert, remove, contains, arith, Bool-cases, Option-cases, Map, is_some_and, subst,
}
use localsend_rs.Protocol.{Text, SessionId, IpAddr, Instant}
use localsend_rs.Pin
use localsend_rs.Pin.{PinVerdict}
use localsend_rs.Server.WebShare.{
  WebShareState, WebWorld, set_share, set_events, respond_web_share, send_answer, may_download,
  begin_prepare, open_session, approve, conclude_prepare, is_yes,
}
use localsend_rs.Server.WebShare.Consent.{
  AreSound, IsConsenting, AreSound-insert, AreSound-remove, AreSound-answer, IsConsenting-some,
  IsConsenting-same,
}

open-IsConsenting :
    (fresh : SessionId) (peer : IpAddr) (web : WebShareState) (w : WebWorld)
    → lookup fresh w.answers ≡ none
    → AreSound web w.answers
    → IsConsenting (open_session fresh peer web w).0
unfolding open_session set_share set_events
open-IsConsenting fresh peer web w unused all = elim (Bool-cases web.auto_accept) [
  | inl auto ↦
      IsConsenting-some
        (record web {
          sessions =
              insert fresh
                (record { ip = peer; approved = true; response_tx = none; downloaded_files = [] })
                web.sessions;
        })
        w.answers (open_session fresh peer web w).0 (ground arith) (ground arith)
        (AreSound-insert web w.answers fresh _ all
          (record { consented = λ _. inl auto; unanswered = λ a e. ground arith }))
  | inr asks ↦
      IsConsenting-some
        (record web {
          sessions =
              insert fresh
                (record {
                  ip = peer;
                  approved = false;
                  response_tx = some fresh;
                  downloaded_files = [];
                })
                web.sessions;
        })
        w.answers (open_session fresh peer web w).0 (ground arith) (ground arith)
        (AreSound-insert web w.answers fresh _ all
          (record { consented = λ e. ground arith; unanswered = λ a e. (ground arith, unused) }))
]

PinVerdict-cases :
    (v : PinVerdict) → ((b : Bool) × (v ≡ Pin.ok b)) ⊎ (v ≡ Pin.unauthorized) ⊎ (v ≡ Pin.locked_out)
PinVerdict-cases (Pin.ok b) = inl (b, refl)
PinVerdict-cases Pin.unauthorized = inr (inl refl)
PinVerdict-cases Pin.locked_out = inr (inr refl)

pub begin-IsConsenting :
    (known : Option SessionId) (pin : Option Text) (peer : IpAddr) (now : Instant)
    (fresh : SessionId) (w : WebWorld)
    → lookup fresh w.answers ≡ none
    → IsConsenting w
    → IsConsenting (begin_prepare known pin peer now fresh w).0
unfolding begin_prepare set_share
begin-IsConsenting known pin peer now fresh w unused all =
    let after = (begin_prepare known pin peer now fresh w).0 in
    elim (Option-cases w.share) [
      | inl e ↦ IsConsenting-same w after (ground arith) (ground arith) all
      | inr (web, e) ↦
          elim (Option-cases
            (if is_some_and known (λ id. may_download id peer web) then known else none)) [
              | inr (id, approved) ↦ IsConsenting-same w after (ground arith) (ground arith) all
              | inl unknown ↦
                  let gate = (Pin.check pin peer now web.pin_gate).0 in
                  let gated = record web { pin_gate = gate } in
                  elim (PinVerdict-cases (Pin.check pin peer now web.pin_gate).1) [
                    | inl (b, passes) ↦
                        let same : (open_session fresh peer gated w).0 ≡ after = ground arith in
                        subst (λ v. IsConsenting v) same
                          (open-IsConsenting fresh peer gated w unused (all web e))
                    | inr (inl refused) ↦
                        IsConsenting-some gated w.answers after (ground arith) (ground arith)
                          (all web e)
                    | inr (inr refused) ↦
                        IsConsenting-some gated w.answers after (ground arith) (ground arith)
                          (all web e)
                  ]
            ]
    ]

pub respond-IsConsenting :
    (running : Bool) (id : SessionId) (accepted : Bool) (w : WebWorld)
    → IsConsenting w
    → IsConsenting (respond_web_share running id accepted w).0
unfolding respond_web_share send_answer set_share
respond-IsConsenting false id accepted w all = all
respond-IsConsenting true id accepted w all =
    let after = (respond_web_share true id accepted w).0 in
    elim (Option-cases w.share) [
      | inl e ↦ IsConsenting-same w after (ground arith) (ground arith) all
      | inr (web, e) ↦ elim (Option-cases (lookup id web.sessions)) [
        | inl e' ↦ IsConsenting-same w after (ground arith) (ground arith) all
        | inr (s, found) ↦ elim (Option-cases s.response_tx) [
          | inl e' ↦ IsConsenting-same w after (ground arith) (ground arith) all
          | inr (address, sender) ↦
              let taken = record s { response_tx = none } in
              let web' = record web { sessions = insert id taken web.sessions } in
              elim (Bool-cases (contains w.gone address)) [
                | inl lost ↦ IsConsenting-some web' w.answers after (ground arith) (ground arith) (
                    AreSound-insert web w.answers id taken (all web e) (record {
                      consented = (all web e id s found).consented;
                      unanswered = λ a e''. ground arith;
                    }))
                | inr waiting ↦
                    IsConsenting-some web' (insert address accepted w.answers) after (ground arith)
                      (ground arith)
                      (AreSound-answer web w.answers id address accepted s (all web e) found sender)
              ]
        ]
      ]
    ]

is_yes-some : (answer : Option Bool) → is_yes answer ≡ true → answer ≡ some true
is_yes-some none e = ground arith
is_yes-some (some b) e = cc

approve-AreSound :
    (fresh : SessionId) (web : WebShareState) (answers : Map Bool)
    → lookup fresh answers ≡ some true
    → AreSound web answers
    → AreSound (approve fresh web) answers
unfolding approve
approve-AreSound fresh web answers said_yes all = elim (Option-cases (lookup fresh web.sessions)) [
  | inl e ↦
      let same : web ≡ approve fresh web = ground arith in subst (λ v. AreSound v answers) same all
  | inr (s, found) ↦
      let approved = record s { approved = true; response_tx = none } in
      let same : record web { sessions = insert fresh approved web.sessions } ≡ approve fresh web =
        ground arith in
      subst (λ v. AreSound v answers) same
        (AreSound-insert web answers fresh approved all
          (record { consented = λ _. inr said_yes; unanswered = λ a e. ground arith }))
]

pub conclude-IsConsenting :
    (in_time : Bool) (fresh : SessionId) (w : WebWorld)
    → IsConsenting w
    → IsConsenting (conclude_prepare in_time fresh w).0
unfolding conclude_prepare set_share
conclude-IsConsenting in_time fresh w all =
    let after = (conclude_prepare in_time fresh w).0 in
    elim (Option-cases w.share) [
      | inl e ↦ IsConsenting-same w after (ground arith) (ground arith) all
      | inr (web, e) ↦ elim (Bool-cases (in_time && is_yes (lookup fresh w.answers))) [
        | inr refused ↦
            IsConsenting-some (record web { sessions = remove fresh web.sessions }) w.answers after
              (ground arith) (ground arith) (AreSound-remove web w.answers fresh (all web e))
        | inl accepted ↦
            IsConsenting-some (approve fresh web) w.answers after (ground arith) (ground arith) (
              approve-AreSound fresh web w.answers
                (is_yes-some (lookup fresh w.answers) (ground arith)) (all web e))
      ]
    ]
