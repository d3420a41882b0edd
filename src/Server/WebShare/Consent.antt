-- ===== src/Server/WebShare/Consent.antt =====
-- server/web_share.rs and server/server.rs: under every order of the share's operations, a session
-- is approved only by the consumer, or where the share accepts everybody.
pub mod Requests
pub mod Granted
use localsend_rs.Base.{
  ◌≡◌, ◌⊎◌, ◌∙◌, sym, inl, inr, Bool, true, false, Option, none, some, List, ◌==◌, lookup, insert,
  remove, lookup-insert, lookup-remove, arith, Bool-cases, Map, subst,
}
use localsend_rs.Protocol.{Text, SessionId, IpAddr, Instant}
use localsend_rs.Pin
use localsend_rs.Server.WebShare.{
  WebShareFile, WebShareSession, WebShareState, WebWorld, FinishTask, start_web_share,
  stop_web_share, respond_web_share, begin_prepare, announce, abandon_prepare, conclude_prepare,
}
use localsend_rs.Server.WebShare.Downloads.{ProgressStream, Polled, poll_next, run_task}

-- One stretch of anybody. A new session's identifier is one on which nobody has answered yet.
pub data Step : WebWorld → WebWorld → Type 0 where
  starts :
      (running : Bool) (files : List WebShareFile) (pin : Option Text) (auto : Bool) (w : WebWorld)
      → Step w (start_web_share running files pin auto w).0
  stops : (running : Bool) (w : WebWorld) → Step w (stop_web_share running w).0
  responds :
      (running : Bool) (id : SessionId) (accepted : Bool) (w : WebWorld)
      → Step w (respond_web_share running id accepted w).0
  begins :
      (known : Option SessionId) (pin : Option Text) (peer : IpAddr) (now : Instant)
      (fresh : SessionId) (w : WebWorld)
      → lookup fresh w.answers ≡ none
      → Step w (begin_prepare known pin peer now fresh w).0
  announces :
      (reached : Bool) (fresh : SessionId) (peer : IpAddr) (w : WebWorld)
      → Step w (announce reached fresh peer w).0
  abandons : (fresh : SessionId) (w : WebWorld) → Step w (abandon_prepare fresh w)
  concludes :
      (in_time : Bool) (fresh : SessionId) (w : WebWorld)
      → Step w (conclude_prepare in_time fresh w).0
  polls : (p : Polled) (s : ProgressStream) (w : WebWorld) → Step w (poll_next p s w).0
  finishes : (task : FinishTask) (w : WebWorld) → Step w (run_task task w)

pub data Reach (w : WebWorld) : WebWorld → Type 0 where
  here : Reach w w
  next : {u v : WebWorld} → Reach w u → Step u v → Reach w v

-- The consumer said yes, or the share asks nobody.
abbrev pub Consented : Bool → Option Bool → Type 0
Consented auto answer = (auto ≡ true) ⊎ (answer ≡ some true)

-- An approved session was consented to, and one that can be answered has no answer yet.
pub record IsSound (id : SessionId) (auto : Bool) (answer : Option Bool) (s : WebShareSession)
    : Type 0 where
  pub consented : s.approved ≡ true → Consented auto answer
  pub unanswered : (a : SessionId) → s.response_tx ≡ some a → (a ≡ id) × (answer ≡ none)

abbrev pub AreSound : WebShareState → Map Bool → Type 0
AreSound web answers =
    (id : SessionId) (s : WebShareSession)
    → lookup id web.sessions ≡ some s
    → IsSound id web.auto_accept (lookup id answers) s

abbrev pub IsConsenting : WebWorld → Type 0
IsConsenting w = (web : WebShareState) → w.share ≡ some web → AreSound web w.answers

-- The entry of one session is written, and the answers may be others, if all sessions stay sound.
AreSound-put :
    (web : WebShareState) (answers : Map Bool) (id : SessionId) (s : WebShareSession)
    → ((k : SessionId) (t : WebShareSession)
        → (id == k) ≡ false
        → lookup k web.sessions ≡ some t
        → IsSound k web.auto_accept (lookup k answers) t)
    → IsSound id web.auto_accept (lookup id answers) s
    → AreSound (record web { sessions = insert id s web.sessions }) answers
AreSound-put web answers id s others this k t e = elim (Bool-cases (id == k)) [
  | inl same ↦
      let k_id : id ≡ k = ground (arith, same) in
      let t_s : s ≡ t = ground (arith, lookup-insert id k s web.sessions) in
      subst (λ j. IsSound j web.auto_accept (lookup j answers) t) k_id
        (subst (λ v. IsSound id web.auto_accept (lookup id answers) v) t_s this)
  | inr other ↦ others k t other (ground (arith, lookup-insert id k s web.sessions))
]

pub AreSound-insert :
    (web : WebShareState) (answers : Map Bool) (id : SessionId) (s : WebShareSession)
    → AreSound web answers
    → IsSound id web.auto_accept (lookup id answers) s
    → AreSound (record web { sessions = insert id s web.sessions }) answers
AreSound-insert web answers id s all = AreSound-put web answers id s (λ k t _. all k t)

pub AreSound-remove :
    (web : WebShareState) (answers : Map Bool) (id : SessionId)
    → AreSound web answers
    → AreSound (record web { sessions = remove id web.sessions }) answers
AreSound-remove web answers id all k t e = all k t (ground (arith, lookup-remove id k web.sessions))

-- The share after an answer went to a session, whose sender was taken for it.
pub AreSound-answer :
    (web : WebShareState) (answers : Map Bool) (id address : SessionId) (accepted : Bool)
    (s : WebShareSession)
    → AreSound web answers
    → lookup id web.sessions ≡ some s
    → s.response_tx ≡ some address
    → AreSound
        (record web { sessions = insert id (record s { response_tx = none }) web.sessions })
        (insert address accepted answers)
AreSound-answer web answers id address accepted s all found sender =
    let here = all id s found in
    let free = here.unanswered address sender in
    AreSound-put web (insert address accepted answers) id (record s { response_tx = none })
      (λ k t other e.
        subst (λ answer. IsSound k web.auto_accept answer t)
          (ground (arith, lookup-insert address k accepted answers)) (all k t e))
      (record {
        consented =
            λ yes. elim (here.consented yes) [ inl asks ↦ inl asks | inr was ↦ inr (ground arith) ];
        unanswered = λ a e. ground arith;
      })

-- What the share and the answers of a world are decides.
pub IsConsenting-some :
    (web : WebShareState) (answers : Map Bool) (w : WebWorld)
    → w.share ≡ some web
    → w.answers ≡ answers
    → AreSound web answers
    → IsConsenting w
IsConsenting-some web answers w e a all web' e' =
    let same : web ≡ web' = cc in
    subst (λ v. AreSound v w.answers) same (subst (λ m. AreSound web m) (sym a) all)

pub IsConsenting-none : (w : WebWorld) → w.share ≡ none → IsConsenting w
IsConsenting-none w e web e' id s found = ground (arith, e, e')

pub IsConsenting-same :
    (u v : WebWorld) → v.share ≡ u.share → v.answers ≡ u.answers → IsConsenting u → IsConsenting v
IsConsenting-same u v e a all web e' = subst (λ m. AreSound web m) (sym a) (all web (sym e ∙ e'))
