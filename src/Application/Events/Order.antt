-- ===== src/Application/Events/Order.antt =====
-- internal/service/application_service.go, FetchAnalysisEvents: which events a client is sent, in
-- which order, and where the goroutine is stuck.
use svc_web_analyzer.Prelude.{
  Bool-cases, All-append, length-append, sym, subst, ◌∙◌, ◌≡◌, ◌⊎◌, inl, inr, refl, ℕ, suc, zero,
  ◌≤◌, ◌<◌, String, true, false, Option, some, List, [], ◌∷◌, ◌++◌, arith, All, length,
}
use svc_web_analyzer.Domain.{Analysis, Result, ok, err}
use svc_web_analyzer.World.{World}
use svc_web_analyzer.Application.{AppService, fetch_analysis, get_event_status, is_final}
use svc_web_analyzer.Application.Events.{
  read_from, at_select, put_event, send_from, AnalysisEvent, Place, selecting, sending_check,
  sending_heartbeat, sending_analysis, returned, Stream, Move, take_done, take_heartbeat, take_tick,
  take_check, send, read, cancel, elsewhere, analysis_event, heart_event, step, begin, Reaches,
  here, after, checked,
}

abbrev pub IsHeartbeat : AnalysisEvent → Type 0
IsHeartbeat e = e ≡ heart_event

-- the analysis has ended, and its event says so
abbrev pub IsOver : Analysis → Type 0
IsOver a = is_final (get_event_status a.status) ≡ true

-- what a client may have been sent by the time the goroutine is at a place
abbrev pub IsSentAt : Place → List AnalysisEvent → Type 0
IsSentAt (sending_analysis a) es = All IsHeartbeat es × IsOver a
IsSentAt returned es =
    All IsHeartbeat es
    ⊎ ((bs : List AnalysisEvent) × (a : Analysis) × (es ≡ bs ++ analysis_event a ∷ [])
        × All IsHeartbeat bs
        × IsOver a)
IsSentAt _ es = All IsHeartbeat es

pub record IsOrdered (t : Stream) : Type 0 where
  pub in_order : IsSentAt t.place t.sent
  pub fits : t.unread ≤ 10
  pub counted : t.unread ≤ length t.sent

at_select_ok :
    (p : Place) (r : Option Stream) {u : Stream}
    → at_select p r ≡ some u
    → (p ≡ selecting) × (r ≡ some u)
at_select_ok selecting r h = (refl, h)
at_select_ok sending_check r h = cc
at_select_ok sending_heartbeat r h = cc
at_select_ok (sending_analysis a) r h = cc
at_select_ok returned r h = cc

put_event_ok :
    (t : Stream) (e : AnalysisEvent) (p : Place) {u : Stream}
    → put_event t e p ≡ some u
    → (t.unread < 10) × (u ≡ record t { place = p; sent = t.sent ++ e ∷ []; unread = suc t.unread })
put_event_ok t e p {u} h = ground arith

put_event-IsOrdered :
    (t : Stream) (e : AnalysisEvent) (p : Place) {u : Stream}
    → IsOrdered t
    → IsSentAt p (t.sent ++ e ∷ [])
    → put_event t e p ≡ some u
    → IsOrdered u
put_event-IsOrdered t e p {u} i sent h =
    let (room, same) = put_event_ok t e p h in
    subst IsOrdered (sym same) (record {
      in_order = sent;
      fits = omega (arith, room);
      counted = omega (arith, i.counted, length-append t.sent (e ∷ []));
    })

send_from-IsOrdered :
    (t : Stream) (p : Place) {u : Stream}
    → IsOrdered t
    → IsSentAt p t.sent
    → send_from t p ≡ some u
    → IsOrdered u
send_from-IsOrdered t selecting i sent h = absurd (ground (arith, h))
send_from-IsOrdered t returned i sent h = absurd (ground (arith, h))
send_from-IsOrdered t sending_check {u} i sent h =
    let same : u ≡ record t { place = selecting; check = true } = ground (arith, h) in
    subst IsOrdered (sym same) (record { in_order = sent; fits = i.fits; counted = i.counted })
send_from-IsOrdered t sending_heartbeat i sent h =
    put_event-IsOrdered t heart_event selecting i (All-append IsHeartbeat t.sent _ sent (refl, tt))
      h
send_from-IsOrdered t (sending_analysis a) i (beats, over) h =
    put_event-IsOrdered t (analysis_event a) returned i (inr (t.sent, a, refl, beats, over)) h

checked-IsOrdered :
    (t : Stream) (r : Result Analysis × World)
    → IsOrdered t
    → All IsHeartbeat t.sent
    → IsOrdered (checked t r)
checked-IsOrdered t (err e, w) i beats = record {
  in_order = inl beats;
  fits = i.fits;
  counted = i.counted;
}
checked-IsOrdered t (ok a, w) i beats = elim (Bool-cases (is_final (get_event_status a.status))) [
  | inl over ↦
      let same : checked t (ok a, w)
          ≡ record t { place = sending_analysis a; check = false; world = w } =
        ground (arith, over) in
      subst IsOrdered (sym same)
        (record { in_order = (beats, over); fits = i.fits; counted = i.counted })
  | inr going ↦
      let same : checked t (ok a, w) ≡ record t { place = selecting; check = false; world = w } =
        ground (arith, going) in
      subst IsOrdered (sym same) (record { in_order = beats; fits = i.fits; counted = i.counted })
]

read_from-IsOrdered :
    (t : Stream) (n : ℕ) {u : Stream}
    → IsOrdered t
    → (n ≤ 10) × (n ≤ length t.sent)
    → read_from t n ≡ some u
    → IsOrdered u
read_from-IsOrdered t zero i bounds h = absurd (ground (arith, h))
read_from-IsOrdered t (suc n) {u} i (fits, counted) h =
    let same : u ≡ record t { unread = n } = ground (arith, h) in
    subst IsOrdered (sym same) (record {
      in_order = i.in_order;
      fits = omega (arith, fits);
      counted = omega (arith, counted);
    })

read_from_keeps :
    (t : Stream) (n : ℕ) {u : Stream}
    → (t.place ≡ sending_check) × (t.check ≡ true)
    → read_from t n ≡ some u
    → (u.place ≡ sending_check) × (u.check ≡ true) × (u.sent ≡ t.sent)
read_from_keeps t zero same h = absurd (ground (arith, h))
read_from_keeps t (suc n) same h = ground (arith, h, same)

selecting_sent : (t : Stream) → IsOrdered t → t.place ≡ selecting → All IsHeartbeat t.sent
selecting_sent t i at = subst (λ p. IsSentAt p t.sent) at i.in_order

module _ (s : AppService) (id : String) where
  step-IsOrdered :
      (t : Stream) (m : Move) {u : Stream} → IsOrdered t → step s id t m ≡ some u → IsOrdered u
  unfolding step
  step-IsOrdered t take_done {u} i h =
      let (at, ran) = at_select_ok t.place _ h in
      let same : u ≡ record t { place = returned } = ground (arith, ran) in
      subst IsOrdered (sym same)
        (record { in_order = inl (selecting_sent t i at); fits = i.fits; counted = i.counted })
  step-IsOrdered t take_heartbeat {u} i h =
      let (at, ran) = at_select_ok t.place _ h in
      let same : u ≡ record t { place = sending_heartbeat } = ground (arith, ran) in
      subst IsOrdered (sym same)
        (record { in_order = selecting_sent t i at; fits = i.fits; counted = i.counted })
  step-IsOrdered t take_tick {u} i h =
      let (at, ran) = at_select_ok t.place _ h in
      let same : u ≡ record t { place = sending_check } = ground (arith, ran) in
      subst IsOrdered (sym same)
        (record { in_order = selecting_sent t i at; fits = i.fits; counted = i.counted })
  step-IsOrdered t take_check {u} i h =
      let (at, ran) = at_select_ok t.place _ h in
      let same : u ≡ checked t (fetch_analysis s id t.world) = ground (arith, ran) in
      subst IsOrdered (sym same)
        (checked-IsOrdered t (fetch_analysis s id t.world) i (selecting_sent t i at))
  step-IsOrdered t send i h = send_from-IsOrdered t t.place i i.in_order h
  step-IsOrdered t read i h = read_from-IsOrdered t t.unread i (i.fits, i.counted) h
  step-IsOrdered t cancel {u} i h =
      let same : u ≡ record t { cancelled = true } = ground (arith, h) in
      subst IsOrdered (sym same)
        (record { in_order = i.in_order; fits = i.fits; counted = i.counted })
  step-IsOrdered t (elsewhere w) {u} i h =
      let same : u ≡ record t { world = w } = ground (arith, h) in
      subst IsOrdered (sym same)
        (record { in_order = i.in_order; fits = i.fits; counted = i.counted })

  -- Whatever the tickers, the client and the rest of the service do: all the events that a stream
  -- puts on its channel are heartbeats, but for the last one of a stream that has returned, which
  -- may be the event of an analysis that has completed or failed; and of at most ten events that
  -- wait, each was put there.
  pub stream-IsOrdered : (w : World) {t : Stream} → Reaches s id (begin w) t → IsOrdered t
  stream-IsOrdered w here = record { in_order = tt; fits = omega arith; counted = omega arith }
  stream-IsOrdered w (after {u = t} m r h) = step-IsOrdered t m (stream-IsOrdered w r) h

  stuck_step :
      (t : Stream) (m : Move) {u : Stream}
      → t.place ≡ sending_check
      → t.check ≡ true
      → step s id t m ≡ some u
      → (u.place ≡ sending_check) × (u.check ≡ true) × (u.sent ≡ t.sent)
  unfolding step
  stuck_step t take_done at full h = absurd (ground (arith, at_select_ok t.place _ h, at))
  stuck_step t take_heartbeat at full h = absurd (ground (arith, at_select_ok t.place _ h, at))
  stuck_step t take_tick at full h = absurd (ground (arith, at_select_ok t.place _ h, at))
  stuck_step t take_check at full h = absurd (ground (arith, at_select_ok t.place _ h, at))
  stuck_step t send {u} at full h =
      let sends : send_from t sending_check ≡ some u = subst (λ p. send_from t p ≡ some u) at h in
      absurd (ground (arith, sends, full))
  stuck_step t read {u} at full h = read_from_keeps t t.unread (at, full) h
  stuck_step t cancel at full h = ground (arith, h, at, full)
  stuck_step t (elsewhere w) at full h = ground (arith, h, at, full)

  -- A goroutine that stands at the send to checkAnalysisChan while that channel is full stands there
  -- in every state that follows, and the client is sent nothing more: neither a tick, nor the client
  -- that leaves, nor the end of the analysis gets it on.
  pub stuck_stays :
      (t : Stream) {u : Stream}
      → t.place ≡ sending_check
      → t.check ≡ true
      → Reaches s id t u
      → (u.place ≡ sending_check) × (u.check ≡ true) × (u.sent ≡ t.sent)
  stuck_stays t at full here = (at, full, refl)
  stuck_stays t at full (after {u = u} m r h) =
      let (at₁, full₁, sent₁) = stuck_stays t at full r in
      let (at₂, full₂, sent₂) = stuck_step u m at₁ full₁ h in (at₂, full₂, sent₂ ∙ sent₁)
