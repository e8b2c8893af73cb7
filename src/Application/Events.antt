-- ===== src/Application/Events.antt =====
-- internal/service/application_service.go, FetchAnalysisEvents: the goroutine that feeds the events
-- of one analysis to a client. A state holds its place in the code, its two channels (their fill and
-- everything ever put on `events`) and the world; a move is one step of the goroutine, of the client,
-- of the tickers or of the rest of the service. The half second before the final event only passes
-- time. The tickers may fire at any time.
pub mod Order
pub mod Finish
use svc_web_analyzer.Prelude.{
  ◌≡◌, ℕ, suc, zero, String, Bool, true, false, Option, none, some, List, [], ◌∷◌, ◌++◌, ltb,
  if◌then◌else◌,
}
use svc_web_analyzer.Domain.{Analysis, EventType, Result, ok, err}
use svc_web_analyzer.World.{World}
use svc_web_analyzer.Application.{AppService, fetch_analysis, get_event_status, should_wait}

-- domain.AnalysisEvent; the payload of a heartbeat is the empty map
pub record AnalysisEvent : Type 0 where
  pub type : EventType
  pub payload : Option Analysis
  pub event_id : String

-- where the goroutine is: at the select, at one of its three sends, or returned with both
-- channels closed
pub data Place : Type 0 where
  selecting : Place
  sending_check : Place
  sending_heartbeat : Place
  sending_analysis : Analysis → Place
  returned : Place

pub record Stream : Type 0 where
  pub place : Place
  -- what `events` ever took, oldest first, and how many of them are still in its buffer
  pub sent : List AnalysisEvent
  pub unread : ℕ
  -- the one slot of checkAnalysisChan is taken
  pub check : Bool
  -- ctx.Done() is closed
  pub cancelled : Bool
  pub world : World

pub data Move : Type 0 where
  -- the goroutine takes a case of its select: done, the heartbeat, the tick, the check
  take_done take_heartbeat take_tick take_check : Move
  -- the goroutine's send goes through
  send : Move
  -- the client reads an event, or leaves
  read cancel : Move
  -- the rest of the service works on the world
  elsewhere : World → Move

abbrev events_capacity : ℕ
events_capacity = 10

-- sendAnalysisEvent, what it puts on the channel
abbrev pub analysis_event : Analysis → AnalysisEvent
analysis_event a = record { type = get_event_status a.status; payload = some a; event_id = a.id }

-- sendHeartEvent, what it puts on the channel
abbrev pub heart_event : AnalysisEvent
heart_event = record { type = EventType.heartbeat; payload = none; event_id = "" }

-- the goroutine begins with its send to checkAnalysisChan
abbrev pub begin : World → Stream
begin w = record {
  place = sending_check;
  sent = [];
  unread = 0;
  check = false;
  cancelled = false;
  world = w;
}

-- what follows the read of checkAnalysisChan
abbrev pub checked : Stream → Result Analysis × World → Stream
checked t (ok a, w) =
    if should_wait (get_event_status a.status)
    then record t { place = selecting; check = false; world = w }
    else record t { place = sending_analysis a; check = false; world = w }
checked t (err e, w) = record t { place = returned; check = false; world = w }

-- a send to `events`, which waits while the buffer is full
abbrev pub put_event : Stream → AnalysisEvent → Place → Option Stream
put_event t e after =
    if ltb t.unread events_capacity
    then some (record t { place = after; sent = t.sent ++ e ∷ []; unread = suc t.unread })
    else none

-- the send that the goroutine stands at; `none` where it has to wait
abbrev pub send_from : Stream → Place → Option Stream
send_from t sending_check =
    if t.check then none else some (record t { place = selecting; check = true })
send_from t sending_heartbeat = put_event t heart_event selecting
send_from t (sending_analysis a) = put_event t (analysis_event a) returned
send_from t _ = none

-- a case of the select, by the place the goroutine is at
abbrev pub at_select : Place → Option Stream → Option Stream
at_select selecting t = t
at_select _ t = none

abbrev pub read_from : Stream → ℕ → Option Stream
read_from t zero = none
read_from t (suc n) = some (record t { unread = n })

module _ (s : AppService) (id : String) where
  -- `none` where the move cannot be taken now
  unfoldable pub step : Stream → Move → Option Stream
  step t take_done =
      at_select t.place (if t.cancelled then some (record t { place = returned }) else none)
  step t take_heartbeat = at_select t.place (some (record t { place = sending_heartbeat }))
  step t take_tick = at_select t.place (some (record t { place = sending_check }))
  step t take_check =
      at_select t.place (if t.check then some (checked t (fetch_analysis s id t.world)) else none)
  step t send = send_from t t.place
  step t read = read_from t t.unread
  step t cancel = some (record t { cancelled = true })
  step t (elsewhere w) = some (record t { world = w })

  -- the states that follow a state, by any moves in any order
  pub data Reaches (t : Stream) : Stream → Type 0 where
    here : Reaches t t
    after : {u v : Stream} (m : Move) → Reaches t u → step u m ≡ some v → Reaches t v
