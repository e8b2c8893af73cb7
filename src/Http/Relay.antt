-- ===== src/Http/Relay.antt =====
-- internal/adapters/http/request_handler.go, GetAnalysisEvents: the events of a stream as they are
-- read from its channel, each with whether the request's context was done by then, and what a client
-- gets of them.
use svc_web_analyzer.Prelude.{
  ◌≡◌, refl, sym, subst, ap, ◌∙◌, ℕ, ◌+◌, String, ◌<>◌, Bool, true, false, Option, none, some, List,
  [], ◌∷◌, ◌++◌, map, arith, if◌then◌else◌,
}
use mathlib.Core.List.{append-nil, append_assoc}
use svc_web_analyzer.Domain.{Analysis, EventType}
use svc_web_analyzer.World.{World}
use svc_web_analyzer.Application.Events.{AnalysisEvent, Stream, Reaches, begin, returned}
use svc_web_analyzer.Application.Events.Order.{IsSentAt, stream-IsOrdered}
use svc_web_analyzer.Http.{
  Reply, Writer, finish, set_header, write_header, write_only, flush, flushed, send_chunk, run,
  fresh, status,
}
use svc_web_analyzer.Http.Answers.{status_stays}
use svc_web_analyzer.Http.Handler.{RequestHandler, write_error_response}

-- domain.Event
abbrev event_text : EventType → String
event_text EventType.started = "analysis_started"
event_text EventType.progress = "analysis_progress"
event_text EventType.completed = "analysis_completed"
event_text EventType.failed = "analysis_failed"
event_text EventType.heartbeat = "heartbeat"

-- the text of a payload, "" where json.Marshal fails
abbrev payload_text : (Option Analysis → Option String) → Option Analysis → String
payload_text marshal p = elim (marshal p) [ none ↦ "" | some json ↦ json ]

-- a chunk after the status, on a connection that is up
send_chunk_lem :
    (s : String) (w : Writer) {c : ℕ} {hs : List (String × String)}
    → w.lost ≡ false
    → w.sent ≡ some (c, hs)
    → send_chunk s w ≡ record w { chunks = w.chunks ++ s ∷ [] }
send_chunk_lem s w up sent = ground (arith, up, sent)

flushed_lem :
    (w : Writer) {c : ℕ} {hs : List (String × String)}
    → w.sent ≡ some (c, hs)
    → flushed w ≡ record w { flushes = w.flushes + 1 }
flushed_lem w sent = ground (arith, sent)

-- an event that is read before the client leaves
abbrev pub unseen : AnalysisEvent → AnalysisEvent × Bool
unseen e = (e, false)

module _ (marshal : Option Analysis → Option String) where
  abbrev event_line : AnalysisEvent → String
  event_line e = "event: " <> event_text e.type <> "\n"

  abbrev data_line : AnalysisEvent → String
  data_line e = "data: " <> payload_text marshal e.payload <> "\n\n"

  -- the loop over the channel, until it is closed or the client has left
  abbrev relay : List (AnalysisEvent × Bool) → Reply
  relay [] = finish
  relay ((e, true) ∷ es) = finish
  relay ((e, false) ∷ es) = write_only (event_line e) (write_only (data_line e) (flush (relay es)))

  -- the fixed headers of a stream of events, in the order in which they are set
  abbrev sse_headers : Reply → Reply
  sse_headers next = set_header "Content-Type" "text/event-stream;charset=UTF-8" (
      set_header "Cache-Control" "no-cache" (
        set_header "Connection" "keep-alive" (
          set_header "Access-Control-Allow-Origin" "*" (
            set_header "Access-Control-Allow-Headers"
              "Content-Type, Authorization, X-PASETO-Token, API-Version" next))))

  -- the service always answers with a channel
  unfoldable pub get_analysis_events : RequestHandler → Bool → List (AnalysisEvent × Bool) → Reply
  get_analysis_events h can_flush es =
      if can_flush
      then sse_headers (write_header 200 (relay es))
      else (write_error_response h 500 "internal_server_error" "Streaming not supported"
          "response writer does not support flushing")

  -- the text of a stream of events
  abbrev pub frames : List AnalysisEvent → List String
  frames [] = []
  frames (e ∷ es) = event_line e ∷ data_line e ∷ frames es

  run-relay :
      (es : List AnalysisEvent) (w : Writer) {c : ℕ} {hs : List (String × String)}
      → w.lost ≡ false
      → w.sent ≡ some (c, hs)
      → (run (relay (map unseen es)) w).chunks ≡ w.chunks ++ frames es
  run-relay [] w up sent = sym (append-nil w.chunks)
  run-relay (e ∷ es) w up sent =
      let one : Writer = record w { chunks = w.chunks ++ event_line e ∷ [] } in
      let two : Writer = record one { chunks = one.chunks ++ data_line e ∷ [] } in
      let same : send_chunk (data_line e) (send_chunk (event_line e) w) ≡ two =
        ap (send_chunk (data_line e)) (send_chunk_lem (event_line e) w up sent)
        ∙ send_chunk_lem (data_line e) one up sent in
      ap (λ u. (run (relay (map unseen es)) (flushed u)).chunks) same
      ∙ ap (λ u. (run (relay (map unseen es)) u).chunks) (flushed_lem two sent)
      ∙ run-relay es (record two { flushes = two.flushes + 1 }) up sent
      ∙ append_assoc (w.chunks ++ event_line e ∷ []) (data_line e ∷ []) (frames es)
      ∙ append_assoc w.chunks (event_line e ∷ []) (data_line e ∷ frames es)

  -- A client that stays and reads a stream to its end gets status 200 and the frames of exactly the
  -- events that the service put on the channel, in order: heartbeats, and then, unless the stream
  -- was broken off, the one event of the analysis that has completed or failed.
  pub get_analysis_events_streams :
      (h : RequestHandler) (id : String) (w : World) {t : Stream}
      → Reaches h.app id (begin w) t
      → t.place ≡ returned
      → let out = run (get_analysis_events h true (map unseen t.sent)) (fresh false) in
        (status out ≡ some 200) × (out.chunks ≡ frames t.sent) × IsSentAt returned t.sent
  unfolding get_analysis_events
  get_analysis_events_streams h id w {t} r over = (
    status_stays (relay (map unseen t.sent)) 200 _ refl,
    run-relay t.sent _ refl refl,
    subst (λ p. IsSentAt p t.sent) over (stream-IsOrdered h.app id w r).in_order,
  )
