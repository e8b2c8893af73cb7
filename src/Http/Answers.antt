-- ===== src/Http/Answers.antt =====
-- internal/adapters/http/request_handler.go: what the status that a client gets says of the tables.
use svc_web_analyzer.Prelude.{
  Bool-cases, Option-cases, ◌≡◌, ◌⊎◌, inl, inr, refl, ℕ, String, Bool, false, not, Option, some,
  List, [], ◌∷◌, arith, str_eq,
}
use svc_web_analyzer.Domain.{Analysis, Error, Result, ok, err}
use svc_web_analyzer.World.{World, outcome}
use svc_web_analyzer.Application.{fetch_analysis, start_analysis}
use svc_web_analyzer.Application.Start.{IsStarted, start_analysis-IsStarted, start_analysis-err}
use svc_web_analyzer.Http.{
  Reply, Writer, finish, set_header, write_header, write, flush, record_entry, run, fresh,
  send_status, status, encode,
}
use svc_web_analyzer.Http.Handler.{
  after_encode, AnalyzeUrlBody, RequestHandler, analysis_found, analyze_body, analyze_started,
  analyze_url, get_analysis, map_request_options_to_domain_options, write_error_response,
}

send_status_keeps :
    (code c : ℕ) (w : Writer) → status w ≡ some c → status (send_status code w) ≡ some c
send_status_keeps code c w h = elim (Option-cases w.sent) [
  | inl free ↦ absurd (ground (arith, free, h))
  | inr (first, sent) ↦ ground (arith, sent, h)
]

-- the status that was sent first stays, whatever a handler does
pub status_stays : (r : Reply) (c : ℕ) (w : Writer) → status w ≡ some c → status (run r w) ≡ some c
status_stays finish c w h = h
status_stays (set_header k v next) c w h = status_stays next c _ h
status_stays (write_header code next) c w h = status_stays next c _ (send_status_keeps code c w h)
status_stays (write s next) c w h =
    status_stays (next (not w.lost)) c _ (send_status_keeps 200 c w h)
status_stays (flush next) c w h = status_stays next c _ (send_status_keeps 200 c w h)
status_stays (record_entry e next) c w h = status_stays next c _ h

abbrev json_type : List (String × String)
json_type = ("Content-Type", "application/json") ∷ []

module _ (h : RequestHandler) (lost : Bool) where
  -- the status that a client gets for a reply
  abbrev pub code_of : Reply → Option ℕ
  code_of r = status (run r (fresh lost))

  error_code :
      (code : ℕ) (type message details : String)
      → code_of (write_error_response h code type message details) ≡ some code
  error_code code type message details =
      status_stays
        (encode
          (h.encode_error
            (record { error = type; message = message; details = details; status_code = code }))
          (λ written. finish))
        code (send_status code (record (fresh lost) { headers = json_type })) refl

  -- 202: the request's URL has an analysis and an event for it; 400 and 500: both tables are as they
  -- were
  abbrev pub IsAnswered : String → World → World → ℕ → Type 0
  IsAnswered text w v c =
      ((c ≡ 202)
        × ((body : AnalyzeUrlBody) × (a : Analysis) × (h.decode_body text ≡ ok body)
            × (str_eq body.url "" ≡ false)
            × IsStarted h.app body.url (map_request_options_to_domain_options body.options) w v a))
      ⊎ (((c ≡ 400) ⊎ (c ≡ 500)) × (v.outbox ≡ w.outbox) × (v.analyses ≡ w.analyses))

  analyze_started_answers :
      (text : String) (body : AnalyzeUrlBody) (w : World)
      → h.decode_body text ≡ ok body
      → str_eq body.url "" ≡ false
      → let done =
          analyze_started h (
            start_analysis h.app body.url (map_request_options_to_domain_options body.options) w) in
        (c : ℕ) × (code_of done.0 ≡ some c) × IsAnswered text w done.1 c
  analyze_started_answers text body w decoded url =
      let options = map_request_options_to_domain_options body.options in
      elim (outcome (start_analysis h.app body.url options w)) [
        | inl (a, v, ran) ↦ rw ran (
          202,
          status_stays (encode (h.encode_analysis a) (after_encode h (h.encode_fault a))) 202
              (send_status 202 (record (fresh lost) { headers = json_type })) refl,
          inl (
            refl,
            (body, a, decoded, url, start_analysis-IsStarted h.app body.url options w ran),
          ),
        )
        | inr (e, v, ran) ↦ rw ran (
          500,
          error_code 500 _ _ _,
          (let (out, rows) = start_analysis-err h.app body.url options w ran in
              inr (inr refl, out, rows)),
        )
      ]

  analyze_body_answers :
      (text : String) (w : World) (d : Result AnalyzeUrlBody)
      → h.decode_body text ≡ d
      → (c : ℕ) × (code_of (analyze_body h d w).0 ≡ some c)
        × IsAnswered text w (analyze_body h d w).1 c
  analyze_body_answers text w (err e) decoded =
      (400, error_code 400 _ _ _, inr (inl refl, refl, refl))
  analyze_body_answers text w (ok body) decoded = elim (Bool-cases (str_eq body.url "")) [
    | inl empty ↦ rw empty (400, error_code 400 _ _ _, inr (inl refl, refl, refl))
    | inr url ↦ rw url (analyze_started_answers text body w decoded url)
  ]

  -- Every request to analyse a URL is answered with one of three codes, and the code that the
  -- client gets, whether or not the body could be encoded or sent, tells what was stored: 202 that
  -- an analysis and its pending event were added for the URL of the body, which is not empty; 400
  -- and 500 that both tables are as they were.
  pub analyze_url-IsAnswered :
      (text : String) (w : World)
      → (c : ℕ) × (code_of (analyze_url h text w).0 ≡ some c)
        × IsAnswered text w (analyze_url h text w).1 c
  unfolding analyze_url
  analyze_url-IsAnswered text w = analyze_body_answers text w (h.decode_body text) refl

  analysis_found_code :
      (r : Result Analysis × World)
      → ((a : Analysis) × (r.0 ≡ ok a) × (code_of (analysis_found h r).0 ≡ some 200))
        ⊎ ((e : Error) × (r.0 ≡ err e) × (code_of (analysis_found h r).0 ≡ some 404))
  analysis_found_code (ok a, w) = inl (
    a,
    refl,
    status_stays (encode (h.encode_analysis a) (λ written. finish)) 200
        (send_status 200 (record (fresh lost) { headers = json_type })) refl,
  )
  analysis_found_code (err e, w) = inr (e, refl, error_code 404 _ _ _)

  -- A request for an analysis is answered 200 where the service found it and 404 where it answered
  -- with any error at all, and never with another code: a database that is down is a missing analysis.
  get_analysis_code :
      (id : String) (w : World)
      → ((a : Analysis) × ((fetch_analysis h.app id w).0 ≡ ok a)
          × (code_of (get_analysis h id w).0 ≡ some 200))
        ⊎ ((e : Error) × ((fetch_analysis h.app id w).0 ≡ err e)
            × (code_of (get_analysis h id w).0 ≡ some 404))
  unfolding get_analysis
  get_analysis_code id w = analysis_found_code (fetch_analysis h.app id w)
