-- ===== src/Middleware/Logged.antt =====
-- internal/adapters/middleware/access_logger.go and health_filter.go, as internal/runtime/deps.go and
-- the generated server put them together: what is logged of a request.
use svc_web_analyzer.Prelude.{
  ◌≡◌, Bool-cases, inl, inr, refl, sym, subst, ap, if◌then◌else◌, ◌∙◌, ℕ, String, Bool, true, false,
  Option, none, some, List, [], ◌∷◌, ◌++◌, arith,
}
use svc_web_analyzer.Domain.{Analysis, ok}
use svc_web_analyzer.World.{World}
use svc_web_analyzer.Http.{
  Entry, access, error, Reply, Writer, finish, set_header, write_header, record_entry, encode,
  fresh, run, status,
}
use svc_web_analyzer.Http.Handler.{ErrorResponse, RequestHandler, analyze_started, after_encode}
use svc_web_analyzer.Middleware.{
  Handler, HttpRequest, Middleware, MiddlewareConfig, Packages, Tally, access_entry, access_logger,
  health_check_filter, init_middlewares, layered, level_of, new_tally, wrapped, access_log_layers,
  rate_limit_layer, api_version, request_validator, security_headers, metrics_layer,
}
use svc_web_analyzer.Middleware.Counts.{
  IsOrderly, final_status, run-wrapped, tally, tally_bytes, tally_status, total,
}

if_false {ℓ} : {A : Type ℓ} (b : Bool) (x y : A) → b ≡ false → (if b then x else y) ≡ y
if_false b x y h = rw h refl

-- a request that is not to be left out
access_logger_on :
    (p : Packages) (next : Handler) (r : HttpRequest)
    → r.skip_access_log ≡ false
    → access_logger p next r
      ≡ wrapped p new_tally (next r) (λ t. record_entry (access_entry t) finish)
unfolding access_logger
access_logger_on p next r logged = if_false r.skip_access_log _ _ logged

-- what the client got, and the entry that describes it
abbrev pub with_access_entry : Packages → Writer → Writer
with_access_entry p w = record w {
  entries =
      w.entries
      ++ access (level_of (final_status w)) (final_status w) (total p.byte_length w.chunks) ∷ [];
}

access_logger_skips :
    (p : Packages) (next : Handler) (r : HttpRequest) (lost : Bool)
    → r.skip_access_log ≡ true
    → run (access_logger p next r) (fresh lost) ≡ (
        if r.skip_access_log
        then run (next r) (fresh lost)
        else with_access_entry p (run (next r) (fresh lost)))
unfolding access_logger
access_logger_skips p next r lost flagged = rw flagged refl

access_logger_adds :
    (p : Packages) (next : Handler) (r : HttpRequest) (lost : Bool)
    → r.skip_access_log ≡ false
    → IsOrderly false (next r)
    → run (access_logger p next r) (fresh lost) ≡ with_access_entry p (run (next r) (fresh lost))
access_logger_adds p next r lost logged orderly =
    let w : Writer = fresh lost in
    let t : Tally = tally p new_tally (next r) w in
    let code : t.status_code ≡ final_status (run (next r) w) =
      tally_status p new_tally (next r) w false orderly (λ q. refl) refl in
    let bytes : t.bytes_written ≡ total p.byte_length (run (next r) w).chunks =
      omega (arith, tally_bytes p new_tally (next r) w) in
    ap (λ reply. run reply w) (access_logger_on p next r logged)
    ∙ run-wrapped p new_tally (next r) (λ t. record_entry (access_entry t) finish) w
    ∙ rw (code, bytes) refl

-- The access logger does not change what a client gets. It adds nothing for a request that is flagged
-- to be left out, and one entry for any other: for a handler that sends at most one status, and that
-- before its first write and flush, the entry has the status code that the client got, its level, and
-- the number of bytes that the connection took.
pub access_logger_logs :
    (p : Packages) (next : Handler) (r : HttpRequest) (lost : Bool)
    → IsOrderly false (next r)
    → run (access_logger p next r) (fresh lost) ≡ (
        if r.skip_access_log
        then run (next r) (fresh lost)
        else with_access_entry p (run (next r) (fresh lost)))
access_logger_logs p next r lost orderly = elim (Bool-cases r.skip_access_log) [
  | inl flagged ↦ access_logger_skips p next r lost flagged
  | inr logged ↦
      access_logger_adds p next r lost logged orderly ∙ sym (if_false r.skip_access_log _ _ logged)
]

-- the last two layers around the others
layered-snoc₂ :
    (ms : List Middleware) (m n : Middleware) (h : Handler)
    → layered (ms ++ m ∷ n ∷ []) h ≡ n (m (layered ms h))
unfolding layered
layered-snoc₂ [] m n h = refl
layered-snoc₂ (k ∷ ms) m n h = layered-snoc₂ ms m n (k h)

-- its last entry is one of the access log
abbrev pub IsLogged : Writer → Type 0
IsLogged w = (before : List Entry) × (t : Tally) × (w.entries ≡ before ++ access_entry t ∷ [])

access_logger-IsLogged :
    (p : Packages) (next : Handler) (r : HttpRequest) (w : Writer)
    → r.skip_access_log ≡ false
    → IsLogged (run (access_logger p next r) w)
access_logger-IsLogged p next r w logged = (
  (run (next r) w).entries,
  tally p new_tally (next r) w,
  ap (λ reply. (run reply w).entries) (access_logger_on p next r logged)
      ∙ ap (λ u. u.entries)
          (run-wrapped p new_tally (next r) (λ t. record_entry (access_entry t) finish) w),
)

-- With the access log on and rate limiting off, the layers as they are set up and put around a handler
-- log every request, on any path and whether health checks are to be logged or not: the filter sets
-- its flag inside of the logger, which has looked for it by then.
pub health_checks-IsLogged :
    (p : Packages) (c : MiddlewareConfig) (h : Handler) (r : HttpRequest) (w : Writer)
    → c.access_log_enabled ≡ true
    → c.rate_limiting_enabled ≡ false
    → r.skip_access_log ≡ false
    → IsLogged (run (layered (init_middlewares p c) h r) w)
unfolding init_middlewares
health_checks-IsLogged p c h r w on unlimited logged =
    let inner =
      p.request_id
      ∷ p.real_ip
      ∷ p.recoverer
      ∷ p.timeout
      ∷ api_version c.api_version
      ∷ request_validator p
      ∷ security_headers
      ∷ p.tracer
      ∷ metrics_layer p c in
    let outer : access_log_layers p c ++ rate_limit_layer p c
        ≡ health_check_filter p c.log_health_checks ∷ access_logger p ∷ [] =
      rw (on, unlimited) refl in
    let same : layered (inner ++ (access_log_layers p c ++ rate_limit_layer p c)) h
        ≡ access_logger p (health_check_filter p c.log_health_checks (layered inner h)) =
      ap (λ ms. layered (inner ++ ms) h) outer ∙ layered-snoc₂ inner _ _ h in
    subst (λ f. IsLogged (run (f r) w)) (sym same)
      (access_logger-IsLogged p (health_check_filter p c.log_health_checks (layered inner h)) r w
        logged)

-- two statuses, the second with a body that is written or not
abbrev IsLoggedTwice : Packages → Reply → Bool → Type 0
IsLoggedTwice p reply lost =
    let out =
      run (wrapped p new_tally reply (λ t. record_entry (access_entry t) finish)) (fresh lost) in
    (status out ≡ some 202) × ((n : ℕ) × (out.entries ≡ access error 500 n ∷ []))

abbrev pub twice : Option String → Reply
twice json = set_header "Content-Type" "application/json" (
    write_header 202 (
      set_header "Content-Type" "application/json"
        (write_header 500 (encode json (λ written. finish)))))

twice-IsLoggedTwice :
    (p : Packages) (json : Option String) (lost : Bool) → IsLoggedTwice p (twice json) lost
unfolding wrapped
twice-IsLoggedTwice p none lost = (refl, (_, refl))
twice-IsLoggedTwice p (some json) lost = (refl, (_, refl))

-- A request to analyse a URL whose analysis cannot be encoded: the client gets status 202, and the
-- access log an error with status 500, as the wrapper keeps the last status and net/http the first.
encode_failure_logged :
    (p : Packages) (h : RequestHandler) (a : Analysis) (v : World) (r : HttpRequest) (lost : Bool)
    → h.encode_analysis a ≡ none
    → r.skip_access_log ≡ false
    → let out = run (access_logger p (λ _. (analyze_started h (ok a, v)).0) r) (fresh lost) in
      (status out ≡ some 202) × ((n : ℕ) × (out.entries ≡ access error 500 n ∷ []))
encode_failure_logged p h a v r lost silent logged =
    let next : Handler = λ _. (analyze_started h (ok a, v)).0 in
    let e : ErrorResponse = record {
      error = "internal_server_error";
      message = "failed to encode result";
      details = h.encode_fault a;
      status_code = 500;
    } in
    let same : next r ≡ twice (h.encode_error e) =
      ap
        (λ json.
          set_header "Content-Type" "application/json"
            (write_header 202 (encode json (after_encode h (h.encode_fault a)))))
        silent in
    subst
      (λ reply.
        let out = run reply (fresh lost) in
        (status out ≡ some 202) × ((n : ℕ) × (out.entries ≡ access error 500 n ∷ [])))
      (sym (access_logger_on p next r logged))
      (subst (λ reply. IsLoggedTwice p reply lost) (sym same)
        (twice-IsLoggedTwice p (h.encode_error e) lost))
