-- ===== src/Http.antt =====
-- What internal/adapters/http and internal/adapters/middleware write to: http.ResponseWriter. A
-- handler is the sequence of its calls of that interface, as a tree, since it may look at whether a
-- write failed; net/http runs the calls. Partial writes and trailers are left out.
pub mod Handler
pub mod Answers
pub mod Relay
pub mod Probes
pub mod Agreement
use svc_web_analyzer.Prelude.{
  ℕ, ◌+◌, String, Bool, true, false, not, Option, none, some, List, [], ◌∷◌, ◌++◌,
}
use svc_web_analyzer.Cache.{without}

-- what the access logger and the metrics write down of a request: a level, a status code and the
-- bytes written
pub data Level : Type 0 where
  info warn error : Level

pub data Entry : Type 0 where
  access : Level → ℕ → ℕ → Entry
  metric : ℕ → ℕ → Entry

-- the calls of a handler, in order
pub data Reply : Type 0 where
  finish : Reply
  -- w.Header().Set
  set_header : String → String → Reply → Reply
  -- w.WriteHeader
  write_header : ℕ → Reply → Reply
  -- w.Write, and what follows where it succeeded or failed
  write : String → (Bool → Reply) → Reply
  -- flusher.Flush
  flush : Reply → Reply
  -- the logger or the metrics
  record_entry : Entry → Reply → Reply

-- net/http's response: the headers that are set, the status and headers that were sent, the chunks
-- that the connection took, the flushes, and whether the connection is lost
pub record Writer : Type 0 where
  pub headers : List (String × String)
  pub sent : Option (ℕ × List (String × String))
  pub chunks : List String
  pub flushes : ℕ
  pub lost : Bool
  pub entries : List Entry

abbrev pub fresh : Bool → Writer
fresh lost = record {
  headers = [];
  sent = none;
  chunks = [];
  flushes = 0;
  lost = lost;
  entries = [];
}

-- only the first status counts, with the headers set by then
abbrev with_status : Writer → ℕ → Option (ℕ × List (String × String)) → Writer
with_status w code none = record w { sent = some (code, w.headers) }
with_status w code (some first) = w

abbrev pub send_status : ℕ → Writer → Writer
send_status code w = with_status w code w.sent

-- a write with no status before it sends 200
abbrev pub send_chunk : String → Writer → Writer
send_chunk s w =
    let begun = send_status 200 w in
    record begun { chunks = elim w.lost [ true ↦ w.chunks | false ↦ w.chunks ++ s ∷ [] ] }

-- a flush with no status before it sends 200
abbrev pub flushed : Writer → Writer
flushed w = let begun = send_status 200 w in record begun { flushes = begun.flushes + 1 }

abbrev pub with_header : String → String → Writer → Writer
with_header k v w = record w { headers = (k, v) ∷ without k w.headers }

abbrev pub with_entry : Entry → Writer → Writer
with_entry e w = record w { entries = w.entries ++ e ∷ [] }

abbrev pub run : Reply → Writer → Writer
run finish w = w
run (set_header k v next) w = run next (with_header k v w)
run (write_header code next) w = run next (send_status code w)
run (write s next) w = run (next (not w.lost)) (send_chunk s w)
run (flush next) w = run next (flushed w)
run (record_entry e next) w = run next (with_entry e w)

abbrev pub status : Writer → Option ℕ
status w = elim w.sent [ none ↦ none | some (code, headers) ↦ some code ]

-- w.Write whose result is dropped
abbrev pub write_only : String → Reply → Reply
write_only s next = write s (λ taken. next)

-- json.NewEncoder(w).Encode: a value without a JSON text is not written; then what follows, by
-- whether the value was encoded and taken
abbrev pub encode : Option String → (Bool → Reply) → Reply
encode none next = next false
encode (some json) next = write json next
