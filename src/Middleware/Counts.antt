-- ===== src/Middleware/Counts.antt =====
-- internal/adapters/middleware/response_writer.go: what FlushableResponseWriter passes on and what it
-- counts.
use svc_web_analyzer.Prelude.{
  Bool-cases, Option-cases, ◌≡◌, refl, ap, ◌∙◌, inl, inr, ℕ, ◌+◌, String, Bool, true, false, not,
  none, some, List, [], ◌∷◌, ◌++◌, arith,
}
use svc_web_analyzer.Http.{
  Reply, Writer, finish, set_header, write_header, write, flush, flushed, record_entry, run,
  send_status, send_chunk, with_header, with_entry,
}
use svc_web_analyzer.Middleware.{Packages, Tally, wrapped}

abbrev pub total : (String → ℕ) → List String → ℕ
total size [] = 0
total size (s ∷ ss) = size s + total size ss

total-snoc :
    (size : String → ℕ) (ss : List String) (s : String)
    → total size (ss ++ s ∷ []) ≡ total size ss + size s
total-snoc size [] s = omega arith
total-snoc size (x ∷ ss) s = omega (arith, total-snoc size ss s)

-- the status that net/http has sent, or will send at the end of a handler that sent none
abbrev pub final_status : Writer → ℕ
final_status w = elim w.sent [ none ↦ 200 | some (code, headers) ↦ code ]

sent_now : (code : ℕ) (w : Writer) → w.sent ≡ none → code ≡ final_status (send_status code w)
sent_now code w unsent = ground (arith, unsent)

sent_by_write : (w : Writer) → final_status w ≡ final_status (send_status 200 w)
sent_by_write w = elim (Option-cases w.sent) [
  | inl free ↦ ground (arith, free)
  | inr (first, sent) ↦ ground (arith, sent)
]

-- at most one status, before the first write and flush
abbrev pub IsOrderly : Bool → Reply → Type 0
IsOrderly started finish = Unit
IsOrderly started (set_header k v next) = IsOrderly started next
IsOrderly started (write_header code next) = (started ≡ false) × IsOrderly true next
IsOrderly started (write s next) = (taken : Bool) → IsOrderly true (next taken)
IsOrderly started (flush next) = IsOrderly true next
IsOrderly started (record_entry e next) = IsOrderly started next

module _ (p : Packages) where
  -- the fields of the wrapper after a reply
  abbrev pub tally : Tally → Reply → Writer → Tally
  tally t finish w = t
  tally t (set_header k v next) w = tally t next (with_header k v w)
  tally t (write_header code next) w =
      tally (record t { status_code = code }) next (send_status code w)
  tally t (write s next) w =
      tally
        (record t {
          bytes_written =
              t.bytes_written + elim (not w.lost) [ true ↦ p.byte_length s | false ↦ 0 ];
        })
        (next (not w.lost)) (send_chunk s w)
  tally t (flush next) w = tally t next (flushed w)
  tally t (record_entry e next) w = tally t next (with_entry e w)

  -- the wrapper passes every call on
  pub run-wrapped :
      (t : Tally) (r : Reply) (after : Tally → Reply) (w : Writer)
      → run (wrapped p t r after) w ≡ run (after (tally t r w)) (run r w)
  unfolding wrapped
  run-wrapped t finish after w = refl
  run-wrapped t (set_header k v next) after w = run-wrapped t next after (with_header k v w)
  run-wrapped t (write_header code next) after w =
      run-wrapped (record t { status_code = code }) next after (send_status code w)
  run-wrapped t (write s next) after w = run-wrapped _ (next (not w.lost)) after (send_chunk s w)
  run-wrapped t (flush next) after w = run-wrapped t next after (flushed w)
  run-wrapped t (record_entry e next) after w = run-wrapped t next after (with_entry e w)

  send_status_chunks : (code : ℕ) (w : Writer) → (send_status code w).chunks ≡ w.chunks
  send_status_chunks code w = elim (Option-cases w.sent) [
    | inl free ↦ ground (arith, free)
    | inr (first, sent) ↦ ground (arith, sent)
  ]

  chunk_bytes :
      (s : String) (w : Writer)
      → total p.byte_length (send_chunk s w).chunks
        ≡ total p.byte_length w.chunks + elim (not w.lost) [ true ↦ p.byte_length s | false ↦ 0 ]
  chunk_bytes s w = elim (Bool-cases w.lost) [
    | inl lost ↦ rw lost (omega arith)
    | inr up ↦ rw up (total-snoc p.byte_length w.chunks s)
  ]

  -- it counts the bytes that the connection took
  pub tally_bytes :
      (t : Tally) (r : Reply) (w : Writer)
      → (tally t r w).bytes_written + total p.byte_length w.chunks
        ≡ t.bytes_written + total p.byte_length (run r w).chunks
  tally_bytes t finish w = refl
  tally_bytes t (set_header k v next) w = tally_bytes t next (with_header k v w)
  tally_bytes t (write_header code next) w = omega (
    arith,
    tally_bytes (record t { status_code = code }) next (send_status code w),
    ap (total p.byte_length) (send_status_chunks code w),
  )
  tally_bytes t (write s next) w =
      omega (arith, tally_bytes _ (next (not w.lost)) (send_chunk s w), chunk_bytes s w)
  tally_bytes t (flush next) w =
      omega
        (arith, tally_bytes t next (flushed w), ap (total p.byte_length) (send_status_chunks 200 w))
  tally_bytes t (record_entry e next) w = tally_bytes t next (with_entry e w)

  -- of an orderly reply it ends with the status that the client gets
  pub tally_status :
      (t : Tally) (r : Reply) (w : Writer) (started : Bool)
      → IsOrderly started r
      → (started ≡ false → w.sent ≡ none)
      → t.status_code ≡ final_status w
      → (tally t r w).status_code ≡ final_status (run r w)
  tally_status t finish w started o fresh h = h
  tally_status t (set_header k v next) w started o fresh h =
      tally_status t next (with_header k v w) started o fresh h
  tally_status t (write_header code next) w started (unsent, o) fresh h =
      tally_status (record t { status_code = code }) next (send_status code w) true o (λ q. cc)
        (sent_now code w (fresh unsent))
  tally_status t (write s next) w started o fresh h =
      tally_status _ (next (not w.lost)) (send_chunk s w) true (o (not w.lost)) (λ q. cc)
        (h ∙ sent_by_write w)
  tally_status t (flush next) w started o fresh h =
      tally_status t next (flushed w) true o (λ q. cc) (h ∙ sent_by_write w)
  tally_status t (record_entry e next) w started o fresh h =
      tally_status t next (with_entry e w) started o fresh h
