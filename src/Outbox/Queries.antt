-- ===== src/Outbox/Queries.antt =====
-- internal/adapters/repos/outbox_repository.go, FindPending and FindRetryable: which rows a poll of
-- the outbox returns.
use mathlib.Core.List.{Perm}
use svc_web_analyzer.Prelude.{
  ℕ, zero, suc, ◌≡◌, refl, ◌≤◌, String, Bool, true, false, ◌++◌, ap, List, [], ◌∷◌, arith, length,
  keep, take, drop, sort_by, All, All-keep, All-sort_by, All-take, IsSorted, IsBefore,
  sort_by-IsSorted, sort_by-perm, take-IsBefore-drop, take-IsSorted, length-take-le,
}
use svc_web_analyzer.Domain.{OutboxEvent, Result, ok, err}
use svc_web_analyzer.World.{OutboxRow, World, external}
use svc_web_analyzer.Libraries.{Libraries}
use svc_web_analyzer.Outbox.Rows.{is_pending, is_retryable, before_pending, before_retry}
use svc_web_analyzer.Outbox.{
  convert_row, convert_rows, find_by_criteria, find_pending, find_retryable,
}

-- `es` are the events of the first `limit` rows, in the order, of those that pass the test: no row
-- that is left out comes before one that is returned, and no row is invented or lost.
pub record IsPage (lib : Libraries) (p : OutboxRow → Bool) (le : OutboxRow → OutboxRow → Bool)
    (limit : ℕ) (table : List OutboxRow) (es : List OutboxEvent) : Type 0 where
  pub rows : List OutboxRow
  pub rest : List OutboxRow
  pub converted : convert_rows lib rows ≡ ok es
  pub bounded : length rows ≤ limit
  pub pass : All (λ r. p r ≡ true) rows
  pub sorted : IsSorted le rows
  pub first_rows : IsBefore le rows rest
  pub all_rows : Perm (rows ++ rest) (keep p table)

before_pending_total : (a b : OutboxRow) → before_pending a b ≡ false → before_pending b a ≡ true
before_pending_total a b h = ground arith

before_pending_trans :
    (a b c : OutboxRow)
    → before_pending a b ≡ true
    → before_pending b c ≡ true
    → before_pending a c ≡ true
before_pending_trans a b c h k = ground arith

before_retry_total : (a b : OutboxRow) → before_retry a b ≡ false → before_retry b a ≡ true
before_retry_total a b h = ground arith

before_retry_trans :
    (a b c : OutboxRow)
    → before_retry a b ≡ true
    → before_retry b c ≡ true
    → before_retry a c ≡ true
before_retry_trans a b c h k = ground arith

take-append-drop {ℓ} : {A : Type ℓ} (n : ℕ) (xs : List A) → take n xs ++ drop n xs ≡ xs
take-append-drop zero xs = refl
take-append-drop (suc n) [] = refl
take-append-drop (suc n) (x ∷ xs) = ap (◌∷◌ x) (take-append-drop n xs)

module _ (lib : Libraries) (criteria : ℕ → OutboxRow → Bool) (le : OutboxRow → OutboxRow → Bool)
    (total : (x y : OutboxRow) → le x y ≡ false → le y x ≡ true)
    (trans : (x y z : OutboxRow) → le x y ≡ true → le y z ≡ true → le x z ≡ true) where
  page :
      (now limit : ℕ) (table : List OutboxRow) {es : List OutboxEvent}
      → convert_rows lib (take limit (sort_by le (keep (criteria now) table))) ≡ ok es
      → IsPage lib (criteria now) le limit table es
  page now limit table h =
      let chosen = keep (criteria now) table in
      let ordered = sort_by le chosen in
      record {
        rows = take limit ordered;
        rest = drop limit ordered;
        converted = h;
        bounded = length-take-le limit ordered;
        pass = All-take _ limit ordered (All-sort_by le _ chosen (All-keep (criteria now) table));
        sorted = take-IsSorted le limit ordered (sort_by-IsSorted le total trans chosen);
        first_rows = take-IsBefore-drop le limit ordered (sort_by-IsSorted le total trans chosen);
        all_rows = rw take-append-drop (sort_by-perm le chosen);
      }

  find_by_criteria_page :
      (limit : ℕ) (context : String) (w : World) {es : List OutboxEvent} {v : World}
      → find_by_criteria lib criteria le limit context w ≡ (ok es, v)
      → IsPage lib (criteria (w.script w.calls).at) le limit w.outbox es
  unfolding find_by_criteria external
  find_by_criteria_page limit context w {es} h =
      page (w.script w.calls).at limit w.outbox {es = es} (ground arith)

module _ (lib : Libraries) (limit : ℕ) (w : World) {es : List OutboxEvent} {v : World} where
  pub find_pending_page :
      find_pending lib limit w ≡ (ok es, v)
      → IsPage lib (λ r. is_pending r.status) before_pending limit w.outbox es
  unfolding find_pending
  find_pending_page h =
      find_by_criteria_page lib (λ now r. is_pending r.status) before_pending before_pending_total
        before_pending_trans limit "pending outbox events" w h

  pub find_retryable_page :
      find_retryable lib limit w ≡ (ok es, v)
      → IsPage lib (is_retryable (w.script w.calls).at) before_retry limit w.outbox es
  unfolding find_retryable
  find_retryable_page h =
      find_by_criteria_page lib is_retryable before_retry before_retry_total before_retry_trans
        limit "retryable outbox events" w h

length-convert_rows :
    (lib : Libraries) (rs : List OutboxRow) {es : List OutboxEvent}
    → convert_rows lib rs ≡ ok es
    → length es ≡ length rs
unfolding convert_rows
length-convert_rows lib [] h = ground (arith, h)
length-convert_rows lib (r ∷ rs) {es} h =
    go (convert_row lib r) (convert_rows lib rs) refl refl
      (λ fs. length-convert_rows lib rs {es = fs})
  where
    go :
        (a : Result OutboxEvent) (b : Result (List OutboxEvent))
        → convert_row lib r ≡ a
        → convert_rows lib rs ≡ b
        → ((fs : List OutboxEvent) → convert_rows lib rs ≡ ok fs → length fs ≡ length rs)
        → length es ≡ suc (length rs)
    go (ok e) (ok fs) p q k = ground (arith, h, p, q, k fs q)
    go (ok e) (err x) p q _ = absurd (ground (arith, h, p, q))
    go (err x) b p q _ = absurd (ground (arith, h, p, q))

pub page_length :
    {lib : Libraries} {p : OutboxRow → Bool} {le : OutboxRow → OutboxRow → Bool} {limit : ℕ}
    {table : List OutboxRow} {es : List OutboxEvent}
    → IsPage lib p le limit table es
    → length es ≤ limit
page_length {lib} page =
    omega (arith, length-convert_rows lib page.rows page.converted, page.bounded)

pub sent-find_pending :
    (lib : Libraries) (limit : ℕ) (w : World) → (find_pending lib limit w).1.sent ≡ w.sent
unfolding find_pending find_by_criteria external
sent-find_pending lib limit w = ground arith

pub sent-find_retryable :
    (lib : Libraries) (limit : ℕ) (w : World) → (find_retryable lib limit w).1.sent ≡ w.sent
unfolding find_retryable find_by_criteria external
sent-find_retryable lib limit w = ground arith
