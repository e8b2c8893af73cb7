-- ===== src/Processor/Loop.antt =====
-- internal/adapters/outbox/processor.go, Start: the loop over the ticker. Of a tick's two batches, one
-- follows the other, in the order in which they end.
use svc_web_analyzer.Prelude.{
  ℕ, suc, ◌+◌, ◌*◌, ◌≤◌, Bool, Option, none, some, List, [], ◌∷◌, arith, length, if◌then◌else◌,
  if-both,
}
use svc_web_analyzer.Domain.{Error}
use svc_web_analyzer.World.{World}
use svc_web_analyzer.Publisher.{PublisherService}
use svc_web_analyzer.Processor.{batches_sent, process_pending_events, process_retryable_events}

-- what the select finds: a tick, with the batch that ends first, or the context that is done
pub data Wakeup : Type 0 where
  tick : Bool → Wakeup
  done : Error → Wakeup

-- the ticks before the context is done
abbrev pub ticks : List Wakeup → ℕ
ticks [] = 0
ticks (tick first ∷ rest) = suc (ticks rest)
ticks (done e ∷ rest) = 0

module _ (s : PublisherService) where
  -- the two batches of a tick; their errors are logged
  abbrev both_batches : Bool → World → World
  both_batches pending_first w =
      if pending_first
      then (process_retryable_events s (process_pending_events s w).1).1
      else (process_pending_events s (process_retryable_events s w).1).1

  -- what Start returned, if it did, and the world
  unfoldable pub start : List Wakeup → World → Option Error × World
  start [] w = (none, w)
  start (tick first ∷ rest) w = start rest (both_batches first w)
  start (done e ∷ rest) w = (some e, w)

  both_sent : (first : Bool) (w : World) → length (both_batches first w).sent ≤ length w.sent + 20
  both_sent first w =
      if-both {A = World} (λ v. length v.sent ≤ length w.sent + 20) first _ _
        (λ h.
          omega (arith, (batches_sent s w).0, (batches_sent s (process_pending_events s w).1).1))
        (λ h.
          omega (arith, (batches_sent s w).1, (batches_sent s (process_retryable_events s w).1).0))

  -- The publisher's loop sends at most twenty messages with each tick that comes before its context is
  -- done, and nothing after that, whatever the drivers answer.
  pub start_sends :
      (ws : List Wakeup) (w : World) → length (start ws w).1.sent ≤ length w.sent + 20 * ticks ws
  unfolding start
  start_sends [] w = omega arith
  start_sends (tick first ∷ rest) w =
      omega (arith, start_sends rest (both_batches first w), both_sent first w)
  start_sends (done e ∷ rest) w = omega arith
