-- ===== src/Loader/Watch.antt =====
-- internal/config/loader.go, WatchConfigSignals: the goroutine that waits for signals and for its own
-- ticker. A state holds its place, the signals in the channel and the loader's state; dumping the
-- configuration only prints.
use svc_web_analyzer.Prelude.{
  ◌≡◌, refl, ap, subst, Bool, true, Option, none, some, arith, if◌then◌else◌,
}
use svc_web_analyzer.Loader.{Loader, LoaderState}
use svc_web_analyzer.Loader.Load.{handle_config_reload}

pub data Signal : Type 0 where
  sighup sigusr1 : Signal

-- where the goroutine is: at its select, at its own send of a SIGHUP, or returned
pub data Place : Type 0 where
  selecting sending_sighup returned : Place

pub record Watch : Type 0 where
  pub place : Place
  -- configSignalChan, with room for one
  pub signals : Option Signal
  pub cancelled : Bool
  pub loader : LoaderState

pub data Move : Type 0 where
  -- the goroutine takes a case of its select: done, the ticker, a signal
  take_done take_tick take_signal : Move
  -- the goroutine's send goes through
  send : Move
  -- the runtime delivers a signal, which is dropped where the channel is full
  deliver : Signal → Move
  -- the caller cancels the context, or reads a report
  cancel read_report : Move

abbrev pub at_select : Place → Option Watch → Option Watch
at_select selecting t = t
at_select _ t = none

abbrev pub send_from : Watch → Place → Option Signal → Option Watch
send_from t sending_sighup none = some (record t { place = selecting; signals = some sighup })
send_from t _ _ = none

abbrev delivered : Signal → Option Signal → Option Signal
delivered s none = some s
delivered s (some first) = some first

module _ (l : Loader) where
  abbrev received : Watch → Option Signal → Option Watch
  received t none = none
  received t (some sighup) =
      some (record t { signals = none; loader = handle_config_reload l t.loader })
  received t (some sigusr1) = some (record t { signals = none })

  -- `none` where the move cannot be taken now
  unfoldable pub step : Watch → Move → Option Watch
  step t take_done =
      at_select t.place (if t.cancelled then some (record t { place = returned }) else none)
  step t take_tick = at_select t.place (some (record t { place = sending_sighup }))
  step t take_signal = at_select t.place (received t t.signals)
  step t send = send_from t t.place t.signals
  step t (deliver s) = some (record t { signals = delivered s t.signals })
  step t cancel = some (record t { cancelled = true })
  step t read_report = some (record t { loader = record t.loader { reload_errors = none } })

  -- the states that follow a state
  pub data Reaches (t : Watch) : Watch → Type 0 where
    here : Reaches t t
    after : {u v : Watch} (m : Move) → Reaches t u → step u m ≡ some v → Reaches t v

  -- stands at its send with the channel full, with these credentials and this version
  abbrev pub IsStuck : Watch → Watch → Type 0
  IsStuck t u =
      (u.place ≡ sending_sighup)
      × ((s : Signal) × (t.signals ≡ some s) × (u.signals ≡ some s))
      × (u.loader.credentials ≡ t.loader.credentials)
      × (u.loader.last_version ≡ t.loader.last_version)

  at_select-IsStuck :
      (t u : Watch) (r : Option Watch) {v : Watch}
      → IsStuck t u
      → at_select u.place r ≡ some v
      → IsStuck t v
  at_select-IsStuck t u r (at, full, cred, version) h = absurd (ground (arith, at, h))

  step-IsStuck :
      (t u : Watch) (m : Move) {v : Watch} → IsStuck t u → step u m ≡ some v → IsStuck t v
  unfolding step
  step-IsStuck t u take_done i h = at_select-IsStuck t u _ i h
  step-IsStuck t u take_tick i h = at_select-IsStuck t u _ i h
  step-IsStuck t u take_signal i h = at_select-IsStuck t u _ i h
  step-IsStuck t u send (at, (s, was, full), cred, version) h = absurd (ground (arith, at, full, h))
  step-IsStuck t u (deliver s) {v} (at, (first, was, full), cred, version) h =
      let same : record u { signals = delivered s u.signals } ≡ v = ground (arith, h) in
      subst (IsStuck t) same (at, (first, was, ap (delivered s) full), cred, version)
  step-IsStuck t u cancel {v} i h =
      let same : record u { cancelled = true } ≡ v = ground (arith, h) in subst (IsStuck t) same i
  step-IsStuck t u read_report {v} i h =
      let same : record u { loader = record u.loader { reload_errors = none } } ≡ v =
        ground (arith, h) in
      subst (IsStuck t) same i

  -- A watcher whose ticker has fired while a signal was waiting stands at its own send for good: in
  -- every state that follows that signal is still unread, the configuration is never loaded again, and
  -- not even a cancelled context lets it return.
  pub watch-IsStuck :
      (t : Watch) {u : Watch} {s : Signal}
      → t.place ≡ sending_sighup
      → t.signals ≡ some s
      → Reaches t u
      → IsStuck t u
  watch-IsStuck t {s = s} at full here = (at, (s, full, full), refl, refl)
  watch-IsStuck t at full (after {u = u} m r h) = step-IsStuck t u m (watch-IsStuck t at full r) h
