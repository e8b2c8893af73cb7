-- ===== src/Runtime.antt =====
-- internal/runtime: how the three processes shut down. A context is done or not; what a process does is
-- the list of its calls, in order. Start-up, which makes the clients, is left out.
use svc_web_analyzer.Prelude.{◌≡◌, refl, Bool, true, false, List, [], ◌∷◌, ◌++◌, All, if◌then◌else◌}

-- what ended the wait of `shutdown`
data Wake : Type 0 where
  context_done signalled : Wake

-- the calls that a shutdown makes; a call that takes a context has whether it is done
data Call : Type 0 where
  stop_context : Call
  with_timeout : Bool → Call
  close_cache : Call
  shutdown_server : Bool → Call
  close_queue : Call
  close_storage : Call
  close_signals : Call

-- a context: done, or with the one that it was made from
data Context : Type 0 where
  background : Context
  canceled : Context → Context
  derived : Context → Context

abbrev is_done : Context → Bool
is_done background = false
is_done (canceled c) = true
is_done (derived c) = is_done c

-- the deferred close of the channel of signals
abbrev closing : Wake → List Call
closing context_done = []
closing signalled = close_signals ∷ []

-- ServiceCtx.cleanup
abbrev cleanup_service : Bool → Context → List Call
cleanup_service has_cache shutdown_ctx =
    (if has_cache then close_cache ∷ [] else []) ++ shutdown_server (is_done shutdown_ctx) ∷ []

-- ServiceCtx.shutdown, up to the first of the timeout's goroutine
unfoldable shutdown_service : Bool → Wake → Context → List Call
shutdown_service has_cache wake server_ctx =
    let stopped = canceled server_ctx in
    let shutdown_ctx = derived stopped in
    (stop_context ∷ with_timeout (is_done stopped) ∷ [])
    ++ (cleanup_service has_cache shutdown_ctx ++ closing wake)

-- PublisherCtx.shutdown with its cleanup
unfoldable shutdown_publisher : Bool → Wake → List Call
shutdown_publisher has_queue wake =
    (stop_context ∷ [])
    ++ ((if has_queue then close_queue ∷ [] else []) ++ (close_storage ∷ [] ++ closing wake))

-- SubscriberCtx.shutdown, which does not clean up
unfoldable shutdown_subscriber : Wake → List Call
shutdown_subscriber wake = stop_context ∷ closing wake

-- no client is closed
abbrev KeepsClients : Call → Type 0
KeepsClients close_cache = ⊥
KeepsClients close_queue = ⊥
KeepsClients close_storage = ⊥
KeepsClients _ = Unit

-- the server is asked to shut down under a context that is done already
abbrev HasNoGrace : Call → Type 0
HasNoGrace (shutdown_server done) = done ≡ true
HasNoGrace _ = Unit

shutdown_service-HasNoGrace :
    (has_cache : Bool) (wake : Wake) (ctx : Context)
    → All HasNoGrace (shutdown_service has_cache wake ctx)
unfolding shutdown_service
shutdown_service-HasNoGrace true signalled ctx = (tt, (tt, (tt, (refl, (tt, tt)))))
shutdown_service-HasNoGrace true context_done ctx = (tt, (tt, (tt, (refl, tt))))
shutdown_service-HasNoGrace false signalled ctx = (tt, (tt, (refl, (tt, tt))))
shutdown_service-HasNoGrace false context_done ctx = (tt, (tt, (refl, tt)))

shutdown_subscriber-KeepsClients : (wake : Wake) → All KeepsClients (shutdown_subscriber wake)
unfolding shutdown_subscriber
shutdown_subscriber-KeepsClients context_done = (tt, tt)
shutdown_subscriber-KeepsClients signalled = (tt, (tt, tt))

-- Whatever ends them: the web process asks its server to shut down only under a context that is done
-- already, so the time it has for that is never used, and the subscriber closes none of its clients.
shutdowns-HasNoGrace :
    (has_cache : Bool) (wake : Wake) (ctx : Context)
    → All HasNoGrace (shutdown_service has_cache wake ctx)
      × All KeepsClients (shutdown_subscriber wake)
shutdowns-HasNoGrace has_cache wake ctx =
    (shutdown_service-HasNoGrace has_cache wake ctx, shutdown_subscriber-KeepsClients wake)
