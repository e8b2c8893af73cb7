-- ===== src/Lib.antt =====
-- svc-web-analyzer: a service that takes the URL of a page, fetches and analyzes the page, and keeps
-- the result. Three processes share a PostgreSQL database, a cache and a RabbitMQ broker: the web
-- process writes an analysis and an outbox event in one transaction, the publisher claims pending and
-- failed events and sends them to the broker, and the subscriber takes the messages, does the
-- analysis and writes its result.
--
-- The parts and their files:
-- - Prelude: numbers, texts, lists, sorting; Prelude/Texts the lists that `seen` maps keep distinct.
-- - Domain, Domain/Errors, Domain/Event, Domain/Version: internal/domain/analysis.go and errors.go;
--   Domain/Url is internal/domain/value_objects.go.
-- - Libraries: uuid, JSON, net/url and SHA-256 as functions the model is given.
-- - World: the tables, the cache and the broker as one state; methods that return `(T, error)` are
--   functions of type M, and a database transaction is `in_tx`.
-- - Outbox: internal/adapters/repos/outbox_repository.go. Rows has conditions, orders and assignments
--   of the statements, Table the lookups, Atomic transactions, Claims who may process an event,
--   Interleaved the calls of several processes in any order,
--   Queries what a poll returns, Insert what is saved, Refines the agreement with the domain.
-- - Analyses, Analyses/Insert: internal/adapters/repos/analysis_repository.go; Analyses/Others has the
--   methods that no service calls.
-- - Cache: internal/adapters/repos/cache_repository.go.
-- - Queue: publishing, from pkg/queue/queue.go and pkg/queue/channel.go; Connection has connecting,
--   closing and declaring, Channel what the channel records and the loop that feeds a consumer.
-- - Publisher: internal/service/publisher_service.go (PublishEvent is `publish_event`,
--   handlePublishFailure is `handle_publish_failure`).
-- - Processor: the batches of internal/adapters/outbox/processor.go; Loop is its Start.
-- - Pipeline: StartAnalysis, PublishEvent and the consumer's dealing with a delivery (`receive`), one
--   after the other.
-- - Decorators: internal/shared/decorator; Decorators/Handlers has the handlers of internal/usecases.
-- - Runtime: the shutdown of the three processes of internal/runtime.
-- - Subscriber: internal/service/subscriber_service.go (ProcessAnalysisRequest is
--   `process_analysis_request`, cut where an early return ends it; Work has the methods it calls).
-- - Worker: internal/adapters/queue/analysis_worker.go, and the settling of a delivery from
--   pkg/queue/message.go, whose Unmarshal is `unmarshal_body`. `receive` is what StartConsumer of
--   pkg/queue/queue.go does with one delivery, and Consumer its goroutine. A decoded body is a `Json`,
--   and encoding/json's functions on messages are the fields of `MessageCodec`.
-- - Application: internal/service/application_service.go and the limits of internal/config/settings.go;
--   Events is FetchAnalysisEvents, as moves of its goroutine, the client and the tickers (Order and
--   Finish have what its streams are); Fetch has
--   StartAnalysis and FetchAnalysis together.
-- - Health: internal/adapters/health_checker.go and internal/domain/types.go.
-- - Http: the calls of http.ResponseWriter and how net/http runs them; Handler, Relay and Probes are
--   internal/adapters/http/request_handler.go, with the statuses of internal/adapters/http/mappers.
--   A handler is a tree of calls (`Reply`); Answers and Agreement have what the clients get.
-- - Middleware: the layers of internal/adapters/middleware, and initMiddlewares of
--   internal/runtime/deps.go; FlushableResponseWriter is `wrapped`. Server: the wrappers of
--   internal/adapters/http/handlers/http_server_gen.go.
-- - Vault, Keys: internal/infrastructure/paseto_key_service.go. Loader: internal/config/loader.go;
--   Load has Load and the reload, Watch the goroutine of WatchConfigSignals.
-- - LinkChecker: internal/adapters/link_checker.go. HtmlAnalyzer: internal/adapters/html_analyzer.go.
-- - WebFetcher: internal/adapters/web_fetcher.go (fetchWithRetry is `fetch_with_retry`).
-- - Auth: internal/adapters/middleware/auth.go (validateToken is `validate_token`).
-- - Tests: small concrete values, and each theorem applied to some of them.
--
-- How the code is modelled: the driver's answers come from a script, one for each call, so a theorem
-- for every script holds for every fault at every place; an answer carries the time that NOW() or
-- time.Now() reads, which is one clock. A rollback restores both tables, a commit that fails has not
-- committed, and a statement that fails writes nothing. Times and durations are natural numbers of
-- nanoseconds, and a difference of times stops at zero. Counters and limits are natural numbers;
-- versions and counts stay far below the width of an int. Statement texts are built without error.
-- Logging, tracing and metrics are left out but in Decorators and Middleware. Loops are structural
-- recursions on lists, so there is no fuel but that of the decimal printer, which has one more digit
-- than the number needs.
--
-- Goroutines: those of the HTML analyzer write different fields; those of the link checker append in
-- an order that is a parameter; those of a batch follow each other. Of several processes on the
-- outbox, Outbox/Interleaved has the calls of the repository in any order. The two goroutines that
-- wait on a select are step relations, whose moves come in any order.
--
-- Not modelled: routing and the third-party layers; the blocking Consume; start-up of the processes;
-- the clients of the cache, Vault and the metrics; backoff, which draws a floating-point number; the
-- rest of the generated code. A handler that panics is left out but in Auth.
mod Prelude
pub mod Decorators
pub mod Domain
pub mod World
pub mod Libraries
pub mod Outbox
pub mod Queue
pub mod Publisher
pub mod Analyses
pub mod Cache
pub mod Health
pub mod Http
pub mod LinkChecker
pub mod Vault
pub mod Loader
pub mod Keys
pub mod Middleware
pub mod Server
pub mod Pipeline
pub mod Runtime
pub mod HtmlAnalyzer
pub mod Auth
pub mod WebFetcher
pub mod Subscriber
pub mod Application
pub mod Worker
pub mod Processor
mod Tests
