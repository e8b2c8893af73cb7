-- ===== src/Tests.antt =====
-- Concrete runs: the theorems at inputs where their hypotheses hold.
mod Data
mod Codec
mod Outbox
mod Service
mod Pages
mod Access
mod Streams
mod Endpoints
mod Config
mod Fetching
mod Urls
mod Processes
