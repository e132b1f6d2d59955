-- ===== src/Tests.antt =====
-- The theorems at concrete inputs.
mod Fixtures
mod Handler
mod Cluster
mod Subscribers
mod Payloads
mod Services
mod Rabbit
mod Publisher
mod Sockets
mod Endpoints
mod Web
mod Startup
mod Cmd
mod Bloom
mod Logs
