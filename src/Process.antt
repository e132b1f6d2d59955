-- ===== src/Process.antt =====
-- The package process: what happens to a block between the observer and the publishers.
pub mod LockKeys
pub mod Interface
pub mod EventsInterceptor
pub mod EventsHandler
pub mod Preprocess
pub mod PayloadHandler
pub mod Publisher
