-- ===== src/Rabbit.antt =====
-- rabbitmq: the client with its publishing loop, and the publisher that uses it.
pub mod Client
pub mod Publisher
