-- ===== src/Queue.antt =====
-- queue/queue.py: the two in-memory queues behind one protocol. A call of a queue is given the time
-- that it reads from the clock.
pub mod Order
pub mod Simple
pub mod Map
pub mod Started
pub mod ById
pub mod Unique
pub mod Parity
