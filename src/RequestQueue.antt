-- ===== src/RequestQueue.antt =====
-- Request queues: the head buffer of src/storage/request-queue/buffer.ts, and over it the operations of
-- src/services/request-queues.ts.
pub mod Frontend
pub mod Buffer
pub mod Service
pub mod Paging
