-- ===== src/Services.antt =====
-- What the program calls and does not implement, as one parameter, and the state that a run
-- threads through these calls.
mod Database
mod Cache
mod Queue
mod Monad
mod Laws
pub use Database.{
  Condition, all_rows, id_is, client_id_is, status_is, scheduled_at_le, updated_at_lt, both, Order,
  unordered, scheduled_at_asc, Query, matches, Gorm, Stored, stamped, on_update, on_create,
}
pub use Cache.{Reply, found, absent, broken, PipelineCommand, hset, expire, Redis}
pub use Queue.{Message, Kafka}
pub use Monad.{
  Services, World, Exec, ◌>>=◌, ◌>>◌, pure, now, new_uuid, on_database, on_cache, on_queue,
}
pub use Laws.{
  written, CounterLaws, SeparationLaws, QueueLaws, got, QueueTrace, DatabaseLaws, CacheLaws,
  CodecLaws, ServiceLaws,
}
