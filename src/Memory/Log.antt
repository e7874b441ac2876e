-- ===== src/Memory/Log.antt =====
-- A queue in memory: the messages written, the messages committed, and a flag that says whether
-- writes fail.
use parallelis_distributed_e.Base.{
  Bool, none, some, List, [], ◌∷◌, ◌++◌, bytes, Result, ok, err, if◌then◌else◌,
}
use parallelis_distributed_e.Services.{Message, Kafka}

pub record Broker : Type 0 where
  pub published : List Message
  pub committed : List Message
  pub down : Bool

abbrev pub first_message : List Message → Result Message
first_message [] = err (bytes "no message")
first_message (m ∷ ms) = ok m

abbrev pub log : Kafka
log = record {
  Broker = Broker;
  write_message = λ m b.
      if b.down
      then (some (bytes "broker unreachable"), b)
      else (none, record b { published = b.published ++ m ∷ [] });
  fetch_message = λ b. (first_message b.published, b);
  commit_message = λ m b. (none, record b { committed = b.committed ++ m ∷ [] });
  close = λ b. (none, b);
}
