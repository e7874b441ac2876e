-- ===== src/Services/Queue.antt =====
-- github.com/segmentio/kafka-go, which the program calls: its writer and its reader as a parameter.
use parallelis_distributed_e.Base.{ℕ, Option, Str, Result}

pub record Message : Type 0 where
  pub key : Str
  pub value : Str
  pub partition : ℕ

pub record Kafka : Type 1 where
  pub Broker : Type 0
  pub write_message : Message → Broker → Option Str × Broker
  pub fetch_message : Broker → Result Message × Broker
  pub commit_message : Message → Broker → Option Str × Broker
  -- `Reader.Close`
  pub close : Broker → Option Str × Broker
