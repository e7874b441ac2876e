-- ===== src/Services/Cache.antt =====
-- github.com/redis/go-redis, which the program calls: the commands of its pipeline, and the client
-- as a parameter.
use parallelis_distributed_e.Base.{ℕ, Option, List, Str, Result}
use parallelis_distributed_e.Model.{Duration}

-- The result of `Get(...).Bytes()`: `absent` is `redis.Nil`.
pub data Reply : Type 0 where
  found : Str → Reply
  absent : Reply
  broken : Str → Reply

pub data PipelineCommand : Type 0 where
  hset : Str → Str → ℕ → PipelineCommand
  expire : Str → Duration → PipelineCommand

pub record Redis : Type 1 where
  pub Store : Type 0
  pub get : Str → Store → Reply × Store
  pub set : Str → Str → Duration → Store → Option Str × Store
  pub del : List Str → Store → Option Str × Store
  pub keys : Str → Store → Result (List Str) × Store
  -- `HGet(...).Int()` and `HGet(...).Int64()`
  pub hget_int : Str → Str → Store → Result ℕ × Store
  -- `HSet(...)` of bytes and `HGet(...).Bytes()`
  pub hset_text : Str → Str → Str → Store → Option Str × Store
  pub hget_text : Str → Str → Store → Reply × Store
  pub ping : Store → Option Str × Store
  pub hincr_by : Str → Str → ℕ → Store → Option Str × Store
  -- `pipe.Exec` of the queued commands
  pub exec : List PipelineCommand → Store → Option Str × Store
