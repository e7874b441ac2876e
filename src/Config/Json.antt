-- ===== src/Config/Json.antt =====
-- config/RedisConfig.go and the Kafka configurations: the helpers that call Redis and Kafka.
use parallelis_distributed_e.Base.{
  ◌⊎◌, inl, inr, Result-cases, ◌≡◌, refl, ap, ◌∙◌, Option, some, none, [], ◌∷◌, Str, bytes, Result,
  ok, err,
}
use parallelis_distributed_e.Model.{Duration}
use parallelis_distributed_e.Services.{
  Reply, found, absent, broken, Message, Services, World, ServiceLaws, Exec, ◌>>=◌, pure, on_cache,
  on_queue,
}

module _ ⦃S : Services⦄ where
  -- `PingRedis`
  unfoldable pub ping_redis : Exec (Option Str)
  ping_redis = on_cache S.cache.ping

  -- `SetJSON` and `SetHash` after `json.Marshal`
  unfoldable pub set_data : Str → Duration → Result Str → Exec (Option Str)
  set_data key expiration (err e) = pure (some e)
  set_data key expiration (ok text) = on_cache (S.cache.set key text expiration)

  unfoldable pub set_field : Str → Str → Result Str → Exec (Option Str)
  set_field key field (err e) = pure (some e)
  set_field key field (ok text) = on_cache (S.cache.hset_text key field text)

  -- `Delete`
  unfoldable pub delete_key : Str → Exec (Option Str)
  delete_key key = on_cache (S.cache.del (key ∷ []))

  -- `SendMessage`; the writer chooses the partition.
  unfoldable pub send_message : Str → Str → Exec (Option Str)
  send_message key value =
      on_queue (S.queue.write_message (record { key = key; value = value; partition = 0 }))

  -- `CommitMessage`
  unfoldable pub commit_message : Message → Exec (Option Str)
  commit_message msg = on_queue (S.queue.commit_message msg)

-- The helpers at a type of values, with what package json does at it.
module _ ⦃S : Services⦄ {V : Type 0} (marshal : V → Result Str) (unmarshal : Str → Result V) where
  -- What `GetJSON` and `GetHash` make of a reply
  unfoldable pub decode_data : Reply → Result V
  decode_data absent = err (bytes "redis: nil")
  decode_data (broken e) = err e
  decode_data (found text) = unmarshal text

  -- `SetJSON`
  unfoldable pub set_json : Str → V → Duration → Exec (Option Str)
  set_json key value expiration = set_data key expiration (marshal value)

  -- `GetJSON`
  unfoldable pub get_json : Str → Exec (Result V)
  get_json key = do reply ← on_cache (S.cache.get key); pure (decode_data reply)

  -- `SetHash`
  unfoldable pub set_hash : Str → Str → V → Exec (Option Str)
  set_hash key field value = set_field key field (marshal value)

  -- `GetHash`
  unfoldable pub get_hash : Str → Str → Exec (Result V)
  get_hash key field = do reply ← on_cache (S.cache.hget_text key field); pure (decode_data reply)

module _ ⦃S : Services⦄ (laws : ServiceLaws S) {V : Type 0} (marshal : V → Result Str)
    (unmarshal : Str → Result V)
    (unmarshal-marshal : (v : V) (text : Str) → marshal v ≡ ok text → unmarshal text ≡ ok v) where
  decoded_value :
      (v x : V) (text : Str) (r : Reply)
      → marshal v ≡ ok text
      → ((t : Str) → r ≡ found t → t ≡ text)
      → decode_data marshal unmarshal r ≡ ok x
      → x ≡ v
  unfolding decode_data
  decoded_value v x text absent m same e = cc
  decoded_value v x text (broken b) m same e = cc
  decoded_value v x text (found t) m same e =
      cc (ap unmarshal (same t refl), unmarshal-marshal v text m, e)

  same_value :
      (key : Str) (v x : V) (expiration : Duration) (w : World)
      → (set_json marshal unmarshal key v expiration w).0 ≡ none
      → (get_json marshal unmarshal key (set_json marshal unmarshal key v expiration w).1).0 ≡ ok x
      → x ≡ v
  unfolding set_json get_json set_data
  same_value key v x expiration w done read = go (marshal v) refl done read
    where
      go :
          (r : Result Str)
          → marshal v ≡ r
          → (set_data key expiration r w).0 ≡ none
          → decode_data marshal unmarshal (S.cache.get key (set_data key expiration r w).1.store).0
            ≡ ok x
          → x ≡ v
      go (err e) m done read = cc
      go (ok text) m done read =
          decoded_value v x text _ m
            (λ t f.
              laws.cache.value-set_ok key text t expiration w.store done
                (laws.cache.get_sound key t (S.cache.set key text expiration w.store).1 f))
            read

  -- If package json reads back what it wrote, and `SetJSON` reports no error, then `GetJSON` right
  -- after it returns the value that was set, or an error.
  pub get_json-set_json :
      (key : Str) (v : V) (expiration : Duration) (w : World)
      → (set_json marshal unmarshal key v expiration w).0 ≡ none
      → let read =
          (get_json marshal unmarshal key (set_json marshal unmarshal key v expiration w).1).0 in
        (read ≡ ok v) ⊎ ((e : Str) × (read ≡ err e))
  get_json-set_json key v expiration w done =
      elim (Result-cases
        (get_json marshal unmarshal key (set_json marshal unmarshal key v expiration w).1).0) [
          | inl (x, read) ↦ inl (read ∙ ap ok (same_value key v x expiration w done read))
          | inr failed ↦ inr failed
        ]
