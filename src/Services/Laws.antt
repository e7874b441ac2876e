-- ===== src/Services/Laws.antt =====
-- What the program relies on of the libraries that it calls, as documented; each law is read off a
-- view of the library's state that the program does not have.
use parallelis_distributed_e.Base.{
  str_eq, ◌&&◌, ◌+◌, ◌<◌, lt_int, sign_bit, err, [], ◌∷◌, ℕ, Bool, not, ◌||◌, ◌++◌, starts_with,
  ◌==◌, ◌≡◌, ◌⊎◌, true, false, Option, none, some, List, Memᴰ, Str, Result, ok, if◌then◌else◌,
}
use parallelis_distributed_e.Model.{Duration, Uuid, Job}
use parallelis_distributed_e.Services.Database.{Condition, Query, matches, Gorm, Stored}
use parallelis_distributed_e.Services.Cache.{found, PipelineCommand, hset, expire, Redis}
use parallelis_distributed_e.Services.Queue.{Message, Kafka}
use parallelis_distributed_e.Services.Monad.{Services}

-- The table as a map by primary key, which a row has. A failed write is rolled back; a query shows only rows that
-- match, and all of them; reading changes no row.
pub record DatabaseLaws (D : Gorm) : Type 0 where
  pub row : D.Tables → Uuid → Option Job
  pub row_id : (t : D.Tables) (id : Uuid) (j : Job) → row t id ≡ some j → j.id ≡ id
  pub save_stored : (j : Job) (t : D.Tables) → Stored j (D.save j t).0.1
  -- Times are as the column keeps them: readings of the clock are taken at whole microseconds.
  pub row-save_ok :
      (j : Job) (t : D.Tables) (id : Uuid)
      → (D.save j t).0.0 ≡ none
      → row (D.save j t).1 id
        ≡ (if (D.save j t).0.1.id == id then some (D.save j t).0.1 else row t id)
  pub row-save_err :
      (j : Job) (t : D.Tables) (id : Uuid) (e : Str)
      → (D.save j t).0.0 ≡ some e
      → row (D.save j t).1 id ≡ row t id
  pub first_sound :
      (c : Condition) (t : D.Tables) (j : Job)
      → (D.first c t).0 ≡ ok j
      → (row t j.id ≡ some j) × (matches c j ≡ true)
  pub row-first : (c : Condition) (t : D.Tables) (id : Uuid) → row (D.first c t).1 id ≡ row t id
  pub find_sound :
      (q : Query) (t : D.Tables) (js : List Job) (j : Job)
      → (D.find q t).0 ≡ ok js
      → Memᴰ j js
      → (row t j.id ≡ some j) × (matches q.condition j ≡ true)
  pub find_complete :
      (q : Query) (t : D.Tables) (js : List Job) (j : Job)
      → (D.find q t).0 ≡ ok js
      → row t j.id ≡ some j
      → matches q.condition j ≡ true
      → Memᴰ j js
  pub row-find : (q : Query) (t : D.Tables) (id : Uuid) → row (D.find q t).1 id ≡ row t id
  pub row-count : (c : Condition) (t : D.Tables) (id : Uuid) → row (D.count c t).1 id ≡ row t id

-- A pattern of `Keys` without special bytes, which stands for itself: no `*`, `?`, `[` or `\\`.
abbrev pub is_literal : Str → Bool
is_literal [] = true
is_literal (c ∷ p) = not (c == 42 || c == 63 || c == 91 || c == 92) && is_literal p

-- The keys that hold strings. A key can be lost at any time (expiry, eviction), and a write that
-- reports an error may have been made or not.
pub record CacheLaws (R : Redis) : Type 0 where
  pub value : R.Store → Str → Option Str
  pub get_sound : (k v : Str) (s : R.Store) → (R.get k s).0 ≡ found v → value s k ≡ some v
  pub value-get : (k l v : Str) (s : R.Store) → value (R.get k s).1 l ≡ some v → value s l ≡ some v
  pub value-set :
      (k u l v : Str) (d : Duration) (s : R.Store)
      → value (R.set k u d s).1 l ≡ some v
      → ((l ≡ k) × (v ≡ u)) ⊎ (value s l ≡ some v)
  pub value-set_ok :
      (k u v : Str) (d : Duration) (s : R.Store)
      → (R.set k u d s).0 ≡ none
      → value (R.set k u d s).1 k ≡ some v
      → v ≡ u
  pub value-del :
      (ks : List Str) (l v : Str) (s : R.Store)
      → value (R.del ks s).1 l ≡ some v
      → value s l ≡ some v
  pub value-del_ok :
      (ks : List Str) (l : Str) (s : R.Store)
      → (R.del ks s).0 ≡ none
      → Memᴰ l ks
      → value (R.del ks s).1 l ≡ none
  pub value-hget :
      (k f l v : Str) (s : R.Store) → value (R.hget_int k f s).1 l ≡ some v → value s l ≡ some v
  pub value-hincr_by :
      (k f l v : Str) (n : ℕ) (s : R.Store)
      → value (R.hincr_by k f n s).1 l ≡ some v
      → value s l ≡ some v
  pub value-exec :
      (cs : List PipelineCommand) (l v : Str) (s : R.Store)
      → value (R.exec cs s).1 l ≡ some v
      → value s l ≡ some v
  pub value-keys :
      (p l v : Str) (s : R.Store) → value (R.keys p s).1 l ≡ some v → value s l ≡ some v
  -- A prefix and a star ask for every key with the prefix.
  pub keys_complete :
      (p l v : Str) (ks : List Str) (s : R.Store)
      → is_literal p ≡ true
      → (R.keys (p ++ b'*' ∷ []) s).0 ≡ ok ks
      → starts_with p l ≡ true
      → value (R.keys (p ++ b'*' ∷ []) s).1 l ≡ some v
      → Memᴰ l ks

-- `encoding/json` reads back the job that it wrote, and package uuid the identifier.
pub record CodecLaws (S : Services) : Type 0 where
  pub unmarshal-marshal : (j : Job) (text : Str) → S.marshal j ≡ ok text → S.unmarshal text ≡ ok j
  pub parse_uuid-uuid_text : (id : Uuid) → S.parse_uuid (S.uuid_text id) ≡ ok id

pub record ServiceLaws (S : Services) : Type 0 where
  pub database : DatabaseLaws S.database
  pub cache : CacheLaws S.cache
  pub codec : CodecLaws S

-- A hash field after a pipeline's commands. `EXPIRE` of a time that is not positive deletes the key.
abbrev pub written : List PipelineCommand → Str → Str → Option ℕ → Option ℕ
written [] l g o = o
written (hset k f n ∷ cs) l g o = written cs l g (if str_eq k l && str_eq f g then some n else o)
written (expire k d ∷ cs) l g o =
    written cs l g (if str_eq k l && not (lt_int 0 d) then none else o)

-- Redis as the rate limiter counts on it while it is up: the number that a hash field holds.
pub record CounterLaws (R : Redis) : Type 0 where
  pub field : R.Store → Str → Str → Option ℕ
  pub hget_present :
      (k f : Str) (n : ℕ) (s : R.Store) → field s k f ≡ some n → (R.hget_int k f s).0 ≡ ok n
  pub hget_missing :
      (k f : Str) (s : R.Store) → field s k f ≡ none → (e : Str) × ((R.hget_int k f s).0 ≡ err e)
  pub field-hget : (k f l g : Str) (s : R.Store) → field (R.hget_int k f s).1 l g ≡ field s l g
  -- Only where the sum is known to fit; else the reply is an error.
  pub field-hincr_by :
      (k f : Str) (n m : ℕ) (s : R.Store)
      → field s k f ≡ some m
      → m + n < sign_bit
      → field (R.hincr_by k f n s).1 k f ≡ some (m + n)
  pub field-hincr_by_other :
      (k f l g : Str) (n : ℕ) (s : R.Store)
      → str_eq k l && str_eq f g ≡ false
      → field (R.hincr_by k f n s).1 l g ≡ field s l g
  pub field-exec :
      (cs : List PipelineCommand) (l g : Str) (s : R.Store)
      → field (R.exec cs s).1 l g ≡ written cs l g (field s l g)

-- The hash fields beside the other commands, which reach a key only by its name: `SET` and `DEL` of
-- other keys leave them alone, and `KEYS` lists only what fits. `HGET` and the rest are above.
pub record SeparationLaws (R : Redis) (counters : CounterLaws R) : Type 0 where
  pub field-get :
      (k l g : Str) (s : R.Store) → counters.field (R.get k s).1 l g ≡ counters.field s l g
  pub field-set :
      (k v l g : Str) (d : Duration) (s : R.Store)
      → str_eq k l ≡ false
      → counters.field (R.set k v d s).1 l g ≡ counters.field s l g
  pub field-del :
      (ks : List Str) (l g : Str) (s : R.Store)
      → (Memᴰ l ks → ⊥)
      → counters.field (R.del ks s).1 l g ≡ counters.field s l g
  pub field-keys :
      (p l g : Str) (s : R.Store) → counters.field (R.keys p s).1 l g ≡ counters.field s l g
  pub keys_sound :
      (p l : Str) (ks : List Str) (s : R.Store)
      → is_literal p ≡ true
      → (R.keys (p ++ b'*' ∷ []) s).0 ≡ ok ks
      → Memᴰ l ks
      → starts_with p l ≡ true

-- The topic as the worker's reader sees it: the values that it has still to fetch, in the order in
-- which it will. A new message comes anywhere among them, since partitions are read side by side.
pub record QueueLaws (Q : Kafka) : Type 0 where
  pub waiting : Q.Broker → List Str
  pub waiting-write :
      (m : Message) (b : Q.Broker)
      → (Q.write_message m b).0 ≡ none
      → (before : List Str) × (after : List Str) × (waiting b ≡ before ++ after)
        × (waiting (Q.write_message m b).1 ≡ before ++ m.value ∷ after)
  pub fetch_next :
      (v : Str) (vs : List Str) (b : Q.Broker)
      → waiting b ≡ v ∷ vs
      → (m : Message) × ((Q.fetch_message b).0 ≡ ok m)
        × (m.value ≡ v)
        × (waiting (Q.fetch_message b).1 ≡ vs)
  pub waiting-commit : (m : Message) (b : Q.Broker) → waiting (Q.commit_message m b).1 ≡ waiting b

abbrev pub got : Result Message → List Message
got (err e) = []
got (ok msg) = msg ∷ []

-- A queue that keeps a trace of its calls, the last ones first: the messages that FetchMessage
-- returned, and those that CommitMessages was called with, whether it succeeded or not. Any queue
-- can be given one (Memory/Traced).
pub record QueueTrace (Q : Kafka) : Type 0 where
  pub fetched : Q.Broker → List Message
  pub asked : Q.Broker → List Message
  pub fetched-write : (m : Message) (b : Q.Broker) → fetched (Q.write_message m b).1 ≡ fetched b
  pub asked-write : (m : Message) (b : Q.Broker) → asked (Q.write_message m b).1 ≡ asked b
  pub fetched-fetch :
      (b : Q.Broker) → fetched (Q.fetch_message b).1 ≡ got (Q.fetch_message b).0 ++ fetched b
  pub asked-fetch : (b : Q.Broker) → asked (Q.fetch_message b).1 ≡ asked b
  pub fetched-commit : (m : Message) (b : Q.Broker) → fetched (Q.commit_message m b).1 ≡ fetched b
  pub asked-commit : (m : Message) (b : Q.Broker) → asked (Q.commit_message m b).1 ≡ m ∷ asked b
