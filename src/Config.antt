-- ===== src/Config.antt =====
-- config/KafkaConsumerConfig.go, config/KafkaProducerConfig.go, config/RedisConfig.go: what the
-- program reads of its environment, and the settings that it hands to the Kafka and Redis libraries.
pub mod Numbers
pub mod Json
pub mod Topics
use parallelis_distributed_e.Base.{
  ℕ, ◌*◌, ◌++◌, Option, none, some, List, [], ◌∷◌, Str, bytes, str_eq, mul_int, if◌then◌else◌,
}
use parallelis_distributed_e.Model.{Duration, second}
use parallelis_distributed_e.Strconv.{atoi, format_int}

-- `os.Getenv`: empty for a variable that is not set.
abbrev pub Environment : Type 0
Environment = Str → Str

unfoldable pub text_or : Str → Str → Str
text_or default text = if str_eq text [] then default else text

unfoldable pub parsed_or : ℕ → Option ℕ → ℕ
parsed_or default none = default
parsed_or default (some n) = n

-- A number, or the default if the variable is empty or `Atoi` fails.
unfoldable pub number_or : ℕ → Str → ℕ
number_or default text = if str_eq text [] then default else parsed_or default (atoi text)

-- `GetBootstrapServers`
unfoldable pub get_bootstrap_servers : Environment → Str
get_bootstrap_servers env = text_or (bytes "localhost:9092") (env (bytes "KAFKA_BOOTSTRAP_SERVERS"))

-- `GetConsumerGroupID`
unfoldable pub get_consumer_group_id : Environment → Str
get_consumer_group_id env = text_or (bytes "job-workers") (env (bytes "KAFKA_CONSUMER_GROUP_ID"))

-- `GetJobQueueTopic`
unfoldable pub get_job_queue_topic : Environment → Str
get_job_queue_topic env = text_or (bytes "job-queue") (env (bytes "KAFKA_TOPIC_JOB_QUEUE"))

-- `GetPartitions`
unfoldable pub get_partitions : Environment → ℕ
get_partitions env = number_or 16 (env (bytes "KAFKA_TOPIC_PARTITIONS"))

-- `GetReplicationFactor`
unfoldable pub get_replication_factor : Environment → ℕ
get_replication_factor env = number_or 1 (env (bytes "KAFKA_TOPIC_REPLICATION_FACTOR"))

-- `GetRedisHost`
unfoldable pub get_redis_host : Environment → Str
get_redis_host env = text_or (bytes "localhost") (env (bytes "REDIS_HOST"))

-- `GetRedisPort`
unfoldable pub get_redis_port : Environment → ℕ
get_redis_port env = number_or 6379 (env (bytes "REDIS_PORT"))

-- `fmt.Sprintf("%s:%d", GetRedisHost(), GetRedisPort())`
unfoldable pub redis_address : Environment → Str
redis_address env = get_redis_host env ++ bytes ":" ++ format_int (get_redis_port env)

-- `kafka.ReaderConfig`, as far as it is filled in; it starts at the first offset.
pub record ReaderConfig : Type 0 where
  pub brokers : List Str
  pub topic : Str
  pub group_id : Str
  pub min_bytes : ℕ
  pub max_wait : Duration
  pub session_timeout : Duration
  pub heartbeat_interval : Duration
  pub max_attempts : ℕ

-- `NewKafkaConsumerReader`, up to the call of the library
unfoldable pub new_kafka_consumer_reader : Environment → Str → ReaderConfig
new_kafka_consumer_reader env topic = record {
  brokers = get_bootstrap_servers env ∷ [];
  topic = topic;
  group_id = get_consumer_group_id env;
  min_bytes = 1;
  max_wait = 500 * 1000000;
  session_timeout = 30 * second;
  heartbeat_interval = 10 * second;
  max_attempts = 3;
}

-- `kafka.TopicConfig`
pub record TopicConfig : Type 0 where
  pub topic : Str
  pub num_partitions : ℕ
  pub replication_factor : ℕ

-- The topic that `CreateTopicIfNotExists` asks for
unfoldable pub topic_config : Environment → TopicConfig
topic_config env = record {
  topic = get_job_queue_topic env;
  num_partitions = get_partitions env;
  replication_factor = get_replication_factor env;
}

-- The constants of the library that the writer is set up with.
pub data RequiredAcks : Type 0 where
  require_all : RequiredAcks

pub data Compression : Type 0 where
  gzip : Compression

pub data Balancer : Type 0 where
  least_bytes : Balancer

-- `kafka.Writer`, as far as it is filled in
pub record WriterConfig : Type 0 where
  pub addr : Str
  pub topic : Str
  pub required_acks : RequiredAcks
  pub max_attempts : ℕ
  pub compression : Compression
  pub balancer : Balancer
  pub write_timeout : Duration

-- `NewKafkaProducerWriter`, up to the connection
unfoldable pub new_kafka_producer_writer : Environment → WriterConfig
new_kafka_producer_writer env = record {
  addr = get_bootstrap_servers env;
  topic = get_job_queue_topic env;
  required_acks = require_all;
  max_attempts = 3;
  compression = gzip;
  balancer = least_bytes;
  write_timeout = 10 * second;
}
