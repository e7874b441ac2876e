-- ===== src/Config/Numbers.antt =====
-- What the settings are when the environment holds printed numbers, and when it holds none.
use parallelis_distributed_e.Base.{
  ℕ, ◌++◌, ◌<◌, ◌≡◌, refl, ap, ◌∙◌, some, none, [], ◌∷◌, Str, bytes, str_eq, word_mod,
}
use parallelis_distributed_e.Strconv.{atoi, format_int}
use parallelis_distributed_e.Strconv.RoundTrip.{atoi-format_int}
use parallelis_distributed_e.Config.{
  Environment, parsed_or, number_or, get_partitions, get_replication_factor, get_redis_host,
  get_redis_port, redis_address, topic_config,
}

number_or-some : (d n : ℕ) (text : Str) → atoi text ≡ some n → number_or d text ≡ n
unfolding number_or parsed_or atoi str_eq
number_or-some d n [] e = cc
number_or-some d n (c ∷ s) e = rw e refl

pub number_or-none : (d : ℕ) (text : Str) → atoi text ≡ none → number_or d text ≡ d
unfolding number_or parsed_or str_eq
number_or-none d [] e = refl
number_or-none d (c ∷ s) e = rw e refl

-- A variable that holds a printed number is read as that number.
pub number_or-format_int :
    (d n : ℕ) (text : Str) → n < word_mod → text ≡ format_int n → number_or d text ≡ n
number_or-format_int d n text fits e = number_or-some d n text (ap atoi e ∙ atoi-format_int n fits)

-- If the environment has numbers for the partitions, the replication factor and the port of Redis,
-- as Go prints integers, then the topic is asked for with the first two, and the address of Redis
-- ends in the text of the variable.
printed_settings :
    (env : Environment) (partitions replicas port : ℕ)
    → partitions < word_mod
    → replicas < word_mod
    → port < word_mod
    → env (bytes "KAFKA_TOPIC_PARTITIONS") ≡ format_int partitions
    → env (bytes "KAFKA_TOPIC_REPLICATION_FACTOR") ≡ format_int replicas
    → env (bytes "REDIS_PORT") ≡ format_int port
    → ((topic_config env).num_partitions ≡ partitions)
      × ((topic_config env).replication_factor ≡ replicas)
      × (redis_address env ≡ get_redis_host env ++ bytes ":" ++ env (bytes "REDIS_PORT"))
unfolding topic_config get_partitions get_replication_factor redis_address get_redis_port
printed_settings env partitions replicas port p r q ep er eq = (
  number_or-format_int 16 partitions _ p ep,
  number_or-format_int 1 replicas _ r er,
  rw (number_or-format_int 6379 port _ q eq, eq) refl,
)
