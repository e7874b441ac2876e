-- ===== src/Config/Topics.antt =====
-- config/KafkaProducerConfig.go: the creation of the topic.
use parallelis_distributed_e.Base.{
  ℕ, ◌≡◌, refl, ◌∙◌, Option, some, List, [], ◌∷◌, Str, Result, ok, err,
}
use parallelis_distributed_e.Strconv.{format_int}
use parallelis_distributed_e.Config.{Environment, TopicConfig, topic_config, get_bootstrap_servers}

-- The connections of kafka-go, and `net.JoinHostPort`; `Net` is the state of the network.
pub record KafkaAdmin : Type 1 where
  pub Net : Type 0
  pub Conn : Type 0
  pub dial : Str → Net → Result Conn × Net
  pub controller : Conn → Net → Result (Str × ℕ) × Net
  pub create_topics : List TopicConfig → Conn → Net → Option Str × Net
  pub close : Conn → Net → Net
  pub join_host_port : Str → Str → Str

module _ (A : KafkaAdmin) (env : Environment) where
  open A use {Net, Conn}

  -- The connection to the controller, that is closed at the end.
  unfoldable pub with_controller : Result Conn × Net → Option Str × Net
  with_controller (err e, n) = (some e, n)
  with_controller (ok conn, n) =
      let (failure, n') = A.create_topics (topic_config env ∷ []) conn n in
      (failure, A.close conn n')

  unfoldable pub at_controller : Result (Str × ℕ) × Net → Option Str × Net
  at_controller (err e, n) = (some e, n)
  at_controller (ok (host, port), n) =
      with_controller (A.dial (A.join_host_port host (format_int port)) n)

  -- The connection to the bootstrap server, that is closed at the end.
  unfoldable pub with_bootstrap : Result Conn × Net → Option Str × Net
  with_bootstrap (err e, n) = (some e, n)
  with_bootstrap (ok conn, n) =
      let (failure, n') = at_controller (A.controller conn n) in (failure, A.close conn n')

  -- `CreateTopicIfNotExists`
  unfoldable pub create_topic_if_not_exists : Net → Option Str × Net
  create_topic_if_not_exists n = with_bootstrap (A.dial (get_bootstrap_servers env) n)

-- The connections that are open, the last first.
pub record AdminLaws (A : KafkaAdmin) : Type 0 where
  pub opened : A.Net → List A.Conn
  pub opened-dial_ok :
      (a : Str) (n : A.Net) (c : A.Conn)
      → (A.dial a n).0 ≡ ok c
      → opened (A.dial a n).1 ≡ c ∷ opened n
  pub opened-dial_err :
      (a : Str) (n : A.Net) (e : Str) → (A.dial a n).0 ≡ err e → opened (A.dial a n).1 ≡ opened n
  pub opened-controller : (c : A.Conn) (n : A.Net) → opened (A.controller c n).1 ≡ opened n
  pub opened-create_topics :
      (ts : List TopicConfig) (c : A.Conn) (n : A.Net)
      → opened (A.create_topics ts c n).1 ≡ opened n
  pub opened-close :
      (c : A.Conn) (cs : List A.Conn) (n : A.Net) → opened n ≡ c ∷ cs → opened (A.close c n) ≡ cs

module _ (A : KafkaAdmin) (laws : AdminLaws A) (env : Environment) where
  open laws use {opened}

  -- What the answer to a dial says of the connections.
  Dialled : A.Net → Result A.Conn × A.Net → Type 0
  Dialled n (err e, n') = opened n' ≡ opened n
  Dialled n (ok c, n') = opened n' ≡ c ∷ opened n

  dialled :
      (a : Str) (n : A.Net) (r : Result A.Conn) → (A.dial a n).0 ≡ r → Dialled n (r, (A.dial a n).1)
  unfolding Dialled
  dialled a n (err e) answer = laws.opened-dial_err a n e answer
  dialled a n (ok c) answer = laws.opened-dial_ok a n c answer

  opened-with_controller :
      (n : A.Net) (d : Result A.Conn × A.Net)
      → Dialled n d
      → opened (with_controller A env d).1 ≡ opened n
  unfolding with_controller Dialled
  opened-with_controller n (err e, n') h = h
  opened-with_controller n (ok c, n') h =
      laws.opened-close c (opened n) _ (laws.opened-create_topics (topic_config env ∷ []) c n' ∙ h)

  opened-at_controller :
      (q : Result (Str × ℕ) × A.Net) → opened (at_controller A env q).1 ≡ opened q.1
  unfolding at_controller
  opened-at_controller (err e, n) = refl
  opened-at_controller (ok (host, port), n) =
      opened-with_controller n (A.dial (A.join_host_port host (format_int port)) n)
        (dialled (A.join_host_port host (format_int port)) n _ refl)

  opened-with_bootstrap :
      (n : A.Net) (d : Result A.Conn × A.Net)
      → Dialled n d
      → opened (with_bootstrap A env d).1 ≡ opened n
  unfolding with_bootstrap Dialled
  opened-with_bootstrap n (err e, n') h = h
  opened-with_bootstrap n (ok c, n') h =
      laws.opened-close c (opened n) _
        (opened-at_controller (A.controller c n') ∙ laws.opened-controller c n' ∙ h)

  -- Whatever the brokers answer, and whichever step fails, the creation of the topic closes every
  -- connection that it has opened, and no other.
  pub opened-create_topic_if_not_exists :
      (n : A.Net) → opened (create_topic_if_not_exists A env n).1 ≡ opened n
  unfolding create_topic_if_not_exists
  opened-create_topic_if_not_exists n =
      opened-with_bootstrap n (A.dial (get_bootstrap_servers env) n)
        (dialled (get_bootstrap_servers env) n _ refl)
