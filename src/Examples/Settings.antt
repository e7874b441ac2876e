-- ===== src/Examples/Settings.antt =====
-- A program that is set up from an environment.
use Prim.Native.Nat.{min}
use parallelis_distributed_e.Base.{
  ◌⊎◌, none, ok, err, Result, List, ◌∷◌, Str, ap, subst, ℕ, suc, ◌+◌, ◌-◌, ◌≡◌, ◌≢◌, refl, ◌++◌,
  inl, true, [], bytes, str_eq, arith, lt_int, add_int, if◌then◌else◌,
}
use parallelis_distributed_e.Model.{unix}
use parallelis_distributed_e.Strconv.{format_int, print_digits}
use parallelis_distributed_e.Config.{Environment}
use parallelis_distributed_e.Config.Topics.{
  KafkaAdmin, AdminLaws, create_topic_if_not_exists, opened-create_topic_if_not_exists,
}
use parallelis_distributed_e.Config.Json.{set_data, set_json, get_json, get_json-set_json}
use parallelis_distributed_e.Memory.{memory, memory_laws, empty_world}
use parallelis_distributed_e.RateLimitService.{new_rate_limit_service}
use parallelis_distributed_e.RateLimitService.Quota.{allowed_count}
use parallelis_distributed_e.RateLimitService.Settings.{configured_quota}
use parallelis_distributed_e.Examples.Runs.{customer}
use parallelis_distributed_e.Examples.Variants.{steady, steady_counters}
use parallelis_distributed_e.Examples.Quota.{quiet}

abbrev variables : Environment
variables name =
    if str_eq name (bytes "RATE_LIMIT_MAX_REQUESTS")
    then bytes "3"
    else if str_eq name (bytes "RATE_LIMIT_WINDOW_SECONDS")
    then bytes "30"
    else if str_eq name (bytes "KAFKA_TOPIC_PARTITIONS")
    then bytes "8"
    else if str_eq name (bytes "KAFKA_TOPIC_REPLICATION_FACTOR")
    then bytes "3"
    else if str_eq name (bytes "REDIS_PORT")
    then bytes "7000"
    else []

not_off : variables (bytes "RATE_LIMIT_ENABLED") ≢ bytes "false"
unfolding str_eq
not_off e = cc

within_30 : (i : ℕ) → lt_int (unix (quiet.clock (suc i))) (add_int (unix (quiet.clock 0)) 30) ≡ true
unfolding lt_int unix add_int
within_30 i = refl

configured_quota_example :
    allowed_count ⦃S = steady⦄ (new_rate_limit_service variables) customer 5 quiet
    ≡ 1 + min 4 (3 - 1)
unfolding str_eq format_int print_digits
configured_quota_example =
    configured_quota ⦃S = steady⦄ steady_counters variables customer 4 3 30 quiet not_off refl refl
      (omega arith) (omega arith) (omega arith) (inl refl) within_30

abbrev rest_of : List ℕ → List ℕ
rest_of [] = []
rest_of (c ∷ cs) = cs

dialled_number : (n c : ℕ) (cs : List ℕ) → ◌≡◌ {A = Result ℕ} (ok n) (ok c) → n ∷ cs ≡ c ∷ cs
dialled_number n c cs e = ground arith

not_dialled : (n : ℕ) (e : Str) (cs : List ℕ) → ◌≡◌ {A = Result ℕ} (ok n) (err e) → n ∷ cs ≡ cs
not_dialled n e cs h = cc

-- A network where all is up, by the connections that are open and the next number.
abbrev up_net : KafkaAdmin
up_net = record {
  Net = List ℕ × ℕ;
  Conn = ℕ;
  dial = λ a n. (ok n.1, (n.1 ∷ n.0, n.1 + 1));
  controller = λ c n. (ok (bytes "broker", 9092), n);
  create_topics = λ ts c n. (none, n);
  close = λ c n. (rest_of n.0, n.1);
  join_host_port = λ h p. h ++ bytes ":" ++ p;
}

abbrev up_laws : AdminLaws up_net
up_laws = record {
  opened = λ n. n.0;
  opened-dial_ok = λ a n c e. dialled_number n.1 c n.0 e;
  opened-dial_err = λ a n e failed. not_dialled n.1 e n.0 failed;
  opened-controller = λ c n. refl;
  opened-create_topics = λ ts c n. refl;
  opened-close = λ c cs n e. ap rest_of e;
}

opened-create_topic_if_not_exists_example :
    up_laws.opened (create_topic_if_not_exists up_net variables (7 ∷ [], 8)).1 ≡ 7 ∷ []
opened-create_topic_if_not_exists_example =
    opened-create_topic_if_not_exists up_net up_laws variables (7 ∷ [], 8)

-- One byte as its own text, for package json.
abbrev one_byte : Str → Result ℕ
one_byte (n ∷ []) = ok n
one_byte _ = err (bytes "unexpected end of JSON input")

byte_back :
    (n : ℕ) (text : Str) → ◌≡◌ {A = Result Str} (ok (n ∷ [])) (ok text) → one_byte text ≡ ok n
byte_back n text e = subst (λ t. one_byte t ≡ ok n) {x = n ∷ []} (cc) refl

get_json-set_json_example :
    let read =
      (get_json
        (λ n. ok (n ∷ []))
        one_byte
        (bytes "k")
        (set_json (λ n. ok (n ∷ [])) one_byte (bytes "k") 5 0 empty_world).1).0 in
    (read ≡ ok 5) ⊎ ((e : Str) × (read ≡ err e))
unfolding set_json set_data
get_json-set_json_example =
    get_json-set_json memory_laws (λ n. ok (n ∷ [])) one_byte byte_back (bytes "k") 5 0 empty_world
      refl
