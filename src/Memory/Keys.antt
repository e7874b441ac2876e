-- ===== src/Memory/Keys.antt =====
-- Strings and hashes in memory, and a flag that says whether commands fail. Nothing expires by
-- itself.
use parallelis_distributed_e.Base.{
  ℕ, ◌++◌, true, sym, ap, ◌∙◌, subst, inl, inr, Bool-cases, ◌≡◌, refl, ◌⊎◌, Bool, ◌&&◌, Option,
  none, some, List, [], ◌∷◌, Memᴰ, Str, bytes, Result, ok, err, str_eq, str_eq→eq, str_eq_refl,
  add_int, lt_int, starts_with, if◌then◌else◌, arith,
}
use parallelis_distributed_e.Model.{Duration}
use parallelis_distributed_e.Services.{
  Reply, found, absent, broken, PipelineCommand, hset, expire, Redis, CacheLaws,
}

pub record Store : Type 0 where
  pub strings : List (Str × Str)
  pub hashes : List (Str × Str × ℕ)
  pub texts : List (Str × Str × Str)
  pub down : Bool

abbrev pub lookup_text : List (Str × Str) → Str → Option Str
lookup_text [] k = none
lookup_text ((j, v) ∷ m) k = if str_eq j k then some v else lookup_text m k

abbrev pub without : Str → List (Str × Str) → List (Str × Str)
without k [] = []
without k ((j, v) ∷ m) = let rest = without k m in if str_eq j k then rest else (j, v) ∷ rest

abbrev pub without_all : List Str → List (Str × Str) → List (Str × Str)
without_all [] m = m
without_all (k ∷ ks) m = without k (without_all ks m)

abbrev pub lookup_hash : List (Str × Str × ℕ) → Str → Str → Option ℕ
lookup_hash [] k f = none
lookup_hash ((j, g, n) ∷ m) k f = if str_eq j k && str_eq g f then some n else lookup_hash m k f

abbrev pub without_hash : Str → List (Str × Str × ℕ) → List (Str × Str × ℕ)
without_hash k [] = []
without_hash k ((j, g, n) ∷ m) =
    let rest = without_hash k m in if str_eq j k then rest else (j, g, n) ∷ rest

abbrev pub without_hashes : List Str → List (Str × Str × ℕ) → List (Str × Str × ℕ)
without_hashes [] m = m
without_hashes (k ∷ ks) m = without_hash k (without_hashes ks m)

abbrev pub lookup_field : List (Str × Str × Str) → Str → Str → Option Str
lookup_field [] k f = none
lookup_field ((j, g, v) ∷ m) k f = if str_eq j k && str_eq g f then some v else lookup_field m k f

-- A pattern is a prefix and a star.
abbrev pub prefix_of : Str → Str
prefix_of [] = []
prefix_of (c ∷ []) = []
prefix_of (c ∷ d ∷ p) = c ∷ prefix_of (d ∷ p)

abbrev pub keys_with : Str → List (Str × Str) → List Str
keys_with p [] = []
keys_with p ((k, v) ∷ m) = let rest = keys_with p m in if starts_with p k then k ∷ rest else rest

lookup-without :
    (k l : Str) (m : List (Str × Str))
    → lookup_text (without k m) l ≡ (if str_eq k l then none else lookup_text m l)
lookup-without k l [] = ground arith
lookup-without k l ((j, v) ∷ m) = ground (
  arith,
  lookup-without k l m,
  str_eq→eq k l,
  str_eq→eq j k,
  str_eq→eq j l,
  str_eq_refl k,
  str_eq_refl l,
)

lookup-without-some :
    (k l v : Str) (m : List (Str × Str))
    → lookup_text (without k m) l ≡ some v
    → lookup_text m l ≡ some v
lookup-without-some k l v m e = ground (arith, lookup-without k l m)

lookup-without_all :
    (ks : List Str) (l v : Str) (m : List (Str × Str))
    → lookup_text (without_all ks m) l ≡ some v
    → lookup_text m l ≡ some v
lookup-without_all [] l v m e = e
lookup-without_all (k ∷ ks) l v m e =
    lookup-without_all ks l v m (lookup-without-some k l v (without_all ks m) e)

lookup-without_self :
    (ks : List Str) (l : Str) (m : List (Str × Str))
    → Memᴰ l ks
    → lookup_text (without_all ks m) l ≡ none
lookup-without_self [] l m at = elim at [ ]
lookup-without_self (k ∷ ks) l m (Memᴰ.head q) =
    rw (lookup-without k l (without_all ks m)) (rw (← q) (rw (str_eq_refl l)))
lookup-without_self (k ∷ ks) l m (Memᴰ.tail at) =
    ground (arith, lookup-without k l (without_all ks m), lookup-without_self ks l m at)

pub lookup-without_hash_all :
    (k l g : Str) (m : List (Str × Str × ℕ))
    → lookup_hash (without_hash k m) l g ≡ (if str_eq k l then none else lookup_hash m l g)
lookup-without_hash_all k l g [] = ground arith
lookup-without_hash_all k l g ((j, f, n) ∷ m) = ground (
  arith,
  lookup-without_hash_all k l g m,
  str_eq→eq k l,
  str_eq→eq j k,
  str_eq→eq j l,
  str_eq_refl k,
  str_eq_refl l,
)

-- One command, without its failure.
abbrev pub run_command : PipelineCommand → Store → Store
run_command (hset k f n) s = record s { hashes = (k, f, n) ∷ s.hashes }
run_command (expire k d) s = if lt_int 0 d then s else record s { hashes = without_hash k s.hashes }

abbrev pub run_commands : List PipelineCommand → Store → Store
run_commands [] s = s
run_commands (c ∷ cs) s = run_commands cs (run_command c s)

abbrev pub found_or_absent : Option Str → Reply
found_or_absent none = absent
found_or_absent (some v) = found v

abbrev pub number_or_error : Option ℕ → Result ℕ
number_or_error none = err (bytes "redis: nil")
number_or_error (some n) = ok n

abbrev pub number_or_zero : Option ℕ → ℕ
number_or_zero none = 0
number_or_zero (some n) = n

abbrev pub refused : Str
refused = bytes "connection refused"

abbrev pub keys : Redis
keys = record {
  Store = Store;
  get = λ k s. (if s.down then broken refused else found_or_absent (lookup_text s.strings k), s);
  set = λ k v d s.
      if s.down then (some refused, s) else (none, record s { strings = (k, v) ∷ s.strings });
  del = λ ks s. if s.down then (some refused, s) else (
    none,
    record s { strings = without_all ks s.strings; hashes = without_hashes ks s.hashes },
  );
  keys = λ p s. (if s.down then err refused else ok (keys_with (prefix_of p) s.strings), s);
  hget_int =
      λ k f s. (if s.down then err refused else number_or_error (lookup_hash s.hashes k f), s);
  hset_text = λ k f v s.
      if s.down then (some refused, s) else (none, record s { texts = (k, f, v) ∷ s.texts });
  hget_text =
      λ k f s. (if s.down then broken refused else found_or_absent (lookup_field s.texts k f), s);
  ping = λ s. (if s.down then some refused else none, s);
  hincr_by = λ k f n s. if s.down then (some refused, s) else (
    none,
    record s { hashes = (k, f, add_int (number_or_zero (lookup_hash s.hashes k f)) n) ∷ s.hashes },
  );
  exec = λ cs s. if s.down then (some refused, s) else (none, run_commands cs s);
}

strings-run_commands :
    (cs : List PipelineCommand) (s : Store) → (run_commands cs s).strings ≡ s.strings
strings-run_commands [] s = refl
strings-run_commands (hset k f n ∷ cs) s = strings-run_commands cs _
strings-run_commands (expire k d ∷ cs) s =
    ground (arith, strings-run_commands cs (run_command (expire k d) s))

abbrev pub value : Store → Str → Option Str
value s k = lookup_text s.strings k

pub get_sound : (k v : Str) (s : Store) → (keys.get k s).0 ≡ found v → value s k ≡ some v
get_sound k v s e = ground arith

pub value-set :
    (k u l v : Str) (d : Duration) (s : Store)
    → value (keys.set k u d s).1 l ≡ some v
    → ((l ≡ k) × (v ≡ u)) ⊎ (value s l ≡ some v)
value-set k u l v d s e = ground (arith, str_eq→eq k l)

pub value-set_ok :
    (k u v : Str) (d : Duration) (s : Store)
    → (keys.set k u d s).0 ≡ none
    → value (keys.set k u d s).1 k ≡ some v
    → v ≡ u
value-set_ok k u v d s done e = ground (arith, str_eq_refl k)

pub value-del :
    (ks : List Str) (l v : Str) (s : Store)
    → value (keys.del ks s).1 l ≡ some v
    → value s l ≡ some v
value-del ks l v s e = ground (arith, lookup-without_all ks l v s.strings)

pub value-del_ok :
    (ks : List Str) (l : Str) (s : Store)
    → (keys.del ks s).0 ≡ none
    → Memᴰ l ks
    → value (keys.del ks s).1 l ≡ none
value-del_ok ks l s done m = ground (arith, lookup-without_self ks l s.strings m)

pub value-hincr_by :
    (k f l v : Str) (n : ℕ) (s : Store)
    → value (keys.hincr_by k f n s).1 l ≡ some v
    → value s l ≡ some v
value-hincr_by k f l v n s e = ground arith

pub value-exec :
    (cs : List PipelineCommand) (l v : Str) (s : Store)
    → value (keys.exec cs s).1 l ≡ some v
    → value s l ≡ some v
value-exec cs l v s e = ground (arith, strings-run_commands cs s)

mem-keys_with :
    (p l v : Str) (m : List (Str × Str))
    → starts_with p l ≡ true
    → lookup_text m l ≡ some v
    → Memᴰ l (keys_with p m)
mem-keys_with p l v [] fits e = cc
mem-keys_with p l v ((k, u) ∷ m) fits e = elim (Bool-cases (str_eq k l)) [
  | inl same ↦
      let here : k ≡ l = str_eq→eq k l same in
      let shown : starts_with p k ≡ true = ap (starts_with p) here ∙ fits in
      rw shown (Memᴰ.head (sym here))
  | inr apart ↦
      let later : Memᴰ l (keys_with p m) = mem-keys_with p l v m fits (ground arith) in
      elim (Bool-cases (starts_with p k)) [
        | inl shown ↦ rw shown (Memᴰ.tail later)
        | inr off ↦ rw off later
      ]
]

pub prefix_of-star : (p : Str) → prefix_of (p ++ b'*' ∷ []) ≡ p
prefix_of-star [] = refl
prefix_of-star (c ∷ []) = refl
prefix_of-star (c ∷ d ∷ p) = ap (λ q. c ∷ q) (prefix_of-star (d ∷ p))

pub keys_complete :
    (p l v : Str) (ks : List Str) (s : Store)
    → (keys.keys (p ++ b'*' ∷ []) s).0 ≡ ok ks
    → starts_with p l ≡ true
    → value (keys.keys (p ++ b'*' ∷ []) s).1 l ≡ some v
    → Memᴰ l ks
keys_complete p l v ks s e fits held = elim (Bool-cases s.down) [
  | inl down ↦ ground arith
  | inr up ↦
      let all : keys_with p s.strings ≡ ks = ground (arith, prefix_of-star p) in
      subst (Memᴰ l) all (mem-keys_with p l v s.strings fits held)
]

abbrev pub keys_laws : CacheLaws keys
keys_laws = record {
  value = value;
  get_sound = get_sound;
  value-get = λ k l v s e. e;
  value-set = value-set;
  value-set_ok = value-set_ok;
  value-del = value-del;
  value-del_ok = value-del_ok;
  value-hget = λ k f l v s e. e;
  value-hincr_by = value-hincr_by;
  value-exec = value-exec;
  value-keys = λ p l v s e. e;
  keys_complete = λ p l v ks s plain. keys_complete p l v ks s;
}
