-- ===== src/Examples/Variants.antt =====
-- Variants of the libraries in memory: a Redis that is always up, and what holds of a database whose
-- reads do not fail.
use parallelis_distributed_e.Base.{
  ℕ, ◌≡◌, ◌≢◌, refl, true, ◌&&◌, Option, some, none, List, [], ◌∷◌, Memᴰ, Str, bytes, ok, err,
  str_eq, str_eq_refl, add_int, add_int-small, lt_int, not, false, sign_bit, ◌+◌, ◌<◌, ap, ◌∙◌,
  arith, if◌then◌else◌,
}
use parallelis_distributed_e.Model.{Duration, Job}
use parallelis_distributed_e.Services.{
  Condition, matches, PipelineCommand, hset, expire, Redis, Services, CounterLaws, written,
}
use parallelis_distributed_e.Memory.{Table, Store, memory}
use parallelis_distributed_e.Memory.Rows.{
  rows, row, visible, select-mem, visible_complete, head_or_missing,
}
use parallelis_distributed_e.Memory.Keys.{
  keys, lookup-without_hash_all, run_command, lookup_hash, number_or_error, number_or_zero,
  run_commands,
}

pub no_success : (o : Option Str) (e : Str) (P : Type 0) → o ≡ some e → o ≡ none → P
no_success o e P p q = cc

-- Redis without a failure.
abbrev pub steady_keys : Redis
steady_keys = record keys {
  hget_int = λ k f s. (number_or_error (lookup_hash s.hashes k f), s);
  hincr_by = λ k f n s. (
    none,
    record s { hashes = (k, f, add_int (number_or_zero (lookup_hash s.hashes k f)) n) ∷ s.hashes },
  );
  exec = λ cs s. (none, run_commands cs s);
}

abbrev pub steady : Services
steady = record memory { cache = steady_keys }

abbrev pub field : Store → Str → Str → Option ℕ
field s k f = lookup_hash s.hashes k f

expired :
    (k : Str) (d : Duration) (l g : Str) (s : Store)
    → field (run_command (expire k d) s) l g
      ≡ (if str_eq k l && not (lt_int 0 d) then none else field s l g)
expired k d l g s = ground (arith, lookup-without_hash_all k l g s.hashes)

pub field-run_commands :
    (cs : List PipelineCommand) (l g : Str) (s : Store)
    → field (run_commands cs s) l g ≡ written cs l g (field s l g)
field-run_commands [] l g s = refl
field-run_commands (hset k f n ∷ cs) l g s = field-run_commands cs l g _
field-run_commands (expire k d ∷ cs) l g s =
    field-run_commands cs l g _ ∙ ap (written cs l g) (expired k d l g s)

pub hget_present :
    (k f : Str) (n : ℕ) (s : Store) → field s k f ≡ some n → (steady_keys.hget_int k f s).0 ≡ ok n
hget_present k f n s e = rw e refl

pub hget_missing :
    (k f : Str) (s : Store)
    → field s k f ≡ none
    → (e : Str) × ((steady_keys.hget_int k f s).0 ≡ err e)
hget_missing k f s e = (bytes "redis: nil", rw e refl)

pub field-hincr_by :
    (k f : Str) (n m : ℕ) (s : Store)
    → field s k f ≡ some m
    → m + n < sign_bit
    → field (steady_keys.hincr_by k f n s).1 k f ≡ some (m + n)
field-hincr_by k f n m s e fits =
    simp (str_eq_refl k, str_eq_refl f, e, add_int-small m n (omega arith))

pub field-hincr_by_other :
    (k f l g : Str) (n : ℕ) (s : Store)
    → str_eq k l && str_eq f g ≡ false
    → field (steady_keys.hincr_by k f n s).1 l g ≡ field s l g
field-hincr_by_other k f l g n s apart = rw apart refl

abbrev pub steady_counters : CounterLaws steady_keys
steady_counters = record {
  field = field;
  hget_present = hget_present;
  hget_missing = hget_missing;
  field-hget = λ k f l g s. refl;
  field-hincr_by = field-hincr_by;
  field-hincr_by_other = field-hincr_by_other;
  field-exec = λ cs l g s. field-run_commands cs l g s;
}

nothing_there : (js : List Job) (e : Str) (j : Job) → head_or_missing js ≡ err e → Memᴰ j js → ⊥
nothing_there [] e j h m = elim m [ ]
nothing_there (k ∷ js) e j h m = cc

-- In memory, a lookup fails only if no row fits.
pub memory_reads_up :
    (c : Condition) (t : Table) (e : Str) (j : Job)
    → (rows.first c t).0 ≡ err e
    → matches c j ≡ true
    → row t j.id ≢ some j
memory_reads_up c t e j failed fits stored =
    nothing_there _ e j failed
      (select-mem (matches c) (visible t.jobs) j (visible_complete t.jobs j stored) fits)
