-- ===== src/Examples/Order.antt =====
-- A database in memory that answers ordered queries in order.
use parallelis_distributed_e.Base.{
  ◌≤◌, ◌≡◌, ◌⊎◌, inl, inr, refl, sym, subst, true, false, Bool-cases, none, some, List, [], ◌∷◌,
  Memᴰ, Str, ok, err, leb, if◌then◌else◌, arith,
}
use parallelis_distributed_e.Model.{Time, Job}
use parallelis_distributed_e.Services.{
  Query, Order, unordered, scheduled_at_asc, Gorm, DatabaseLaws, Services, ServiceLaws, World,
}
use parallelis_distributed_e.Memory.{Table, memory, memory_laws, empty_world}
use parallelis_distributed_e.Memory.Rows.{rows, row, rows_laws, rows_of, same_list}
use parallelis_distributed_e.JobScheduler.{schedule_jobs}
use parallelis_distributed_e.JobScheduler.Order.{InOrder, asked, Published, messages_in_order}
use parallelis_distributed_e.Examples.Runs.{waiting_job, done_job}

-- A job that has no time comes first; a query for due jobs finds none.
abbrev time_of : Job → Time
time_of j = elim j.scheduled_at [ none ↦ 0 | some t ↦ t ]

abbrev insert : Job → List Job → List Job
insert j [] = j ∷ []
insert j (k ∷ ks) =
    let rest = insert j ks in if leb (time_of j) (time_of k) then j ∷ k ∷ ks else k ∷ rest

abbrev sort : List Job → List Job
sort [] = []
sort (j ∷ js) = insert j (sort js)

insert-mem : (j k : Job) (ks : List Job) → Memᴰ k (insert j ks) → (k ≡ j) ⊎ Memᴰ k ks
insert-mem j k [] (Memᴰ.head e) = inl e
insert-mem j k [] (Memᴰ.tail m) = elim m [ ]
insert-mem j k (i ∷ ks) m = elim (Bool-cases (leb (time_of j) (time_of i))) [
  | inl early ↦ first (subst (λ b. Memᴰ k (if b then j ∷ i ∷ ks else i ∷ insert j ks)) early m)
  | inr late ↦
      later (subst (λ b. Memᴰ k (if b then j ∷ i ∷ ks else i ∷ insert j ks)) late m)
        (insert-mem j k ks)
]
  where
    first : Memᴰ k (j ∷ i ∷ ks) → (k ≡ j) ⊎ Memᴰ k (i ∷ ks)
    first (Memᴰ.head e) = inl e
    first (Memᴰ.tail n) = inr n

    later :
        Memᴰ k (i ∷ insert j ks)
        → (Memᴰ k (insert j ks) → (k ≡ j) ⊎ Memᴰ k ks)
        → (k ≡ j) ⊎ Memᴰ k (i ∷ ks)
    later (Memᴰ.head e) ih = inr (Memᴰ.head e)
    later (Memᴰ.tail n) ih = elim (ih n) [ inl e ↦ inl e | inr o ↦ inr (Memᴰ.tail o) ]

mem-insert : (j k : Job) (ks : List Job) → (k ≡ j) ⊎ Memᴰ k ks → Memᴰ k (insert j ks)
mem-insert j k [] (inl e) = Memᴰ.head e
mem-insert j k [] (inr m) = elim m [ ]
mem-insert j k (i ∷ ks) m = elim (Bool-cases (leb (time_of j) (time_of i))) [
  | inl early ↦
      subst (λ b. Memᴰ k (if b then j ∷ i ∷ ks else i ∷ insert j ks)) (sym early) (first m)
  | inr late ↦
      subst (λ b. Memᴰ k (if b then j ∷ i ∷ ks else i ∷ insert j ks)) (sym late)
        (later m (mem-insert j k ks))
]
  where
    first : (k ≡ j) ⊎ Memᴰ k (i ∷ ks) → Memᴰ k (j ∷ i ∷ ks)
    first (inl e) = Memᴰ.head e
    first (inr n) = Memᴰ.tail n

    later :
        (k ≡ j) ⊎ Memᴰ k (i ∷ ks)
        → ((k ≡ j) ⊎ Memᴰ k ks → Memᴰ k (insert j ks))
        → Memᴰ k (i ∷ insert j ks)
    later (inl e) ih = Memᴰ.tail (ih (inl e))
    later (inr (Memᴰ.head e)) ih = Memᴰ.head e
    later (inr (Memᴰ.tail n)) ih = Memᴰ.tail (ih (inr n))

sort-mem : (k : Job) (js : List Job) → Memᴰ k (sort js) → Memᴰ k js
sort-mem k [] m = m
sort-mem k (j ∷ js) m = elim (insert-mem j k (sort js) m) [
  | inl e ↦ Memᴰ.head e
  | inr n ↦ Memᴰ.tail (sort-mem k js n)
]

mem-sort : (k : Job) (js : List Job) → Memᴰ k js → Memᴰ k (sort js)
mem-sort k [] m = m
mem-sort k (j ∷ js) (Memᴰ.head e) = mem-insert j k (sort js) (inl e)
mem-sort k (j ∷ js) (Memᴰ.tail m) = mem-insert j k (sort js) (inr (mem-sort k js m))

-- The times of a list rise.
abbrev Rising : List Job → Type 0
Rising [] = Unit
Rising (j ∷ js) = ((k : Job) → Memᴰ k js → time_of j ≤ time_of k) × Rising js

insert-Rising : (j : Job) (ks : List Job) → Rising ks → Rising (insert j ks)
insert-Rising j [] h = (λ k m. elim m [ ], tt)
insert-Rising j (i ∷ ks) (low, up) = elim (Bool-cases (leb (time_of j) (time_of i))) [
  | inl early ↦
      subst (λ b. Rising (if b then j ∷ i ∷ ks else i ∷ insert j ks)) (sym early) (above early)
  | inr late ↦
      subst (λ b. Rising (if b then j ∷ i ∷ ks else i ∷ insert j ks)) (sym late)
        (below late (insert-Rising j ks up))
]
  where
    at_most : (x : Job) (k : Job) → time_of x ≤ time_of i → Memᴰ k (i ∷ ks) → time_of x ≤ time_of k
    at_most x k le (Memᴰ.head e) = subst (λ y. time_of x ≤ time_of y) (sym e) le
    at_most x k le (Memᴰ.tail m) = let below = low k m in omega arith

    above : leb (time_of j) (time_of i) ≡ true → Rising (j ∷ i ∷ ks)
    above e = (λ k m. at_most j k (ground arith) m, (low, up))

    lowest :
        leb (time_of j) (time_of i) ≡ false
        → (k : Job) → (k ≡ j) ⊎ Memᴰ k ks
        → time_of i ≤ time_of k
    lowest e k (inl p) = subst (λ y. time_of i ≤ time_of y) (sym p) (ground arith)
    lowest e k (inr m) = low k m

    below : leb (time_of j) (time_of i) ≡ false → Rising (insert j ks) → Rising (i ∷ insert j ks)
    below e ih = (λ k m. lowest e k (insert-mem j k ks m), ih)

sort-Rising : (js : List Job) → Rising (sort js)
sort-Rising [] = tt
sort-Rising (j ∷ js) = insert-Rising j (sort js) (sort-Rising js)

timed : (j : Job) (s : Time) → j.scheduled_at ≡ some s → time_of j ≡ s
timed j s e = rw e refl

Rising-InOrder : (js : List Job) → Rising js → InOrder js
Rising-InOrder [] h = tt
Rising-InOrder (j ∷ js) (low, up) = (
  λ k s t m p q. let le = low k m in let a = timed j s p in let b = timed k t q in omega arith,
  Rising-InOrder js up,
)

abbrev arranged : Order → List Job → List Job
arranged unordered js = js
arranged scheduled_at_asc js = sort js

mem-arranged : (o : Order) (k : Job) (js : List Job) → Memᴰ k js → Memᴰ k (arranged o js)
mem-arranged unordered k js m = m
mem-arranged scheduled_at_asc k js m = mem-sort k js m

arranged-mem : (o : Order) (k : Job) (js : List Job) → Memᴰ k (arranged o js) → Memᴰ k js
arranged-mem unordered k js m = m
arranged-mem scheduled_at_asc k js m = sort-mem k js m

abbrev ordered_rows : Gorm
ordered_rows = record rows { find = λ q t. (ok (arranged q.order (rows_of q.condition t)), t) }

abbrev ordered_rows_laws : DatabaseLaws ordered_rows
ordered_rows_laws = record {
  row = row;
  row_id = rows_laws.row_id;
  save_stored = rows_laws.save_stored;
  row-save_ok = rows_laws.row-save_ok;
  row-save_err = rows_laws.row-save_err;
  first_sound = rows_laws.first_sound;
  row-first = rows_laws.row-first;
  find_sound = λ q t js j e m. rows_laws.find_sound q t (rows_of q.condition t) j refl (
      arranged-mem q.order j (rows_of q.condition t)
        (same_list js (arranged q.order (rows_of q.condition t)) j e m));
  find_complete = λ q t js j e r fits.
      same_list (arranged q.order (rows_of q.condition t)) js j (sym e) (
        mem-arranged q.order j (rows_of q.condition t)
          (rows_laws.find_complete q t (rows_of q.condition t) j refl r fits));
  row-find = rows_laws.row-find;
  row-count = rows_laws.row-count;
}

abbrev ordered : Services
ordered = record memory { database = ordered_rows }

abbrev ordered_laws : ServiceLaws ordered
ordered_laws = record {
  database = ordered_rows_laws;
  cache = memory_laws.cache;
  codec = record {
    unmarshal-marshal = memory_laws.codec.unmarshal-marshal;
    parse_uuid-uuid_text = memory_laws.codec.parse_uuid-uuid_text;
  };
}

rows_in_order :
    (q : Query) (t : Table) (js : List Job)
    → q.order ≡ scheduled_at_asc
    → (ordered_rows.find q t).0 ≡ ok js
    → InOrder js
rows_in_order q t js o e =
    let found = rows_of q.condition t in
    subst InOrder (ground arith) (Rising-InOrder (sort found) (sort-Rising found))

-- Two jobs are due; the later one is stored first.
abbrev later_job : Job
later_job = record waiting_job { id = 2; scheduled_at = some 2 }

abbrev first_job : Job
first_job = record waiting_job { scheduled_at = some 1 }

abbrev two_due : World ⦃S = ordered⦄
two_due = record {
  tables = record { jobs = later_job ∷ first_job ∷ record done_job { id = 3 } ∷ []; faults = [] };
  store = empty_world.store;
  broker = empty_world.broker;
  clock = empty_world.clock;
  fresh_ids = empty_world.fresh_ids;
}

messages_in_order_example :
    ((e : Str) × (asked ⦃S = ordered⦄ ordered_laws rows_in_order two_due ≡ err e)
      × ((schedule_jobs ⦃S = ordered⦄ two_due).1.broker ≡ two_due.broker))
    ⊎ ((js : List Job) × (asked ⦃S = ordered⦄ ordered_laws rows_in_order two_due ≡ ok js)
        × Published ⦃S = ordered⦄ ordered_laws rows_in_order two_due js
            (schedule_jobs ⦃S = ordered⦄ two_due).1.broker)
messages_in_order_example = messages_in_order ⦃S = ordered⦄ ordered_laws rows_in_order two_due
