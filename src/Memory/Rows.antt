-- ===== src/Memory/Rows.antt =====
-- A table in memory: the latest record of an identifier counts. A list of flags says which of the
-- coming writes fail.
use parallelis_distributed_e.Base.{
  ℕ, suc, ==→eq, ◌==◌, ◌≡◌, refl, sym, ap, ◌∙◌, subst, inl, inr, Bool, true, false, not, Bool-cases,
  Option, none, some, List, [], ◌∷◌, Memᴰ, Str, bytes, Result, ok, err, if◌then◌else◌, arith,
}
use parallelis_distributed_e.Model.{Uuid, Job}
use parallelis_distributed_e.Services.{Condition, matches, Gorm, stamped, DatabaseLaws}

pub record Table : Type 0 where
  pub jobs : List Job
  pub faults : List Bool

abbrev pub lookup_row : List Job → Uuid → Option Job
lookup_row [] id = none
lookup_row (j ∷ js) id = if j.id == id then some j else lookup_row js id

abbrev pub select : (Job → Bool) → List Job → List Job
select p [] = []
select p (j ∷ js) = if p j then j ∷ select p js else select p js

-- The rows, each once.
abbrev pub visible : List Job → List Job
visible [] = []
visible (j ∷ js) = j ∷ select (λ k. not (j.id == k.id)) (visible js)

mem-select :
    (p : Job → Bool) (js : List Job) (j : Job) → Memᴰ j (select p js) → Memᴰ j js × (p j ≡ true)
mem-select p [] j m = elim m [ ]
mem-select p (k ∷ js) j m = from_test (p k) refl (mem-select p js j) m
  where
    from_test :
        (b : Bool)
        → p k ≡ b
        → (Memᴰ j (select p js) → Memᴰ j js × (p j ≡ true))
        → Memᴰ j (if b then k ∷ select p js else select p js)
        → Memᴰ j (k ∷ js) × (p j ≡ true)
    from_test true e ih (Memᴰ.head q) = (Memᴰ.head q, ap p q ∙ e)
    from_test true e ih (Memᴰ.tail n) = (Memᴰ.tail (ih n).0, (ih n).1)
    from_test false e ih n = (Memᴰ.tail (ih n).0, (ih n).1)

pub select-mem :
    (p : Job → Bool) (js : List Job) (j : Job) → Memᴰ j js → p j ≡ true → Memᴰ j (select p js)
select-mem p [] j m e = elim m [ ]
select-mem p (k ∷ js) j (Memᴰ.head q) e = rw (sym (ap p q) ∙ e) (Memᴰ.head q)
select-mem p (k ∷ js) j (Memᴰ.tail m) e = from_test (p k) (select-mem p js j m e)
  where
    from_test :
        (b : Bool) → Memᴰ j (select p js) → Memᴰ j (if b then k ∷ select p js else select p js)
    from_test true m' = Memᴰ.tail m'
    from_test false m' = m'

visible_sound : (js : List Job) (j : Job) → Memᴰ j (visible js) → lookup_row js j.id ≡ some j
visible_sound [] j m = elim m [ ]
visible_sound (k ∷ js) j (Memᴰ.head q) = ground (arith, ap (λ (x : Job). x.id) q)
visible_sound (k ∷ js) j (Memᴰ.tail m) =
    let (old, apart) = mem-select (λ i. not (k.id == i.id)) (visible js) j m in
    ground (arith, visible_sound js j old)

pub visible_complete : (js : List Job) (j : Job) → lookup_row js j.id ≡ some j → Memᴰ j (visible js)
visible_complete [] j e = cc
visible_complete (k ∷ js) j e = elim (Bool-cases (k.id == j.id)) [
  | inl same ↦ Memᴰ.head (ground arith)
  | inr apart ↦ Memᴰ.tail (
      select-mem (λ i. not (k.id == i.id)) (visible js) j (visible_complete js j (ground arith))
        (ground arith))
]

pub same_list : (js ks : List Job) (j : Job) → ok ks ≡ ok js → Memᴰ j js → Memᴰ j ks
same_list js ks j e m = subst (Memᴰ j) (cc) m

abbrev pub save : Job → Table → (Option Str × Job) × Table
save j t = elim t.faults [
  | [] ↦ ((none, j), record t { jobs = j ∷ t.jobs })
  | false ∷ fs ↦ ((none, j), record { jobs = j ∷ t.jobs; faults = fs })
  | true ∷ fs ↦ ((some (bytes "connection reset"), j), record t { faults = fs })
]

abbrev pub head_or_missing : List Job → Result Job
head_or_missing [] = err (bytes "record not found")
head_or_missing (j ∷ js) = ok j

abbrev pub rows_of : Condition → Table → List Job
rows_of c t = select (matches c) (visible t.jobs)

abbrev pub count_rows : List Job → ℕ
count_rows [] = 0
count_rows (j ∷ js) = suc (count_rows js)

abbrev pub rows : Gorm
rows = record {
  Tables = Table;
  save = save;
  first = λ c t. (head_or_missing (rows_of c t), t);
  find = λ q t. (ok (rows_of q.condition t), t);
  count = λ c t. (ok (count_rows (rows_of c t)), t);
  delete = λ j t. (none, record t { jobs = select (λ k. not (j.id == k.id)) t.jobs });
}

pub row_id : (js : List Job) (id : Uuid) (j : Job) → lookup_row js id ≡ some j → j.id ≡ id
row_id [] id j e = cc
row_id (k ∷ js) id j e = ground (arith, row_id js id j, ==→eq k.id id)

abbrev pub row : Table → Uuid → Option Job
row t id = lookup_row t.jobs id

pub rows_of_sound :
    (c : Condition) (t : Table) (j : Job)
    → Memᴰ j (rows_of c t)
    → (row t j.id ≡ some j) × (matches c j ≡ true)
rows_of_sound c t j m =
    let (shown, fits) = mem-select (matches c) (visible t.jobs) j m in
    (visible_sound t.jobs j shown, fits)

pub head_sound : (js : List Job) (j : Job) → head_or_missing js ≡ ok j → Memᴰ j js
head_sound [] j e = cc
head_sound (k ∷ js) j e = Memᴰ.head (ground arith)

pub row-save_ok :
    (j : Job) (js : List Job) (faults : List Bool) (id : Uuid)
    → (save j (record { jobs = js; faults = faults })).0.0 ≡ none
    → row (save j (record { jobs = js; faults = faults })).1 id ≡ (
        if (save j (record { jobs = js; faults = faults })).0.1.id == id
        then some (save j (record { jobs = js; faults = faults })).0.1
        else lookup_row js id)
row-save_ok j js [] id e = refl
row-save_ok j js (false ∷ fs) id e = refl
row-save_ok j js (true ∷ fs) id e = cc

pub row-save_err :
    (j : Job) (js : List Job) (faults : List Bool) (id : Uuid) (m : Str)
    → (save j (record { jobs = js; faults = faults })).0.0 ≡ some m
    → row (save j (record { jobs = js; faults = faults })).1 id ≡ lookup_row js id
row-save_err j js [] id m e = cc
row-save_err j js (false ∷ fs) id m e = cc
row-save_err j js (true ∷ fs) id m e = refl

pub save_same :
    (j : Job) (js : List Job) (faults : List Bool)
    → j ≡ (save j (record { jobs = js; faults = faults })).0.1
save_same j js [] = refl
save_same j js (false ∷ fs) = refl
save_same j js (true ∷ fs) = refl

abbrev pub rows_laws : DatabaseLaws rows
rows_laws = record {
  row = row;
  row_id = λ t id j e. row_id t.jobs id j e;
  save_stored = λ j t. stamped j.created_at j.updated_at (sym (save_same j t.jobs t.faults));
  row-save_ok = λ j t. row-save_ok j t.jobs t.faults;
  row-save_err = λ j t. row-save_err j t.jobs t.faults;
  first_sound = λ c t j e. rows_of_sound c t j (head_sound (rows_of c t) j e);
  row-first = λ c t id. refl;
  find_sound =
      λ q t js j e m. rows_of_sound q.condition t j (same_list js (rows_of q.condition t) j e m);
  find_complete = λ q t js j e r fits.
      same_list (rows_of q.condition t) js j (sym e)
        (select-mem (matches q.condition) (visible t.jobs) j (visible_complete t.jobs j r) fits);
  row-find = λ q t id. refl;
  row-count = λ c t id. refl;
}
