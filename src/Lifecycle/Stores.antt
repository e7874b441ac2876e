-- ===== src/Lifecycle/Stores.antt =====
-- A property of every job that the database and the cache hold, kept by each call of them.
use parallelis_distributed_e.Base.{
  ℕ, refl, ◌≡◌, ◌⊎◌, inl, inr, true, some, none, List, Memᴰ, Str, Option, Result, ok, arith, ap,
  sym, ◌∙◌, Bool, if◌then◌else◌, subst,
}
use parallelis_distributed_e.Model.{Duration, Uuid, Job}
use parallelis_distributed_e.Services.{
  Condition, Query, matches, Services, World, ServiceLaws, on_database, on_cache, found,
}
use parallelis_distributed_e.Repository.{save}
use parallelis_distributed_e.CacheService.{job_cache_key}
use parallelis_distributed_e.Lifecycle.{Invariant}

module _ ⦃S : Services⦄ (laws : ServiceLaws S) {P : Job → Type 0} {Fresh : Uuid → Type 0}
    (inv : Invariant P Fresh) where
  open laws use {database.{row}, cache.{value}}

  pub record Everywhere (w : World) : Type 0 where
    pub rows : (id : Uuid) (j : Job) → row w.tables id ≡ some j → P j
    pub cached :
        (key text : Str) (j : Job)
        → value w.store key ≡ some text
        → S.unmarshal text ≡ ok j
        → P j × (key ≡ job_cache_key j.id)
    pub fresh : (n : ℕ) → Fresh (w.fresh_ids n)

  stored_sound : (j : Job) (w : World) → P j → P (save j w).0.1
  unfolding save
  stored_sound j w h = inv.of_stored (laws.database.save_stored j w.tables) h

  pick_sound :
      (b : Bool) (j k : Job) (o : Option Job)
      → P j
      → (o ≡ some k → P k)
      → (if b then some j else o) ≡ some k
      → P k
  pick_sound true j k o h old e = subst P (ground arith) h
  pick_sound _ j k o h old e = old e

  saved_rows :
      (j : Job) (w : World) (error : Option Str)
      → (S.database.save j w.tables).0.0 ≡ error
      → P j
      → Everywhere w
      → (id : Uuid) (k : Job) → row (save j w).1.tables id ≡ some k
      → P k
  unfolding save
  saved_rows j w none done h good id k e =
      pick_sound _ _ k _ (stored_sound j w h) (good.rows id k)
        (sym (laws.database.row-save_ok j w.tables id done) ∙ e)
  saved_rows j w (some m) fails h good id k e =
      good.rows id k (sym (laws.database.row-save_err j w.tables id m fails) ∙ e)

  -- Saving a job that has the property, whether it succeeds or not.
  pub save-Everywhere :
      (j : Job) (w : World) → P j → Everywhere w → Everywhere (save j w).1 × P (save j w).0.1
  unfolding save
  save-Everywhere j w h good = (
    record {
      rows = saved_rows j w (S.database.save j w.tables).0.0 refl h good;
      cached = good.cached;
      fresh = good.fresh;
    },
    stored_sound j w h,
  )

  decoded_same : (r : Result Job) (k j : Job) → r ≡ ok k → r ≡ ok j → k ≡ j
  decoded_same r k j p q = ground arith

  set_cached :
      (key text l v : Str) (d : Duration) (j k : Job) (w : World)
      → key ≡ job_cache_key j.id
      → S.marshal j ≡ ok text
      → P j
      → Everywhere w
      → ((l ≡ key) × (v ≡ text)) ⊎ (value w.store l ≡ some v)
      → S.unmarshal v ≡ ok k
      → P k × (l ≡ job_cache_key k.id)
  set_cached key text l v d j k w named m h good (inl (at, same)) e =
      subst (λ i. P i × (l ≡ job_cache_key i.id))
        (decoded_same (S.unmarshal text) j k (laws.codec.unmarshal-marshal j text m)
          (sym (ap S.unmarshal same) ∙ e))
        (h, at ∙ named)
  set_cached key text l v d j k w named m h good (inr old) e = good.cached l v k old e

  -- Caching the text of a job that has the property, whether it succeeds or not.
  pub set-Everywhere :
      (key text : Str) (d : Duration) (j : Job) (w : World)
      → key ≡ job_cache_key j.id
      → S.marshal j ≡ ok text
      → P j
      → Everywhere w
      → Everywhere (on_cache (S.cache.set key text d) w).1
  set-Everywhere key text d j w named m h good = record {
    rows = good.rows;
    cached = λ l v k e p.
        set_cached key text l v d j k w named m h good
          (laws.cache.value-set key text l v d w.store e) p;
    fresh = good.fresh;
  }

  pub del-Everywhere :
      (keys : List Str) (w : World) → Everywhere w → Everywhere (on_cache (S.cache.del keys) w).1
  del-Everywhere keys w good = record {
    rows = good.rows;
    cached = λ l v k e p. good.cached l v k (laws.cache.value-del keys l v w.store e) p;
    fresh = good.fresh;
  }

  pub get-Everywhere :
      (key : Str) (w : World) → Everywhere w → Everywhere (on_cache (S.cache.get key) w).1
  get-Everywhere key w good = record {
    rows = good.rows;
    cached = λ l v k e p. good.cached l v k (laws.cache.value-get key l v w.store e) p;
    fresh = good.fresh;
  }

  pub found_sound :
      (key text : Str) (j : Job) (w : World)
      → Everywhere w
      → (on_cache (S.cache.get key) w).0 ≡ found text
      → S.unmarshal text ≡ ok j
      → P j × (key ≡ job_cache_key j.id)
  found_sound key text j w good e p =
      good.cached key text j (laws.cache.get_sound key text w.store e) p

  pub first-Everywhere :
      (c : Condition) (w : World) → Everywhere w → Everywhere (on_database (S.database.first c) w).1
  first-Everywhere c w good = record {
    rows = λ id j e. good.rows id j (sym (laws.database.row-first c w.tables id) ∙ e);
    cached = good.cached;
    fresh = good.fresh;
  }

  pub first_sound :
      (c : Condition) (j : Job) (w : World)
      → Everywhere w
      → (on_database (S.database.first c) w).0 ≡ ok j
      → P j
  first_sound c j w good e = good.rows j.id j (laws.database.first_sound c w.tables j e).0

  pub find-Everywhere :
      (q : Query) (w : World) → Everywhere w → Everywhere (on_database (S.database.find q) w).1
  find-Everywhere q w good = record {
    rows = λ id j e. good.rows id j (sym (laws.database.row-find q w.tables id) ∙ e);
    cached = good.cached;
    fresh = good.fresh;
  }

  pub find_sound :
      (q : Query) (js : List Job) (j : Job) (w : World)
      → Everywhere w
      → (on_database (S.database.find q) w).0 ≡ ok js
      → Memᴰ j js
      → P j × (matches q.condition j ≡ true)
  find_sound q js j w good e m =
      let (stored, fits) = laws.database.find_sound q w.tables js j e m in
      (good.rows j.id j stored, fits)

  no_text : {A : Type 0} (o : Option Str) (text : Str) → o ≡ none → o ≡ some text → A
  no_text o text p q = cc

  none_some : {A : Type 0} (o : Option Job) (j : Job) → o ≡ none → o ≡ some j → A
  none_some o j p q = cc

  -- A world whose cache has no string.
  pub Everywhere-uncached :
      {w : World}
      → ((id : Uuid) (j : Job) → row w.tables id ≡ some j → P j)
      → ((key : Str) → value w.store key ≡ none)
      → ((n : ℕ) → Fresh (w.fresh_ids n))
      → Everywhere w
  Everywhere-uncached {w} rows no_keys fresh = record {
    rows = rows;
    cached = λ key text j e p. no_text _ text (no_keys key) e;
    fresh = fresh;
  }

  pub Everywhere-empty :
      {w : World}
      → ((id : Uuid) → row w.tables id ≡ none)
      → ((key : Str) → value w.store key ≡ none)
      → ((n : ℕ) → Fresh (w.fresh_ids n))
      → Everywhere w
  Everywhere-empty {w} no_rows no_keys =
      Everywhere-uncached {w = w} (λ id j e. none_some _ j (no_rows id) e) no_keys
