-- ===== src/System/Interleaved.antt =====
-- Goroutines of workers and schedulers whose library calls interleave, beside requests and changes
-- from outside.
use parallelis_distributed_e.Base.{
  ℕ, zero, suc, ◌≡◌, refl, sym, subst, none, some, List, [], ◌∷◌, ◌++◌, Str,
}
use parallelis_distributed_e.Model.{Uuid, Job}
use parallelis_distributed_e.Services.{Message, Services, World, ServiceLaws}
use parallelis_distributed_e.Lifecycle.{IsSound, Invariant, sound}
use parallelis_distributed_e.Lifecycle.Stores
use parallelis_distributed_e.Lifecycle.Stores.{Everywhere}
use parallelis_distributed_e.System.{Config, Step}
use parallelis_distributed_e.System.Soundness.{Step-Everywhere}
use parallelis_distributed_e.System.Threads.{Thread, begun, polling, advance, drive}
use parallelis_distributed_e.System.Keeping.{AllHold, advance-Keeps}

module _ ⦃S : Services⦄ (laws : ServiceLaws S) (c : Config) where
  -- Goroutines and the world. A goroutine starts with any message, or with a poll, at any time; any
  -- of them makes its next call; or the system makes a step of another kind.
  pub data Turn : List Thread → World → List Thread → World → Type 0 where
    deliver : {ts : List Thread} {w : World} (msg : Message) → Turn ts w (begun msg ∷ ts) w
    poll : {ts : List Thread} {w : World} → Turn ts w (polling ∷ ts) w
    call :
        {w : World} (before : List Thread) (t : Thread) (after : List Thread) (ts us : List Thread)
        → ts ≡ before ++ t ∷ after
        → us ≡ before ++ (advance c.cache t w).0 ∷ after
        → Turn ts w us (advance c.cache t w).1
    outside : {ts : List Thread} {w u : World} → Step laws c w u → Turn ts w ts u

  pub data Runs (v : World) : List Thread → World → Type 0 where
    start : Runs v [] v
    turn : {ts us : List Thread} {w u : World} → Runs v ts w → Turn ts w us u → Runs v us u

  -- One goroutine of several makes some calls in a row.
  pub drives :
      {v : World} (n : ℕ) (before : List Thread) (t : Thread) (after : List Thread) {w : World}
      → Runs v (before ++ t ∷ after) w
      → Runs v (before ++ (drive c.cache n t w).0 ∷ after) (drive c.cache n t w).1
  unfolding drive
  drives zero before t after r = r
  drives (suc n) before t after r =
      drives n before _ after (turn r (call before t after _ _ refl refl))

module _ ⦃S : Services⦄ (laws : ServiceLaws S) (c : Config) {P : Job → Type 0}
    {Fresh : Uuid → Type 0} (inv : Invariant P Fresh) where
  -- One goroutine of several makes a call.
  middle_keeps :
      (before after : List Thread) (t : Thread) (w : World)
      → Everywhere laws inv w
      → AllHold P (before ++ t ∷ after)
      → Everywhere laws inv (advance c.cache t w).1
        × AllHold P (before ++ (advance c.cache t w).0 ∷ after)
  middle_keeps [] after t w good (h, hs) =
      let (kept, held) = advance-Keeps laws c inv t w (good, h) in (kept, (held, hs))
  middle_keeps (s ∷ before) after t w good (h, hs) =
      let (kept, held) = middle_keeps before after t w good hs in (kept, (h, held))

  turn_keeps :
      {ts us : List Thread} {w u : World}
      → Turn laws c ts w us u
      → Everywhere laws inv w × AllHold P ts
      → Everywhere laws inv u × AllHold P us
  turn_keeps (deliver msg) (good, hs) = (good, (tt, hs))
  turn_keeps poll (good, hs) = (good, (tt, hs))
  turn_keeps (call before t after ts us e f) (good, hs) =
      let (kept, held) = middle_keeps before after t _ good (subst (AllHold P) e hs) in
      (kept, subst (AllHold P) (sym f) held)
  turn_keeps (outside s) (good, hs) = (Step-Everywhere laws c inv s good, hs)

  pub runs_keep :
      {v w : World} {ts : List Thread}
      → Runs laws c v ts w
      → Everywhere laws inv v
      → Everywhere laws inv w × AllHold P ts
  runs_keep start good = (good, tt)
  runs_keep (turn r s) good = turn_keeps s (runs_keep r good)

module _ ⦃S : Services⦄ (laws : ServiceLaws S) (c : Config) where
  -- Let goroutines of workers and of schedulers, any number of each, make their library calls in any
  -- order, with requests and losses of cache keys in between. If the database of the first world has
  -- no row and its cache no string, then at every moment every row is sound: its retry budget is 3,
  -- it has a time to run at, its status is not FAILED, a PENDING or RUNNING job has fewer attempts
  -- than the budget, a DEAD_LETTER job has not, and a COMPLETED or DEAD_LETTER job has its completion
  -- time.
  pub interleaved_rows :
      {v w : World} {ts : List Thread}
      → ((id : Uuid) → laws.database.row v.tables id ≡ none)
      → ((key : Str) → laws.cache.value v.store key ≡ none)
      → Runs laws c v ts w
      → (id : Uuid) (j : Job) → laws.database.row w.tables id ≡ some j
      → IsSound j
  interleaved_rows no_rows no_keys r =
      (runs_keep laws c sound r
        (Stores.Everywhere-empty laws sound no_rows no_keys (λ n. tt))).0.rows
