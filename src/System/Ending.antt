-- ===== src/System/Ending.antt =====
-- After `Stop` the workers come to their end.
use parallelis_distributed_e.Base.{ℕ, suc, ◌+◌, ◌≡◌, ◌≢◌, true, List, [], ◌∷◌, ◌++◌}
use parallelis_distributed_e.Services.{Message, Services, World, ServiceLaws, QueueTrace}
use parallelis_distributed_e.System.{Config, Step}
use parallelis_distributed_e.System.Pool.{Loop, stopped, step_loop}
use parallelis_distributed_e.System.Ranks.{steps_left, IsWorker}

abbrev pub AllStopped : List Loop → Type 0
AllStopped [] = Unit
AllStopped (l ∷ ls) = (l ≡ stopped) × AllStopped ls

abbrev pub AllWork : List Loop → Type 0
AllWork [] = Unit
AllWork (l ∷ ls) = IsWorker l × AllWork ls

abbrev total : List Loop → ℕ
total [] = 0
total (l ∷ ls) = steps_left l + total ls

-- There is a loop that has not stopped.
abbrev pub SomeRuns : List Loop → Type 0
SomeRuns ls =
    (before : List Loop) × (l : Loop) × (after : List Loop) × (ls ≡ before ++ l ∷ after)
    × (l ≢ stopped)

module _ ⦃S : Services⦄ (laws : ServiceLaws S) (trace : QueueTrace S.queue) (c : Config)
    (concurrency : ℕ) where
  -- So many steps of loops that have not stopped, in any order, with the stop channel closed, after
  -- a run from a world; the loops, what was fetched and for what CommitMessages was called since the start of that run, and
  -- the world. The system makes steps of other kinds in between.
  pub data Ending (v : World) (ls : List Loop) (fetched asked : List Message) (w : World)
      : ℕ → List Loop → List Message → List Message → World → Type 0 where
    shut : Ending v ls fetched asked w 0 ls fetched asked w
    move :
        {n : ℕ} {fs ks : List Message} {u : World} (before : List Loop) (l : Loop)
        (after : List Loop) (ms ns : List Loop) (gs hs : List Message)
        → ms ≡ before ++ l ∷ after
        → l ≢ stopped
        → ns ≡ before ++ (step_loop c.cache true l u).0 ∷ after
        → trace.fetched (step_loop c.cache true l u).1.broker ≡ gs ++ trace.fetched u.broker
        → trace.asked (step_loop c.cache true l u).1.broker ≡ hs ++ trace.asked u.broker
        → Ending v ls fetched asked w n ms fs ks u
        → Ending v ls fetched asked w
            (suc n)
            ns
            (gs ++ fs)
            (hs ++ ks)
            (step_loop c.cache true l u).1
    beside :
        {n : ℕ} {ms : List Loop} {fs ks : List Message} {u t : World}
        → Ending v ls fetched asked w n ms fs ks u
        → Step laws c u t
        → Ending v ls fetched asked w n ms fs ks t
