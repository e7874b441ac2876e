-- ===== src/System/Pool.antt =====
-- The goroutines of `JobWorker`: `Start`, `Stop`, and the loops of all workers at the same time.
use parallelis_distributed_e.Base.{
  ℕ, zero, suc, ◌+◌, Bool, List, [], ◌∷◌, ◌++◌, Result, ok, err, if◌then◌else◌,
}
use parallelis_distributed_e.Services.{
  got, Message, Services, World, Exec, ◌>>=◌, ◌>>◌, pure, on_queue,
}
use parallelis_distributed_e.CacheService.{CacheService}
use parallelis_distributed_e.System.Threads.{
  Thread, begun, missed, loaded, taken, failing, outdated, uncached, committing, polling, queued,
  sent, ended, advance,
}

-- Where the loop of a worker stands: before the test of the stop channel, before the fetch, in
-- `processJob`, or at its end.
pub data Loop : Type 0 where
  checking fetching : Loop
  handling : Thread → Loop
  stopped : Loop

unfoldable pub after_fetch : Result Message → Loop
after_fetch (err e) = checking
after_fetch (ok msg) = handling (begun msg)

unfoldable pub after_advance : Thread → Loop
after_advance ended = checking
after_advance t = handling t

-- `Start`: the loops of so many goroutines.
unfoldable pub started : ℕ → List Loop
started zero = []
started (suc n) = checking ∷ started n

module _ ⦃S : Services⦄ where
  -- The next step of a loop, with the stop channel closed or not.
  unfoldable pub step_loop : CacheService → Bool → Loop → Exec Loop
  step_loop cs closed checking = pure (if closed then stopped else fetching)
  step_loop cs closed fetching = do
    fetched ← on_queue S.queue.fetch_message
    pure (after_fetch fetched)
  step_loop cs closed (handling t) = do t' ← advance cs t; pure (after_advance t')
  step_loop cs closed stopped = pure stopped

  -- `Stop`, beside the closing of the channel
  unfoldable pub stop : Exec (Unit {0})
  stop = do on_queue S.queue.close; pure tt

-- The message that a goroutine has and has not committed.
abbrev pub in_hand : Thread → List Message
in_hand (begun msg) = msg ∷ []
in_hand (missed msg id) = msg ∷ []
in_hand (loaded msg job) = msg ∷ []
in_hand (taken msg job) = msg ∷ []
in_hand (failing msg message job) = msg ∷ []
in_hand (outdated msg job) = msg ∷ []
in_hand (uncached msg job) = msg ∷ []
in_hand (committing msg) = msg ∷ []
in_hand polling = []
in_hand (queued jobs) = []
in_hand (sent job jobs) = []
in_hand ended = []

abbrev pub held_by : Loop → List Message
held_by checking = []
held_by fetching = []
held_by (handling t) = in_hand t
held_by stopped = []

abbrev pub held : List Loop → List Message
held [] = []
held (l ∷ ls) = held_by l ++ held ls

-- The message that the next step of a loop is about to commit.
abbrev pub committed_by : Loop → List Message
committed_by (handling (committing msg)) = msg ∷ []
committed_by l = []

-- How many of the messages pass a test.
abbrev pub count : (Message → Bool) → List Message → ℕ
count p [] = 0
count p (msg ∷ ms) = (if p msg then 1 else 0) + count p ms

module _ ⦃S : Services⦄ where
  abbrev pub fetched_by : Loop → World → List Message
  fetched_by fetching w = got (S.queue.fetch_message w.broker).0
  fetched_by l w = []
