-- ===== src/JobWorker/Loop.antt =====
-- What the loop of a worker does to the queue.
use parallelis_distributed_e.Base.{ℕ, zero, suc, ◌≡◌, refl, ap, ◌∙◌, Result, ok, err}
use parallelis_distributed_e.Services.{Message, Services, World}
use parallelis_distributed_e.CacheService.{CacheService}
use parallelis_distributed_e.JobWorker.{consume_fetched, consume_loop}
use parallelis_distributed_e.JobWorker.Acknowledge.{broker-process_job}

module _ ⦃S : Services⦄ where
  -- A message that was fetched is committed.
  unfoldable pub committed : Result Message → S.queue.Broker → S.queue.Broker
  committed (err e) b = b
  committed (ok msg) b = (S.queue.commit_message msg b).1

  -- Fetching a message and committing it, so many times.
  unfoldable pub fetch_and_commit : ℕ → S.queue.Broker → S.queue.Broker
  fetch_and_commit zero b = b
  fetch_and_commit (suc n) b =
      fetch_and_commit n (committed (S.queue.fetch_message b).0 (S.queue.fetch_message b).1)

  broker-consume_fetched :
      (cs : CacheService) (r : Result Message) (w : World)
      → (consume_fetched cs r w).1.broker ≡ committed r w.broker
  unfolding consume_fetched committed
  broker-consume_fetched cs (err e) w = refl
  broker-consume_fetched cs (ok msg) w = broker-process_job cs msg w

  -- Whatever the database and the cache answer, so many rounds of the loop of a worker make the same
  -- calls of the queue as fetching a message and committing it, so many times: each message that is
  -- fetched is committed once, before the next is fetched, and nothing else is.
  pub broker-consume_loop :
      (cs : CacheService) (n : ℕ) (w : World)
      → (consume_loop cs n w).1.broker ≡ fetch_and_commit n w.broker
  unfolding consume_loop fetch_and_commit
  broker-consume_loop cs zero w = refl
  broker-consume_loop cs (suc n) w =
      broker-consume_loop cs n _ ∙ ap (fetch_and_commit n) (broker-consume_fetched cs _ _)
