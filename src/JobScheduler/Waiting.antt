-- ===== src/JobScheduler/Waiting.antt =====
-- The messages that a poll has written, among those that the workers have still to fetch.
use parallelis_distributed_e.Base.{◌≡◌, refl, sym, subst, none, List, [], ◌∷◌, ◌++◌, Memᴰ, Str}
use parallelis_distributed_e.Services.{Message, Services, QueueLaws}
use parallelis_distributed_e.JobScheduler.Poll.{publish_all}

mem_middle :
    (v x : Str) (before after : List Str) → Memᴰ v (before ++ after) → Memᴰ v (before ++ x ∷ after)
mem_middle v x [] after m = Memᴰ.tail m
mem_middle v x (u ∷ before) after (Memᴰ.head e) = Memᴰ.head e
mem_middle v x (u ∷ before) after (Memᴰ.tail m) = Memᴰ.tail (mem_middle v x before after m)

mem_inserted : (x : Str) (before after : List Str) → Memᴰ x (before ++ x ∷ after)
mem_inserted x [] after = Memᴰ.head refl
mem_inserted x (u ∷ before) after = Memᴰ.tail (mem_inserted x before after)

module _ ⦃S : Services⦄ (queue : QueueLaws S.queue)
    (queue_up : (m : Message) (b : S.queue.Broker) → (S.queue.write_message m b).0 ≡ none) where
  open queue use {waiting}

  -- A write puts its message among those to be fetched, and removes none.
  written_waits :
      (m : Message) (b : S.queue.Broker)
      → Memᴰ m.value (waiting (S.queue.write_message m b).1)
        × ((v : Str) → Memᴰ v (waiting b) → Memᴰ v (waiting (S.queue.write_message m b).1))
  written_waits m b =
      let (before, after, was, is) = queue.waiting-write m b (queue_up m b) in
      (
        subst (Memᴰ m.value) (sym is) (mem_inserted m.value before after),
        λ v old.
            subst (Memᴰ v) (sym is) (mem_middle v m.value before after (subst (Memᴰ v) was old)),
      )

  still_waits :
      (ms : List Message) (v : Str) (b : S.queue.Broker)
      → Memᴰ v (waiting b)
      → Memᴰ v (waiting (publish_all ms b))
  unfolding publish_all
  still_waits [] v b m = m
  still_waits (x ∷ ms) v b m = still_waits ms v _ ((written_waits x b).1 v m)

  pub published_waits :
      (ms : List Message) (m : Message) (b : S.queue.Broker)
      → Memᴰ m ms
      → Memᴰ m.value (waiting (publish_all ms b))
  unfolding publish_all
  published_waits [] m b at = elim at [ ]
  published_waits (x ∷ ms) m b (Memᴰ.head e) = still_waits ms m.value _ (
      subst (λ (y : Message). Memᴰ m.value (waiting (S.queue.write_message y b).1)) e
        (written_waits m b).0)
  published_waits (x ∷ ms) m b (Memᴰ.tail at) = published_waits ms m _ at
