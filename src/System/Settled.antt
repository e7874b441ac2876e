-- ===== src/System/Settled.antt =====
-- For what the workers have fetched they have called CommitMessages, or have it in their hands.
use parallelis_distributed_e.Base.{
  length, ℕ, zero, suc, ◌+◌, ◌≤◌, ◌≡◌, refl, sym, ap, ◌∙◌, subst, Bool, true, false, List, [], ◌∷◌,
  ◌++◌, arith,
}
use parallelis_distributed_e.Services.{Message, Services, World, ServiceLaws, QueueTrace}
use parallelis_distributed_e.System.{Config, Step}
use parallelis_distributed_e.System.Pool.{
  Loop, started, step_loop, stop, held_by, held, committed_by, fetched_by, count,
}
use parallelis_distributed_e.System.Traces.{fetched-step_loop, asked-step_loop}
use parallelis_distributed_e.System.Hands.{held_by-step_loop, count-append, length-held_by}

module _ ⦃S : Services⦄ (laws : ServiceLaws S) (trace : QueueTrace S.queue) (c : Config)
    (concurrency : ℕ) where
  -- Runs of the loops of `concurrency` goroutines from a world: whether the stop channel is closed,
  -- the loops, the messages that the calls of FetchMessage by these goroutines have returned and
  -- those with which they have called CommitMessages, as the trace of the queue has it, and the
  -- world. Any loop makes its next step at any time, the worker is stopped, or the system makes a
  -- step of another kind.
  pub data Running (v : World)
      : Bool → List Loop → List Message → List Message → World → Type 0 where
    start : Running v false (started concurrency) [] [] v
    turn :
        {closed : Bool} {fetched asked : List Message} {w : World} (before : List Loop) (l : Loop)
        (after : List Loop) (ls ms : List Loop) (fs ks : List Message)
        → ls ≡ before ++ l ∷ after
        → ms ≡ before ++ (step_loop c.cache closed l w).0 ∷ after
        → trace.fetched (step_loop c.cache closed l w).1.broker ≡ fs ++ trace.fetched w.broker
        → trace.asked (step_loop c.cache closed l w).1.broker ≡ ks ++ trace.asked w.broker
        → Running v closed ls fetched asked w
        → Running v closed ms (fs ++ fetched) (ks ++ asked) (step_loop c.cache closed l w).1
    stopping :
        {ls : List Loop} {fetched asked : List Message} {w : World}
        → Running v false ls fetched asked w
        → Running v true ls fetched asked (stop w).1
    outside :
        {closed : Bool} {ls : List Loop} {fetched asked : List Message} {w u : World}
        → Running v closed ls fetched asked w
        → Step laws c w u
        → Running v closed ls fetched asked u

  module _ (p : Message → Bool) where
    count-held :
        (before : List Loop) (l : Loop) (after : List Loop)
        → count p (held (before ++ l ∷ after))
          ≡ count p (held_by l) + count p (held (before ++ after))
    count-held [] l after = count-append c.cache p (held_by l) (held after)
    count-held (k ∷ before) l after = ground (
      arith,
      count-append c.cache p (held_by k) (held (before ++ l ∷ after)),
      count-append c.cache p (held_by k) (held (before ++ after)),
      count-held before l after,
    )

    step_count :
        (closed : Bool) (l : Loop) (w : World)
        → count p (fetched_by l w) + count p (held_by l)
          ≡ count p (committed_by l) + count p (held_by (step_loop c.cache closed l w).0)
    step_count closed l w =
        sym (count-append c.cache p (fetched_by l w) (held_by l))
        ∙ ap (count p) (held_by-step_loop c.cache closed l w)
        ∙ count-append c.cache p (committed_by l) _

    same_count : (ms ns rest : List Message) → ms ++ rest ≡ ns ++ rest → count p ms ≡ count p ns
    same_count ms ns rest e =
        omega
          (arith, ap (count p) e, count-append c.cache p ms rest, count-append c.cache p ns rest)

    turn_count :
        (closed : Bool) (before : List Loop) (l : Loop) (after : List Loop)
        (fetched asked fs ks : List Message) (w : World)
        → trace.fetched (step_loop c.cache closed l w).1.broker ≡ fs ++ trace.fetched w.broker
        → trace.asked (step_loop c.cache closed l w).1.broker ≡ ks ++ trace.asked w.broker
        → count p fetched ≡ count p asked + count p (held (before ++ l ∷ after))
        → count p (fs ++ fetched)
          ≡ count p (ks ++ asked)
            + count p (held (before ++ (step_loop c.cache closed l w).0 ∷ after))
    turn_count closed before l after fetched asked fs ks w f k e =
        let l' = (step_loop c.cache closed l w).0 in
        let took =
          same_count fs (fetched_by l w) _ (sym f ∙ fetched-step_loop trace c.cache closed l w) in
        let gave =
          same_count ks (committed_by l) _ (sym k ∙ asked-step_loop trace c.cache closed l w) in
        let taken = count-append c.cache p fs fetched in
        let given = count-append c.cache p ks asked in
        let was = count-held before l after in
        let is = count-held before l' after in
        let step = step_count closed l w in rw (taken, given, is) (omega arith)

    held-started : (n : ℕ) → count p (held (started n)) ≡ 0
    unfolding started
    held-started zero = refl
    held-started (suc n) = held-started n

    settled :
        {v w : World} {closed : Bool} {ls : List Loop} {fetched asked : List Message}
        → Running v closed ls fetched asked w
        → count p fetched ≡ count p asked + count p (held ls)
    settled start = omega (arith, held-started concurrency)
    settled
          (turn {closed = closed} {fetched = old} {asked = past} {w = w} before l after ls ms fs ks
            e f took gave r) =
        subst (λ xs. count p (fs ++ old) ≡ count p (ks ++ past) + count p (held xs)) (sym f)
          (turn_count closed before l after old past fs ks w took gave
            (subst (λ xs. count p old ≡ count p past + count p (held xs)) e (settled r)))
    settled (stopping r) = settled r
    settled (outside r s) = settled r

  length-append_messages : (ms ns : List Message) → length (ms ++ ns) ≡ length ms + length ns
  length-append_messages [] ns = omega arith
  length-append_messages (msg ∷ ms) ns = rw (length-append_messages ms ns) (omega arith)

  length-held : (ls : List Loop) → length (held ls) ≤ length ls
  length-held [] = omega arith
  length-held (l ∷ ls) = omega (
    arith,
    length-append_messages (held_by l) (held ls),
    length-held_by c.cache l,
    length-held ls,
  )

  length-replaced :
      (before : List Loop) (k l : Loop) (after : List Loop)
      → length (before ++ k ∷ after) ≡ length (before ++ l ∷ after)
  length-replaced [] k l after = refl
  length-replaced (m ∷ before) k l after = rw (length-replaced before k l after) refl

  length-started : (n : ℕ) → length (started n) ≡ n
  unfolding started
  length-started zero = refl
  length-started (suc n) = rw (length-started n) refl

  pub length-Running :
      {v w : World} {closed : Bool} {ls : List Loop} {fetched asked : List Message}
      → Running v closed ls fetched asked w
      → length ls ≡ concurrency
  length-Running start = length-started concurrency
  length-Running (turn before l after ls ms fs ks e f took gave r) =
      ap length f ∙ length-replaced before _ l after ∙ sym (ap length e) ∙ length-Running r
  length-Running (stopping r) = length-Running r
  length-Running (outside r s) = length-Running r

  -- Let the goroutines of a worker make their steps in any order, with the worker stopped once
  -- at any time and all else of the system in between, and whatever the libraries answer. Then every
  -- message that their calls of FetchMessage returned has been returned as often as they have called
  -- CommitMessages with it or have it in their hands, by any test of messages, and the goroutines
  -- hold together no more messages than there are goroutines.
  pub fetched_settled :
      {v w : World} {closed : Bool} {ls : List Loop} {fetched asked : List Message}
      → Running v closed ls fetched asked w
      → ((p : Message → Bool) → count p fetched ≡ count p asked + count p (held ls))
        × (length (held ls) ≤ concurrency)
  fetched_settled {ls = ls} r =
      (λ p. settled p r, subst (λ n. length (held ls) ≤ n) (length-Running r) (length-held ls))
