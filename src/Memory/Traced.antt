-- ===== src/Memory/Traced.antt =====
-- Any queue, with a trace of its calls beside its state.
use parallelis_distributed_e.Base.{refl, List, ◌∷◌, ◌++◌}
use parallelis_distributed_e.Services.{Message, Kafka, got, QueueTrace}

abbrev pub traced : Kafka → Kafka
traced Q = record {
  Broker = Q.Broker × List Message × List Message;
  write_message = λ m (b, fs, ks). let (r, c) = Q.write_message m b in (r, (c, fs, ks));
  fetch_message = λ (b, fs, ks). let (r, c) = Q.fetch_message b in (r, (c, got r ++ fs, ks));
  commit_message = λ m (b, fs, ks). let (r, c) = Q.commit_message m b in (r, (c, fs, m ∷ ks));
  close = λ (b, fs, ks). let (r, c) = Q.close b in (r, (c, fs, ks));
}

abbrev pub traced_trace : (Q : Kafka) → QueueTrace (traced Q)
traced_trace Q = record {
  fetched = λ b. b.1;
  asked = λ b. b.2;
  fetched-write = λ m b. refl;
  asked-write = λ m b. refl;
  fetched-fetch = λ b. refl;
  asked-fetch = λ b. refl;
  fetched-commit = λ m b. refl;
  asked-commit = λ m b. refl;
}
