-- ===== src/System/Readiness/Reached.antt =====
-- When the exporter can become ready without a further message.
use kafka_minion.Goroutines.{Schedule, concat, one_by_one}
use kafka_minion.Kafka.Consumer.Partition.{caught_up, Run, start_requests}
use kafka_minion.Kafka.Consumer.Partition.Progress.{IsQuiet, quiet-caught_up, can_report}
use kafka_minion.Kafka.Consumer.Partition.Punctual.{reports-HasCaughtUp}
use kafka_minion.Kafka.Consumer.Partition.Ready.{caught_up_known, caught_up_unknown}
use kafka_minion.Kafka.Consumer.Partition.ReadUp.{IsMark}
use kafka_minion.Kafka.Consumer.Partition.Reports.{reports, reports-append}
use kafka_minion.Kafka.Request.{StorageRequest}
use kafka_minion.Options.{Options}
use kafka_minion.Prelude.{
  some-eq, ℕ, suc, ◌+◌, ◌<◌, ◌≤◌, ◌≡◌, ◌↔◌, ◌⊎◌, inl, inr, refl, sym, ap, ◌∙◌, true, Option, none,
  some, List, [], ◌∷◌, ◌++◌, All, length, length-append, arith,
}
use kafka_minion.Prelude.Int.{ℤ, pos}
use kafka_minion.Prelude.Words.{half64}
use kafka_minion.Storage.{MemoryStorage, new_memory_storage}
use kafka_minion.Storage.Readers.{is_consumed}
use kafka_minion.Storage.Worker.{consumer_offset_worker}
use kafka_minion.System.Readiness.{
  Consumer, partitions, all_sent, CaughtUp, Punctual, consumed-All-CaughtUp,
}

-- For each partition the high water mark that is known of it.
module _ (opts : Options) (marks : ℤ → Option ℤ) where
  -- The last offset is no negative one and not the largest; nor is the mark negative, if one is known.
  abbrev pub InRange : Consumer opts → Type 0
  InRange c =
      ((o : ℕ) × (c.state.consumed_offset ≡ pos o) × (o + 1 < half64)) × IsMark (marks c.partition)

  -- The mark is known, and at most one above the last offset.
  abbrev pub IsRead : Consumer opts → Type 0
  IsRead c =
      (o v : ℕ) × (c.state.consumed_offset ≡ pos o)
      × (marks c.partition ≡ some (pos v))
      × (v ≤ o + 1)

  -- The consumer has reported, or has read up to its mark.
  abbrev pub IsDone : Consumer opts → Type 0
  IsDone c = CaughtUp opts c ⊎ IsRead c

  -- The second consumer goes on from where the first stands, without a message.
  abbrev pub Continues : Consumer opts → Consumer opts → Type 0
  Continues c d =
      (further : List StorageRequest) × (run : Run opts c.partition c.state further d.state)
      × IsQuiet opts c.partition (marks c.partition) run
      × (d.sent ≡ c.sent ++ further)

  abbrev pub Continued : List (Consumer opts) → List (Consumer opts) → Type 0
  Continued [] [] = Unit
  Continued [] (d ∷ ds) = ⊥
  Continued (c ∷ cs) [] = ⊥
  Continued (c ∷ cs) (d ∷ ds) = Continues c d × Continued cs ds

  abbrev pub size : List (Consumer opts) → ℕ
  size [] = 0
  size (c ∷ cs) = length c.sent + size cs

  -- Consumers that go on without a message, and a storage that has handled all that they sent and says
  -- that the offsets topic has been consumed.
  pub record BecomesReady (cs : List (Consumer opts)) : Type 0 where
    pub later : List (Consumer opts)
    pub continued : Continued cs later
    pub punctual : All (Punctual opts) later
    pub handled : List StorageRequest
    pub scheduled : Schedule (all_sent opts later) handled
    pub fits : length later + length handled < half64
    pub storage : MemoryStorage
    pub run :
        consumer_offset_worker
          (start_requests (partitions opts later) ++ handled)
          new_memory_storage
        ≡ some storage
    pub consumed : is_consumed storage ≡ true

  record Later (cs : List (Consumer opts)) : Type 0 where
    later : List (Consumer opts)
    continued : Continued cs later
    punctual : All (Punctual opts) later
    caught : All (CaughtUp opts) later
    same_length : length later ≡ length cs
    bounded : size later ≤ size cs + length cs

  caught_up-IsRead :
      (c : Consumer opts)
      → InRange c
      → (caught_up c.state.consumed_offset (marks c.partition) ≡ true) ↔ IsRead c
  caught_up-IsRead c ((o, at, below), known) = by_mark (marks c.partition) refl known
    where
      by_mark :
          (mark : Option ℤ)
          → marks c.partition ≡ mark
          → IsMark mark
          → (caught_up c.state.consumed_offset (marks c.partition) ≡ true) ↔ IsRead c
      by_mark none m known = (
        (λ e. absurd (cc (e, m, at, caught_up_unknown o below))),
        (λ (_, _, _, some_mark, _). cc (m, some_mark)),
      )
      by_mark (some val) m (v, same, small) =
          let mark : marks c.partition ≡ some (pos v) = m ∙ ap some same in
          (
            (λ e. (o, v, at, mark, (caught_up_known o v small).0 (rw (at, mark) at e))),
            (λ (o', v', at', mark', le).
                let same_offset : o' ≡ o = cc (at, at') in
                let same_mark : v' ≡ v = cc (mark, mark') in
                rw (at, mark)
                  ((caught_up_known o v small).1 (omega (arith, same_offset, same_mark)))),
          )

  can_go_on :
      (c : Consumer opts)
      → InRange c
      → IsDone c
      → CaughtUp opts c ⊎ (caught_up c.state.consumed_offset (marks c.partition) ≡ true)
  can_go_on c range (inl caught) = inl caught
  can_go_on c range (inr read) = inr ((caught_up-IsRead c range).1 read)

  each_reports :
      (cs : List (Consumer opts))
      → All (Punctual opts) cs
      → All InRange cs
      → All IsDone cs
      → Later cs
  each_reports [] p range done = record {
    later = [];
    continued = tt;
    punctual = tt;
    caught = tt;
    same_length = refl;
    bounded = omega arith;
  }
  each_reports (c ∷ cs) p range done =
      let rest = each_reports cs p.1 range.1 done.1 in
      let next =
        can_report opts c.partition (marks c.partition) c.run p.0 (can_go_on c range.0 done.0) in
      record {
        later =
            record {
              partition = c.partition;
              state = next.state;
              sent = next.all_sent;
              run = next.whole;
            }
            ∷ rest.later;
        continued = ((next.further, next.step_by_step, next.quiet, next.joined), rest.continued);
        punctual = (next.punctual, rest.punctual);
        caught = (next.caught, rest.caught);
        same_length = ap suc rest.same_length;
        bounded =
            let one : length next.all_sent ≤ length c.sent + 1 =
              omega
                (arith, ap length next.joined, length-append {0} c.sent next.further, next.short) in
            omega (arith, rest.bounded);
      }

  length-concat : (cs : List (Consumer opts)) → length (concat (all_sent opts cs)) ≡ size cs
  length-concat [] = refl
  length-concat (c ∷ cs) =
      length-append c.sent (concat (all_sent opts cs))
      ∙ ap (λ n. length c.sent + n) (length-concat cs)

  done_then-BecomesReady :
      (cs : List (Consumer opts))
      → All (Punctual opts) cs
      → All InRange cs
      → length cs + (size cs + length cs) < half64
      → (0 < length cs) × All IsDone cs
      → BecomesReady cs
  done_then-BecomesReady cs p range fits (some_there, done) =
      let next = each_reports cs p range done in
      let handled = concat (all_sent opts next.later) in
      let scheduled = one_by_one (all_sent opts next.later) in
      let bound : length next.later + length handled < half64 =
        omega (arith, fits, next.same_length, next.bounded, length-concat next.later) in
      let (s, run, consumed) =
        consumed-All-CaughtUp opts next.later handled next.punctual scheduled bound in
      record {
        later = next.later;
        continued = next.continued;
        punctual = next.punctual;
        handled = handled;
        scheduled = scheduled;
        fits = bound;
        storage = s;
        run = run;
        consumed = consumed.1 (omega (arith, some_there, next.same_length), next.caught);
      }

  one_of : {a b : ℕ} → (0 < a + b) → (0 < a) ⊎ (0 < b)
  one_of {a} {b} h = ground arith

  -- Whoever has reported after going on without a message had reported or read up to the mark.
  Continues-IsDone : (c d : Consumer opts) → InRange c → Continues c d → CaughtUp opts d → IsDone c
  Continues-IsDone c d range (further, run, quiet, joined) caught =
      let count : 0 < reports (c.sent ++ further) =
        rw joined at ((reports-HasCaughtUp opts d.partition d.run).1 caught) in
      elim (one_of (rw (reports-append c.sent further) at count)) [
        | inl before ↦ inl ((reports-HasCaughtUp opts c.partition c.run).0 before)
        | inr now ↦ inr (
            (caught_up-IsRead c range).0 (
              quiet-caught_up opts c.partition (marks c.partition) run quiet
                ((reports-HasCaughtUp opts c.partition run).0 now)))
      ]

  Continued-IsDone :
      (cs ds : List (Consumer opts))
      → All InRange cs
      → Continued cs ds
      → All (CaughtUp opts) ds
      → (length ds ≡ length cs) × All IsDone cs
  Continued-IsDone [] [] range on caught = (refl, tt)
  Continued-IsDone [] (d ∷ ds) range on caught = absurd on
  Continued-IsDone (c ∷ cs) [] range on caught = absurd on
  Continued-IsDone (c ∷ cs) (d ∷ ds) range on caught =
      let (same, done) = Continued-IsDone cs ds range.1 on.1 caught.1 in
      (ap suc same, (Continues-IsDone c d range.0 on.0 caught.0, done))

  BecomesReady-IsDone :
      (cs : List (Consumer opts))
      → All InRange cs
      → BecomesReady cs
      → (0 < length cs) × All IsDone cs
  BecomesReady-IsDone cs range ready =
      let (s, run, consumed) =
        consumed-All-CaughtUp opts ready.later ready.handled ready.punctual ready.scheduled
          ready.fits in
      let same : s ≡ ready.storage = some-eq (sym run ∙ ready.run) in
      let (some_there, caught) = consumed.0 (ap is_consumed same ∙ ready.consumed) in
      let (same_length, done) = Continued-IsDone cs ready.later range ready.continued caught in
      (omega (arith, some_there, same_length), done)

  -- From every state that punctual partition consumers reach, the exporter can become ready without a
  -- further message, while the partitions' high water marks stay as they are, just when there is a
  -- partition and each consumer has reported before or has read up to its mark: the mark is known and
  -- at most one above the last offset read, which is 0 at the start. To become ready is to go on,
  -- punctually, to a state in which the storage, when it has handled what was sent in some order, says
  -- that the offsets topic has been consumed. Offsets and marks are not negative, the last offset is not
  -- the largest int64, and what has been sent is not near 2^63 requests.
  pub can_become_ready :
      (cs : List (Consumer opts))
      → All (Punctual opts) cs
      → All InRange cs
      → length cs + (size cs + length cs) < half64
      → BecomesReady cs ↔ ((0 < length cs) × All IsDone cs)
  can_become_ready cs p range fits =
      (BecomesReady-IsDone cs range, done_then-BecomesReady cs p range fits)
