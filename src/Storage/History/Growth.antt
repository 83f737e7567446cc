-- ===== src/Storage/History/Growth.antt =====
-- How the entry under one key of the storage grows, commit by commit.
use kafka_minion.Float64.{increment}
use kafka_minion.Float64.Laws.{max_exact, increment-min}
use kafka_minion.GoMap.{get}
use kafka_minion.GoMap.Laws.{get-put, get-delete}
use kafka_minion.Kafka.Offset.{ConsumerPartitionOffset}
use kafka_minion.Prelude.{
  ℕ, ◌+◌, ◌≡◌, not, refl, ap, ◌∙◌, Bool, true, false, ◌&&◌, ◌||◌, Option, none, some, Bytes,
  bytes_eq, int_eq, List, [], ◌∷◌, ==_iff, if◌then◌else◌, length, min, arith,
}
use kafka_minion.Prelude.Int.{ℤ}
use kafka_minion.Storage.{
  ConsumerPartitionOffsetMetric, MemoryStorage, offset_key, commit_count, store_offset_entry,
  delete_offset_entry, store_group_metadata, register_partitions, mark_partition_ready,
}
use kafka_minion.Storage.Action.{
  Action, commit, tombstone, describe_group, register, mark_ready, method, methods,
}
use kafka_minion.Storage.History.{filed_under, hits, buried, live, metric, last, entry_of}

-- The same, commit by commit, from what was there before.
abbrev pub grow :
    Option ConsumerPartitionOffsetMetric
    → List ConsumerPartitionOffset
    → Option ConsumerPartitionOffsetMetric
grow o [] = o
grow o (c ∷ cs) = grow (some (metric c (increment (commit_count o)))) cs

grow-last :
    (c : ConsumerPartitionOffset) (cs : List ConsumerPartitionOffset) (n : ℕ)
    → grow (some (metric c (min n max_exact))) cs
      ≡ some (metric (last c cs) (min (n + length cs) max_exact))
grow-last c [] n = ap (λ k. some (metric c (min k max_exact))) (omega arith)
grow-last c (d ∷ cs) n =
    rw (increment-min n)
      (grow-last d cs (n + 1) ∙ ap (λ k. some (metric (last d cs) (min k max_exact))) (omega arith))

pub grow-entry_of : (cs : List ConsumerPartitionOffset) → grow none cs ≡ entry_of cs
grow-entry_of [] = refl
grow-entry_of (c ∷ cs) =
    let first : increment 0 ≡ min 1 max_exact = increment-min 0 in
    rw first
      (grow-last c cs 1 ∙ ap (λ k. some (metric (last c cs) (min k max_exact))) (omega arith))

abbrev IsOther : Action → Type 0
IsOther (commit _) = ⊥
IsOther (tombstone _ _ _) = ⊥
IsOther _ = Unit

abbrev pub found : Bytes → MemoryStorage → Option ConsumerPartitionOffsetMetric
found key s = get key s.groups.offsets

found-store :
    (key : Bytes) (c : ConsumerPartitionOffset) (s : MemoryStorage)
    → found key (store_offset_entry c s) ≡ (
        if hits (filed_under key) c
        then some (metric c (increment (commit_count (found key s))))
        else found key s)
unfolding store_offset_entry
found-store key c s =
    rw get-put (ground (arith, ==_iff (offset_key c.group c.topic c.partition) key))

found-delete :
    (key g t : Bytes) (p : ℤ) (s : MemoryStorage)
    → found key (delete_offset_entry g t p s)
      ≡ (if filed_under key g t p then none else found key s)
unfolding delete_offset_entry
found-delete key g t p s = get-delete (offset_key g t p) key s.groups.offsets

grow_commit :
    (hit dead : Bool) (o : Option ConsumerPartitionOffsetMetric) (c : ConsumerPartitionOffset)
    (cs : List ConsumerPartitionOffset)
    → grow
        (if dead then none else (if hit then some (metric c (increment (commit_count o))) else o))
        cs
      ≡ grow (if dead then none else o) (if hit && not dead then c ∷ cs else cs)
grow_commit true true o c cs = refl
grow_commit true false o c cs = refl
grow_commit false true o c cs = refl
grow_commit false false o c cs = refl

grow_tombstone :
    (hit dead : Bool) (o : Option ConsumerPartitionOffsetMetric) (cs : List ConsumerPartitionOffset)
    → grow (if dead then none else (if hit then none else o)) cs
      ≡ grow (if hit || dead then none else o) cs
grow_tombstone true true o cs = refl
grow_tombstone true false o cs = refl
grow_tombstone false true o cs = refl
grow_tombstone false false o cs = refl

found-others :
    (key : Bytes) (a : Action) (s : MemoryStorage)
    → IsOther a
    → found key (method a s) ≡ found key s
unfolding method store_group_metadata register_partitions mark_partition_ready
found-others key (describe_group m) s h = refl
found-others key (register n) s h = refl
found-others key (mark_ready p) s h = refl
found-others key (commit c) s h = absurd h
found-others key (tombstone g t p) s h = absurd h

-- The entry under a key grows by the live commits of that key.
pub found-methods :
    (key : Bytes) (actions : List Action) (s : MemoryStorage)
    → found key (methods actions s)
      ≡ grow
          (if buried (filed_under key) actions then none else found key s)
          (live (filed_under key) actions)
unfolding methods
found-methods key [] s = refl
found-methods key (commit c ∷ actions) s =
    found-methods key actions (method (commit c) s)
    ∙ unfold method in
      rw (found-store key c s) (
        grow_commit (hits (filed_under key) c) (buried (filed_under key) actions) (found key s) c
          (live (filed_under key) actions))
found-methods key (tombstone g t p ∷ actions) s =
    found-methods key actions (method (tombstone g t p) s)
    ∙ unfold method in
      rw (found-delete key g t p s) (
        grow_tombstone (filed_under key g t p) (buried (filed_under key) actions) (found key s)
          (live (filed_under key) actions))
found-methods key (describe_group m ∷ actions) s =
    found-methods key actions (method (describe_group m) s)
    ∙ rw (found-others key (describe_group m) s tt)
found-methods key (register n ∷ actions) s =
    found-methods key actions (method (register n) s) ∙ rw (found-others key (register n) s tt)
found-methods key (mark_ready p ∷ actions) s =
    found-methods key actions (method (mark_ready p) s) ∙ rw (found-others key (mark_ready p) s tt)
