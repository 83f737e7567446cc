-- ===== src/Storage/Ready.antt =====
-- When the storage reports that the offsets topic has been consumed.
use kafka_minion.Prelude.{
  ℕ, zero, suc, ◌+◌, ltb, leb, ◌&&◌, ◌<◌, ◌≤◌, ◌≡◌, ◌↔◌, refl, ◌∙◌, Bool, true, false, some, List,
  [], ◌∷◌, ◌==◌, int_eq, if◌then◌else◌, length, All, arith,
}
use kafka_minion.Prelude.Int.{ℤ, pos, negsuc, ◌-ℤ◌, int_laws}
use kafka_minion.Prelude.Words.{half64, sub64, sub64-eq}
use kafka_minion.Storage.{
  MemoryStorage, new_memory_storage, store_offset_entry, delete_offset_entry, store_group_metadata,
  register_partitions, mark_partition_ready,
}
use kafka_minion.Storage.Action.{
  Action, commit, tombstone, describe_group, register, mark_ready, requests_of, method, methods,
  worker-methods,
}
use kafka_minion.Storage.Readers.{is_consumed}
use kafka_minion.Storage.Worker.{consumer_offset_worker}

-- How many partition consumers have reported that they caught up.
abbrev pub ready_reports : List Action → ℕ
ready_reports [] = 0
ready_reports (mark_ready _ ∷ actions) = suc (ready_reports actions)
ready_reports (_ ∷ actions) = ready_reports actions

abbrev pub NoRegister : Action → Type 0
NoRegister (register _) = ⊥
NoRegister _ = Unit

count_down : (n : ℕ) → n < half64 → sub64 (pos (suc n)) (pos 1) ≡ pos n
count_down n h =
    let e : pos (suc n) -ℤ pos 1 ≡ pos n = omega int_laws in
    sub64-eq (pos (suc n)) (pos 1) (rw e h) ∙ e

count_below : (n : ℕ) → suc n < half64 → sub64 (negsuc n) (pos 1) ≡ negsuc (suc n)
count_below n h =
    let e : negsuc n -ℤ pos 1 ≡ negsuc (suc n) = omega int_laws in
    sub64-eq (negsuc n) (pos 1) (rw e h) ∙ e

count_zero : sub64 (pos 0) (pos 1) ≡ negsuc 0
unfolding sub64 ◌-ℤ◌
count_zero = refl

abbrev left : MemoryStorage → ℤ
left s = s.status.not_ready_partition_consumers

-- Below zero the counter only falls, and nothing more is reported.
consumed_below :
    (actions : List Action) (s : MemoryStorage) (n : ℕ)
    → left s ≡ negsuc n
    → All NoRegister actions
    → n + length actions < half64
    → is_consumed (methods actions s) ≡ is_consumed s
unfolding methods method is_consumed store_offset_entry delete_offset_entry store_group_metadata
consumed_below [] s n e f h = refl
consumed_below (mark_ready p ∷ actions) s n e f h =
    let step : left (mark_partition_ready p s) ≡ negsuc (suc n) =
      unfold mark_partition_ready in rw e (count_below n (omega arith)) in
    let kept : is_consumed (mark_partition_ready p s) ≡ is_consumed s =
      unfold mark_partition_ready in rw (e, count_below n (omega arith)) in
    consumed_below actions (mark_partition_ready p s) (suc n) step f.1 (omega arith) ∙ kept
consumed_below (commit c ∷ actions) s n e f h = consumed_below actions _ n e f.1 (omega arith)
consumed_below (tombstone g t p ∷ actions) s n e f h =
    consumed_below actions _ n e f.1 (omega arith)
consumed_below (describe_group m ∷ actions) s n e f h =
    consumed_below actions _ n e f.1 (omega arith)
consumed_below (register c ∷ actions) s n e f h = absurd f.0

-- What was reported stays reported.
consumed_stays :
    (actions : List Action) (s : MemoryStorage)
    → is_consumed s ≡ true
    → is_consumed (methods actions s) ≡ true
unfolding methods method is_consumed store_offset_entry delete_offset_entry store_group_metadata
    register_partitions
consumed_stays [] s c = c
consumed_stays (mark_ready p ∷ actions) s c = consumed_stays actions (mark_partition_ready p s) (
    unfold mark_partition_ready in
    if_same (sub64 (left s) (pos 1) == pos 0) s.status.offset_topic_consumed c)
  where
    if_same : (b d : Bool) → d ≡ true → (if b then true else d) ≡ true
    if_same b d h = ground arith
consumed_stays (commit c ∷ actions) s h = consumed_stays actions _ h
consumed_stays (tombstone g t p ∷ actions) s h = consumed_stays actions _ h
consumed_stays (describe_group m ∷ actions) s h = consumed_stays actions _ h
consumed_stays (register c ∷ actions) s h = consumed_stays actions _ h

-- Whether n falls to 0 by the reports of the actions.
abbrev reaches_zero : ℕ → List Action → Bool
reaches_zero n actions = ltb 0 n && leb n (ready_reports actions)

consumed_from :
    (actions : List Action) (s : MemoryStorage) (n : ℕ)
    → left s ≡ pos n
    → All NoRegister actions
    → n + length actions < half64
    → is_consumed s ≡ false
    → is_consumed (methods actions s) ≡ reaches_zero n actions
unfolding methods method is_consumed store_offset_entry delete_offset_entry store_group_metadata
consumed_from [] s n e f h c = rw c (ground arith)
consumed_from (mark_ready p ∷ actions) s zero e f h c =
    let step : left (mark_partition_ready p s) ≡ negsuc 0 =
      unfold mark_partition_ready in rw e count_zero in
    let kept : is_consumed (mark_partition_ready p s) ≡ false =
      unfold mark_partition_ready in rw (e, count_zero) c in
    consumed_below actions (mark_partition_ready p s) 0 step f.1 (omega arith) ∙ kept
consumed_from (mark_ready p ∷ actions) s (suc zero) e f h c =
    let done : is_consumed (mark_partition_ready p s) ≡ true =
      unfold mark_partition_ready in rw (e, count_down 0 (omega arith)) in
    rw (consumed_stays actions (mark_partition_ready p s) done) (ground arith)
consumed_from (mark_ready p ∷ actions) s (suc (suc n)) e f h c =
    let step : left (mark_partition_ready p s) ≡ pos (suc n) =
      unfold mark_partition_ready in rw e (count_down (suc n) (omega arith)) in
    let kept : is_consumed (mark_partition_ready p s) ≡ false =
      unfold mark_partition_ready in rw (e, count_down (suc n) (omega arith)) (ground arith) in
    rw (consumed_from actions (mark_partition_ready p s) (suc n) step f.1 (omega arith) kept)
      (ground arith)
consumed_from (commit a ∷ actions) s n e f h c = consumed_from actions _ n e f.1 (omega arith) c
consumed_from (tombstone g t p ∷ actions) s n e f h c =
    consumed_from actions _ n e f.1 (omega arith) c
consumed_from (describe_group m ∷ actions) s n e f h c =
    consumed_from actions _ n e f.1 (omega arith) c
consumed_from (register a ∷ actions) s n e f h c = absurd f.0

-- The offset consumer registers n partitions, and behind that sends commits, tombstones and ready
-- reports in any order. Then the worker meets no fault, and the storage reports that the offsets topic
-- has been consumed just when n is not 0 and at least n ready reports have come.
pub consumed_iff :
    (n : ℕ) (actions : List Action)
    → All NoRegister actions
    → n + length actions < half64
    → (s : MemoryStorage) × (consumer_offset_worker
          (requests_of (register (pos n) ∷ actions))
          new_memory_storage
        ≡ some s)
      × ((is_consumed s ≡ true) ↔ ((0 < n) × (n ≤ ready_reports actions)))
consumed_iff n actions f h =
    let all = register (pos n) ∷ actions in
    (
      methods all new_memory_storage,
      worker-methods all new_memory_storage,
      read_off _ n (ready_reports actions) value,
    )
  where
    start : MemoryStorage
    start = register_partitions (pos n) new_memory_storage

    value :
        is_consumed (methods (register (pos n) ∷ actions) new_memory_storage)
        ≡ reaches_zero n actions
    value =
        unfold methods method in
        consumed_from actions start n (unfold register_partitions in refl) f h
          (unfold register_partitions new_memory_storage is_consumed in refl)

    read_off : (b : Bool) (n m : ℕ) → b ≡ (ltb 0 n && leb n m) → (b ≡ true) ↔ ((0 < n) × (n ≤ m))
    read_off b n m e = ground arith
