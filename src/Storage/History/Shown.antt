-- ===== src/Storage/History/Shown.antt =====
-- What the storage shows after any actions of the offset consumer.
use kafka_minion.GoMap.{get}
use kafka_minion.Kafka.Offset.{ConsumerPartitionOffset}
use kafka_minion.Prelude.{
  ◌≡◌, refl, ap, ◌∙◌, Bool, true, false, none, some, Bytes, bytes_eq, int_eq, List, if◌then◌else◌,
  All,
}
use kafka_minion.Prelude.Int.{ℤ}
use kafka_minion.Storage.{MemoryStorage, new_memory_storage, offset_key}
use kafka_minion.Storage.Action.{Action, requests_of, methods, worker-methods}
use kafka_minion.Storage.OffsetKey.{NoColon}
use kafka_minion.Storage.Worker.{consumer_offset_worker}
use kafka_minion.Storage.History.{is, filed_under, buried, live, entry_of, LegalTopic}
use kafka_minion.Storage.History.Growth.{grow, grow-entry_of, found, found-methods}
use kafka_minion.Storage.History.Keys.{live-is}

-- Whatever the offset consumer sends, in whatever order: for topic names without a colon the worker
-- meets no fault, and the storage shows for a group, topic and partition the offset and time of the
-- last commit behind the last tombstone, with the number of commits behind it, which stops at 2^53;
-- and no entry where there is no such commit.
pub offsets_history :
    (g t : Bytes) (p : ℤ) (actions : List Action)
    → NoColon t
    → All LegalTopic actions
    → (s : MemoryStorage) × (consumer_offset_worker (requests_of actions) new_memory_storage
        ≡ some s)
      × (get (offset_key g t p) s.groups.offsets ≡ entry_of (live (is g t p) actions))
offsets_history g t p actions nt f = (
  methods actions new_memory_storage,
  worker-methods actions new_memory_storage,
  found-methods (offset_key g t p) actions new_memory_storage
      ∙ nothing_before (buried (filed_under (offset_key g t p)) actions)
          (live (filed_under (offset_key g t p)) actions)
      ∙ grow-entry_of (live (filed_under (offset_key g t p)) actions)
      ∙ ap entry_of (live-is g t p actions nt f).1,
)
  where
    nothing_before :
        (dead : Bool) (cs : List ConsumerPartitionOffset)
        → grow (if dead then none else found (offset_key g t p) new_memory_storage) cs
          ≡ grow none cs
    nothing_before true cs = refl
    nothing_before false cs = unfold new_memory_storage get in refl
