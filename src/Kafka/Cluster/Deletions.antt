-- ===== src/Kafka/Cluster/Deletions.antt =====
-- What the deletions of `deleteTopicIfNeeded` do to the storage.
use kafka_minion.GoMap.{get, has}
use kafka_minion.GoMap.Laws.{get-delete}
use kafka_minion.Kafka.Cluster.Config.{Topics, delete_missing, delete_topic_if_needed}
use kafka_minion.Kafka.Request.{TopicConfiguration, new_delete_topic_request}
use kafka_minion.Prelude.{
  Bool, true, false, not, ◌&&◌, ◌≡◌, refl, ap, sym, ◌∙◌, Bytes, bytes_eq, int_eq, Option, none,
  some, [], ◌∷◌, ◌==◌, ==_iff, if◌then◌else◌, Bool-cases, inl, inr,
}
use kafka_minion.Storage.{PartitionWaterMarks, MemoryStorage, delete_topic_data}
use kafka_minion.Storage.Worker.{handle_cluster, cluster_worker}

-- All that the storage holds under a topic's name.
abbrev pub TopicData : Type 0
TopicData = Option TopicConfiguration × Option PartitionWaterMarks × Option PartitionWaterMarks

abbrev pub topic_data : Bytes → MemoryStorage → TopicData
topic_data t s = (
  get t s.topics.configs,
  get t s.partitions.low_water_marks,
  get t s.partitions.high_water_marks,
)

abbrev pub nothing : TopicData
nothing = (none, none, none)

topic_data-delete :
    (name t : Bytes) (s : MemoryStorage)
    → topic_data t (delete_topic_data name s) ≡ (if name == t then nothing else topic_data t s)
unfolding delete_topic_data
topic_data-delete name t s = elim (Bool-cases (name == t)) [
  | inl same ↦ rw (get-delete, get-delete, get-delete, same) refl
  | inr other ↦ rw (get-delete, get-delete, get-delete, other) refl
]

-- Whether a topic was known before and is no longer there.
abbrev pub is_gone : Bytes → Topics → Topics → Bool
is_gone t now before = has t before && not (has t now)

handle_deletion :
    (name : Bytes) (s : MemoryStorage)
    → handle_cluster (new_delete_topic_request name) s ≡ some (delete_topic_data name s)
unfolding handle_cluster new_delete_topic_request
handle_deletion name s = refl

forgets_step :
    (t name : Bytes) (now_t before_t now_name : Bool) (d : TopicData)
    → (name ≡ t → now_name ≡ now_t)
    → now_name ≡ false
    → (if before_t && not now_t then nothing else (if name == t then nothing else d))
      ≡ (if (if name == t then true else before_t) && not now_t then nothing else d)
forgets_step t name now_t before_t now_name d same gone = elim (Bool-cases (name == t)) [
  | inl eq ↦
      let here : now_t ≡ false = sym (same ((==_iff name t).0 eq)) ∙ gone in
      rw (eq, here) (idle before_t)
  | inr ne ↦ rw ne
]
  where
    idle : (b : Bool) → (if b && true then nothing else nothing) ≡ nothing
    idle true = refl
    idle false = refl

kept_step :
    (t name : Bytes) (now_t before_t now_name : Bool) (d : TopicData)
    → (name ≡ t → now_name ≡ now_t)
    → now_name ≡ true
    → (if before_t && not now_t then nothing else d)
      ≡ (if (if name == t then true else before_t) && not now_t then nothing else d)
kept_step t name now_t before_t now_name d same there = elim (Bool-cases (name == t)) [
  | inl eq ↦
      let here : now_t ≡ true = sym (same ((==_iff name t).0 eq)) ∙ there in
      rw (eq, here) (idle before_t)
  | inr ne ↦ rw ne
]
  where
    idle : (b : Bool) → (if b && false then nothing else d) ≡ d
    idle true = refl
    idle false = refl

-- The deletions that a refresh sends are handled by the cluster worker without a fault: of every topic
-- that was known before and is no longer there the storage then holds no configuration and no water
-- marks, and of every other topic it holds what it held.
pub worker-delete_missing :
    (t : Bytes) (now before : Topics) (s : MemoryStorage)
    → (s' : MemoryStorage) × (cluster_worker (delete_topic_if_needed now (some before)).0 s
        ≡ some s')
      × (topic_data t s' ≡ (if is_gone t now before then nothing else topic_data t s))
unfolding delete_topic_if_needed delete_missing cluster_worker has
worker-delete_missing t now [] s = (s, refl, refl)
worker-delete_missing t now ((name, m) ∷ before) s = elim (Bool-cases (has name now)) [
  | inl there ↦
      let (s', run, held) = worker-delete_missing t now before s in
      (
        s',
        rw there run,
        held
            ∙ kept_step t name (has t now) (has t before) (has name now) (topic_data t s)
                (λ e. ap (λ n. has n now) e) there,
      )
  | inr gone ↦
      let (s', run, held) = worker-delete_missing t now before (delete_topic_data name s) in
      (
        s',
        rw gone (rw (handle_deletion name s) run),
        held
            ∙ ap (λ d. if is_gone t now before then nothing else d) (topic_data-delete name t s)
            ∙ forgets_step t name (has t now) (has t before) (has name now) (topic_data t s)
                (λ e. ap (λ n. has n now) e) gone,
      )
]
