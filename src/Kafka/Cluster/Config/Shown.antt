-- ===== src/Kafka/Cluster/Config/Shown.antt =====
-- What the storage shows of a topic's configuration after `refreshAndSendTopicConfig`.
use kafka_minion.GoMap.{get}
use kafka_minion.GoMap.Laws.{get-put}
use kafka_minion.Kafka.Cluster.{TopicMetadata, ConfigResponse, Client, get_any_broker}
use kafka_minion.Kafka.Cluster.Config.{
  Topics, delete_topic_if_needed, topics_by_name, names_of, config_request, config_requests, join,
  described, with_metadata, with_broker, refresh_and_send_topic_config,
}
use kafka_minion.Kafka.Cluster.Deletions.{
  topic_data, nothing, TopicData, is_gone, worker-delete_missing,
}
use kafka_minion.Kafka.Cluster.Stored.{worker-append}
use kafka_minion.Kafka.Request.{TopicConfiguration, StorageRequest, new_add_topic_config}
use kafka_minion.Prelude.{
  ℕ, ◌≡◌, refl, ap, ◌∙◌, Bool, true, false, ◌&&◌, Bytes, bytes_eq, int_eq, Option, none, some, List,
  [], ◌∷◌, ◌++◌, ◌==◌, length, All, Bool-cases, inl, inr, if◌then◌else◌,
}
use kafka_minion.Prelude.Int.{ℤ, pos}
use kafka_minion.Storage.{MemoryStorage, store_topic_config}
use kafka_minion.Storage.Worker.{handle_cluster, cluster_worker}

-- The resource is one of the topics that were asked for.
abbrev pub IsAsked : Topics → ConfigResponse → Type 0
IsAsked topics r = (m : TopicMetadata) × (get r.name topics ≡ some m)

abbrev partitions_of : Option TopicMetadata → List ℤ
partitions_of none = []
partitions_of (some m) = m.partitions

-- The configuration of a topic: its name, its number of partitions and the value.
abbrev pub config_of : Topics → Bytes → Bytes → TopicConfiguration
config_of topics name value = record {
  topic_name = name;
  partition_count = pos (length (partitions_of (get name topics)));
  cleanup_policy = value;
}

-- What a resource says of a topic's configuration, where o is what was known.
abbrev pub told_by :
    Topics
    → Bytes
    → ConfigResponse
    → List Bytes
    → Option TopicConfiguration
    → Option TopicConfiguration
told_by topics t r [] o = o
told_by topics t r (value ∷ _) o =
    if r.error_code == pos 0 && r.name == t then some (config_of topics r.name value) else o

-- What all resources say: the last one that has no error, has a value and is for the topic.
abbrev pub told :
    Topics → Bytes → List ConfigResponse → Option TopicConfiguration → Option TopicConfiguration
told topics t [] o = o
told topics t (r ∷ rs) o = told topics t rs (told_by topics t r r.config_values o)

abbrev pub config_at : Bytes → MemoryStorage → Option TopicConfiguration
config_at t s = get t s.topics.configs

handle_config :
    (c : TopicConfiguration) (s : MemoryStorage)
    → handle_cluster (new_add_topic_config c) s ≡ some (store_topic_config c s)
unfolding handle_cluster new_add_topic_config
handle_config c s = refl

config_at-store :
    (c : TopicConfiguration) (t : Bytes) (s : MemoryStorage)
    → config_at t (store_topic_config c s) ≡ (if c.topic_name == t then some c else config_at t s)
unfolding store_topic_config
config_at-store c t s = get-put c.topic_name t c s.topics.configs

-- Requests that are sent and leave the configuration o of the topic.
abbrev Leaves :
    Bytes → Option (List StorageRequest) → MemoryStorage → Option TopicConfiguration → Type 0
Leaves t sent s o =
    (rs : List StorageRequest) × (sent ≡ some rs)
    × (s' : MemoryStorage) × (cluster_worker rs s ≡ some s')
    × (config_at t s' ≡ o)

module _ (topics : Topics) (t : Bytes) where
  one-Leaves :
      (r : ConfigResponse) (values : List Bytes) (s : MemoryStorage)
      → IsAsked topics r
      → Leaves t (config_request topics r values) s (told_by topics t r values (config_at t s))
  unfolding config_request cluster_worker
  one-Leaves r [] s asked = ([], refl, s, refl, refl)
  one-Leaves r (value ∷ values) s (m, found) = elim (Bool-cases (r.error_code == pos 0)) [
    | inr failed ↦ rw failed ([], refl, s, refl, refl)
    | inl fine ↦
        let c = config_of topics r.name value in
        (
          new_add_topic_config c ∷ [],
          rw (fine, found) refl,
          store_topic_config c s,
          rw (handle_config c s) refl,
          config_at-store c t s ∙ (rw fine refl),
        )
  ]

  join-Leaves :
      (a b : Option (List StorageRequest)) (s : MemoryStorage)
      (f : Option TopicConfiguration → Option TopicConfiguration) (o : Option TopicConfiguration)
      → Leaves t a s o
      → ((s' : MemoryStorage) → Leaves t b s' (f (config_at t s')))
      → Leaves t (join a b) s (f o)
  join-Leaves a b s f o (rs, sent, s1, run, shown) next =
      let (qs, sent', s2, run', shown') = next s1 in
      (rs ++ qs, rw (sent, sent'), s2, worker-append rs qs s run ∙ run', shown' ∙ ap f shown)

  all-Leaves :
      (resources : List ConfigResponse) (s : MemoryStorage)
      → All (IsAsked topics) resources
      → Leaves t (config_requests topics resources) s (told topics t resources (config_at t s))
  unfolding config_requests cluster_worker
  all-Leaves [] s asked = ([], refl, s, refl, refl)
  all-Leaves (r ∷ rs) s asked =
      join-Leaves (config_request topics r r.config_values) (config_requests topics rs) s
        (told topics t rs) (told_by topics t r r.config_values (config_at t s))
        (one-Leaves r r.config_values s asked.0) (λ s'. all-Leaves rs s' asked.1)

  -- Whether the topic was known before and is not among the topics any more.
  abbrev pub was_deleted : Option Topics → Bool
  was_deleted none = false
  was_deleted (some before) = is_gone t topics before

  pub deletions-Leaves :
      (known : Option Topics) (s : MemoryStorage)
      → Leaves t
          (some (delete_topic_if_needed topics known).0)
          s
          (if was_deleted known then none else config_at t s)
  unfolding delete_topic_if_needed cluster_worker
  deletions-Leaves none s = ([], refl, s, refl, refl)
  deletions-Leaves (some before) s =
      let (s', run, shown) = worker-delete_missing t topics before s in
      (_, refl, s', run, ap (λ (d : TopicData). d.0) shown ∙ pick (is_gone t topics before))
    where
      pick :
          (b : Bool)
          → (if b then nothing else topic_data t s).0 ≡ (if b then none else config_at t s)
      pick true = refl
      pick false = refl

pub next_known :
    (topics : Topics) (known : Option Topics)
    → (delete_topic_if_needed topics known).1 ≡ some topics
unfolding delete_topic_if_needed
next_known topics none = refl
next_known topics (some before) = refl

module _ {Broker : Type 0} (client : Client Broker) where
  -- If a broker answers with the metadata of the topics and then with their configurations, each of a
  -- topic that it was asked for, all is sent without a nil pointer and handled by the cluster worker
  -- without a fault. The storage then shows for each topic the last configuration answered for it
  -- without an error, with its number of partitions; without one, it keeps what it had for a topic that
  -- is still there and has nothing for one that is gone. The topics of the answer are those known next.
  pub config_shown :
      (random : ℕ) (known : Option Topics) (s : MemoryStorage) (t : Bytes) (broker : Broker)
      (ts : List TopicMetadata) (resources : List ConfigResponse)
      → get_any_broker client random ≡ some broker
      → client.get_metadata broker ≡ some ts
      → client.describe_configs broker (names_of ts) ≡ some resources
      → All (IsAsked (topics_by_name ts [])) resources
      → (sent : List StorageRequest) × (s' : MemoryStorage) × (refresh_and_send_topic_config client
            random known
          ≡ (some sent, some (topics_by_name ts [])))
        × (cluster_worker sent s ≡ some s')
        × (config_at t s'
            ≡ told
                (topics_by_name ts [])
                t
                resources
                (if was_deleted (topics_by_name ts []) t known then none else config_at t s))
  unfolding refresh_and_send_topic_config with_broker with_metadata described
  config_shown random known s t broker ts resources b m d asked =
      let topics = topics_by_name ts [] in
      let deletions = (delete_topic_if_needed topics known).0 in
      let (sent, made, s', run, shown) =
        join-Leaves topics t (some deletions) (config_requests topics resources) s
          (told topics t resources) (if was_deleted topics t known then none else config_at t s)
          (deletions-Leaves topics t known s) (λ s1. all-Leaves topics t resources s1 asked) in
      (
        sent,
        s',
        ap (λ o. with_broker client o known) b
            ∙ ap (λ o. with_metadata client broker o known) m
            ∙ ap
                (λ o.
                  (described client topics deletions o, (delete_topic_if_needed topics known).1))
                d
            ∙ ap (λ o. (o, (delete_topic_if_needed topics known).1)) made
            ∙ ap (λ o. (some sent, o)) (next_known topics known),
        run,
        shown,
      )
