-- ===== src/Kafka/Cluster/Config.antt =====
-- `deleteTopicIfNeeded` and `refreshAndSendTopicConfig` of kafka/cluster.go.
pub mod Shown
pub mod Known
mod Tests
use kafka_minion.GoMap.{GoMap, get, put, has}
use kafka_minion.Kafka.Cluster.{TopicMetadata, ConfigResponse, Client, get_any_broker}
use kafka_minion.Kafka.Request.{StorageRequest, new_delete_topic_request, new_add_topic_config}
use kafka_minion.Prelude.{
  ℕ, not, Bytes, bytes_eq, int_eq, Option, none, some, List, [], ◌∷◌, ◌++◌, ◌==◌, length,
  if◌then◌else◌,
}
use kafka_minion.Prelude.Int.{pos}

abbrev pub Topics : Type 0
Topics = GoMap Bytes TopicMetadata

-- The loop over the topics known before.
unfoldable pub delete_missing : Topics → Topics → List StorageRequest
delete_missing now [] = []
delete_missing now ((name, _) ∷ before) =
    let rest = delete_missing now before in
    if has name now then rest else new_delete_topic_request name ∷ rest

-- What is sent, and the new `topicByName`; a nil map is `none`.
unfoldable pub delete_topic_if_needed : Topics → Option Topics → List StorageRequest × Option Topics
unfolding delete_missing
delete_topic_if_needed now none = ([], some now)
delete_topic_if_needed now (some before) = (delete_missing now before, some now)

unfoldable pub topics_by_name : List TopicMetadata → Topics → Topics
topics_by_name [] topics = topics
topics_by_name (t ∷ ts) topics = topics_by_name ts (put t.name t topics)

abbrev pub names_of : List TopicMetadata → List Bytes
names_of [] = []
names_of (t ∷ ts) = t.name ∷ names_of ts

-- `resource.Configs[0].Value`, on a resource without an error.
unfoldable pub config_request : Topics → ConfigResponse → List Bytes → Option (List StorageRequest)
config_request topics resource [] = some []
config_request topics resource (value ∷ _) =
    if not (resource.error_code == pos 0) then some [] else elim (get resource.name topics) [
      | none ↦ none
      | some topic ↦ some (
          new_add_topic_config (record {
            topic_name = resource.name;
            partition_count = pos (length topic.partitions);
            cleanup_policy = value;
          })
          ∷ [])
    ]

abbrev pub join :
    Option (List StorageRequest) → Option (List StorageRequest) → Option (List StorageRequest)
join none more = none
join (some rs) none = none
join (some rs) (some more) = some (rs ++ more)

-- The loop over the responses: `none` is the nil pointer of a resource that no topic has the name of.
unfoldable pub config_requests : Topics → List ConfigResponse → Option (List StorageRequest)
unfolding config_request
config_requests topics [] = some []
config_requests topics (resource ∷ resources) =
    join (config_request topics resource resource.config_values) (config_requests topics resources)

abbrev pub Refreshed : Type 0
Refreshed = Option (List StorageRequest) × Option Topics

module _ {Broker : Type 0} (client : Client Broker) where
  -- The part from `broker.DescribeConfigs` on.
  described :
      Topics → List StorageRequest → Option (List ConfigResponse) → Option (List StorageRequest)
  unfolding config_requests
  described topics deletions none = some deletions
  described topics deletions (some resources) =
      join (some deletions) (config_requests topics resources)

  with_metadata : Broker → Option (List TopicMetadata) → Option Topics → Refreshed
  unfolding described
  with_metadata broker none known = (some [], known)
  with_metadata broker (some ts) known =
      let topics = topics_by_name ts [] in
      let (deletions, known') = delete_topic_if_needed topics known in
      (described topics deletions (client.describe_configs broker (names_of ts)), known')

  with_broker : Option Broker → Option Topics → Refreshed
  unfolding with_metadata
  with_broker none known = (some [], known)
  with_broker (some broker) known = with_metadata broker (client.get_metadata broker) known

  -- What is sent, and the topics that are known afterwards.
  unfoldable pub refresh_and_send_topic_config : ℕ → Option Topics → Refreshed
  unfolding with_broker
  refresh_and_send_topic_config random known = with_broker (get_any_broker client random) known
