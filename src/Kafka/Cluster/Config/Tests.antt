-- ===== src/Kafka/Cluster/Config/Tests.antt =====
-- A refresh of the configurations where the topic "u" is gone.
use kafka_minion.Kafka.Cluster.{Client, ConfigResponse, TopicMetadata, get_any_broker}
use kafka_minion.Kafka.Cluster.Config.{Topics, topics_by_name, refresh_and_send_topic_config}
use kafka_minion.Kafka.Cluster.Config.Shown.{IsAsked, told, config_at, was_deleted, config_shown}
use kafka_minion.Kafka.Cluster.Config.Known.{
  IsKnown, AsAsked, begun, refreshed, Refreshes-OnlyKnown,
}
use kafka_minion.Kafka.Request.{StorageRequest}
use kafka_minion.Prelude.{
  subst, some-eq, sym, ◌∙◌, ◌≢◌, ◌≡◌, refl, true, Bytes, bytes_eq, none, some, List, [], ◌∷◌, All,
  if◌then◌else◌,
}
use kafka_minion.Prelude.Int.{ℤ, pos}
use kafka_minion.Prelude.Text.{bytes_of}
use kafka_minion.Storage.{MemoryStorage, new_memory_storage}
use kafka_minion.Storage.Worker.{cluster_worker}
use mathlib.Core.Option.{none-ne-some}

abbrev t : Bytes
t = b't' ∷ []

abbrev u : Bytes
u = b'u' ∷ []

abbrev metadata : List TopicMetadata
metadata = record { name = t; partitions = pos 0 ∷ pos 1 ∷ [] } ∷ []

abbrev resources : List ConfigResponse
resources = record { error_code = pos 0; name = t; config_values = bytes_of "compact" ∷ [] } ∷ []

abbrev client : Client ℤ
client = record {
  brokers = pos 7 ∷ [];
  connected = λ _. true;
  id = λ b. b;
  topics = none;
  partitions = λ _. none;
  leader = λ _ _. none;
  get_metadata = λ _. some metadata;
  describe_configs = λ _ _. some resources;
}

abbrev before : Topics
before = (u, record { name = u; partitions = [] }) ∷ []

the_broker : get_any_broker client 3 ≡ some (pos 7)
unfolding get_any_broker
the_broker = refl

resources-IsAsked : All (IsAsked (topics_by_name metadata [])) resources
unfolding topics_by_name kafka_minion.GoMap.get kafka_minion.GoMap.put
resources-IsAsked = ((_, refl), tt)

config_shown_example :
    (sent : List StorageRequest) × (s' : MemoryStorage) × (refresh_and_send_topic_config client 3
        (some before)
      ≡ (some sent, some (topics_by_name metadata [])))
    × (cluster_worker sent new_memory_storage ≡ some s')
    × (config_at t s'
        ≡ told (topics_by_name metadata []) t resources (
            if was_deleted (topics_by_name metadata []) t (some before)
            then none
            else config_at t new_memory_storage))
config_shown_example =
    config_shown client 3 (some before) new_memory_storage t (pos 7) metadata resources the_broker
      refl refl resources-IsAsked

client-AsAsked : AsAsked client
client-AsAsked broker ts rs m d =
    subst (λ (x : List TopicMetadata). All (IsAsked (topics_by_name x [])) rs) (some-eq m)
      (subst (All (IsAsked (topics_by_name metadata []))) (some-eq d) resources-IsAsked)

refresh_1 :
    (sent : List StorageRequest) × (s : MemoryStorage) × (refresh_and_send_topic_config client 3
        none
      ≡ (some sent, some (topics_by_name metadata [])))
    × (cluster_worker sent new_memory_storage ≡ some s)
    × (config_at t s
        ≡ told (topics_by_name metadata []) t resources (
            if was_deleted (topics_by_name metadata []) t none
            then none
            else config_at t new_memory_storage))
refresh_1 =
    config_shown client 3 none new_memory_storage t (pos 7) metadata resources the_broker refl refl
      resources-IsAsked

t-configured : config_at t refresh_1.1 ≢ none
unfolding topics_by_name kafka_minion.GoMap.get kafka_minion.GoMap.put
t-configured gone = none-ne-some _ (sym gone ∙ refresh_1.4)

Refreshes-OnlyKnown_example : IsKnown t (some (topics_by_name metadata []))
Refreshes-OnlyKnown_example =
    Refreshes-OnlyKnown
      (refreshed client 3 refresh_1.0 begun client-AsAsked refresh_1.2 refresh_1.3) t t-configured
