-- ===== src/Kafka/Cluster/Requests.antt =====
-- `generateOffsetRequests` of kafka/cluster.go. An offset request is the list of the calls of
-- `AddBlock` on it; `none` is a call on a nil pointer.
use kafka_minion.GoMap.{GoMap, get, put, has}
use kafka_minion.Kafka.Cluster.{Client, Block, OffsetTime, newest, oldest}
use kafka_minion.Prelude.{
  Bytes, bytes_eq, int_eq, Option, none, some, List, [], ◌∷◌, ◌++◌, if◌then◌else◌,
}
use kafka_minion.Prelude.Int.{ℤ}

abbrev pub Requests : Type 0
Requests = GoMap ℤ (List Block)

-- `highWaterMarkRequests`, `lowWaterMarkRequests` and `brokers`
pub record Buckets (Broker : Type 0) : Type 0 where
  pub high : Requests
  pub low : Requests
  pub leaders : GoMap ℤ Broker

abbrev pub block : Bytes → ℤ → OffsetTime → Block
block topic partition time = record { topic = topic; partition = partition; time = time }

-- `requests[id].AddBlock(…)`
unfoldable pub add_block : ℤ → Block → Requests → Option Requests
add_block id b requests = elim (get id requests) [
  | none ↦ none
  | some blocks ↦ some (put id (blocks ++ b ∷ []) requests)
]

module _ {Broker : Type 0} where
  -- Both requests of the broker, if they do not exist.
  unfoldable pub ensure : ℤ → Buckets Broker → Buckets Broker
  ensure id s =
      if has id s.high then s else record s { high = put id [] s.high; low = put id [] s.low }

  abbrev pub both : GoMap ℤ Broker → Option Requests → Option Requests → Option (Buckets Broker)
  both leaders none low = none
  both leaders (some high) none = none
  both leaders (some high) (some low) = some (record { high = high; low = low; leaders = leaders })

module _ {Broker : Type 0} (client : Client Broker) where
  -- A partition whose leader is known.
  unfoldable pub ask : Bytes → ℤ → Broker → Buckets Broker → Option (Buckets Broker)
  unfolding ensure add_block
  ask topic partition broker s =
      let id = client.id broker in
      let s' = ensure id s in
      both (put id broker s'.leaders) (add_block id (block topic partition newest) s'.high)
        (add_block id (block topic partition oldest) s'.low)

  abbrev pub ask_leader : Bytes → ℤ → Option Broker → Buckets Broker → Option (Buckets Broker)
  ask_leader topic partition none s = some s
  ask_leader topic partition (some broker) s = ask topic partition broker s

  abbrev pub ◌then◌ :
      Option (Buckets Broker) → (Buckets Broker → Option (Buckets Broker)) → Option (Buckets Broker)
  ◌then◌ none f = none
  ◌then◌ (some s) f = f s

  -- The inner loop, over the partitions of a topic.
  unfoldable pub ask_partitions : Bytes → List ℤ → Buckets Broker → Option (Buckets Broker)
  unfolding ask
  ask_partitions topic [] s = some s
  ask_partitions topic (p ∷ ps) s =
      ◌then◌ (ask_leader topic p (client.leader topic p) s) (ask_partitions topic ps)

  unfoldable pub ask_topics : GoMap Bytes (List ℤ) → Buckets Broker → Option (Buckets Broker)
  unfolding ask_partitions
  ask_topics [] s = some s
  ask_topics ((topic, ps) ∷ topics) s = ◌then◌ (ask_partitions topic ps s) (ask_topics topics)

  unfoldable pub generate_offset_requests : GoMap Bytes (List ℤ) → Option (Buckets Broker)
  unfolding ask_topics
  generate_offset_requests topics = ask_topics topics (record { high = []; low = []; leaders = [] })
