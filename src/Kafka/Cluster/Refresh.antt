-- ===== src/Kafka/Cluster/Refresh.antt =====
-- `refreshAndSendTopicMetadata` of kafka/cluster.go. A goroutine is given by the partition responses
-- that it goes through; on each it takes one step, which may store a mark of the offsets topic and may
-- send a request. The steps of the goroutines of a phase come in any order that keeps each one's.
pub mod Bodies
pub mod Led
pub mod Launch
pub mod Handled
pub mod Replies
pub mod Shown
pub mod Marks
pub mod Begun
pub mod Complete
pub mod Example
mod Tests
use kafka_minion.GoMap.{GoMap, get}
use kafka_minion.Goroutines.{Schedule, routines}
use kafka_minion.Kafka.Cluster.{Client, Block, OffsetResponse}
use kafka_minion.Kafka.Cluster.Requests.{Requests, Buckets, generate_offset_requests}
use kafka_minion.Kafka.Cluster.TopicPartitions.{topic_partitions}
use kafka_minion.Kafka.Cluster.WaterMarks.{
  OffsetMarks, Blocks, Sending, high_response, low_response, ◌then◌, behind,
}
use kafka_minion.Kafka.Request.{StorageRequest}
use kafka_minion.Kafka.Topics.{is_topic_allowed}
use kafka_minion.Options.{Options}
use kafka_minion.Prelude.{
  ◌≡◌, not, Bytes, bytes_eq, int_eq, Option, none, some, List, [], ◌∷◌, ◌++◌, if◌then◌else◌,
}
use kafka_minion.Prelude.Int.{ℤ}

-- A partition's response as a goroutine meets it, with the goroutine's `ts`.
pub record Received : Type 0 where
  pub time : ℤ
  pub topic : Bytes
  pub partition : ℤ
  pub response : OffsetResponse

abbrev pub received_in : ℤ → Bytes → GoMap ℤ OffsetResponse → List Received
received_in ts topic [] = []
received_in ts topic ((partition, response) ∷ rs) =
    record { time = ts; topic = topic; partition = partition; response = response }
    ∷ received_in ts topic rs

abbrev pub received_for : ℤ → Blocks → List Received
received_for ts [] = []
received_for ts ((topic, rs) ∷ blocks) = received_in ts topic rs ++ received_for ts blocks

-- An error of `GetAvailableOffsets` ends the goroutine.
abbrev pub received : ℤ → Option Blocks → List Received
received ts none = []
received ts (some blocks) = received_for ts blocks

module _ (opts : Options) where
  unfoldable pub process_high : List Received → Sending → Option Sending
  unfolding high_response
  process_high [] s = some s
  process_high (r ∷ rs) s =
      ◌then◌ opts r.time
        (high_response opts r.time r.topic r.partition r.response r.response.offsets s)
        (process_high rs)

  unfoldable pub process_low : List Received → Option (List StorageRequest)
  unfolding low_response
  process_low [] = some []
  process_low (r ∷ rs) =
      behind opts r.time
        (if not (is_topic_allowed opts r.topic)
          then some []
          else low_response opts r.time r.topic r.partition r.response r.response.offsets)
        (process_low rs)

-- What a broker answers to an offset request (`GetAvailableOffsets`), and when a goroutine reads the
-- clock, by the ID of its broker.
pub record Network (Broker : Type 0) : Type 0 where
  pub available : Broker → List Block → Option Blocks
  pub high_time : ℤ → ℤ
  pub low_time : ℤ → ℤ

module _ {Broker : Type 0} (client : Client Broker) (network : Network Broker) where
  -- The goroutine for one entry of the requests. `none` is the use of a broker that is nil.
  abbrev pub launch_one : (ℤ → ℤ) → ℤ → List Block → Option Broker → Option (List Received)
  launch_one time id blocks none = none
  launch_one time id blocks (some broker) =
      some (received (time id) (network.available broker blocks))

  abbrev pub and_then :
      ℤ
      → Option (List Received)
      → Option (GoMap ℤ (List Received))
      → Option (GoMap ℤ (List Received))
  and_then id none more = none
  and_then id (some steps) none = none
  and_then id (some steps) (some more) = some ((id, steps) ∷ more)

  -- A goroutine for each broker with a request.
  unfoldable pub launch : (ℤ → ℤ) → GoMap ℤ Broker → Requests → Option (GoMap ℤ (List Received))
  launch time leaders [] = some []
  launch time leaders ((id, blocks) ∷ requests) =
      and_then id (launch_one time id blocks (get id leaders)) (launch time leaders requests)

  -- The two phases: the second is started after `wg.Wait()`, when the first has ended.
  pub record Phases (buckets : Buckets Broker) (opts : Options) (known : OffsetMarks)
      (marks : OffsetMarks) (sent : List StorageRequest) : Type 0 where
    pub high_routines : GoMap ℤ (List Received)
    pub high_run : List Received
    pub high_sent : List StorageRequest
    pub high_launched : launch network.high_time buckets.leaders buckets.high ≡ some high_routines
    pub high_scheduled : Schedule (routines high_routines) high_run
    pub high_processed : process_high opts high_run (known, []) ≡ some (marks, high_sent)
    pub low_routines : GoMap ℤ (List Received)
    pub low_run : List Received
    pub low_sent : List StorageRequest
    pub low_launched : launch network.low_time buckets.leaders buckets.low ≡ some low_routines
    pub low_scheduled : Schedule (routines low_routines) low_run
    pub low_processed : process_low opts low_run ≡ some low_sent
    pub all_sent : sent ≡ high_sent ++ low_sent

  -- One refresh: the marks of the offsets topic before and after, and what is sent to the storage.
  pub data Refresh (opts : Options) (known : OffsetMarks)
      : OffsetMarks → List StorageRequest → Type 0 where
    no_topics : topic_partitions client ≡ none → Refresh opts known known []
    collected :
        {topics : GoMap Bytes (List ℤ)} {buckets : Buckets Broker} {marks : OffsetMarks}
        {sent : List StorageRequest}
        → topic_partitions client ≡ some topics
        → generate_offset_requests client topics ≡ some buckets
        → Phases buckets opts known marks sent
        → Refresh opts known marks sent
