-- ===== src/Kafka/Cluster/Refresh/Tests.antt =====
-- The theorems on the refresh at two brokers that lead a partition each.
use kafka_minion.GoMap.{GoMap, get}
use kafka_minion.Goroutines.{Schedule, routines, fold}
use kafka_minion.Kafka.Cluster.{newest}
use kafka_minion.Kafka.Cluster.Refresh.{
  Received, received, process_high, process_low, launch, collected,
}
use kafka_minion.Kafka.Cluster.Refresh.Bodies.{bodies_send_and_note}
use kafka_minion.Kafka.Cluster.Refresh.Complete.{Shown, refresh_total, Refresh-Shown, Refresh-marks}
use kafka_minion.Kafka.Cluster.Refresh.Handled.{sent_all}
use kafka_minion.Kafka.Cluster.Refresh.Replies.{notes}
use kafka_minion.Kafka.Cluster.Refresh.Shown.{by_leader}
use kafka_minion.Kafka.Cluster.Requests.{Buckets, generate_offset_requests}
use kafka_minion.Kafka.Cluster.WaterMarks.{
  OffsetMarks, Blocks, process_high_water_marks, process_low_water_marks,
}
use kafka_minion.Kafka.Request.{
  StorageRequest, new_add_partition_high_water_mark_request,
  new_add_partition_low_water_mark_request,
}
use kafka_minion.Prelude.{◌≡◌, bytes_eq, int_eq, Option, none, some, List, [], ◌∷◌}
use kafka_minion.Prelude.Int.{ℤ, pos}
use kafka_minion.Storage.{new_memory_storage}
use kafka_minion.Kafka.Cluster.Refresh.Example.{
  t, client, reply_to, network, network-IsReply, opts, topics, topics_listed, block_at, generated,
  marks, sent, phases,
}

abbrev answer : Option Blocks
answer = some (reply_to (block_at newest (pos 1) ∷ []))

bodies_send_and_note_example :
    (marks : OffsetMarks) × (process_high_water_marks opts (pos 1000) answer []
      ≡ some (
        marks,
        sent_all opts new_add_partition_high_water_mark_request (received (pos 1000) answer),
      ))
    × ((p : ℤ) → get p marks ≡ fold (notes opts p) (received (pos 1000) answer) (get p []))
    × (process_low_water_marks opts (pos 1000) answer
        ≡ some
            (sent_all opts new_add_partition_low_water_mark_request (received (pos 1000) answer)))
bodies_send_and_note_example = bodies_send_and_note opts (pos 1000) answer [] ((λ e. (λ f. cc)), tt)

refresh_total_example :
    (buckets : Buckets ℤ) × (generate_offset_requests client topics ≡ some buckets)
    × (high : GoMap ℤ (List Received)) × (low : GoMap ℤ (List Received)) × (launch client network
          network.high_time buckets.leaders buckets.high
        ≡ some high)
    × (launch client network network.low_time buckets.leaders buckets.low ≡ some low)
    × ((high_run low_run : List Received)
        → Schedule (routines high) high_run
        → Schedule (routines low) low_run
        → (marks : OffsetMarks) × (high_sent : List StorageRequest) × (low_sent : List
            StorageRequest)
          × (process_high opts high_run ([], []) ≡ some (marks, high_sent))
          × (process_low opts low_run ≡ some low_sent))
refresh_total_example = refresh_total client network opts network-IsReply topics []

Refresh-Shown_example :
    Shown client network opts network-IsReply topics sent new_memory_storage t (pos 1)
Refresh-Shown_example =
    Refresh-Shown client network opts network-IsReply topics [] marks sent new_memory_storage t
      (pos 1) topics_listed (collected topics_listed generated phases)

Refresh-marks_example :
    get (pos 1) marks
    ≡ by_leader
        (notes opts (pos 1))
        client
        network
        network.high_time
        newest
        topics
        (some (pos 8))
        none
unfolding get
Refresh-marks_example =
    Refresh-marks client network opts network-IsReply topics [] marks sent (pos 1) topics_listed
      (collected topics_listed generated phases)
