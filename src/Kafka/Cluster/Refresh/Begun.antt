-- ===== src/Kafka/Cluster/Refresh/Begun.antt =====
-- The goroutines of a refresh, for the requests that `generateOffsetRequests` makes.
use kafka_minion.GoMap.{GoMap}
use kafka_minion.Goroutines.{Schedule, routines, fold, Silent}
use kafka_minion.Kafka.Cluster.{Client, newest, oldest}
use kafka_minion.Kafka.Cluster.Asked.{asked, blocks_for, generate-asked}
use kafka_minion.Kafka.Cluster.Refresh.{Received, Network, Phases}
use kafka_minion.Kafka.Cluster.Refresh.Handled.{
  Answers, sent_all, process_high-sent, process_low-sent,
}
use kafka_minion.Kafka.Cluster.Refresh.Launch.{IsLaunched, launch-IsLaunched}
use kafka_minion.Kafka.Cluster.Refresh.Led.{generate-AreLed}
use kafka_minion.Kafka.Cluster.Refresh.Replies.{IsReply}
use kafka_minion.Kafka.Cluster.Refresh.Shown.{phase-Answers, by_leader, phase_shows}
use kafka_minion.Kafka.Cluster.Requests.{Buckets, generate_offset_requests}
use kafka_minion.Kafka.Cluster.WaterMarks.{OffsetMarks, Sending}
use kafka_minion.Kafka.Request.{
  StorageRequest, new_add_partition_high_water_mark_request,
  new_add_partition_low_water_mark_request,
}
use kafka_minion.Options.{Options}
use kafka_minion.Prelude.{
  All, false, ◌==◌, ◌&&◌, ◌≡◌, sym, ap, ◌∙◌, subst, Bytes, bytes_eq, int_eq, some, some-eq, List,
  [], ◌++◌,
}
use kafka_minion.Prelude.Int.{ℤ, pos}

module _ {Broker : Type 0} (client : Client Broker) (network : Network Broker)
    (reply : IsReply client network) (topics : GoMap Bytes (List ℤ)) where
  -- The two phases, as started.
  pub record Started (buckets : Buckets Broker) : Type 0 where
    pub generated : generate_offset_requests client topics ≡ some buckets
    pub high : GoMap ℤ (List Received)
    pub high_launched :
        IsLaunched client network network.high_time buckets.leaders buckets.high high
    pub low : GoMap ℤ (List Received)
    pub low_launched : IsLaunched client network network.low_time buckets.leaders buckets.low low

  pub generate-Started : (buckets : Buckets Broker) × Started buckets
  generate-Started =
      let (buckets, generated, _, _) = generate-asked client (pos 0) topics in
      let (led_high, led_low) = generate-AreLed client topics generated in
      let (high, high_launched) =
        launch-IsLaunched client network network.high_time buckets.leaders buckets.high led_high in
      let (low, low_launched) =
        launch-IsLaunched client network network.low_time buckets.leaders buckets.low led_low in
      (
        buckets,
        record {
          generated = generated;
          high = high;
          high_launched = high_launched;
          low = low;
          low_launched = low_launched;
        },
      )

  asked_of :
      {buckets : Buckets Broker}
      → Started buckets
      → (j : ℤ)
      → (asked j buckets.high ≡ blocks_for client j newest topics)
        × (asked j buckets.low ≡ blocks_for client j oldest topics)
  asked_of started j =
      let (b, generated, high, low) = generate-asked client j topics in
      let same = some-eq (sym generated ∙ started.generated) in
      subst
        (λ (x : Buckets Broker).
          (asked j x.high ≡ blocks_for client j newest topics)
          × (asked j x.low ≡ blocks_for client j oldest topics))
        same (high, low)

  pub started_for :
      (buckets : Buckets Broker)
      → generate_offset_requests client topics ≡ some buckets
      → Started buckets
  started_for buckets generated =
      let (b, started) = generate-Started in
      subst Started (some-eq (sym started.generated ∙ generated)) started

  module _ {buckets : Buckets Broker} (started : Started buckets) where
    pub high_run-Answers :
        {run : List Received} → Schedule (routines started.high) run → All Answers run
    high_run-Answers scheduled =
        phase-Answers client network reply network.high_time newest topics buckets.leaders
          buckets.high (λ j. (asked_of started j).0) started.high started.high_launched scheduled

    pub low_run-Answers :
        {run : List Received} → Schedule (routines started.low) run → All Answers run
    low_run-Answers scheduled =
        phase-Answers client network reply network.low_time oldest topics buckets.leaders
          buckets.low (λ j. (asked_of started j).1) started.low started.low_launched scheduled

    -- A run of a phase does to what is known of a partition what its leader's answer does.
    module _ {S : Type 0} (step : Received → S → S) (t : Bytes) (p : ℤ)
        (off : (r : Received) → (r.topic == t && r.partition == p) ≡ false → Silent step r) where
      pub fold-high_run :
          {run : List Received} (o : S)
          → Schedule (routines started.high) run
          → fold step run o
            ≡ by_leader step client network network.high_time newest topics (client.leader t p) o
      fold-high_run o scheduled =
          phase_shows client network reply network.high_time newest topics buckets.leaders
            buckets.high (λ j. (asked_of started j).0) started.high started.high_launched step t p
            off o scheduled

      pub fold-low_run :
          {run : List Received} (o : S)
          → Schedule (routines started.low) run
          → fold step run o
            ≡ by_leader step client network network.low_time oldest topics (client.leader t p) o
      fold-low_run o scheduled =
          phase_shows client network reply network.low_time oldest topics buckets.leaders
            buckets.low (λ j. (asked_of started j).1) started.low started.low_launched step t p off
            o scheduled

    module _ {opts : Options} {known marks : OffsetMarks} {sent : List StorageRequest}
        (phases : Phases client network buckets opts known marks sent) where
      pub high_order : Schedule (routines started.high) phases.high_run
      high_order =
          subst (λ m. Schedule (routines m) phases.high_run)
            (some-eq (sym phases.high_launched ∙ started.high_launched.launched))
            phases.high_scheduled

      pub low_order : Schedule (routines started.low) phases.low_run
      low_order =
          subst (λ m. Schedule (routines m) phases.low_run)
            (some-eq (sym phases.low_launched ∙ started.low_launched.launched)) phases.low_scheduled

      -- What the phases have sent.
      pub Phases-sent :
          sent
          ≡ sent_all opts new_add_partition_high_water_mark_request phases.high_run
            ++ sent_all opts new_add_partition_low_water_mark_request phases.low_run
      Phases-sent =
          let (_, high) =
            process_high-sent opts phases.high_run (known, []) (high_run-Answers high_order) in
          let low = process_low-sent opts phases.low_run (low_run-Answers low_order) in
          let high_sent : phases.high_sent
              ≡ sent_all opts new_add_partition_high_water_mark_request phases.high_run =
            ap (λ (x : Sending). x.1) (some-eq (sym phases.high_processed ∙ high)) in
          phases.all_sent
          ∙ ap (λ l. l ++ phases.low_sent) high_sent
          ∙ ap (λ l. sent_all opts new_add_partition_high_water_mark_request phases.high_run ++ l)
              (some-eq (sym phases.low_processed ∙ low))
