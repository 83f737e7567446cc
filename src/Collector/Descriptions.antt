-- ===== src/Collector/Descriptions.antt =====
-- `NewCollector` and `Describe` of collector/collector.go: the descriptions of the metrics. How
-- prometheus joins the parts of a metric's name is a parameter.
use kafka_minion.Collector.{
  Desc, group_partition_offset, group_partition_commit_count, group_partition_last_commit,
  group_partition_lag, group_topic_lag, partition_count, partition_high_water_mark,
  partition_low_water_mark, partition_message_count,
}
use kafka_minion.Options.{Options}
use kafka_minion.Prelude.{Bytes, List, [], ◌∷◌, ◌++◌}
use kafka_minion.Prelude.Text.{bytes_of}

pub record Description : Type 0 where
  pub fq_name : Bytes
  pub help : Bytes
  pub variable_labels : List Bytes

abbrev pub group_labels : List Bytes
group_labels =
    bytes_of "group"
    ∷ bytes_of "group_base_name"
    ∷ bytes_of "group_is_latest"
    ∷ bytes_of "group_version"
    ∷ bytes_of "topic"
    ∷ []

abbrev pub mark_label_names : List Bytes
mark_label_names = bytes_of "topic" ∷ bytes_of "partition" ∷ []

-- The variable of the package for each description, once `NewCollector` has set it.
module _ (build_fq_name : Bytes → Bytes → Bytes → Bytes) (opts : Options) where
  unfoldable pub new_collector : Desc → Description
  new_collector group_partition_offset = record {
    fq_name =
        build_fq_name opts.metrics_prefix (bytes_of "group_topic_partition") (bytes_of "offset");
    help = bytes_of "Newest committed offset of a consumer group for a partition";
    variable_labels = group_labels ++ bytes_of "partition" ∷ [];
  }
  new_collector group_partition_commit_count = record {
    fq_name =
        build_fq_name opts.metrics_prefix (bytes_of "group_topic_partition")
          (bytes_of "commit_count");
    help = bytes_of "Number of commits of a consumer group for a partition";
    variable_labels = group_labels ++ bytes_of "partition" ∷ [];
  }
  new_collector group_partition_last_commit = record {
    fq_name =
        build_fq_name opts.metrics_prefix (bytes_of "group_topic_partition")
          (bytes_of "last_commit");
    help = bytes_of "Timestamp when consumer group last committed an offset for a partition";
    variable_labels = group_labels ++ bytes_of "partition" ∷ [];
  }
  new_collector group_partition_lag = record {
    fq_name = build_fq_name opts.metrics_prefix (bytes_of "group_topic_partition") (bytes_of "lag");
    help = bytes_of "Number of messages the consumer group is behind for a partition";
    variable_labels = group_labels ++ bytes_of "partition" ∷ [];
  }
  new_collector group_topic_lag = record {
    fq_name = build_fq_name opts.metrics_prefix (bytes_of "group_topic") (bytes_of "lag");
    help = bytes_of "Number of messages the consumer group is behind for a topic";
    variable_labels = group_labels;
  }
  new_collector partition_count = record {
    fq_name = build_fq_name opts.metrics_prefix (bytes_of "topic") (bytes_of "partition_count");
    help = bytes_of "Partition count for a given topic along with cleanup policy as label";
    variable_labels = bytes_of "topic" ∷ bytes_of "cleanup_policy" ∷ [];
  }
  new_collector partition_high_water_mark = record {
    fq_name =
        build_fq_name opts.metrics_prefix (bytes_of "topic_partition") (bytes_of "high_water_mark");
    help = bytes_of "Highest known committed offset for this partition";
    variable_labels = mark_label_names;
  }
  new_collector partition_low_water_mark = record {
    fq_name =
        build_fq_name opts.metrics_prefix (bytes_of "topic_partition") (bytes_of "low_water_mark");
    help = bytes_of "Oldest known committed offset for this partition";
    variable_labels = mark_label_names;
  }
  new_collector partition_message_count = record {
    fq_name =
        build_fq_name opts.metrics_prefix (bytes_of "topic_partition") (bytes_of "message_count");
    help =
        bytes_of
          "Number of messages for a given topic. Calculated by subtracting high water mark by low water mark.";
    variable_labels = mark_label_names;
  }

-- What `Describe` sends.
unfoldable pub describe : List Desc
describe = group_partition_offset ∷ []
