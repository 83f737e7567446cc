-- ===== src/Kafka/Cluster/Refresh/Replies.antt =====
-- What Kafka answers, and that a response is about a partition that its broker leads.
use kafka_minion.GoMap.{GoMap}
use kafka_minion.Goroutines.{Silent}
use kafka_minion.Kafka.Cluster.{Client, Block, OffsetTime}
use kafka_minion.Kafka.Cluster.Answers.{IsAnswered, answer}
use kafka_minion.Kafka.Cluster.Asked.{block_for, blocks_in, blocks_for}
use kafka_minion.Kafka.Cluster.Refresh.{Received, received, Network}
use kafka_minion.Kafka.Cluster.Refresh.Handled.{says}
use kafka_minion.Kafka.Cluster.WaterMarks.{Blocks, ConsumerOffsetPartition}
use kafka_minion.Kafka.Request.{PartitionWaterMark}
use kafka_minion.Kafka.Topics.{is_topic_allowed}
use kafka_minion.Options.{Options}
use kafka_minion.Prelude.{
  ◌≡◌, ◌≢◌, refl, sym, ap, ◌∙◌, Bool, true, false, ◌&&◌, Bytes, bytes_eq, int_eq, Option, none,
  some, List, [], ◌∷◌, ◌++◌, ◌==◌, ==_iff, All, Any, Bool-cases, inl, inr, if◌then◌else◌,
}
use kafka_minion.Prelude.Int.{ℤ}

pub All-map :
    {A : Type 0} (P Q : A → Type 0) (xs : List A) → ((x : A) → P x → Q x) → All P xs → All Q xs
All-map P Q [] f h = tt
All-map P Q (x ∷ xs) f h = (f x h.0, All-map P Q xs f h.1)

All-append : {A : Type 0} (P : A → Type 0) (xs ys : List A) → All P xs → All P ys → All P (xs ++ ys)
All-append P [] ys h k = k
All-append P (x ∷ xs) ys h k = (h.0, All-append P xs ys h.1 k)

Any-All : {A : Type 0} (P Q : A → Type 0) (xs : List A) → Any P xs → All Q xs → (x : A) × P x × Q x
Any-All P Q [] any all = elim any [ ]
Any-All P Q (x ∷ xs) (inl here) all = (x, here, all.0)
Any-All P Q (x ∷ xs) (inr later) all = Any-All P Q xs later all.1

-- The block asks for the partition of the response.
abbrev pub AsksFor : Received → Block → Type 0
AsksFor r block = (block.topic ≡ r.topic) × (block.partition ≡ r.partition)

-- What Kafka answers: a response without an error has an offset, no partition is answered that was not
-- asked for, and a broker is known by its ID.
pub record IsReply {Broker : Type 0} (client : Client Broker) (network : Network Broker)
    : Type 0 where
  pub has_offsets :
      (broker : Broker) (blocks : List Block) (answer : Blocks)
      → network.available broker blocks ≡ some answer
      → IsAnswered answer
  pub only_asked :
      (ts : ℤ) (broker : Broker) (blocks : List Block)
      → All (λ r. Any (AsksFor r) blocks) (received ts (network.available broker blocks))
  pub one_broker : (b c : Broker) → client.id b ≡ client.id c → b ≡ c

module _ {Broker : Type 0} (client : Client Broker) where
  abbrev pub IsLedBy : ℤ → Block → Type 0
  IsLedBy j block =
      (c : Broker) × (client.leader block.topic block.partition ≡ some c) × (client.id c ≡ j)

  block_for-IsLedBy :
      (j : ℤ) (time : OffsetTime) (topic : Bytes) (p : ℤ) (leader : Option Broker)
      → client.leader topic p ≡ leader
      → All (IsLedBy j) (block_for client j time topic p leader)
  block_for-IsLedBy j time topic p none e = tt
  block_for-IsLedBy j time topic p (some broker) e = elim (Bool-cases (client.id broker == j)) [
    | inl same ↦ rw same ((broker, e, (==_iff (client.id broker) j).0 same), tt)
    | inr other ↦ rw other tt
  ]

  blocks_in-IsLedBy :
      (j : ℤ) (time : OffsetTime) (topic : Bytes) (ps : List ℤ)
      → All (IsLedBy j) (blocks_in client j time topic ps)
  blocks_in-IsLedBy j time topic [] = tt
  blocks_in-IsLedBy j time topic (p ∷ ps) =
      All-append (IsLedBy j) (block_for client j time topic p (client.leader topic p)) _
        (block_for-IsLedBy j time topic p (client.leader topic p) refl)
        (blocks_in-IsLedBy j time topic ps)

  pub blocks_for-IsLedBy :
      (j : ℤ) (time : OffsetTime) (topics : GoMap Bytes (List ℤ))
      → All (IsLedBy j) (blocks_for client j time topics)
  blocks_for-IsLedBy j time [] = tt
  blocks_for-IsLedBy j time ((topic, ps) ∷ topics) =
      All-append (IsLedBy j) (blocks_in client j time topic ps) _
        (blocks_in-IsLedBy j time topic ps) (blocks_for-IsLedBy j time topics)

-- Steps that change what is known of the partition only on a response for it.
module _ {S : Type 0} (step : Received → S → S) (t : Bytes) (p : ℤ)
    (off : (r : Received) → (r.topic == t && r.partition == p) ≡ false → Silent step r)
    {Broker : Type 0} (client : Client Broker) where
  -- A response to a broker that does not lead the partition is not about it.
  pub asked-Silent :
      (j : ℤ) (blocks : List Block) (r : Received)
      → ((c : Broker) → client.leader t p ≡ some c → client.id c ≢ j)
      → All (IsLedBy client j) blocks
      → Any (AsksFor r) blocks
      → Silent step r
  asked-Silent j blocks r apart led any =
      let (block, asks, (c, leads, same)) = Any-All (AsksFor r) (IsLedBy client j) blocks any led in
      let led_r : client.leader r.topic r.partition ≡ some c =
        ap (λ x. client.leader x r.partition) (sym asks.0)
        ∙ ap (client.leader block.topic) (sym asks.1)
        ∙ leads in
      off r (elim (Bool-cases (r.topic == t)) [
        | inr other ↦ rw other refl
        | inl t_t ↦ elim (Bool-cases (r.partition == p)) [
          | inr other ↦ rw (t_t, other) refl
          | inl p_p ↦ absurd (
              apart c
                (ap (λ x. client.leader x p) (sym ((==_iff r.topic t).0 t_t))
                  ∙ ap (client.leader r.topic) (sym ((==_iff r.partition p).0 p_p))
                  ∙ led_r)
                same)
        ]
      ])

module _ (opts : Options) (t : Bytes) (p : ℤ) where
  pub says-Silent :
      (r : Received) → (r.topic == t && r.partition == p) ≡ false → Silent (says opts t p) r
  says-Silent r other o = by_answer r.response.no_error r.response.offsets
    where
      either :
          (b c : Bool) (x y : Option PartitionWaterMark) → c ≡ false → (if b && c then x else y) ≡ y
      either true c x y e = rw e refl
      either false c x y e = refl

      by_answer :
          (fine : Bool) (os : List ℤ) → answer opts r.time t p r.topic r.partition fine os o ≡ o
      by_answer true (offset ∷ os) = either (is_topic_allowed opts r.topic) _ _ o other
      by_answer true [] = refl
      by_answer false os = refl

-- What a step notes of a partition of the offsets topic.
module _ (opts : Options) (p : ℤ) where
  abbrev pub note :
      Bytes → ℤ → Bool → List ℤ → Option ConsumerOffsetPartition → Option ConsumerOffsetPartition
  note topic q true (offset ∷ _) o =
      if topic == opts.consumer_offsets_topic_name && q == p
      then some (record { partition_id = q; high_water_mark = offset })
      else o
  note topic q _ _ o = o

  abbrev pub notes : Received → Option ConsumerOffsetPartition → Option ConsumerOffsetPartition
  notes r o = note r.topic r.partition r.response.no_error r.response.offsets o

  pub notes-Silent :
      (r : Received)
      → (r.topic == opts.consumer_offsets_topic_name && r.partition == p) ≡ false
      → Silent notes r
  notes-Silent r other o = by_answer r.response.no_error r.response.offsets
    where
      by_answer : (fine : Bool) (os : List ℤ) → note r.topic r.partition fine os o ≡ o
      by_answer true (offset ∷ os) = rw other refl
      by_answer true [] = refl
      by_answer false os = refl
