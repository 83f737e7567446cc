-- ===== src/Kafka/Cluster/Refresh/Shown.antt =====
-- What the storage shows of a partition after a refresh: its leader's answer, in whatever order the
-- goroutines ran.
use kafka_minion.GoMap.{GoMap, get}
use kafka_minion.GoMap.Laws.{AllEntries}
use kafka_minion.Goroutines.{
  Schedule, routines, routine, fold, Silent, fold-Silent, Schedule-All, fold-routine,
}
use kafka_minion.Kafka.Cluster.{Client, Block, OffsetTime}
use kafka_minion.Kafka.Cluster.Answers.{answer}
use kafka_minion.Kafka.Cluster.Asked.{asked, blocks_of, blocks_for}
use kafka_minion.Kafka.Cluster.Refresh.{Received, received, Network}
use kafka_minion.Kafka.Cluster.Refresh.Handled.{Answers, received_for-Answers}
use kafka_minion.Kafka.Cluster.Refresh.Launch.{Steps, IsLaunched}
use kafka_minion.Kafka.Cluster.Requests.{Requests}
use kafka_minion.Kafka.Cluster.WaterMarks.{Blocks}
use kafka_minion.Prelude.{
  ◌≡◌, ◌≢◌, refl, sym, ap, ◌∙◌, subst, false, ◌&&◌, Bytes, bytes_eq, int_eq, Option, none, some,
  some-eq, List, [], ◌==◌, All, Any,
}
use kafka_minion.Prelude.Int.{ℤ}
use kafka_minion.Kafka.Cluster.Refresh.Replies.{
  IsReply, AsksFor, All-map, asked-Silent, blocks_for-IsLedBy,
}

module _ {S : Type 0} (step : Received → S → S) {Broker : Type 0} (client : Client Broker)
    (network : Network Broker) (clock : ℤ → ℤ) (time : OffsetTime)
    (topics : GoMap Bytes (List ℤ)) where
  -- What the leader's answer to its request makes of the value o, step by step.
  abbrev pub by_leader : Option Broker → S → S
  by_leader none o = o
  by_leader (some b) o =
      fold step
        (received (clock (client.id b))
          (network.available b (blocks_for client (client.id b) time topics)))
        o

-- One phase: its goroutines, the time that each asks for, and their clocks.
module _ {Broker : Type 0} (client : Client Broker) (network : Network Broker)
    (reply : IsReply client network) (clock : ℤ → ℤ) (time : OffsetTime)
    (topics : GoMap Bytes (List ℤ)) (leaders : GoMap ℤ Broker) (requests : Requests)
    (asks : (j : ℤ) → asked j requests ≡ blocks_for client j time topics)
    (m : GoMap ℤ (List Received))
    (launched : IsLaunched client network clock leaders requests m) where
  -- A goroutine has what its broker answered.
  abbrev Answered : ℤ → List Received → Type 0
  Answered j l =
      (b : Broker) × (client.id b ≡ j)
      × (l ≡ received (clock j) (network.available b (blocks_for client j time topics)))

  routine-Answered : AllEntries Answered m
  routine-Answered j l found = by_request (get j requests) (asks j) (launched.one_each j)
    where
      by_request :
          (o : Option (List Block))
          → blocks_of o ≡ blocks_for client j time topics
          → Steps client network clock leaders j o (get j m)
          → Answered j l
      by_request none e steps = cc (found, steps)
      by_request (some blocks) e (b, known, same, steps) = (
        b,
        same,
        some-eq (sym found ∙ steps) ∙ ap (λ bs. received (clock j) (network.available b bs)) e,
      )

  pub phase-Answers : {run : List Received} → Schedule (routines m) run → All Answers run
  phase-Answers scheduled =
      Schedule-All Answers m launched.unique
        (λ j l found.
          let (b, _, same) = routine-Answered j l found in
          subst (All Answers) (sym same)
            (by_answer b (network.available b (blocks_for client j time topics)) (clock j) refl))
        scheduled
    where
      by_answer :
          (b : Broker) (o : Option Blocks) (ts : ℤ) {bs : List Block}
          → network.available b bs ≡ o
          → All Answers (received ts o)
      by_answer b none ts e = tt
      by_answer b (some answer) ts {bs} e =
          received_for-Answers ts answer (reply.has_offsets b bs answer e)

  module _ {S : Type 0} (step : Received → S → S) (t : Bytes) (p : ℤ)
      (off : (r : Received) → (r.topic == t && r.partition == p) ≡ false → Silent step r) where
    -- The goroutine of a broker that does not lead the partition.
    routine-Silent :
        (j : ℤ) (l : List Received)
        → ((c : Broker) → client.leader t p ≡ some c → client.id c ≢ j)
        → get j m ≡ some l
        → All (Silent step) l
    routine-Silent j l apart found =
        let (b, _, same) = routine-Answered j l found in
        let blocks = blocks_for client j time topics in
        subst (All (Silent step)) (sym same) (
          All-map (λ r. Any (AsksFor r) blocks) (Silent step) _
            (λ r any.
              asked-Silent step t p off client j blocks r apart
                (blocks_for-IsLedBy client j time topics) any)
            (reply.only_asked (clock j) b blocks))

    -- The leader's goroutine, if it has one.
    own_routine :
        (b : Broker) (o : S)
        → fold step (routine (get (client.id b) m)) o
          ≡ by_leader step client network clock time topics (some b) o
    own_routine b o = by_request (get k requests) (asks k) (launched.one_each k)
      where
        k : ℤ
        k = client.id b

        unasked :
            All (λ r. Any (AsksFor r) []) (received (clock k) (network.available b []))
            → All (Silent step) (received (clock k) (network.available b []))
        unasked none_asked =
            All-map (λ r. Any (AsksFor r) []) (Silent step) _ (λ r any. absurd any) none_asked

        by_request :
            (q : Option (List Block))
            → blocks_of q ≡ blocks_for client k time topics
            → Steps client network clock leaders k q (get k m)
            → fold step (routine (get k m)) o
              ≡ fold step
                  (received (clock k) (network.available b (blocks_for client k time topics)))
                  o
        by_request none e steps =
            let silent : All (Silent step) (received (clock k) (network.available b [])) =
              unasked (reply.only_asked (clock k) b []) in
            rw steps (
              sym (fold-Silent step _ o silent)
              ∙ ap (λ bs. fold step (received (clock k) (network.available b bs)) o) e)
        by_request (some blocks) e (c, known, same, steps) = rw steps (
            ap (λ x. fold step (received (clock k) (network.available x blocks)) o)
              (reply.one_broker c b same)
            ∙ ap (λ bs. fold step (received (clock k) (network.available b bs)) o) e)

    pub phase_shows :
        {run : List Received} (o : S)
        → Schedule (routines m) run
        → fold step run o ≡ by_leader step client network clock time topics (client.leader t p) o
    phase_shows {run} o scheduled = by_known (client.leader t p) refl
      where
        by_known :
            (leader : Option Broker)
            → client.leader t p ≡ leader
            → fold step run o ≡ by_leader step client network clock time topics leader o
        by_known none e = fold-Silent step run o (
            Schedule-All (Silent step) m launched.unique
              (λ j l found. routine-Silent j l (λ c led. absurd (cc (e, led))) found) scheduled)
        by_known (some b) e =
            fold-routine step (client.id b) m o launched.unique
              (λ j l found other.
                routine-Silent j l
                  (λ c led same. other (sym same ∙ ap client.id (some-eq (sym led ∙ e)))) found)
              scheduled
            ∙ own_routine b o
