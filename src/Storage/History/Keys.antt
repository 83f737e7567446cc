-- ===== src/Storage/History/Keys.antt =====
-- The keys of memory.go against the three fields that they stand for.
use kafka_minion.Prelude.{
  ◌≡◌, refl, sym, Bool, true, false, ◌&&◌, Bytes, bytes_eq, int_eq, List, [], ◌∷◌, ◌==◌, ==_iff,
  All, arith,
}
use kafka_minion.Prelude.Int.{ℤ}
use kafka_minion.Storage.{offset_key}
use kafka_minion.Storage.Action.{Action, commit, tombstone, describe_group, register, mark_ready}
use kafka_minion.Storage.OffsetKey.{NoColon, offset_key-injective}
use kafka_minion.Storage.History.{is, filed_under, buried, live, LegalTopic}

-- On legal topic names the key and the three fields test the same.
filed_under-is :
    (g t h u : Bytes) (p q : ℤ)
    → NoColon t
    → NoColon u
    → filed_under (offset_key h u q) g t p ≡ is h u q g t p
filed_under-is g t h u p q nt nu =
    Bool-ext _ _
      (λ e.
        let (group, topic, partition) =
          offset_key-injective g h t u p q nt nu
            ((==_iff (offset_key g t p) (offset_key h u q)).0 e) in
        all_three _ _ _ ((==_iff g h).1 group) ((==_iff t u).1 topic) ((==_iff p q).1 partition))
      (λ e.
        let (group, topic, partition) = each (g == h) (t == u) (p == q) e in
        (==_iff (offset_key g t p) (offset_key h u q)).1
          (same_key ((==_iff g h).0 group) ((==_iff t u).0 topic) ((==_iff p q).0 partition)))
  where
    Bool-ext : (a b : Bool) → (a ≡ true → b ≡ true) → (b ≡ true → a ≡ true) → a ≡ b
    Bool-ext true b f h = sym (f refl)
    Bool-ext false true f h = h refl
    Bool-ext false false f h = refl

    all_three : (a b c : Bool) → a ≡ true → b ≡ true → c ≡ true → (a && b && c) ≡ true
    all_three a b c x y z = ground arith

    each : (a b c : Bool) → (a && b && c) ≡ true → (a ≡ true) × (b ≡ true) × (c ≡ true)
    each a b c h = ground arith

    same_key : g ≡ h → t ≡ u → p ≡ q → offset_key g t p ≡ offset_key h u q
    same_key x y z = cc

pub live-is :
    (g t : Bytes) (p : ℤ) (actions : List Action)
    → NoColon t
    → All LegalTopic actions
    → (buried (filed_under (offset_key g t p)) actions ≡ buried (is g t p) actions)
      × (live (filed_under (offset_key g t p)) actions ≡ live (is g t p) actions)
live-is g t p [] nt f = (refl, refl)
live-is g t p (commit c ∷ actions) nt f =
    let (b, l) = live-is g t p actions nt f.1 in
    (b, rw (filed_under-is c.group c.topic g t c.partition p f.0 nt, b, l))
live-is g t p (tombstone h u q ∷ actions) nt f =
    let (b, l) = live-is g t p actions nt f.1 in (rw (filed_under-is h u g t q p f.0 nt, b), l)
live-is g t p (describe_group m ∷ actions) nt f = live-is g t p actions nt f.1
live-is g t p (register n ∷ actions) nt f = live-is g t p actions nt f.1
live-is g t p (mark_ready q ∷ actions) nt f = live-is g t p actions nt f.1
