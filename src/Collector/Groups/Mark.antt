-- ===== src/Collector/Groups/Mark.antt =====
-- What the marking of the latest groups changes.
use kafka_minion.Collector.{VersionedConsumerGroup}
use kafka_minion.Collector.Groups.{Groups, mark_latest}
use kafka_minion.GoMap.{get, put}
use kafka_minion.GoMap.Laws.{IsUnique, AllEntries, AllEntries-tail, get_here, get-put}
use kafka_minion.Prelude.{
  some-eq, ◌≡◌, ◌⊎◌, refl, sym, ap, ◌∙◌, Bool, true, false, ◌||◌, Bytes, bytes_eq, Option, none,
  some, [], ◌∷◌, ◌==◌, ==_iff, Bool-cases, inl, inr, arith,
}

-- Whether the group that is kept for a base name has this name.
abbrev pub is_named : Bytes → Option VersionedConsumerGroup → Bool
is_named k none = false
is_named k (some w) = w.name == k

abbrev pub marked : Bytes → Groups → VersionedConsumerGroup → VersionedConsumerGroup
marked k latest g = record g { is_latest = g.is_latest || is_named k (get g.base_name latest) }

abbrev pub map_marked :
    Bytes → Groups → Option VersionedConsumerGroup → Option VersionedConsumerGroup
map_marked k latest none = none
map_marked k latest (some g) = some (marked k latest g)

-- Each kept group is filed under its name, with the base name under which it is kept.
abbrev pub IsKnown : Groups → Groups → Type 0
IsKnown latest by_name =
    AllEntries
      (λ b w. (x : VersionedConsumerGroup) × (get w.name by_name ≡ some x) × (x.base_name ≡ b))
      latest

-- One kept group fewer to mark, for an entry that is not the marked one.
marked-skip :
    (k b : Bytes) (w g : VersionedConsumerGroup) (latest : Groups)
    → get b latest ≡ none
    → (w.name == k) ≡ false
    → marked k latest g ≡ marked k ((b, w) ∷ latest) g
unfolding get
marked-skip k b w g latest fresh other =
    ap (λ c. record g { is_latest = g.is_latest || c }) (same_name (Bool-cases (b == g.base_name)))
  where
    same_name :
        ((b == g.base_name) ≡ true) ⊎ ((b == g.base_name) ≡ false)
        → is_named k (get g.base_name latest) ≡ is_named k (get g.base_name ((b, w) ∷ latest))
    same_name (inl at_base) =
        rw (at_base, other)
          (ap (is_named k)
            (ap (λ c. get c latest) (sym ((==_iff b g.base_name).0 at_base)) ∙ fresh))
    same_name (inr elsewhere) = rw elsewhere

marked-nil : (k : Bytes) (o : Option VersionedConsumerGroup) → map_marked k [] o ≡ o
unfolding get
marked-nil k none = refl
marked-nil k (some g) = ap (λ c. some (record g { is_latest = c })) (or_false g.is_latest)
  where
    or_false : (c : Bool) → (c || false) ≡ c
    or_false c = ground arith

marked-skip_map :
    (k b : Bytes) (w : VersionedConsumerGroup) (latest : Groups) (o : Option VersionedConsumerGroup)
    → get b latest ≡ none
    → (w.name == k) ≡ false
    → map_marked k latest o ≡ map_marked k ((b, w) ∷ latest) o
marked-skip_map k b w latest none fresh other = refl
marked-skip_map k b w latest (some g) fresh other =
    ap (λ x. some x) (marked-skip k b w g latest fresh other)

-- The marked entry itself: once marked it stays so.
marked-here :
    (k b : Bytes) (w x : VersionedConsumerGroup) (latest : Groups)
    → x.base_name ≡ b
    → (w.name == k) ≡ true
    → marked k latest (record x { is_latest = true }) ≡ marked k ((b, w) ∷ latest) x
unfolding get
marked-here k b w x latest base same =
    let at_base : (b == x.base_name) ≡ true = (==_iff b x.base_name).1 (sym base) in
    rw (at_base, same) (ap (λ c. record x { is_latest = c }) (true_or x.is_latest))
  where
    true_or : (c : Bool) → true ≡ (c || true)
    true_or c = ground arith

put-IsKnown :
    (w x : VersionedConsumerGroup) (latest by_name : Groups)
    → get w.name by_name ≡ some x
    → IsKnown latest by_name
    → IsKnown latest (put w.name (record x { is_latest = true }) by_name)
put-IsKnown w x latest by_name got known b v e =
    let (y, found, base) = known b v e in
    elim (Bool-cases (w.name == v.name)) [
      | inl same ↦
          let x_is_y : x ≡ y =
            some-eq (sym got ∙ ap (λ n. get n by_name) ((==_iff w.name v.name).0 same) ∙ found) in
          (
            record x { is_latest = true },
            rw (get-put w.name v.name _ by_name, same),
            ap (λ g. g.base_name) x_is_y ∙ base,
          )
      | inr other ↦ (y, rw (get-put w.name v.name _ by_name, other) found, base)
    ]

-- Marking sets `IsLatest` of just those groups that are kept for their own base name, and changes
-- nothing else.
pub get-mark_latest :
    (latest by_name : Groups) (k : Bytes) {gs : Groups}
    → IsUnique latest
    → IsKnown latest by_name
    → mark_latest latest by_name ≡ some gs
    → get k gs ≡ map_marked k latest (get k by_name)
unfolding mark_latest
get-mark_latest [] by_name k u known e =
    ap (get k) (sym (some-eq e)) ∙ sym (marked-nil k (get k by_name))
get-mark_latest ((b, w) ∷ latest) by_name k u known e =
    let (x, got, base) = known b w (get_here b w latest) in
    let next = put w.name (record x { is_latest = true }) by_name in
    let ih =
      get-mark_latest latest next k u.1
        (put-IsKnown w x latest by_name got (AllEntries-tail _ b w latest u.0 known))
        (rw (got, mark_latest) at e) in
    ih ∙ elim (Bool-cases (w.name == k)) [
      | inl same ↦
          let here : get k by_name ≡ some x =
            ap (λ n. get n by_name) (sym ((==_iff w.name k).0 same)) ∙ got in
          rw (get-put w.name k _ by_name, same, here)
            (ap (λ v. some v) (marked-here k b w x latest base same))
      | inr other ↦
          rw (get-put w.name k _ by_name, other)
            (marked-skip_map k b w latest (get k by_name) u.0 other)
    ]

pub mark_latest-total :
    (latest by_name : Groups)
    → IsUnique latest
    → IsKnown latest by_name
    → (gs : Groups) × (mark_latest latest by_name ≡ some gs)
unfolding mark_latest
mark_latest-total [] by_name u known = (by_name, refl)
mark_latest-total ((b, w) ∷ latest) by_name u known =
    let (x, got, base) = known b w (get_here b w latest) in
    let (gs, e) =
      mark_latest-total latest (put w.name (record x { is_latest = true }) by_name) u.1
        (put-IsKnown w x latest by_name got (AllEntries-tail _ b w latest u.0 known)) in
    (gs, rw (got, mark_latest) e)
