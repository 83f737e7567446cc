-- ===== src/Goroutines.antt =====
-- Goroutines that a function starts and waits for: the order in which their steps come is some
-- interleaving of theirs.
use kafka_minion.GoMap.{GoMap, get}
use kafka_minion.GoMap.Laws.{IsUnique, AllEntries, get_here, AllEntries-tail}
use kafka_minion.Prelude.{
  ◌≡◌, ◌≢◌, refl, ap, ◌∙◌, Option, none, some, List, [], ◌∷◌, ◌++◌, All, Comparable, ◌==◌, ==_iff,
  true, false, Bool-cases, inl, inr, arith,
}

-- Two runs made into one, each kept in its order.
pub data Merge {A : Type 0} : List A → List A → List A → Type 0 where
  over : Merge [] [] []
  left : (x : A) {xs ys zs : List A} → Merge xs ys zs → Merge (x ∷ xs) ys (x ∷ zs)
  right : (y : A) {xs ys zs : List A} → Merge xs ys zs → Merge xs (y ∷ ys) (y ∷ zs)

-- One order of the steps of all goroutines, which are given by what each does.
pub data Schedule {A : Type 0} : List (List A) → List A → Type 0 where
  idle : Schedule [] []
  started :
      {xs ys zs : List A} {ls : List (List A)}
      → Schedule ls ys
      → Merge xs ys zs
      → Schedule (xs ∷ ls) zs

module _ {A : Type 0} (P : A → Type 0) where
  merge-All : {xs ys zs : List A} → All P xs → All P ys → Merge xs ys zs → All P zs
  merge-All a b over = tt
  merge-All a b (left x m) = (a.0, merge-All a.1 b m)
  merge-All a b (right y m) = (b.0, merge-All a b.1 m)

-- What holds of all steps holds in any order of them.
pub Schedule-All_each :
    {A : Type 0} (P : A → Type 0) {ls : List (List A)} {run : List A}
    → All (All P) ls
    → Schedule ls run
    → All P run
Schedule-All_each P each idle = tt
Schedule-All_each P each (started later merged) =
    merge-All P each.0 (Schedule-All_each P each.1 later) merged

merge_from : {A : Type 0} (ys : List A) → Merge [] ys ys
merge_from [] = over
merge_from (y ∷ ys) = right y (merge_from ys)

merge_first : {A : Type 0} (xs ys : List A) → Merge xs ys (xs ++ ys)
merge_first [] ys = merge_from ys
merge_first (x ∷ xs) ys = left x (merge_first xs ys)

abbrev pub concat : {A : Type 0} → List (List A) → List A
concat [] = []
concat (l ∷ ls) = l ++ concat ls

-- The goroutines may run one after the other.
pub one_by_one : {A : Type 0} (ls : List (List A)) → Schedule ls (concat ls)
one_by_one [] = idle
one_by_one (l ∷ ls) = started (one_by_one ls) (merge_first l (concat ls))

module _ {A S : Type 0} (step : A → S → S) where
  abbrev pub fold : List A → S → S
  fold [] s = s
  fold (x ∷ xs) s = fold xs (step x s)

  -- A step that changes nothing.
  abbrev pub Silent : A → Type 0
  Silent x = (s : S) → step x s ≡ s

  pub fold-Silent : (xs : List A) (s : S) → All Silent xs → fold xs s ≡ s
  fold-Silent [] s h = refl
  fold-Silent (x ∷ xs) s h = ap (fold xs) (h.0 s) ∙ fold-Silent xs s h.1

  merge_left : {xs ys zs : List A} (s : S) → All Silent ys → Merge xs ys zs → fold zs s ≡ fold xs s
  merge_left s h over = refl
  merge_left s h (left x m) = merge_left (step x s) h m
  merge_left s h (right y {zs = zs} m) = ap (fold zs) (h.0 s) ∙ merge_left s h.1 m

  merge_right : {xs ys zs : List A} (s : S) → All Silent xs → Merge xs ys zs → fold zs s ≡ fold ys s
  merge_right s h over = refl
  merge_right s h (right y m) = merge_right (step y s) h m
  merge_right s h (left x {zs = zs} m) = ap (fold zs) (h.0 s) ∙ merge_right s h.1 m

abbrev pub routine : {A : Type 0} → Option (List A) → List A
routine none = []
routine (some l) = l

-- The goroutines are those of a map, as of the brokers with a request each.
module _ {K A : Type 0} ⦃e : Comparable K⦄ where
  abbrev pub routines : GoMap K (List A) → List (List A)
  routines [] = []
  routines ((k, l) ∷ m) = l ∷ routines m

  pub Schedule-All :
      (P : A → Type 0) (m : GoMap K (List A)) {run : List A}
      → IsUnique m
      → AllEntries (λ _ l. All P l) m
      → Schedule (routines m) run
      → All P run
  Schedule-All P [] u each idle = tt
  Schedule-All P ((k, l) ∷ m) u each (started later merged) =
      merge-All P (each k l (get_here k l m))
        (Schedule-All P m u.1 (AllEntries-tail (λ _ l. All P l) k l m u.0 each) later) merged

  module _ {S : Type 0} (step : A → S → S) where
    -- The other goroutines do nothing that shows.
    abbrev pub Others : K → K → List A → Type 0
    Others k j l = j ≢ k → All (Silent step) l

    -- A goroutine whose steps are the only ones that show decides what the run does.
    pub fold-routine :
        (k : K) (m : GoMap K (List A)) {run : List A} (s : S)
        → IsUnique m
        → AllEntries (Others k) m
        → Schedule (routines m) run
        → fold step run s ≡ fold step (routine (get k m)) s
    unfolding get
    fold-routine k [] s u each idle = refl
    fold-routine k ((j, l) ∷ m) s u each (started {ys = ys} later merged) =
        let others = AllEntries-tail (Others k) j l m u.0 each in
        elim (Bool-cases (j == k)) [
          | inl same ↦
              let rest : All (Silent step) ys =
                Schedule-All (Silent step) m u.1
                  (λ i n found. others i n found (λ i_k. apart i n found i_k same)) later in
              rw same (merge_left step s rest merged)
          | inr other ↦ rw other (
              merge_right step s (each j l (get_here j l m) (λ j_k. different j_k other)) merged
              ∙ fold-routine k m s u.1 others later)
        ]
      where
        apart : (i : K) (n : List A) → get i m ≡ some n → i ≡ k → (j == k) ≡ true → ⊥
        apart i n found i_k same = ground (arith, ==_iff j k, u.0, found, i_k)

        different : j ≡ k → (j == k) ≡ false → ⊥
        different j_k other = ground (arith, ==_iff j k)
