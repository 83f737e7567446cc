-- ===== src/GoMap.antt =====
-- Go's built-in map, as an association list. The order of the list is the order of one iteration:
-- a theorem about every such list is about every order in which `range` may visit the entries.
pub mod Laws
pub mod Copy
use kafka_minion.Prelude.{
  Bool, true, false, Option, none, some, List, [], ◌∷◌, Comparable, ◌==◌, if◌then◌else◌,
}

abbrev pub GoMap : Type 0 → Type 0 → Type 0
GoMap K V = List (K × V)

module _ {K V : Type 0} ⦃e : Comparable K⦄ where
  -- `v, exists := m[k]`
  unfoldable pub get : K → GoMap K V → Option V
  get k [] = none
  get k ((j, v) ∷ m) = if j == k then some v else get k m

  -- `m[k] = v`
  unfoldable pub put : K → V → GoMap K V → GoMap K V
  put k v [] = (k, v) ∷ []
  put k v ((j, w) ∷ m) = if j == k then (k, v) ∷ m else (j, w) ∷ put k v m

  -- `delete(m, k)`
  unfoldable pub delete : K → GoMap K V → GoMap K V
  delete k [] = []
  delete k ((j, v) ∷ m) = let rest = delete k m in if j == k then rest else (j, v) ∷ rest

  unfoldable pub has : K → GoMap K V → Bool
  has k [] = false
  has k ((j, v) ∷ m) = if j == k then true else has k m

  -- The copy of a map that the readers of the storage build, entry by entry.
  unfoldable pub copy_onto : GoMap K V → GoMap K V → GoMap K V
  copy_onto acc [] = acc
  copy_onto acc ((k, v) ∷ m) = copy_onto (put k v acc) m

  unfoldable pub copy : GoMap K V → GoMap K V
  unfolding copy_onto put
  copy m = copy_onto [] m
