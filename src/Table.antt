-- ===== src/Table.antt =====
-- std::unordered_map with CnetworkNode keys, as an association list. The order of iteration, which
-- the standard leaves open, is the order of the list.
pub mod Laws
pub mod Values
use network_pool.Common.{Bool, true, false, not, Option, none, some, List, [], ◌∷◌, if◌then◌else◌}
use network_pool.Node.{Node, node_eq}

abbrev pub Table {ℓ} : Type ℓ → Type ℓ
Table V = List (Node × V)

module _ {ℓ} {V : Type ℓ} where
  -- `find(key)`; `none` is `end()`.
  unfoldable pub find : Node → Table V → Option V
  find n [] = none
  find n ((k, v) ∷ t) = if node_eq k n then some v else find n t

  -- `find(key) != end()`, also the count that `erase(key)` returns, as a test.
  unfoldable pub has : Node → Table V → Bool
  has n [] = false
  has n ((k, v) ∷ t) = if node_eq k n then true else has n t

  -- `insert(make_pair(key, value))` changes nothing where the key is present.
  unfoldable pub insert : Node → V → Table V → Table V
  insert n v t = if has n t then t else (n, v) ∷ t

  -- `erase(key)`
  unfoldable pub erase : Node → Table V → Table V
  erase n [] = []
  erase n ((k, v) ∷ t) = let rest = erase n t in if node_eq k n then rest else (k, v) ∷ rest

  -- `erase(it)` for the `it` that `find(key)` gives.
  unfoldable pub erase_at : Node → Table V → Table V
  erase_at n [] = []
  erase_at n ((k, v) ∷ t) = if node_eq k n then t else (k, v) ∷ erase_at n t

  -- Writing through the `it` that `find(key)` gives.
  unfoldable pub update_at : Node → (V → V) → Table V → Table V
  update_at n f [] = []
  update_at n f ((k, v) ∷ t) = if node_eq k n then (k, f v) ∷ t else (k, v) ∷ update_at n f t
