-- ===== src/Table/Laws.antt =====
-- What lookups see after each change of a table.
use network_pool.Common.{◌≡◌, refl, true, false, ◌||◌, none, some, [], ◌∷◌, arith, if◌then◌else◌}
use network_pool.Node.{Node, node_eq}
use network_pool.Node.Equality.{node_eq_iff}
use network_pool.Table.{Table, find, has, insert, erase}

pub node_eq_self : (n : Node) → node_eq n n ≡ true
node_eq_self n = (node_eq_iff n n).1 refl

module _ {ℓ} {V : Type ℓ} where
  pub has-insert :
      (k n : Node) (v : V) (t : Table V) → has n (insert k v t) ≡ (node_eq k n || has n t)
  unfolding has insert
  has-insert k n v t = grind (arith, node_eq_iff k n)

  pub has-erase :
      (k n : Node) (t : Table V) → has n (erase k t) ≡ (if node_eq k n then false else has n t)
  unfolding has erase
  has-erase k n [] = ground arith
  has-erase k n ((j, v) ∷ t) =
      ground (arith, has-erase k n t, node_eq_iff j k, node_eq_iff j n, node_eq_iff k n)

  pub find-none_of_has : (n : Node) (t : Table V) → find n t ≡ none → has n t ≡ false
  unfolding find has
  find-none_of_has n [] h = refl
  find-none_of_has n ((k, v) ∷ t) h = ground (arith, find-none_of_has n t)

  pub has_of_find : (n : Node) (t : Table V) (v : V) → find n t ≡ some v → has n t ≡ true
  unfolding find has
  has_of_find n [] v h = cc
  has_of_find n ((k, w) ∷ t) v h = ground (arith, has_of_find n t v)
