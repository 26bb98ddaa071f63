-- ===== src/Table/Values.antt =====
-- What holds of all the values of a table.
use network_pool.Common.{
  ◌≡◌, refl, subst, some, [], ◌∷◌, if_both, true, false, Bool, if◌then◌else◌, arith,
}
use network_pool.Node.{Node, node_eq}
use network_pool.Table.{Table, find, has, insert, erase, update_at}

module _ {ℓ} {V : Type ℓ} where
  abbrev pub AllIn {κ} : (V → Type κ) → Table V → Type κ
  AllIn P [] = Unit
  AllIn P ((k, v) ∷ t) = P v × AllIn P t

  pub find-update_at :
      (n : Node) (f : V → V) (t : Table V) (v : V)
      → find n t ≡ some v
      → find n (update_at n f t) ≡ some (f v)
  unfolding find update_at
  find-update_at n f [] v h = absurd (cc h)
  find-update_at n f ((k, w) ∷ t) v h = ground (arith, find-update_at n f t v)

  module _ {κ} (P : V → Type κ) where
    pub find-AllIn : (n : Node) (t : Table V) (v : V) → find n t ≡ some v → AllIn P t → P v
    unfolding find
    find-AllIn n [] v h a = absurd (cc h)
    find-AllIn n ((k, w) ∷ t) v h a = go (node_eq k n) h (λ e. find-AllIn n t v e a.1)
      where
        go :
            (b : Bool) → (if b then some w else find n t) ≡ some v → (find n t ≡ some v → P v) → P v
        go true e ih = let q : w ≡ v = cc e in subst P q a.0
        go false e ih = ih e

    pub update_at-AllIn :
        (n : Node) (f : V → V) (t : Table V)
        → ((v : V) → find n t ≡ some v → P (f v))
        → AllIn P t
        → AllIn P (update_at n f t)
    unfolding find update_at
    update_at-AllIn n f [] h a = a
    update_at-AllIn n f ((k, w) ∷ t) h a = go (node_eq k n) h (λ g. update_at-AllIn n f t g a.1)
      where
        go :
            (b : Bool)
            → ((v : V) → (if b then some w else find n t) ≡ some v → P (f v))
            → (((v : V) → find n t ≡ some v → P (f v)) → AllIn P (update_at n f t))
            → AllIn P (if b then (k, f w) ∷ t else (k, w) ∷ update_at n f t)
        go true e ih = (e w refl, a.1)
        go false e ih = (a.0, ih e)

    pub insert-AllIn : (n : Node) (v : V) (t : Table V) → P v → AllIn P t → AllIn P (insert n v t)
    unfolding insert
    insert-AllIn n v t p a = if_both (AllIn P) (has n t) a (p, a)

    pub erase-AllIn : (n : Node) (t : Table V) → AllIn P t → AllIn P (erase n t)
    unfolding erase
    erase-AllIn n [] a = a
    erase-AllIn n ((k, w) ∷ t) a =
        if_both (AllIn P) (node_eq k n) (erase-AllIn n t a.1) (a.0, erase-AllIn n t a.1)
