-- ===== src/Node/Hash.antt =====
-- The hash that a CnetworkNode (network_node.h) keeps, over all of its operations.
use network_pool.Common.{ℕ, ◌≡◌, refl, sym, ◌∙◌, ap, true, ◌↔◌, List}
use network_pool.Node.Address.{Raw, init_copy, addr_hash}
use network_pool.Node.Equality.{node_eq_iff}
use network_pool.Node.Pair.{init_copy_lem}
use network_pool.Node.Text.{Names, set_text}
use network_pool.Node.{Protocol, Node, rehash, empty_node, set_node, node_eq}

-- `operator=`, and the copy and move constructors.
unfoldable pub copy_node : Node → Node
copy_node a = record { protocol = a.protocol; sockaddr = (init_copy a.sockaddr).0; hash = a.hash }

-- The nodes that the operations make.
pub data Built (u : Names) : Node → Type 0 where
  built_empty : Built u empty_node
  built_set : (p : Protocol) (raw : Raw) (size : ℕ) → Built u (set_node p raw size).0
  built_text : (p : Protocol) (ip : List ℕ) (port : ℕ) → Built u (set_text u p ip port).0
  built_copy : (a : Node) → Built u a → Built u (copy_node a)

abbrev IsHashed : Node → Type 0
IsHashed a = a.hash ≡ rehash a.protocol a.sockaddr

Built-IsHashed : (u : Names) (a : Node) → Built u a → IsHashed a
unfolding empty_node set_node set_text copy_node rehash addr_hash
Built-IsHashed u a built_empty = refl
Built-IsHashed u a (built_set p raw size) = refl
Built-IsHashed u a (built_text p ip port) = refl
Built-IsHashed u a (built_copy b h) =
    Built-IsHashed u b h ∙ ap (rehash b.protocol) (sym (init_copy_lem b.sockaddr))

-- Two nodes that were made by the operations, whichever functions of libuv read their texts, are
-- equal by `==` exactly when their protocols and their addresses are: the hash that each keeps does
-- not tell them apart.
pub node_eq-Built :
    (u : Names) (a b : Node)
    → Built u a
    → Built u b
    → (node_eq a b ≡ true) ↔ ((a.protocol ≡ b.protocol) × (a.sockaddr ≡ b.sockaddr))
node_eq-Built u a b h k = (
  λ e. let p = (node_eq_iff a b).0 e in (ap (λ n. n.protocol) p, ap (λ n. n.sockaddr) p),
  λ e. (node_eq_iff a b).1 (same e.0 e.1),
)
  where
    same : a.protocol ≡ b.protocol → a.sockaddr ≡ b.sockaddr → a ≡ b
    same p s =
        let t : a.hash ≡ b.hash =
          Built-IsHashed u a h
          ∙ ap (λ q. rehash q a.sockaddr) p
          ∙ ap (rehash b.protocol) s
          ∙ sym (Built-IsHashed u b k) in
        λ i. record { protocol = p i; sockaddr = s i; hash = t i }
