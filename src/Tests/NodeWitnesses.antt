-- ===== src/Tests/NodeWitnesses.antt =====
-- The theorems of addresses and nodes at concrete inputs.
use network_pool.Common.{ℕ, ◌≡◌, true, ◌↔◌, Option, none, some, List, ◌-◌, [], ◌∷◌, ◌+◌}
use network_pool.Node.{tcp, Node, node_eq}
use network_pool.Node.Address.{raw4}
use network_pool.Node.Text.{Names, set_text}
use network_pool.Node.Hash.{built_set, built_text, node_eq-Built}
use network_pool.Tests.Sample.{peer}

-- Names that spell an address out: one number for IPv4, and a colon with four for IPv6.
abbrev four : List ℕ → ℕ → Option (ℕ × ℕ)
four (c ∷ cs) port = some (port, c - 59)
four [] port = none

abbrev six : List ℕ → ℕ → Option (ℕ × ℕ × ℕ × ℕ × ℕ × ℕ × ℕ)
six (c ∷ a0 ∷ a1 ∷ a2 ∷ a3 ∷ cs) port = some (port, a0, a1, a2, a3, 0, 0)
six _ port = none

abbrev spelled : Names
spelled = record {
  ip4_addr = four;
  ip6_addr = six;
  ip4_name = λ addr. some ((addr + 59) ∷ []);
  ip6_name = λ a0 a1 a2 a3. some (58 ∷ a0 ∷ a1 ∷ a2 ∷ a3 ∷ []);
  ntohs = λ port. port;
}

-- The peer, and the peer of the same address as a text.
abbrev same_peer : Node
same_peer = (set_text spelled tcp (66 ∷ []) 80).0

node_eq-Built_example :
    (node_eq peer same_peer ≡ true)
    ↔ ((peer.protocol ≡ same_peer.protocol) × (peer.sockaddr ≡ same_peer.sockaddr))
node_eq-Built_example =
    node_eq-Built spelled peer same_peer (built_set tcp (raw4 80 7) 16)
      (built_text tcp (66 ∷ []) 80)
