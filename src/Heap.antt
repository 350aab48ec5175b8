-- ===== src/Heap.antt =====
-- The nodes that a transaction has made, by address: what a `NodePtr` of src/Bolt points to.
use cbtree.Base.{
  ℕ, ◌+◌, ◌≤◌, ◌<◌, ◌≡◌, ◌==◌, if◌then◌else◌, Option, none, some, List, leb, Bool-cases, inl, inr,
  arith,
}
use cbtree.Base.Assoc.{lookup, insert, lookup-insert}
use cbtree.Node.{Node}

pub record Heap : Type 0 where
  pub nodes : List (ℕ × Node)
  pub next : ℕ

-- `none` is a dangling pointer.
abbrev pub get : Heap → ℕ → Option Node
get h a = lookup a h.nodes

abbrev pub store : ℕ → Node → Heap → Heap
store a nd h = record h { nodes = insert a nd h.nodes }

-- `make_shared<Node>`: the new address is `h.next`.
abbrev pub alloc : Node → Heap → Heap
alloc nd h = record { nodes = insert h.next nd h.nodes; next = h.next + 1 }

-- No node stands at an address that has not been given out.
abbrev pub IsHeap : Heap → Type 0
IsHeap h = (a : ℕ) → h.next ≤ a → get h a ≡ none

pub get-store :
    (a b : ℕ) (nd : Node) (h : Heap) → get (store b nd h) a ≡ (if b == a then some nd else get h a)
get-store a b nd h = lookup-insert a b nd h.nodes

pub get-alloc :
    (a : ℕ) (nd : Node) (h : Heap) → get (alloc nd h) a ≡ (if h.next == a then some nd else get h a)
get-alloc a nd h = lookup-insert a h.next nd h.nodes

pub lt-next : (h : Heap) (a : ℕ) (nd : Node) → IsHeap h → get h a ≡ some nd → a < h.next
lt-next h a nd v e = elim (Bool-cases (leb h.next a)) [
  | inl out ↦ absurd (ground (arith, v a))
  | inr inside ↦ ground arith
]

pub alloc-IsHeap : (nd : Node) (h : Heap) → IsHeap h → IsHeap (alloc nd h)
alloc-IsHeap nd h v a k = ground (arith, get-alloc a nd h, v a)

pub store-IsHeap : (b : ℕ) (nd : Node) (h : Heap) → IsHeap h → b < h.next → IsHeap (store b nd h)
store-IsHeap b nd h v k a l = ground (arith, get-store a b nd h, v a)
