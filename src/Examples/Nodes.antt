-- ===== src/Examples/Nodes.antt =====
-- Runs of node.cc.
use cbtree.Base.{
  ℕ, ◌+◌, ◌≡◌, ◌≤◌, ◌<◌, ◌⊎◌, inr, refl, ltb, ◌==◌, true, false, Option, none, some, List, [], ◌∷◌,
  length, take, Returns, arith,
}
use cbtree.Item.{less}
use cbtree.Page.{Page, raw}
use cbtree.Search.{binary_search}
use cbtree.Search.Correct.{Locates, binary_search-Locates}
use cbtree.Node.{Node, Inode, new_node, inode_key, put, del, size_less_than, split_index}
use cbtree.Node.Keys.{KeysAscending, KeysAscending-IsAscending}
use cbtree.Node.Lookup.{IsOrdered, HasPut, HasDeleted, put_lem, del_lem}
use cbtree.Node.Sizes.{bytes, size_less_than-node_bytes}
use cbtree.Node.Index.{split_index_lem}
use cbtree.Heap.{Heap, get}
use cbtree.Split.{split_from, stays_whole}
use cbtree.Split.Pieces.{Pieces}
use cbtree.Split.Two.{IsChild}
use cbtree.Split.Root.{split-root}
use cbtree.Codec
use cbtree.Codec.Leaf.{read_back, read-write_leaf}
use cbtree.Codec.Branch.{read-write_branch_stray}

-- An inode with a one-byte key and value.
abbrev pair : ℕ → ℕ → Inode
pair k v = record { flag = 0; page_id = k; key = k ∷ []; value = v ∷ [] }

abbrev leaf_of : Option ℕ → List Inode → Node
leaf_of p xs = record (new_node p) { is_leaf = true; inodes = xs }

abbrev six : List Inode
six = pair 1 10 ∷ pair 2 20 ∷ pair 3 30 ∷ pair 4 40 ∷ pair 5 50 ∷ pair 6 60 ∷ []

abbrev two_keys : Node
two_keys = leaf_of none (pair 1 10 ∷ pair 3 30 ∷ [])

abbrev six_keys : Node
six_keys = leaf_of none six

abbrev blank : Page
blank = record { id = 7; flag = 0; count = 0; overflow = 0; body = raw }

two_keys-KeysAscending : KeysAscending two_keys.inodes
unfolding less
two_keys-KeysAscending = (refl, (tt, tt))

two_keys-IsOrdered : IsOrdered two_keys
two_keys-IsOrdered = record { ascending = two_keys-KeysAscending; small = omega arith }

binary_search-Locates_example :
    Locates
      (inode_key two_keys.inodes)
      2
      (2 ∷ [])
      (binary_search (inode_key two_keys.inodes) 2 (2 ∷ []))
binary_search-Locates_example =
    binary_search-Locates (inode_key two_keys.inodes) 2 (2 ∷ [])
      (KeysAscending-IsAscending two_keys.inodes two_keys-KeysAscending) (omega arith)

put_lem_example :
    ((put 8 two_keys (2 ∷ []) (2 ∷ []) (20 ∷ []) 0 0).1 ≡ true)
    × HasPut two_keys
        (record { flag = 0; page_id = 0; key = 2 ∷ []; value = 20 ∷ [] })
        (put 8 two_keys (2 ∷ []) (2 ∷ []) (20 ∷ []) 0 0).0
put_lem_example =
    put_lem 8 two_keys (2 ∷ []) (20 ∷ []) 0 0 two_keys-IsOrdered (omega arith) (λ e. ground arith)

del_lem_example :
    ((del two_keys (3 ∷ [])).1 ≡ true) × HasDeleted two_keys (3 ∷ []) (del two_keys (3 ∷ [])).0
del_lem_example = del_lem two_keys (3 ∷ []) two_keys-IsOrdered

size_less_than-node_bytes_example : size_less_than six_keys 100 ≡ ltb 124 100
size_less_than-node_bytes_example =
    size_less_than-node_bytes six_keys 100 (omega arith) (omega arith)

split_index_lem_example :
    (2 ≤ split_index six_keys 50)
    × (split_index six_keys 50 + 2 < 6)
    × ((split_index six_keys 50 ≡ 2) ⊎ (16 + bytes 16 (take (split_index six_keys 50) six) ≤ 50))
split_index_lem_example = split_index_lem six_keys 50 (omega arith) (omega arith)

-- The node of six at 0 under a parent at 1.
abbrev child_keys : Node
child_keys = leaf_of (some 1) six

abbrev parent_keys : Node
parent_keys = record (new_node none) { children = 0 ∷ [] }

abbrev two_nodes : Heap
two_nodes = record { nodes = (0, child_keys) ∷ (1, parent_keys) ∷ []; next = 2 }

two_nodes-IsChild : IsChild two_nodes 0 1 child_keys parent_keys
two_nodes-IsChild = record { heap = λ a h. ground arith; here = refl; parent = refl; apart = refl }

abbrev one_node : Heap
one_node = record { nodes = (0, six_keys) ∷ []; next = 1 }

six_keys-cut : stays_whole 100 six_keys ≡ false
six_keys-cut = size_less_than-node_bytes six_keys 100 (omega arith) (omega arith)

split-root_example :
    (h' : Heap) × (rs : List ℕ) × (split_from 6 100 5 one_node 0 ≡ some (h', rs))
    × Pieces 100 1 true h' rs six
    × ((c : ℕ) → (0 == c) ≡ false → c < 1 → get h' c ≡ get one_node c)
split-root_example =
    split-root 100 5 one_node 0 six_keys (λ a h. ground arith) refl refl 6 six_keys-cut
      (omega arith) (omega arith) (omega arith)

read-write_leaf_example :
    Returns
      (Codec.write (λ i. 0) two_keys blank)
      (λ q. Codec.read (new_node none) q ≡ some (read_back blank two_keys))
read-write_leaf_example =
    read-write_leaf (λ i. 0) two_keys blank refl (omega arith) (omega arith) (omega arith)

-- A branch with one child, written where a local variable lies far above the page.
abbrev one_child : Node
one_child = record (new_node none) { inodes = pair 1 10 ∷ [] }

one_child-far : length (Codec.content_of one_child.inodes) + 16 < 70000
unfolding Codec.content_of
one_child-far = omega arith

read-write_branch_stray_example :
    Returns (Codec.write (λ i. 70000) one_child blank) (λ q. Codec.read (new_node none) q ≡ none)
read-write_branch_stray_example =
    read-write_branch_stray (λ i. 70000) one_child blank (pair 1 10) [] refl refl (omega arith)
      (omega arith) (inr one_child-far)
