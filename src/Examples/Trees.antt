-- ===== src/Examples/Trees.antt =====
-- Runs of cursor.cc and bucket.cc on a bucket of two leaves under a branch, and on one of one leaf.
use cbtree.Base.{
  ℕ, inl, inr, ◌≡◌, ◌≢◌, refl, if◌then◌else◌, true, false, Option, none, some, List, [], ◌∷◌, arith,
}
use cbtree.Item.{Item, same, less}
use cbtree.Page.{Page, raw, leaf}
use cbtree.Search
use cbtree.Node
use cbtree.Node.{Node, Inode, new_node}
use cbtree.Node.Keys.{find}
use cbtree.Heap.{get}
use cbtree.Codec
use cbtree.Bucket.{Bucket, TxView, get_page_node, get_node}
use cbtree.Bucket.Nodes.{get_node_twice}
use cbtree.Cursor.{ElementRef, Kv, content, search, seek}
use cbtree.Tree.{IsTree}
use cbtree.Tree.Lookup.{Ends, Seeks, search-Ends, seek-Seeks}
use cbtree.Tree.Walk.{IsFullTree}
use cbtree.Tree.ForEach.{visit_entries, for_each-visit_entries}
use cbtree.Api.{for_each, get_value}
use cbtree.Api.Reads.{value_of, get_value-find}
use cbtree.Api.Root.{IsLeafRoot, IsPageRoot}
use cbtree.Api.Writes.{Puts, put_value-Puts, Removes, remove_value-Removes}

abbrev entry : (flag page_id k v : ℕ) → Inode
entry flag page_id k v = record { flag = flag; page_id = page_id; key = k ∷ []; value = v ∷ [] }

abbrev leaf_of : List Inode → Node
leaf_of xs = record (new_node none) { is_leaf = true; inodes = xs }

-- The leaf at page 5 has a value and a bucket, that at page 6 one value.
abbrev left : List Inode
left = entry 0 0 1 10 ∷ entry 1 0 2 20 ∷ []

abbrev right : List Inode
right = entry 0 0 4 40 ∷ []

abbrev branches : List Inode
branches = entry 0 5 1 0 ∷ entry 0 6 4 0 ∷ []

abbrev entries : List Inode
entries = entry 0 0 1 10 ∷ entry 1 0 2 20 ∷ entry 0 0 4 40 ∷ []

abbrev empty_page : ℕ → Option Page
empty_page i = some (record { id = i; flag = 2; count = 0; overflow = 0; body = raw })

abbrev tx : TxView
tx = record { get_page = empty_page; total_pages = 9; open_db = true; writable = true }

abbrev two_leaves : Bucket
two_leaves = record {
  header = record { root = 4; sequence = 0 };
  page = none;
  root_node = some 0;
  parent_node = none;
  nodes = (4, 0) ∷ (5, 1) ∷ (6, 2) ∷ [];
  heap = record {
    nodes =
        (0, record (new_node none) { inodes = branches })
        ∷ (1, leaf_of left)
        ∷ (2, leaf_of right)
        ∷ [];
    next = 3;
  };
}

two_leaves-IsTree : IsTree tx two_leaves 1 4 entries
unfolding content get_page_node less
two_leaves-IsTree = (
  record { is_leaf = false; inodes = branches },
  (refl, refl, (refl, (tt, tt)), omega arith),
  refl,
  (λ e. ground arith),
  (
    left,
    right,
    refl,
    (
      record { is_leaf = true; inodes = left },
      (refl, refl, (refl, (tt, tt)), omega arith),
      refl,
      refl,
    ),
    (refl, (refl, tt)),
    (refl, (refl, tt)),
    (
      right,
      [],
      refl,
      (record { is_leaf = true; inodes = right }, (refl, refl, (tt, tt), omega arith), refl, refl),
      (refl, tt),
      tt,
      refl,
    ),
  ),
)

leaf_not_empty : (x : Inode) (xs : List Inode) → x ∷ xs ≢ []
leaf_not_empty x xs e = ground arith

two_leaves-IsFullTree : IsFullTree tx two_leaves 1 4 entries
unfolding content get_page_node less
two_leaves-IsFullTree = (
  record { is_leaf = false; inodes = branches },
  (refl, refl, (refl, (tt, tt)), omega arith),
  refl,
  (λ e. ground arith),
  (
    left,
    right,
    refl,
    (
      record { is_leaf = true; inodes = left },
      (refl, refl, (refl, (tt, tt)), omega arith),
      refl,
      refl,
      leaf_not_empty (entry 0 0 1 10) (entry 1 0 2 20 ∷ []),
    ),
    (refl, (refl, tt)),
    (refl, (refl, tt)),
    (
      right,
      [],
      refl,
      (
        record { is_leaf = true; inodes = right },
        (refl, refl, (tt, tt), omega arith),
        refl,
        refl,
        leaf_not_empty (entry 0 0 4 40) [],
      ),
      (refl, tt),
      tt,
      refl,
    ),
  ),
)

-- The values are put in a list, until the one of the key 4.
abbrev collect : List Item → Item → Item → List Item × ℕ
collect vs k v = (v ∷ vs, if same k (4 ∷ []) then 1 else 0)

for_each-visit_entries_example :
    for_each tx 2 collect 4 two_leaves [] ≡ some (visit_entries collect [] entries)
for_each-visit_entries_example =
    for_each-visit_entries tx two_leaves collect 2 4 1 [] entries refl (inl two_leaves-IsFullTree)
      ((λ e. ground arith), ((λ e. ground arith), ((λ e. ground arith), tt))) (omega arith)
      (omega arith)

-- The bucket whose root is the left leaf.
abbrev one_leaf : Bucket
one_leaf = record two_leaves { header = record { root = 5; sequence = 0 } }

one_leaf-IsLeafRoot : IsLeafRoot tx one_leaf 1 (leaf_of left)
unfolding get_page_node less
one_leaf-IsLeafRoot = record {
  root = refl;
  here = refl;
  leaf = refl;
  ordered = record { ascending = (refl, (tt, tt)); small = omega arith };
}

search-Ends_example :
    (s : List ElementRef) × (search tx 2 two_leaves (4 ∷ []) 4 [] ≡ some s)
    × Ends tx two_leaves (4 ∷ []) 1 entries [] s
search-Ends_example = search-Ends tx two_leaves (4 ∷ []) 1 4 entries [] two_leaves-IsTree

seek-Seeks_example :
    (s : List ElementRef) × (kv : Kv) × (seek tx 2 two_leaves (4 ∷ []) ≡ some (s, kv))
    × Seeks tx two_leaves (4 ∷ []) entries kv
    × Ends tx two_leaves (4 ∷ []) 1 entries [] s
seek-Seeks_example = seek-Seeks tx two_leaves (4 ∷ []) 1 entries two_leaves-IsTree

get_value-find_example :
    get_value tx 2 two_leaves (4 ∷ []) ≡ some (value_of (find (4 ∷ []) entries))
get_value-find_example = get_value-find tx two_leaves (4 ∷ []) 1 entries two_leaves-IsTree

-- The same leaf on page 9.
abbrev leaf_page : Page
leaf_page = record {
  id = 9;
  flag = 2;
  count = 2;
  overflow = 0;
  body =
      leaf
        (record { flag = 0; pos = 32; ksize = 1; vsize = 1 }
          ∷ record { flag = 1; pos = 18; ksize = 1; vsize = 1 }
          ∷ [])
        (1 ∷ 10 ∷ 2 ∷ 20 ∷ []);
}

abbrev read_leaf : Node
read_leaf = record (new_node none) { is_leaf = true; page_id = 9; key = 1 ∷ []; inodes = left }

abbrev page_leaf : Bucket
page_leaf = record two_leaves { header = record { root = 9; sequence = 0 }; page = some leaf_page }

abbrev tx_page : TxView
tx_page = record tx { get_page = λ i. some leaf_page }

page_leaf-IsPageRoot : IsPageRoot tx_page page_leaf leaf_page read_leaf
unfolding get_page_node less Codec.read Codec.leaf_key Codec.leaf_value
page_leaf-IsPageRoot = record {
  root = refl;
  own_page = refl;
  uncached = refl;
  page = inl refl;
  orphan = refl;
  readable = refl;
  leaf = refl;
  ordered = record { ascending = (refl, (tt, tt)); small = omega arith };
}

put_value-Puts_example : Puts tx_page page_leaf read_leaf (1 ∷ []) (11 ∷ []) false false
unfolding same
put_value-Puts_example =
    put_value-Puts tx_page page_leaf read_leaf (1 ∷ []) (11 ∷ [])
      (inr (leaf_page, page_leaf-IsPageRoot)) (omega arith) (omega arith)

-- A key that the leaf does not have.
remove_value-Removes_example : Removes tx one_leaf (leaf_of left) (3 ∷ []) false false
unfolding Node.search Search.binary_search less same
remove_value-Removes_example =
    remove_value-Removes tx one_leaf (leaf_of left) (3 ∷ []) (inl (1, one_leaf-IsLeafRoot))

get_node_twice_example :
    (b1 : Bucket) × (b2 : Bucket) × (a1 : ℕ) × (a2 : ℕ) × (get_node tx two_leaves 7 ≡ some (b1, a1))
    × (get_node tx b1 8 ≡ some (b2, a2))
    × (get b2.heap a1 ≡ some (record (new_node none) { page_id = 7; is_leaf = true }))
    × (get b2.heap a2 ≡ some (record (new_node none) { page_id = 7; is_leaf = true }))
    × (b2.root_node ≡ some a2)
    × (a1 ≢ a2)
unfolding Codec.read
get_node_twice_example =
    get_node_twice tx two_leaves 7 8
      (record { id = 7; flag = 2; count = 0; overflow = 0; body = raw })
      (record (new_node none) { page_id = 7; is_leaf = true }) (λ e. ground arith) refl refl refl
      refl refl refl
