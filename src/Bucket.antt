-- ===== src/Bucket.antt =====
-- src/Bolt/bucket.h and bucket.cc, the part that finds and makes the nodes of one bucket. The
-- bucket of the model carries the heap its nodes stand in. Of its transaction it sees what `Tx`
-- gives it: pages, their number, and whether it may write.
pub mod Nodes
use cbtree.Base.{ℕ, ◌==◌, if◌then◌else◌, Bool, Option, none, some, List, [], ◌∷◌, ◌++◌, get_elem?}
use cbtree.Base.Assoc.{lookup, insert, erase}
use cbtree.Page.{Page, BucketHeader}
use cbtree.Node.{Node, new_node}
use cbtree.Heap.{Heap, get, store, alloc}
use cbtree.Codec.{◌>>=◌}
use cbtree.Codec

-- `tx_->getPage`, `tx_->getTotalPageNumber`, `tx_->db_ != nullptr` and `tx_->writable_`.
pub record TxView : Type 0 where
  pub get_page : ℕ → Option Page
  pub total_pages : ℕ
  pub open_db : Bool
  pub writable : Bool

-- `nodes_` goes from page ids to addresses.
pub record Bucket : Type 0 where
  pub header : BucketHeader
  pub page : Option Page
  pub root_node : Option ℕ
  pub parent_node : Option ℕ
  pub nodes : List (ℕ × ℕ)
  pub heap : Heap

-- `getCachedNode` and `eraseCachedNode`.
abbrev pub get_cached_node : Bucket → ℕ → Option ℕ
get_cached_node b pgid = lookup pgid b.nodes

unfoldable pub erase_cached_node : ℕ → Bucket → Bucket
erase_cached_node pgid b = record b { nodes = erase pgid b.nodes }

-- What `getPageNode` finds: a node, a page, or neither.
pub record PageNode : Type 0 where
  pub page : Option Page
  pub node : Option ℕ

abbrev node_or : Option ℕ → Option Page → PageNode
node_or (some a) p = record { page = none; node = some a }
node_or none p = record { page = p; node = none }

add_child_of : Bucket → (a p : ℕ) → Option Node → Bucket
add_child_of b a p none = b
add_child_of b a p (some pn) = record b {
  heap = store p (record pn { children = pn.children ++ a ∷ [] }) b.heap;
}

-- The node that `getNode` makes: a root if the bucket's `parentNode_` is null, a child of that node
-- otherwise. The parameter `parentNode` is not looked at.
pub hang : Bucket → ℕ → Option ℕ → Bucket
unfolding add_child_of
hang b a none = record b { root_node = some a }
hang b a (some p) = add_child_of b a p (get b.heap p)

module _ (tx : TxView) where
  -- A root of 0 is that of an inline bucket.
  unfoldable pub get_page_node : Bucket → ℕ → PageNode
  get_page_node b pgid =
      if b.header.root == 0
      then node_or b.root_node b.page
      else node_or (lookup pgid b.nodes) (tx.get_page pgid)

  -- `page_`, or the page that the transaction has, which becomes `page_`.
  abbrev pub page_or : Option Page → ℕ → Option Page
  page_or (some p) pgid = some p
  page_or none pgid = tx.get_page pgid

  -- The new node at `a` reads its page.
  load_node : Bucket → (a pgid : ℕ) → Option (Bucket × ℕ)
  load_node b a pgid = do
    p ← page_or b.page pgid
    nd ← get b.heap a
    nd' ← Codec.read nd p
    some (record b { page = some p; nodes = insert pgid a b.nodes; heap = store a nd' b.heap }, a)

  get_or_load : Bucket → ℕ → Option ℕ → Option (Bucket × ℕ)
  unfolding load_node
  get_or_load b pgid (some a) = some (b, a)
  get_or_load b pgid none =
      load_node
        (hang (record b { heap = alloc (new_node b.parent_node) b.heap }) b.heap.next b.parent_node)
        b.heap.next pgid

  -- `getNode`; `none` is a null page or a failed read.
  unfoldable pub get_node : Bucket → ℕ → Option (Bucket × ℕ)
  unfolding get_or_load
  get_node b pgid = get_or_load b pgid (lookup pgid b.nodes)

  -- `Node::childAt` of node.cc: nothing for a leaf.
  unfoldable pub child_at : Bucket → (parent index : ℕ) → Option (Bucket × ℕ)
  unfolding get_node
  child_at b parent index = do
    nd ← get b.heap parent
    x ← get_elem? nd.inodes index
    if nd.is_leaf then none else get_node b x.page_id
