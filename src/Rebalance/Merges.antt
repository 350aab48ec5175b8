-- ===== src/Rebalance/Merges.antt =====
-- What `Node::rebalance` of node.cc does with a node that has become too small and is not the first
-- child of its parent.
use cbtree.Base.{ℕ, suc, ◌<◌, ◌≡◌, ◌≢◌, ◌⊎◌, true, false, none, some, ◌++◌, length, get_elem?, All}
use cbtree.Base.Assoc.{lookup, erase}
use cbtree.Page.{Page}
use cbtree.FreeList.{FreeList}
use cbtree.FreeList
use cbtree.Node.{Node, Inode, erase_at, child_index}
use cbtree.Heap.{get}
use cbtree.Bucket.{get_cached_node}
use cbtree.Work.{Work, Setting, without_child}
use cbtree.Rebalance.{is_full_enough}

-- The child `a` of `p` has the left sibling `t`, the node of the entry `x` of `p`; no page that the
-- entries of `a` name has a node; and without the entry of `a`, the parent `p` is full enough, or
-- it is a root that keeps two entries.
pub record HasLeft (w : Work) (a p t i : ℕ) (nd parent target : Node) (x : Inode) : Type 0 where
  pub target_here : get w.bucket.heap t ≡ some target
  pub is_branch : parent.is_leaf ≡ false
  pub index : child_index parent nd.key ≡ some (suc i)
  pub siblings : 1 < length parent.inodes
  pub left : get_elem? parent.inodes i ≡ some x
  pub cached : lookup x.page_id w.bucket.nodes ≡ some t
  pub left_apart : t ≢ p
  pub not_self : t ≢ a
  pub uncached : All (λ y. get_cached_node w.bucket y.page_id ≡ none) nd.inodes
  pub stays :
      (is_full_enough (record parent { inodes = erase_at (suc i) parent.inodes }) ≡ true)
      ⊎ ((parent.parent ≡ none) × (2 < length parent.inodes))

module _ (set : Setting) (w : Work) (a p t i : ℕ) (nd parent target : Node) (f : FreeList) where
  -- The parent without the child `a`.
  abbrev pub bereft : Node
  bereft = record parent {
    inodes = erase_at (suc i) parent.inodes;
    children = without_child a parent.children;
    unbalanced = false;
  }

  -- What `rebalance` makes of the bucket and the pages.
  abbrev pub Joins : Work → Type 0
  Joins w' =
      (get w'.bucket.heap t ≡ some (record target { inodes = target.inodes ++ nd.inodes }))
      × (get w'.bucket.heap p ≡ some bereft)
      × (get w'.bucket.heap a ≡ some (record nd { unbalanced = false; page_id = 0 }))
      × ((c : ℕ) → c ≢ a → c ≢ p → c ≢ t → get w'.bucket.heap c ≡ get w.bucket.heap c)
      × (w'.bucket.nodes ≡ erase nd.page_id w.bucket.nodes)
      × (w'.pages ≡ record w.pages { free_list = f })

  abbrev after_merge : Node
  after_merge = record bereft { unbalanced = true }
