-- ===== src/Rebalance/Left.antt =====
-- The step of `Node::rebalance` of node.cc that joins a node to its left sibling.
use cbtree.Base.{
  ℕ, suc, ◌-◌, ◌<◌, ◌≡◌, ◌≢◌, refl, ap, ◌∙◌, leb, ◌==◌, Bool, true, false, none, some, List, [],
  ◌∷◌, ◌++◌, length, All, done, Returns, arith,
}
use cbtree.Base.Assoc.{erase}
use cbtree.Page.{Page}
use cbtree.FreeList.{FreeList}
use cbtree.FreeList
use cbtree.Item.{Item}
use cbtree.Node.{Node, Inode, asserted, erase_inode, erase_at, search, del, child_index}
use cbtree.Heap.{get, store, get-store}
use cbtree.Bucket.{child_at, get_cached_node, erase_cached_node}
use cbtree.TxPages.{get_page}
use cbtree.Work.{Work, Setting, set_node, view_of, without_child, remove_child, free}
use cbtree.Rebalance.{with_bucket, prev_sibling, move_children, drop_node, merge_left, merge}

-- What `del` takes out is the entry at the index that `childIndex` gives.
erased :
    (parent : Node) (r : ℕ × Bool) (i : ℕ)
    → asserted r ≡ some i
    → erase_inode parent r ≡ record parent { inodes = erase_at i parent.inodes; unbalanced = true }
erased parent (j, true) i e = ground arith
erased parent (j, false) i e = absurd (ground arith)

del-child_index :
    (parent : Node) (key : Item) (i : ℕ)
    → child_index parent key ≡ some i
    → (del parent key).0 ≡ record parent { inodes = erase_at i parent.inodes; unbalanced = true }
unfolding del child_index
del-child_index parent key i e = erased parent (search parent key) i e

move_children-none :
    (t : ℕ) (xs : List Inode) (u : Work)
    → All (λ x. get_cached_node u.bucket x.page_id ≡ none) xs
    → move_children t xs u ≡ done u
unfolding move_children
move_children-none t [] u h = refl
move_children-none t (x ∷ xs) u (e, h) = rw (move_children, e) (move_children-none t xs u h)

-- The node `a` goes to the left: `p` is its parent, `t` its left sibling, and no page that its
-- entries name has a node.
pub record IsLeftMerge (u : Work) (a p t i : ℕ) (nd this parent target : Node) : Type 0 where
  pub here : get u.bucket.heap a ≡ some this
  pub same_page : this.page_id ≡ nd.page_id
  pub parent_here : get u.bucket.heap p ≡ some parent
  pub target_here : get u.bucket.heap t ≡ some target
  pub index : child_index parent nd.key ≡ some (suc i)
  pub siblings : 1 < length parent.inodes
  pub sibling : child_at (view_of u.pages) u.bucket p i ≡ some (u.bucket, t)
  pub apart : a ≢ p
  pub left_apart : t ≢ p
  pub not_self : t ≢ a
  pub uncached : All (λ x. get_cached_node u.bucket x.page_id ≡ none) nd.inodes

module _ (set : Setting) (u : Work) (a p t i : ℕ) (nd this parent target : Node) (q : Page)
    (f : FreeList) where
  -- What the merge makes.
  abbrev pub Merged : Work → Type 0
  Merged w' =
      (get w'.bucket.heap t ≡ some (record target { inodes = target.inodes ++ nd.inodes }))
      × (get w'.bucket.heap p
          ≡ some (record parent {
            inodes = erase_at (suc i) parent.inodes;
            unbalanced = true;
            children = without_child a parent.children;
          }))
      × (get w'.bucket.heap a ≡ some (record this { page_id = 0 }))
      × ((c : ℕ) → c ≢ a → c ≢ p → c ≢ t → get w'.bucket.heap c ≡ get u.bucket.heap c)
      × (w'.bucket.nodes ≡ erase nd.page_id u.bucket.nodes)
      × (w'.pages ≡ record u.pages { free_list = f })

  -- The node `a` after it has left the bucket.
  abbrev dropped : Work → Work
  dropped w =
      let left = set_node p (remove_child a (del parent nd.key).0) w in
      set_node a (record this { page_id = 0 })
        (record (with_bucket left (erase_cached_node nd.page_id left.bucket)) {
          pages = record w.pages { free_list = f };
        })

  drop_node_lem :
      (w : Work)
      → w.pages ≡ u.pages
      → get w.bucket.heap p ≡ some parent
      → get w.bucket.heap a ≡ some this
      → a ≢ p
      → this.page_id ≡ nd.page_id
      → (nd.page_id == 0) ≡ false
      → get_page u.pages nd.page_id ≡ some q
      → FreeList.free set.txid q u.pages.free_list ≡ done f
      → drop_node set a p nd w ≡ done (dropped w)
  unfolding free erase_cached_node
  drop_node_lem w s e h apart same paged there freed =
      let parent' = remove_child a (del parent nd.key).0 in
      let still : get (store p parent' w.bucket.heap) a ≡ some this =
        ground (arith, get-store a p parent' w.bucket.heap, h) in
      rw (e, still, same, paged, s, there, freed) refl

  prev_sibling_lem :
      IsLeftMerge u a p t i nd this parent target → prev_sibling u p nd ≡ done (u, some t)
  unfolding prev_sibling
  prev_sibling_lem v =
      let less : suc i - 1 ≡ i = omega arith in
      let later : (suc i == 0) ≡ false = ground arith in
      rw (v.parent_here, v.index, less, v.sibling, later) refl

  merge-left :
      IsLeftMerge u a p t i nd this parent target → merge set a p nd u ≡ merge_left set a p nd u
  merge-left v =
      let more : leb (length parent.inodes) 1 ≡ false = ground (arith, v.siblings) in
      let later : (suc i == 0) ≡ false = ground arith in
      rw (v.parent_here, more, v.index, later) refl

  -- The left sibling gets the inodes of `a`, and `a` leaves its parent, the cache and its page.
  pub merge-Merged :
      IsLeftMerge u a p t i nd this parent target
      → (nd.page_id == 0) ≡ false
      → get_page u.pages nd.page_id ≡ some q
      → FreeList.free set.txid q u.pages.free_list ≡ done f
      → Returns (merge set a p nd u) Merged
  unfolding merge_left erase_cached_node
  merge-Merged v paged there freed =
      let joined = record target { inodes = target.inodes ++ nd.inodes } in
      let h = store t joined u.bucket.heap in
      let parent' = remove_child a (del parent nd.key).0 in
      let h' = store p parent' h in
      let left : drop_node set a p nd (set_node t joined u) ≡ done (dropped (set_node t joined u)) =
        drop_node_lem (set_node t joined u) refl
          (ground (arith, v.left_apart, v.parent_here, get-store p t joined u.bucket.heap))
          (ground (arith, v.not_self, v.here, get-store a t joined u.bucket.heap)) v.apart
          v.same_page paged there freed in
      rw
        (
          merge-left v,
          prev_sibling_lem v,
          move_children-none t nd.inodes u v.uncached,
          v.target_here,
          left,
        )
        (
          ground (
            arith,
            v.left_apart,
            v.not_self,
            get-store t a (record this { page_id = 0 }) h',
            get-store t p parent' h,
            get-store t t joined u.bucket.heap,
          ),
          ground (
            arith,
            v.apart,
            get-store p a (record this { page_id = 0 }) h',
            get-store p p parent' h,
          )
              ∙ ap (λ x. some (remove_child a x)) (del-child_index parent nd.key (suc i) v.index),
          ground (arith, get-store a a (record this { page_id = 0 }) h'),
          λ c not_a not_p not_t. ground (
            arith,
            get-store c a (record this { page_id = 0 }) h',
            get-store c p parent' h,
            get-store c t joined u.bucket.heap,
          ),
          refl,
          refl,
        )
