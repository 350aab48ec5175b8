-- ===== src/Rebalance/Cases.antt =====
-- Where `Node::rebalance` of node.cc fails an assertion on a node that has become too small.
use cbtree.Base.{
  ℕ, suc, ◌≡◌, ◌≢◌, refl, ap, ◌∙◌, leb, ◌==◌, if◌then◌else◌, true, false, not, ◌&&◌, none, some,
  List, [], ◌∷◌, length, Bool-cases, inl, inr, else_lem, some_lem, done, aborted, ◌>>=◌, arith,
}
use cbtree.Base.Assoc.{lookup}
use cbtree.Node.{Node, Inode, child_index}
use cbtree.Heap.{get, store, get-store}
use cbtree.Bucket.Nodes.{get_node_cached}
use cbtree.Work.{Work, Setting, set_node, view_of}
use cbtree.Rebalance.{
  is_full_enough, next_sibling, reparent, collapse, merge_right, merge, rebalance_root,
  rebalance_child, rebalance,
}

-- The node `a` is a child of `p` that is to be rebalanced, and too small to stay as it is.
pub record IsShort (w : Work) (a p : ℕ) (nd parent : Node) : Type 0 where
  pub here : get w.bucket.heap a ≡ some nd
  pub unbalanced : nd.unbalanced ≡ true
  pub small : is_full_enough nd ≡ false
  pub child : nd.parent ≡ some p
  pub entries : (length nd.inodes == 0) ≡ false
  pub apart : a ≢ p
  pub parent_here : get w.bucket.heap p ≡ some parent

module _ (set : Setting) (fuel a p : ℕ) (nd parent : Node) (w : Work) where
  abbrev pub marked : Work
  marked = set_node a (record nd { unbalanced = false }) w

  merge-first :
      (u : Work)
      → get u.bucket.heap p ≡ some parent
      → child_index parent nd.key ≡ some 0
      → merge set a p nd u ≡ aborted
  unfolding merge_right next_sibling
  merge-first u e i = elim (Bool-cases (leb (length parent.inodes) 1)) [
    | inl few ↦ rw (e, few) refl
    | inr more ↦ rw (e, more, i) refl
  ]

  pub rebalance-merge :
      IsShort w a p nd parent
      → rebalance set (suc fuel) a w ≡ (merge set a p nd marked >>= rebalance set fuel p)
  unfolding rebalance
  rebalance-merge v = rw v.here (
      else_lem (not nd.unbalanced) _ _ (ap not v.unbalanced)
      ∙ else_lem (is_full_enough nd) _ _ v.small
      ∙ some_lem nd.parent p _ _ v.child
      ∙ else_lem (length nd.inodes == 0) _ _ v.entries)

module _ (set : Setting) (fuel a p : ℕ) (nd parent : Node) (w : Work) where
  -- A node with entries that is to be rebalanced, is too small, and is the first child of its
  -- parent, which is another node: `rebalance` fails the assertion on the number of the parent's
  -- entries, or follows the null pointer that `nextSibling` gives for the index 0.
  pub rebalance_first_child :
      IsShort w a p nd parent
      → child_index parent nd.key ≡ some 0
      → rebalance set (suc fuel) a w ≡ aborted
  rebalance_first_child v i =
      let still : get (store a (record nd { unbalanced = false }) w.bucket.heap) p ≡ some parent =
        ground (
          arith,
          v.apart,
          v.parent_here,
          get-store p a (record nd { unbalanced = false }) w.bucket.heap,
        ) in
      rebalance-merge set fuel a p nd parent w v
      ∙ rw
          (merge-first set fuel a p nd parent w (set_node a (record nd { unbalanced = false }) w)
            still i)
          refl

module _ (set : Setting) (fuel a c : ℕ) (nd child : Node) (x y : Inode) (xs ys : List Inode)
    (w : Work) where
  -- The root `a` is a branch with the one child `c`, which has entries.
  pub record IsSingle : Type 0 where
    pub here : get w.bucket.heap a ≡ some nd
    pub unbalanced : nd.unbalanced ≡ true
    pub small : is_full_enough nd ≡ false
    pub root : nd.parent ≡ none
    pub is_branch : nd.is_leaf ≡ false
    pub single : nd.inodes ≡ x ∷ []
    pub cached : lookup x.page_id w.bucket.nodes ≡ some c
    pub apart : c ≢ a
    pub child_here : get w.bucket.heap c ≡ some child
    pub entries : child.inodes ≡ y ∷ ys

  collapse-uncached :
      (u : Work)
      → nd.inodes ≡ x ∷ []
      → lookup x.page_id u.bucket.nodes ≡ some c
      → get u.bucket.heap c ≡ some child
      → get u.bucket.heap a ≡ some (record nd { unbalanced = false })
      → child.inodes ≡ y ∷ ys
      → lookup y.page_id u.bucket.nodes ≡ none
      → collapse set a nd u ≡ aborted
  unfolding collapse reparent
  collapse-uncached u single cached there here entries lost =
      rw
        (
          single,
          get_node_cached (view_of u.pages) u.bucket x.page_id c cached,
          there,
          here,
          entries,
          reparent,
          lost,
        )
        refl

  -- A root that is to be rebalanced, is too small, and is a branch with one child, whose node is
  -- another one and has entries, where the page that the child's first entry names has no node:
  -- `rebalance` fails an assertion.
  pub rebalance_single_child :
      IsSingle → lookup y.page_id w.bucket.nodes ≡ none → rebalance set (suc fuel) a w ≡ aborted
  unfolding rebalance
  rebalance_single_child v lost =
      let marked = record nd { unbalanced = false } in
      let one : (not nd.is_leaf && (length nd.inodes == 1)) ≡ true =
        rw (v.is_branch, v.single) refl in
      let h = w.bucket.heap in
      let u = set_node a marked w in
      rw v.here (
        else_lem (not nd.unbalanced) _ _ (ap not v.unbalanced)
        ∙ else_lem (is_full_enough nd) _ _ v.small
        ∙ ap
            (λ o. elim o [
              | none ↦ rebalance_root set a nd u
              | some p ↦ rebalance_child set (rebalance set fuel p) a p nd u
            ])
            v.root
        ∙ ap (λ b. if b then collapse set a nd u else done u) one
        ∙ collapse-uncached u v.single v.cached
            (ground (arith, v.apart, v.child_here, get-store c a marked h))
            (ground (arith, get-store a a marked h)) v.entries lost)
