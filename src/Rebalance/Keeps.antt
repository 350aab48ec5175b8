-- ===== src/Rebalance/Keeps.antt =====
-- `rebalance` of src/Bolt/node.cc and bucket.cc keeps of the pages of a transaction what
-- `freeList::free` keeps.
use cbtree.Base.{
  ℕ, zero, suc, ◌+◌, ◌-◌, leb, ◌==◌, not, ◌&&◌, Option, some, List, [], ◌∷◌, length, done, ◌>>=◌,
  Whenever, Whenever-bind, Whenever-if, Whenever-then, Whenever-option,
}
use cbtree.Node.{Node, Inode}
use cbtree.Bucket.{get_node, child_at, get_cached_node}
use cbtree.TxPages.{TxPages}
use cbtree.Work.{Work, Setting, or_abort, node_at, set_node, view_of, remove_child}
use cbtree.Work.Keeps.{IsKept, free-Kept}
use cbtree.Rebalance.{
  is_full_enough, with_bucket, index_in, prev_sibling, next_sibling, reparent, move_child,
  move_children, drop_node, collapse, merge_right, merge_left, merge, rebalance, rebalance_all,
}

module _ (set : Setting) (Inv : TxPages → Type 0) (v : IsKept set Inv) where
  abbrev Keeps : Work → Type 0
  Keeps w = Inv w.pages

  abbrev KeepsIn : Work × Option ℕ → Type 0
  KeepsIn r = Inv r.0.pages

  sibling-Keeps :
      (w : Work) (p i : ℕ)
      → Keeps w
      → Whenever
          (or_abort (child_at (view_of w.pages) w.bucket p i) >>= λ r.
            done (with_bucket w r.0, some r.1))
          KeepsIn
  sibling-Keeps w p i k =
      Whenever-bind KeepsIn (or_abort (child_at (view_of w.pages) w.bucket p i)) _ (λ r. k)

  prev-Keeps : (w : Work) (p : ℕ) (nd : Node) → Keeps w → Whenever (prev_sibling w p nd) KeepsIn
  unfolding prev_sibling
  prev-Keeps w p nd k = Whenever-bind KeepsIn (node_at w p) _ (λ parent.
      Whenever-bind KeepsIn (index_in parent nd) _
        (λ i. Whenever-if KeepsIn (i == 0) _ _ k (sibling-Keeps w p (i - 1) k)))

  next-Keeps : (w : Work) (p : ℕ) (nd : Node) → Keeps w → Whenever (next_sibling w p nd) KeepsIn
  unfolding next_sibling
  next-Keeps w p nd k = Whenever-bind KeepsIn (node_at w p) _ (λ parent.
      Whenever-bind KeepsIn (index_in parent nd) _
        (λ i. Whenever-if KeepsIn (i == 0) _ _ k (sibling-Keeps w p (i + 1) k)))

  reparent-Keeps : (a : ℕ) (xs : List Inode) (w : Work) → Keeps w → Whenever (reparent a xs w) Keeps
  unfolding reparent
  reparent-Keeps a [] w k = k
  reparent-Keeps a (x ∷ xs) w k =
      Whenever-option Keeps (get_cached_node w.bucket x.page_id) _ _ tt (λ c.
        Whenever-bind Keeps (node_at w c) _
          (λ nd. reparent-Keeps a xs (set_node c (record nd { parent = some a }) w) k))

  move_child-Keeps : (c t : ℕ) (w : Work) → Keeps w → Whenever (move_child c t w) Keeps
  move_child-Keeps c t w k = Whenever-bind Keeps (node_at w c) _ (λ nd.
      Whenever-option Keeps nd.parent _ _ tt (λ q. Whenever-bind Keeps (node_at w q) _ (λ parent.
        let w1 = set_node q (remove_child c parent) w in
        Whenever-bind Keeps (node_at w1 c) _ (λ moved.
          Whenever-bind Keeps (node_at (set_node c (record moved { parent = some t }) w1) t) _
            (λ home. k)))))

  move_children-Keeps :
      (t : ℕ) (xs : List Inode) (w : Work) → Keeps w → Whenever (move_children t xs w) Keeps
  unfolding move_children
  move_children-Keeps t [] w k = k
  move_children-Keeps t (x ∷ xs) w k =
      Whenever-option Keeps (get_cached_node w.bucket x.page_id) _ _ (move_children-Keeps t xs w k)
        (λ c.
          Whenever-then Keeps Keeps (move_child c t w) _ (λ w' h. move_children-Keeps t xs w' h)
            (move_child-Keeps c t w k))

  drop_node-Keeps :
      (a p : ℕ) (nd : Node) (w : Work) → Keeps w → Whenever (drop_node set a p nd w) Keeps
  drop_node-Keeps a p nd w k =
      Whenever-bind Keeps (node_at w p) _ (λ parent. free-Kept set Inv v a _ k)

  collapse-Keeps : (a : ℕ) (nd : Node) (w : Work) → Keeps w → Whenever (collapse set a nd w) Keeps
  unfolding collapse
  collapse-Keeps a nd w k = inodes-Keeps nd.inodes
    where
      inodes-Keeps :
          (xs : List Inode) → Whenever (collapse set a (record nd { inodes = xs }) w) Keeps
      inodes-Keeps [] = k
      inodes-Keeps (x ∷ xs) =
          Whenever-bind Keeps (or_abort (get_node (view_of w.pages) w.bucket x.page_id)) _ (λ r.
            Whenever-bind Keeps (node_at (with_bucket w r.0) r.1) _ (λ child.
              Whenever-bind Keeps (node_at (with_bucket w r.0) a) _ (λ this.
                Whenever-then Keeps Keeps (reparent a child.inodes _) _
                  (λ w1 h.
                    Whenever-bind Keeps (node_at w1 r.1) _ (λ old. free-Kept set Inv v r.1 _ h))
                  (reparent-Keeps a child.inodes _ k))))

  merge_right-Keeps :
      (a p : ℕ) (nd : Node) (w : Work) → Keeps w → Whenever (merge_right set a p nd w) Keeps
  unfolding merge_right
  merge_right-Keeps a p nd w k =
      Whenever-then KeepsIn Keeps (next_sibling w p nd) _
        (λ r h. Whenever-option Keeps r.1 _ _ tt (λ t.
          Whenever-bind Keeps (node_at r.0 t) _ (λ target.
            Whenever-then Keeps Keeps (move_children a target.inodes r.0) _
              (λ w1 h'.
                Whenever-bind Keeps (node_at w1 a) _ (λ this. drop_node-Keeps t p target _ h'))
              (move_children-Keeps a target.inodes r.0 h))))
        (next-Keeps w p nd k)

  merge_left-Keeps :
      (a p : ℕ) (nd : Node) (w : Work) → Keeps w → Whenever (merge_left set a p nd w) Keeps
  unfolding merge_left
  merge_left-Keeps a p nd w k =
      Whenever-then KeepsIn Keeps (prev_sibling w p nd) _
        (λ r h. Whenever-option Keeps r.1 _ _ tt (λ t.
          Whenever-then Keeps Keeps (move_children t nd.inodes r.0) _
            (λ w1 h'. Whenever-bind Keeps (node_at w1 t) _ (λ target. drop_node-Keeps a p nd _ h'))
            (move_children-Keeps t nd.inodes r.0 h)))
        (prev-Keeps w p nd k)

  merge-Keeps : (a p : ℕ) (nd : Node) (w : Work) → Keeps w → Whenever (merge set a p nd w) Keeps
  merge-Keeps a p nd w k = Whenever-bind Keeps (node_at w p) _ (λ parent.
      Whenever-if Keeps (leb (length parent.inodes) 1) _ _ tt (
        Whenever-bind Keeps (index_in parent nd) _ (λ i.
          Whenever-if Keeps (i == 0) _ _ (merge_right-Keeps a p nd w k)
            (merge_left-Keeps a p nd w k))))

  rebalance-Keeps : (fuel a : ℕ) (w : Work) → Keeps w → Whenever (rebalance set fuel a w) Keeps
  unfolding rebalance
  rebalance-Keeps zero a w k = tt
  rebalance-Keeps (suc fuel) a w k = Whenever-bind Keeps (node_at w a) _ (λ nd.
      Whenever-if Keeps (not nd.unbalanced) _ _ k (
        Whenever-if Keeps (is_full_enough nd) _ _ k (
          Whenever-option Keeps nd.parent _ _
            (Whenever-if Keeps (not nd.is_leaf && (length nd.inodes == 1)) _ _
              (collapse-Keeps a nd _ k) k)
            (λ p.
              Whenever-if Keeps (length nd.inodes == 0) _ _
                (Whenever-then Keeps Keeps (drop_node set a p nd _) _
                  (λ w' h. rebalance-Keeps fuel p w' h) (drop_node-Keeps a p nd _ k))
                (Whenever-then Keeps Keeps (merge set a p nd _) _
                  (λ w' h. rebalance-Keeps fuel p w' h) (merge-Keeps a p nd _ k))))))

  pub rebalance_all-Keeps :
      (fuel : ℕ) (m : List (ℕ × ℕ)) (w : Work)
      → Inv w.pages
      → Whenever (rebalance_all set fuel m w) (λ w'. Inv w'.pages)
  unfolding rebalance_all
  rebalance_all-Keeps fuel [] w k = k
  rebalance_all-Keeps fuel ((pgid, a) ∷ m) w k =
      Whenever-then Keeps Keeps (rebalance set fuel a w) _ (λ w' h. rebalance_all-Keeps fuel m w' h)
        (rebalance-Keeps fuel a w k)
