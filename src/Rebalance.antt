-- ===== src/Rebalance.antt =====
-- `Node::rebalance`, `nextSibling` and `prevSibling` of src/Bolt/node.cc. `aborted` is a failed
-- assertion, a null or dangling pointer, or too little fuel.
pub mod Cases
pub mod Left
pub mod Merges
pub mod Keeps
use cbtree.Base.{
  ℕ, zero, suc, ◌+◌, ◌-◌, leb, ltb, ◌==◌, if◌then◌else◌, Bool, true, false, not, ◌&&◌, Option, none,
  some, List, [], ◌∷◌, ◌++◌, length, get_elem?, Run, done, aborted, ◌>>=◌,
}
use cbtree.Node.{Node, Inode, del, size, min_keys, child_index}
use cbtree.Heap.{get}
use cbtree.Bucket.{Bucket, get_node, child_at, get_cached_node, erase_cached_node}
use cbtree.Work.{Work, Setting, or_abort, node_at, set_node, view_of, remove_child, free}

-- Whether a node has enough bytes and inodes to stay as it is.
abbrev pub is_full_enough : Node → Bool
is_full_enough nd = ltb 1024 (size nd) && ltb (min_keys nd) (length nd.inodes)

abbrev pub with_bucket : Work → Bucket → Work
with_bucket w b = record w { bucket = b }

-- The index of a node in its parent, by its key, which must be found.
abbrev pub index_in : Node → Node → Run ℕ
index_in parent nd = or_abort (child_index parent nd.key)

-- `prevSibling` and `nextSibling` of a node with a parent `p`: both give a null pointer at index 0.
unfoldable pub prev_sibling : Work → (p : ℕ) → Node → Run (Work × Option ℕ)
prev_sibling w p nd = node_at w p >>= λ parent. index_in parent nd >>= λ i.
    let sibling = or_abort (child_at (view_of w.pages) w.bucket p (i - 1)) >>= λ r.
    done (with_bucket w r.0, some r.1) in
    if i == 0 then done (w, none) else sibling

unfoldable pub next_sibling : Work → (p : ℕ) → Node → Run (Work × Option ℕ)
next_sibling w p nd = node_at w p >>= λ parent. index_in parent nd >>= λ i.
    let sibling = or_abort (child_at (view_of w.pages) w.bucket p (i + 1)) >>= λ r.
    done (with_bucket w r.0, some r.1) in
    if i == 0 then done (w, none) else sibling

-- The cached children of a collapsed root get the root for their parent; all must be cached.
unfoldable pub reparent : (a : ℕ) → List Inode → Work → Run Work
reparent a [] w = done w
reparent a (x ∷ xs) w = elim (get_cached_node w.bucket x.page_id) [
  | none ↦ aborted
  | some c ↦ node_at w c >>= λ nd. reparent a xs (set_node c (record nd { parent = some a }) w)
]

-- The children of the inodes that move, if they are cached, move to `target`.
abbrev pub move_child : (c target : ℕ) → Work → Run Work
move_child c target w = node_at w c >>= λ nd. elim nd.parent [
  | none ↦ aborted
  | some q ↦ node_at w q >>= λ parent.
      let w1 = set_node q (remove_child c parent) w in
      node_at w1 c >>= λ moved.
      let w2 = set_node c (record moved { parent = some target }) w1 in
      node_at w2 target >>= λ home.
      done (set_node target (record home { children = home.children ++ c ∷ [] }) w2)
]

unfoldable pub move_children : (target : ℕ) → List Inode → Work → Run Work
move_children target [] w = done w
move_children target (x ∷ xs) w = elim (get_cached_node w.bucket x.page_id) [
  | none ↦ move_children target xs w
  | some c ↦ move_child c target w >>= move_children target xs
]

module _ (set : Setting) where
  -- A node leaves its parent, the cache, and its page.
  abbrev pub drop_node : (a p : ℕ) → Node → Work → Run Work
  drop_node a p nd w = node_at w p >>= λ parent.
      let left = set_node p (remove_child a (del parent nd.key).0) w in
      free set a (with_bucket left (erase_cached_node nd.page_id left.bucket))

  -- A root that is a branch with one child takes the child's place.
  unfoldable pub collapse : (a : ℕ) → Node → Work → Run Work
  unfolding reparent
  collapse a nd w = elim nd.inodes [
    | [] ↦ done w
    | x ∷ xs ↦ or_abort (get_node (view_of w.pages) w.bucket x.page_id) >>= λ r.
        node_at (with_bucket w r.0) r.1 >>= λ child. node_at (with_bucket w r.0) a >>= λ this.
        reparent a child.inodes (
          set_node a
            (record this {
              is_leaf = child.is_leaf;
              inodes = child.inodes;
              children = child.children;
            })
            (with_bucket w r.0))
        >>= λ w1. node_at w1 r.1 >>= λ old.
            let cut = set_node r.1 (record old { parent = none }) w1 in
            free set r.1 (with_bucket cut (erase_cached_node old.page_id cut.bucket))
  ]

  abbrev pub rebalance_root : (a : ℕ) → Node → Work → Run Work
  rebalance_root a nd w =
      let one_child = collapse a nd w in
      if not nd.is_leaf && (length nd.inodes == 1) then one_child else done w

  -- A first child takes in its right sibling, another one goes to its left sibling.
  unfoldable pub merge_right : (a p : ℕ) → Node → Work → Run Work
  unfolding next_sibling move_children
  merge_right a p nd w = next_sibling w p nd >>= λ r. elim r.1 [
    | none ↦ aborted
    | some t ↦ node_at r.0 t >>= λ target. move_children a target.inodes r.0 >>= λ w1.
        node_at w1 a >>= λ this.
        drop_node t p target (set_node a (record this { inodes = this.inodes ++ target.inodes }) w1)
  ]

  unfoldable pub merge_left : (a p : ℕ) → Node → Work → Run Work
  unfolding prev_sibling move_children
  merge_left a p nd w = prev_sibling w p nd >>= λ r. elim r.1 [
    | none ↦ aborted
    | some t ↦ move_children t nd.inodes r.0 >>= λ w1. node_at w1 t >>= λ target.
        drop_node a p nd (set_node t (record target { inodes = target.inodes ++ nd.inodes }) w1)
  ]

  abbrev pub merge : (a p : ℕ) → Node → Work → Run Work
  merge a p nd w = node_at w p >>= λ parent.
      let right = merge_right a p nd w in
      let left = merge_left a p nd w in
      let merged = index_in parent nd >>= λ i. if i == 0 then right else left in
      if leb (length parent.inodes) 1 then aborted else merged

  abbrev pub rebalance_child : (again : Work → Run Work) → (a p : ℕ) → Node → Work → Run Work
  rebalance_child again a p nd w =
      let gone = drop_node a p nd w >>= again in
      let merged = merge a p nd w >>= again in if length nd.inodes == 0 then gone else merged

  -- `rebalance`, on fuel for the height of the tree.
  unfoldable pub rebalance : (fuel : ℕ) → (a : ℕ) → Work → Run Work
  unfolding merge_right merge_left
  rebalance zero a w = aborted
  rebalance (suc fuel) a w = node_at w a >>= λ nd.
      let marked = set_node a (record nd { unbalanced = false }) w in
      let run : Run Work = elim nd.parent [
        | none ↦ rebalance_root a nd marked
        | some p ↦ rebalance_child (rebalance fuel p) a p nd marked
      ] in
      if not nd.unbalanced then done w else if is_full_enough nd then done marked else run

  -- `Bucket::rebalance` over the nodes of one bucket, in the order of the map.
  unfoldable pub rebalance_all : (fuel : ℕ) → List (ℕ × ℕ) → Work → Run Work
  unfolding rebalance
  rebalance_all fuel [] w = done w
  rebalance_all fuel ((pgid, a) ∷ m) w = rebalance fuel a w >>= rebalance_all fuel m
