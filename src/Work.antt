-- ===== src/Work.antt =====
-- `Node::spill`, `Node::free`, `root` and `removeChild` of src/Bolt/node.cc: the
-- operations on nodes that reach the other nodes of the bucket and the pages of the transaction.
-- `aborted` is a failed assertion, a null or dangling pointer, or too little fuel.
pub mod Inside
pub mod Spill
pub mod Keeps
use cbtree.Base.{
  ℕ, zero, suc, ◌+◌, ◌-◌, ◌/◌, ◌%◌, u32, leb, ltb, ◌==◌, if◌then◌else◌, Bool, true, false, not,
  ◌&&◌, ◌||◌, Option, none, some, List, [], ◌∷◌, ◌++◌, length, get_elem?, Run, done, aborted, ◌>>=◌,
}
use cbtree.Base.Assoc.{lookup, insert}
use cbtree.Item.{Item}
use cbtree.Page.{Page}
use cbtree.FreeList
use cbtree.Node.{Node, Inode, put, del, size, min_keys, child_index}
use cbtree.Heap.{get, store}
use cbtree.Split.{split_from, default_fill}
use cbtree.Codec
use cbtree.Bucket.{Bucket, TxView, get_node, child_at, get_cached_node, erase_cached_node}
use cbtree.TxPages.{TxPages, get_page, tx_allocate}

-- A bucket and the pages of its transaction.
pub record Work : Type 0 where
  pub bucket : Bucket
  pub pages : TxPages

-- What the transaction is and what the machine does: `order` sorts pointers, `gap` is the offset
-- that `Node::write` takes for a branch element.
pub record Setting : Type 0 where
  pub txid : ℕ
  pub order : List ℕ → List ℕ
  pub gap : ℕ → ℕ
  pub page_size : ℕ
  pub remap : ℕ → Option ℕ
  pub fresh : Page

abbrev pub or_abort {ℓ} : {A : Type ℓ} → Option A → Run A
or_abort none = aborted
or_abort (some a) = done a

abbrev pub node_at : Work → ℕ → Run Node
node_at w a = or_abort (get w.bucket.heap a)

abbrev pub set_node : ℕ → Node → Work → Work
set_node a nd w = record w { bucket = record w.bucket { heap = store a nd w.bucket.heap } }

-- `Tx::getTotalPageNumber` and `Bucket::getTotalPageNumber` return 32 bits.
abbrev pub total_page_number : TxPages → ℕ
total_page_number s = s.total % u32

-- The transaction as the bucket sees it while it is being written.
abbrev pub view_of : TxPages → TxView
view_of s = record {
  get_page = get_page s;
  total_pages = total_page_number s;
  open_db = true;
  writable = true;
}

-- `root`, on fuel for the height of the tree.
pub root : (fuel : ℕ) → Work → ℕ → Run ℕ
root zero w a = aborted
root (suc fuel) w a =
    node_at w a >>= λ nd. elim nd.parent [ none ↦ done a | some p ↦ root fuel w p ]

-- `removeChild`: the first of the children that is `target`.
pub without_child : (target : ℕ) → List ℕ → List ℕ
without_child target [] = []
without_child target (c ∷ cs) =
    let rest = without_child target cs in if c == target then cs else c ∷ rest

abbrev pub remove_child : (target : ℕ) → Node → Node
remove_child target nd = record nd { children = without_child target nd.children }

module _ (set : Setting) where
  -- `tx->free(tx->getTxId(), page)`.
  abbrev pub free_page : Option Page → TxPages → Run TxPages
  free_page none s = aborted
  free_page (some p) s =
      FreeList.free set.txid p s.free_list >>= λ f. done (record s { free_list = f })

  -- `Node::free`.
  unfoldable pub free : ℕ → Work → Run Work
  free a w = node_at w a >>= λ nd.
      let freed = free_page (get_page w.pages nd.page_id) w.pages >>= λ s.
      done (set_node a (record nd { page_id = 0 }) (record w { pages = s })) in
      if nd.page_id == 0 then done w else freed

  -- In `spill`, the page that the node had.
  abbrev pub free_old : Node → TxPages → Run TxPages
  free_old nd s =
      let freed = free_page (get_page s nd.page_id) s in if nd.page_id == 0 then done s else freed

  -- The key of the first inode; there must be one.
  abbrev pub front_key : List Inode → Run Item
  front_key [] = aborted
  front_key (x ∷ xs) = done x.key

  -- The entry of a spilled node `nd` at `b` in its parent; `a` is the node whose `spill` runs.
  unfoldable pub hang_in_parent : (a b : ℕ) → Work → Run Work
  hang_in_parent a b w = node_at w b >>= λ nd. elim nd.parent [
    | none ↦ done w
    | some p ↦ node_at w a >>= λ this. front_key this.inodes >>= λ first.
        front_key nd.inodes >>= λ own. node_at w p >>= λ parent.
        let k = if length nd.key == 0 then first else nd.key in
        let parent' = (put (total_page_number w.pages) parent k own [] nd.page_id 0).0 in
        let hung = set_node b (record nd { key = own }) (set_node p parent' w) in
        if length k == 0 then aborted else done hung
  ]

  -- The node goes to its new page, which is dirty.
  abbrev pub page_given : (a b : ℕ) → Node → Work → TxPages × Option Page → Run (Work × Bool)
  page_given a b nd w (s, none) = done (record w { pages = s }, false)
  page_given a b nd w (s, some p) =
      let nd' = record nd { page_id = p.id; spilled = true } in
      let written = Codec.write set.gap (record nd { page_id = p.id }) p >>= λ q.
      hang_in_parent a b
        (set_node b nd' (record w { pages = record s { dirty = insert p.id q s.dirty } }))
      >>= λ w'. done (w', true) in
      if leb (total_page_number s) p.id then aborted else written

  -- One round of the loop of `spill` over the pieces; false where it returns for want of a page.
  -- The number of pages is that of the node `a` whose `spill` runs.
  unfoldable pub spill_piece : (a b : ℕ) → Work → Run (Work × Bool)
  unfolding hang_in_parent
  spill_piece a b w = node_at w b >>= λ nd. free_old nd w.pages >>= λ s. node_at w a >>= λ this.
      tx_allocate set.page_size set.remap (size this / 4096 + 1) set.fresh s >>= page_given a b nd w

  unfoldable pub spill_pieces : (a : ℕ) → List ℕ → Work → Run (Work × Bool)
  unfolding spill_piece
  spill_pieces a [] w = done (w, true)
  spill_pieces a (b ∷ bs) w = spill_piece a b w >>= λ r.
      let later = spill_pieces a bs r.0 in if r.1 then later else done (r.0, false)

  -- `split(4096)`; the children are cleared before.
  abbrev pub split_node : (a : ℕ) → Work → Run (Work × List ℕ)
  split_node a w = node_at w a >>= λ nd.
      let h = store a (record nd { children = [] }) w.bucket.heap in
      or_abort (split_from (length nd.inodes + 1) 4096 default_fill h a) >>= λ r.
      done (record w { bucket = record w.bucket { heap = r.0 } }, r.1)

  -- The end of `spill`: a parent that is new is spilled too, by `again`.
  abbrev pub spill_parent :
      (again : ℕ → Work → Run (Work × Bool)) → (a : ℕ) → Work → Run (Work × Bool)
  spill_parent again a w = node_at w a >>= λ nd. elim nd.parent [
    | none ↦ done (w, false)
    | some p ↦ node_at w p >>= λ parent.
        if parent.page_id == 0
        then again p (set_node a (record nd { children = [] }) w)
        else done (w, false)
  ]

  abbrev pub spill_self :
      (again : ℕ → Work → Run (Work × Bool)) → (a : ℕ) → Work → Run (Work × Bool)
  spill_self again a w = split_node a w >>= λ r. spill_pieces a r.1 r.0 >>= λ q.
      let up = spill_parent again a q.0 in if q.1 then up else done (q.0, false)

  -- The loop over the children, which may become more; the first that reports a failure ends it.
  pub spill_children :
      (again : ℕ → Work → Run (Work × Bool)) → (rounds i a : ℕ) → Work → Run (Work × Bool)
  spill_children again zero i a w = aborted
  spill_children again (suc rounds) i a w = node_at w a >>= λ nd. elim (get_elem? nd.children i) [
    | none ↦ done (w, true)
    | some c ↦ again c w >>= λ r.
        let later = spill_children again rounds (i + 1) a r.0 in
        if r.1 then done (r.0, false) else later
  ]

  -- `spill`; `fuel` bounds the depth of the calls and the number of children.
  unfoldable pub spill : (fuel : ℕ) → (a : ℕ) → Work → Run (Work × Bool)
  unfolding spill_children
  spill zero a w = aborted
  spill (suc fuel) a w = node_at w a >>= λ nd.
      let sorted = set_node a (record nd { children = set.order nd.children }) w in
      let run = spill_children (spill fuel) fuel 0 a sorted >>= λ r.
      let own = spill_self (spill fuel) a r.0 in if r.1 then own else done (r.0, false) in
      if nd.spilled then done (w, false) else run
