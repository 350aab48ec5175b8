-- ===== src/Work/Spill.antt =====
-- `Node::spill` of node.cc on a bucket whose root is one leaf.
use cbtree.Base.{
  ℕ, suc, ◌+◌, ◌/◌, ◌^◌, ◌≤◌, ◌<◌, ◌≡◌, refl, ap, ◌∙◌, leb, if◌then◌else◌, Bool, true, false,
  Option, none, some, [], ◌∷◌, length, Run, done, ◌>>=◌, All, Returns, Returns-bind, Returns-done,
  Returns-else, arith,
}
use cbtree.Base.Assoc.{insert}
use cbtree.Page.{Page}
use cbtree.FreeList.Runs.{IsIdList}
use cbtree.Node.{Node, new_node, size, size_less_than}
use cbtree.Node.Sizes.{node_bytes, size-node_bytes}
use cbtree.Heap.{Heap, get, store, get-store}
use cbtree.Split.{split_from, split_two, stays_whole, default_fill}
use cbtree.Codec
use cbtree.Codec.Leaf.{FirstKey, read_back, read-write_leaf}
use cbtree.TxPages.{TxPages, tx_allocate}
use cbtree.TxPages.Allocate.{Allocates, tx_allocate-Allocates}
use cbtree.Work.{
  Work, Setting, set_node, free_old, spill, spill_children, spill_self, spill_pieces, spill_piece,
  spill_parent, page_given, hang_in_parent, total_page_number,
}
use cbtree.Work.Inside.{ComesFrom-inside}

module _ (set : Setting) (a : ℕ) (nd : Node) (s1 : TxPages) where
  abbrev bare : Node
  bare = record nd { children = [] }

  -- The node on its page.
  abbrev pub spilled_on : Page → Node
  spilled_on p = record nd { children = []; page_id = p.id; spilled = true }

  -- The pages that `spill` asks for.
  abbrev pub allocated : Run (TxPages × Option Page)
  allocated = tx_allocate set.page_size set.remap (size nd / 4096 + 1) set.fresh s1

  -- The node `a` on the page `p`, and the pages `s` that the transaction then has with `q` as the
  -- dirty page under its id, which is read back to what the node is.
  abbrev pub IsOnPage : TxPages → Page → Work → Type 0
  IsOnPage s p w' =
      (get w'.bucket.heap a ≡ some (spilled_on p))
      × ((q : Page) × (w'.pages ≡ record s { dirty = insert p.id q s.dirty })
          × (Codec.read (new_node none) q ≡ some (read_back p nd)))

  -- What follows from the page that is found, and from none.
  abbrev pub Given : TxPages × Option Page → Work → Type 0
  Given (s, some p) w' = IsOnPage s p w'
  Given (s, none) w' = (get w'.bucket.heap a ≡ some bare) × (w'.pages ≡ s)

  size-bare : size bare ≡ size nd
  unfolding size
  size-bare = refl

  abbrev found : Option Page → Bool
  found none = false
  found (some p) = true

  abbrev Piece : TxPages × Option Page → Work × Bool → Type 0
  Piece r (w', ok) = (ok ≡ found r.1) × Given r w'

  -- What `spill` makes of it.
  abbrev pub Spills : Work × Bool → Type 0
  Spills (w', failed) =
      (failed ≡ false) × ((r : TxPages × Option Page) × (allocated ≡ done r) × Given r w')

  hang-orphan :
      (b : ℕ) (u : Work) (x : Node)
      → get u.bucket.heap b ≡ some x
      → x.parent ≡ none
      → hang_in_parent set a b u ≡ done u
  unfolding hang_in_parent
  hang-orphan b u x e o = rw (e, o) refl

  spill_parent-orphan :
      (again : ℕ → Work → Run (Work × Bool)) (u : Work) (x : Node)
      → get u.bucket.heap a ≡ some x
      → x.parent ≡ none
      → spill_parent set again a u ≡ done (u, false)
  spill_parent-orphan again u x e o = rw (e, o) refl

  spill_children-none :
      (again : ℕ → Work → Run (Work × Bool)) (rounds : ℕ) (u : Work) (x : Node)
      → get u.bucket.heap a ≡ some x
      → x.children ≡ []
      → spill_children set again (suc rounds) 0 a u ≡ done (u, true)
  unfolding spill_children
  spill_children-none again rounds u x e o = rw (e, o) refl

  written :
      (u : Work) (s : TxPages) (p q : Page)
      → get u.bucket.heap a ≡ some bare
      → nd.parent ≡ none
      → Codec.read (new_node none) q ≡ some (read_back p nd)
      → Returns
          (hang_in_parent set a a (
              set_node a
                (spilled_on p)
                (record u { pages = record s { dirty = insert p.id q s.dirty } }))
            >>= λ w'. done (w', true))
          (Piece (s, some p))
  written u s p q e o back =
      let self : get (store a (spilled_on p) u.bucket.heap) a ≡ some (spilled_on p) =
        ground (arith, get-store a a (spilled_on p) u.bucket.heap) in
      let w' =
        set_node a (spilled_on p)
          (record u { pages = record s { dirty = insert p.id q s.dirty } }) in
      rw (hang-orphan a w' (spilled_on p) self o) (refl, (self, (q, refl, back)))

  given :
      (u : Work) (n : ℕ) (r : TxPages × Option Page)
      → get u.bucket.heap a ≡ some bare
      → nd.parent ≡ none
      → nd.is_leaf ≡ true
      → length nd.inodes ≤ 0xffff
      → node_bytes nd < 2 ^ 23
      → FirstKey nd.inodes
      → All (λ i. i < s1.total) s1.free_list.ids
      → s1.total + n < 2 ^ 32
      → 1 ≤ n
      → Allocates n s1 r
      → Returns (page_given set a a bare u r) (Piece r)
  given u n (s, none) e o l few small fk below few_pages k alloc = (refl, (e, refl))
  given u n (s, some p) e o l few small fk below few_pages k (from, size_ok, dirty, file) =
      let room : leb (total_page_number s) p.id ≡ false =
        ground (arith, ComesFrom-inside n s1 s p from k below few_pages) in
      rw room (
        Returns-bind (λ q. Codec.read (new_node none) q ≡ some (read_back p nd)) (Piece (s, some p))
          (Codec.write set.gap (record bare { page_id = p.id }) p) _
          (λ q back. written u s p q e o back)
          (read-write_leaf set.gap (record bare { page_id = p.id }) p l few (omega arith) fk))

  spilled :
      (again : ℕ → Work → Run (Work × Bool)) (u : Work) (r : TxPages × Option Page)
      → nd.parent ≡ none
      → allocated ≡ done r
      → true ≡ found r.1
      → Given r u
      → Returns (spill_parent set again a u) Spills
  spilled again u (s, some p) o got ok k =
      rw (spill_parent-orphan again u (spilled_on p) k.0 o) (refl, ((s, some p), got, k))
  spilled again u (s, none) o got ok k = absurd (ground arith)

  -- A node that fits its page, has no parent and no children, and has not been spilled.
  pub record IsLoneLeaf : Type 0 where
    pub leaf : nd.is_leaf ≡ true
    pub unspilled : nd.spilled ≡ false
    pub childless : nd.children ≡ []
    pub orphan : nd.parent ≡ none
    pub whole : stays_whole 4096 nd ≡ true
    pub few : length nd.inodes ≤ 0xffff
    pub small : node_bytes nd < 2 ^ 23
    pub first_key : FirstKey nd.inodes

  split_from-whole :
      (fuel : ℕ) (h : Heap)
      → stays_whole 4096 nd ≡ true
      → get h a ≡ some bare
      → split_from (suc fuel) 4096 default_fill h a ≡ some (h, a ∷ [])
  unfolding split_from split_two size_less_than
  split_from-whole fuel h v e = rw (e, v) refl

  allocated-Allocates :
      IsLoneLeaf
      → IsIdList s1.free_list.ids
      → (r : TxPages × Option Page) × (allocated ≡ done r) × Allocates (size nd / 4096 + 1) s1 r
  allocated-Allocates v ids =
      let fits : size nd ≡ node_bytes nd = size-node_bytes nd (omega (arith, v.small)) in
      Returns-done (Allocates (size nd / 4096 + 1) s1) allocated (
        tx_allocate-Allocates set.page_size set.remap (size nd / 4096 + 1) set.fresh s1
          (omega arith) (omega (arith, fits, v.small)) ids)

  -- From here on, `r` is what the allocation gives.
  module _ (v : IsLoneLeaf) (r : TxPages × Option Page) (got : allocated ≡ done r)
      (alloc : Allocates (size nd / 4096 + 1) s1 r)
      (below : All (λ i. i < s1.total) s1.free_list.ids)
      (few_pages : s1.total + 0x1000 < 2 ^ 32) where
    -- The page that the node had becomes free, and the allocation sees the rest.
    spill_piece-Piece :
        (u : Work)
        → get u.bucket.heap a ≡ some bare
        → free_old set bare u.pages ≡ done s1
        → Returns (spill_piece set a a u) (Piece r)
    unfolding spill_piece
    spill_piece-Piece u e f =
        let fits : size nd ≡ node_bytes nd = size-node_bytes nd (omega (arith, v.small)) in
        let few' : s1.total + (size nd / 4096 + 1) < 2 ^ 32 = omega (arith, fits, v.small) in
        rw (e, f, size-bare, got)
          (given u (size nd / 4096 + 1) r e v.orphan v.leaf v.few v.small v.first_key below few'
            (omega arith) alloc)

    one_piece :
        (q : Work × Bool)
        → Piece r q
        → Returns (if q.1 then done (q.0, true) else done (q.0, false)) (Piece r)
    one_piece (u, true) k = k
    one_piece (u, false) k = k

    pieces-Piece :
        (u : Work)
        → Returns (spill_piece set a a u) (Piece r)
        → Returns (spill_pieces set a (a ∷ []) u) (Piece r)
    unfolding spill_pieces
    pieces-Piece u k = Returns-bind (Piece r) (Piece r) (spill_piece set a a u) _ one_piece k

    no_parent :
        (again : ℕ → Work → Run (Work × Bool)) (q : Work × Bool)
        → Piece r q
        → Returns (if q.1 then spill_parent set again a q.0 else done (q.0, false)) Spills
    no_parent again (u, true) (ok, k) = spilled again u r v.orphan got ok k
    no_parent again (u, false) (ok, k) = (refl, (r, got, k))

    spill_self-Spills :
        (again : ℕ → Work → Run (Work × Bool)) (u : Work)
        → get u.bucket.heap a ≡ some bare
        → free_old set bare u.pages ≡ done s1
        → Returns (spill_self set again a u) Spills
    spill_self-Spills again u e f =
        let h = store a bare u.bucket.heap in
        let self : get h a ≡ some bare = ground (arith, get-store a a bare u.bucket.heap) in
        let plus : length nd.inodes + 1 ≡ suc (length nd.inodes) = omega arith in
        let u' = record u { bucket = record u.bucket { heap = h } } in
        rw (e, plus, split_from-whole (length nd.inodes) h v.whole self)
          (Returns-bind (Piece r) Spills (spill_pieces set a (a ∷ []) u') _ (no_parent again)
            (pieces-Piece u' (spill_piece-Piece u' self f)))

  -- `spill` of a leaf `nd` without a parent, without children and not yet spilled, that `split`
  -- leaves whole, has at most 0xffff inodes, takes less than 2 ^ 23 bytes, and has no empty first
  -- key, where sorting no children gives none, `s1` are the pages after the page it had is freed,
  -- and the free ids of those are in order, of data pages and inside the file, which has fewer than
  -- 2 ^ 32 - 0x1000 pages: with fuel for two levels it returns and reports no failure, and what it
  -- does is decided by `Tx::allocate` on `s1`, asked for the pages that the bytes of the node need.
  -- If that returns a page, the node has its id, is marked as spilled and has no children, and the
  -- pages are those after the allocation with a dirty page under that id which is read back to the
  -- node's inodes. If that returns a null pointer, the node is as it was, its children cleared, and
  -- the pages are those after the allocation.
  pub spill-Spills :
      (fuel : ℕ) (w : Work)
      → IsLoneLeaf
      → get w.bucket.heap a ≡ some nd
      → set.order [] ≡ []
      → free_old set nd w.pages ≡ done s1
      → IsIdList s1.free_list.ids
      → All (λ i. i < s1.total) s1.free_list.ids
      → s1.total + 0x1000 < 2 ^ 32
      → Returns (spill set (suc (suc fuel)) a w) Spills
  unfolding spill
  spill-Spills fuel w v e o f ids below few_pages =
      let sorted = record nd { children = set.order nd.children } in
      let none_yet : set.order nd.children ≡ [] = ap set.order v.childless ∙ o in
      let u = set_node a sorted w in
      let self : get u.bucket.heap a ≡ some sorted =
        ground (arith, get-store a a sorted w.bucket.heap) in
      let again = spill set (suc fuel) in
      let run = spill_children-none again fuel u sorted self none_yet in
      let (r, got, alloc) = allocated-Allocates v ids in
      let own =
        spill_self-Spills v r got alloc below few_pages again u
          (self ∙ ap (λ c. some (record nd { children = c })) none_yet) f in
      rw e (Returns-else Spills nd.spilled _ _ v.unspilled (rw run own))
