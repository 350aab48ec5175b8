-- ===== src/Work/Keeps.antt =====
-- What `Node::spill` and `Node::free` of node.cc keep of the pages of a transaction: whatever
-- `freeList::free` and `Tx::allocate` keep.
use cbtree.Base.{
  ℕ, zero, suc, ◌+◌, ◌/◌, ◌≤◌, ◌≡◌, refl, ltb, leb, ◌==◌, if◌then◌else◌, Bool, Option, none, some,
  List, [], ◌∷◌, length, get_elem?, Run, Whenever, Whenever-bind, Whenever-if, Whenever-then,
  Whenever-option, arith,
}
use cbtree.Base.Assoc.{insert}
use cbtree.Page.{Page}
use cbtree.FreeList
use cbtree.Node.{Node, size}
use cbtree.Split.{split_from, default_fill}
use cbtree.Codec
use cbtree.TxPages.{TxPages, get_page, tx_allocate}
use cbtree.Work.{
  Work, Setting, node_at, or_abort, free_page, free, free_old, front_key, hang_in_parent,
  page_given, total_page_number, spill_piece, spill_pieces, split_node, spill_parent, spill_self,
  spill_children, spill,
}

module _ (set : Setting) (Inv : TxPages → Type 0) where
  -- The pages after an allocation, also when something else is written to the new page.
  abbrev pub Given : TxPages × Option Page → Type 0
  Given (s, none) = Inv s
  Given (s, some p) =
      (q : Page)
      → q.id ≡ p.id
      → q.overflow ≡ p.overflow
      → Inv (record s { dirty = insert p.id q s.dirty })

  -- `freeList::free` and `Tx::allocate` keep `Inv`.
  pub record IsKept : Type 0 where
    pub freed :
        (p : Page) (s : TxPages)
        → Inv s
        → Whenever (FreeList.free set.txid p s.free_list) (λ f. Inv (record s { free_list = f }))
    pub allocated :
        (n : ℕ) (s : TxPages)
        → 1 ≤ n
        → Inv s
        → Whenever (tx_allocate set.page_size set.remap n set.fresh s) Given

  abbrev pub Kept : Work → Type 0
  Kept w = Inv w.pages

  abbrev pub KeptIn : Work × Bool → Type 0
  KeptIn r = Inv r.0.pages

  module _ (v : IsKept) where
    pub free_page-Inv : (o : Option Page) (s : TxPages) → Inv s → Whenever (free_page set o s) Inv
    free_page-Inv none s k = tt
    free_page-Inv (some p) s k =
        Whenever-then (λ f. Inv (record s { free_list = f })) Inv
          (FreeList.free set.txid p s.free_list) _ (λ f h. h) (v.freed p s k)

    pub free-Kept : (a : ℕ) (w : Work) → Kept w → Whenever (free set a w) Kept
    unfolding free
    free-Kept a w k = Whenever-bind Kept (node_at w a) _ (λ nd.
        Whenever-if Kept (nd.page_id == 0) _ _ k (
          Whenever-then Inv Kept (free_page set (get_page w.pages nd.page_id) w.pages) _ (λ s h. h)
            (free_page-Inv _ w.pages k)))

    free_old-Inv : (nd : Node) (s : TxPages) → Inv s → Whenever (free_old set nd s) Inv
    free_old-Inv nd s k =
        Whenever-if Inv (nd.page_id == 0) _ _ k (free_page-Inv (get_page s nd.page_id) s k)

    hang-Kept : (a b : ℕ) (w : Work) → Kept w → Whenever (hang_in_parent set a b w) Kept
    unfolding hang_in_parent
    hang-Kept a b w k = Whenever-bind Kept (node_at w b) _ (λ nd.
        Whenever-option Kept nd.parent _ _ k (λ p. Whenever-bind Kept (node_at w a) _ (λ this.
          Whenever-bind Kept (front_key set this.inodes) _ (λ first.
            Whenever-bind Kept (front_key set nd.inodes) _ (λ own.
              Whenever-bind Kept (node_at w p) _ (λ parent.
                Whenever-if Kept (length (if length nd.key == 0 then first else nd.key) == 0) _ _ tt
                  k))))))

    write-header :
        (nd : Node) (p : Page)
        → Whenever (Codec.write set.gap nd p) (λ q. (q.id ≡ p.id) × (q.overflow ≡ p.overflow))
    unfolding Codec.write
    write-header nd p =
        Whenever-if (λ q. (q.id ≡ p.id) × (q.overflow ≡ p.overflow)) (ltb 0xffff (length nd.inodes))
          _ _ tt
          (Whenever-if (λ q. (q.id ≡ p.id) × (q.overflow ≡ p.overflow)) (length nd.inodes == 0) _ _
            (refl, refl) (refl, refl))

    page_given-Kept :
        (a b : ℕ) (nd : Node) (w : Work) (r : TxPages × Option Page)
        → Given r
        → Whenever (page_given set a b nd w r) KeptIn
    page_given-Kept a b nd w (s, none) g = g
    page_given-Kept a b nd w (s, some p) g =
        Whenever-if KeptIn (leb (total_page_number s) p.id) _ _ tt (
          Whenever-then (λ q. (q.id ≡ p.id) × (q.overflow ≡ p.overflow)) KeptIn
            (Codec.write set.gap (record nd { page_id = p.id }) p) _
            (λ q (i, o).
              Whenever-then Kept KeptIn (hang_in_parent set a b _) _ (λ w' h. h)
                (hang-Kept a b _ (g q i o)))
            (write-header (record nd { page_id = p.id }) p))

    spill_piece-Kept : (a b : ℕ) (w : Work) → Kept w → Whenever (spill_piece set a b w) KeptIn
    unfolding spill_piece
    spill_piece-Kept a b w k = Whenever-bind KeptIn (node_at w b) _ (λ nd.
        Whenever-then Inv KeptIn (free_old set nd w.pages) _
          (λ s h. Whenever-bind KeptIn (node_at w a) _ (λ this.
            Whenever-then Given KeptIn
              (tx_allocate set.page_size set.remap (size this / 4096 + 1) set.fresh s) _
              (page_given-Kept a b nd w) (v.allocated (size this / 4096 + 1) s (omega arith) h)))
          (free_old-Inv nd w.pages k))

    spill_pieces-Kept :
        (a : ℕ) (bs : List ℕ) (w : Work) → Kept w → Whenever (spill_pieces set a bs w) KeptIn
    unfolding spill_pieces
    spill_pieces-Kept a [] w k = k
    spill_pieces-Kept a (b ∷ bs) w k =
        Whenever-then KeptIn KeptIn (spill_piece set a b w) _
          (λ r h. Whenever-if KeptIn r.1 _ _ (spill_pieces-Kept a bs r.0 h) h)
          (spill_piece-Kept a b w k)

    split_node-Kept : (a : ℕ) (w : Work) → Kept w → Whenever (split_node set a w) (λ r. Kept r.0)
    split_node-Kept a w k =
        Whenever-bind (λ r. Kept r.0) (node_at w a) _
          (λ nd.
            Whenever-bind (λ r. Kept r.0)
              (or_abort (split_from (length nd.inodes + 1) 4096 default_fill _ a)) _ (λ r. k))

    module _ (again : ℕ → Work → Run (Work × Bool))
        (h : (p : ℕ) (u : Work) → Kept u → Whenever (again p u) KeptIn) where
      spill_parent-Kept : (a : ℕ) (w : Work) → Kept w → Whenever (spill_parent set again a w) KeptIn
      spill_parent-Kept a w k = Whenever-bind KeptIn (node_at w a) _ (λ nd.
          Whenever-option KeptIn nd.parent _ _ k (λ p.
            Whenever-bind KeptIn (node_at w p) _
              (λ parent. Whenever-if KeptIn (parent.page_id == 0) _ _ (h p _ k) k)))

      spill_self-Kept : (a : ℕ) (w : Work) → Kept w → Whenever (spill_self set again a w) KeptIn
      spill_self-Kept a w k =
          Whenever-then (λ r. Kept r.0) KeptIn (split_node set a w) _
            (λ r k'.
              Whenever-then KeptIn KeptIn (spill_pieces set a r.1 r.0) _
                (λ q k''. Whenever-if KeptIn q.1 _ _ (spill_parent-Kept a q.0 k'') k'')
                (spill_pieces-Kept a r.1 r.0 k'))
            (split_node-Kept a w k)

      spill_children-Kept :
          (rounds i a : ℕ) (w : Work)
          → Kept w
          → Whenever (spill_children set again rounds i a w) KeptIn
      unfolding spill_children
      spill_children-Kept zero i a w k = tt
      spill_children-Kept (suc rounds) i a w k = Whenever-bind KeptIn (node_at w a) _ (λ nd.
          Whenever-option KeptIn (get_elem? nd.children i) _ _ k (λ c.
            Whenever-then KeptIn KeptIn (again c w) _
              (λ r k'. Whenever-if KeptIn r.1 _ _ k' (spill_children-Kept rounds (i + 1) a r.0 k'))
              (h c w k)))

    pub spill-Kept : (fuel a : ℕ) (w : Work) → Kept w → Whenever (spill set fuel a w) KeptIn
    unfolding spill
    spill-Kept zero a w k = tt
    spill-Kept (suc fuel) a w k = Whenever-bind KeptIn (node_at w a) _ (λ nd.
        Whenever-if KeptIn nd.spilled _ _ k (
          Whenever-then KeptIn KeptIn (spill_children set (spill set fuel) fuel 0 a _) _
            (λ r k'.
              Whenever-if KeptIn r.1 _ _
                (spill_self-Kept (spill set fuel) (spill-Kept fuel) a r.0 k') k')
            (spill_children-Kept (spill set fuel) (spill-Kept fuel) fuel 0 a _ k)))
