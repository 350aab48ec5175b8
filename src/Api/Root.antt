-- ===== src/Api/Root.antt =====
-- A bucket of bucket.cc whose root is a leaf, in memory or on a page: where `seek` and `getNode` of
-- the cursor end, and the bucket with another leaf in its place.
use cbtree.Base.{
  ℕ, ◌≡◌, ◌⊎◌, refl, ◌∙◌, ap, true, false, Option-cases, inl, inr, Bool, Option, none, some, List,
  [], ◌∷◌, get_elem?, has_flag, arith,
}
use cbtree.Item.{Item}
use cbtree.Page.{Page, leaf_page_flag}
use cbtree.Codec.{◌>>=◌, read, read_body, first_key}
use cbtree.Node.{Node, Inode, new_node}
use cbtree.Node.Lookup.{IsOrdered}
use cbtree.Heap.{get, store, get-store, alloc}
use cbtree.Base.Assoc.{lookup, lookup-insert}
use cbtree.Bucket.{Bucket, TxView, PageNode, get_page_node, get_node, page_or}
use cbtree.Bucket.Nodes.{get_node_fresh, with_node}
use cbtree.Cursor.{
  Content, content, ElementRef, Kv, no_kv, ref_of, seek, search_content, read_kv, cursor_node,
  leaf_on_top, node_at, materialize, walk_down, root_node_of, is_unidentifiable,
}
use cbtree.Tree.{IsTree, Shows}
use cbtree.Tree.Lookup.{
  search_leaf, seek_kv-read_kv, read_kv-Seeks, search_content-Locates, Locates-pair, content_index,
  Seeks,
}

-- The root of the bucket is the leaf `nd`, which a cursor finds at `pn`.
pub record ShowsLeaf (tx : TxView) (b : Bucket) (pn : PageNode) (nd : Node) : Type 0 where
  pub root : get_page_node tx b b.header.root ≡ pn
  pub shows :
      content b.heap (ref_of pn) ≡ some (record { is_leaf = nd.is_leaf; inodes = nd.inodes })
  pub known : is_unidentifiable pn.page ≡ false
  pub leaf : nd.is_leaf ≡ true
  pub ordered : IsOrdered nd

-- The root of the bucket is the leaf `nd` at `a` in memory.
pub record IsLeafRoot (tx : TxView) (b : Bucket) (a : ℕ) (nd : Node) : Type 0 where
  pub root : get_page_node tx b b.header.root ≡ record { page = none; node = some a }
  pub here : get b.heap a ≡ some nd
  pub leaf : nd.is_leaf ≡ true
  pub ordered : IsOrdered nd

-- The root of the bucket is on the page `p`, is no node yet, and is read to the leaf `nd`.
pub record IsPageRoot (tx : TxView) (b : Bucket) (p : Page) (nd : Node) : Type 0 where
  pub root : get_page_node tx b b.header.root ≡ record { page = some p; node = none }
  pub own_page : p.id ≡ b.header.root
  pub uncached : lookup b.header.root b.nodes ≡ none
  pub page : (b.page ≡ some p) ⊎ ((b.page ≡ none) × (tx.get_page b.header.root ≡ some p))
  pub orphan : b.parent_node ≡ none
  pub readable : read (new_node none) p ≡ some nd
  pub leaf : nd.is_leaf ≡ true
  pub ordered : IsOrdered nd

abbrev pub HasLeafRoot : TxView → Bucket → Node → Type 0
HasLeafRoot tx b nd = ((a : ℕ) × IsLeafRoot tx b a nd) ⊎ ((p : Page) × IsPageRoot tx b p nd)

module _ (tx : TxView) (b : Bucket) (pn : PageNode) (nd : Node) (v : ShowsLeaf tx b pn nd) where
  unfoldable pub root_content : Content
  root_content = record { is_leaf = nd.is_leaf; inodes = nd.inodes }

  root-Shows : Shows tx b b.header.root root_content
  unfolding root_content
  root-Shows = (rw v.root v.shows, rw v.root v.known, v.ordered.ascending, v.ordered.small)

  pub root-IsTree : IsTree tx b 0 b.header.root nd.inodes
  unfolding root_content
  root-IsTree = (root_content, root-Shows, v.leaf, refl)

  -- The place that a search ends at, and the entry there.
  pub place : Item → ElementRef
  place key = record (ref_of pn) { index = (search_content root_content key).0 }

  unfoldable pub kv_at : Item → Kv
  kv_at key = read_kv (get_elem? nd.inodes (search_content root_content key).0) no_kv

  pub seek-place : (key : Item) → seek tx 1 b key ≡ some (place key ∷ [], kv_at key)
  unfolding seek place kv_at root_content
  seek-place key =
      let s = search_leaf tx b key 0 b.header.root [] root_content root-Shows v.leaf in
      let p : record (ref_of (get_page_node tx b b.header.root)) {
        index = (search_content root_content key).0;
      }
          ≡ place key =
        ap (λ r. record (ref_of r) { index = (search_content root_content key).0 }) v.root in
      let shown : content b.heap (place key) ≡ some root_content =
        content_index tx b key (ref_of pn) (search_content root_content key).0 ∙ v.shows in
      rw (s, p) (seek_kv-read_kv tx b key (place key) [] root_content shown)

  pub kv_at-Seeks : (key : Item) → Seeks tx b key nd.inodes (kv_at key)
  unfolding kv_at root_content
  kv_at-Seeks key =
      read_kv-Seeks tx b key nd.inodes (search_content root_content key).0
        (search_content root_content key).1 v.ordered.ascending
        (Locates-pair tx b key nd.inodes (search_content root_content key)
          (search_content-Locates root_content key v.ordered.ascending v.ordered.small))

-- The bucket with another node at `a`.
unfoldable pub stored : Bucket → ℕ → Node → Bucket
stored b a nd = record b { heap = store a nd b.heap }

module _ (tx : TxView) where
  pub stored-IsLeafRoot :
      (b : Bucket) (a : ℕ) (nd nd' : Node)
      → IsLeafRoot tx b a nd
      → nd'.is_leaf ≡ true
      → IsOrdered nd'
      → IsLeafRoot tx (stored b a nd') a nd'
  unfolding stored get_page_node
  stored-IsLeafRoot b a nd nd' v leaf ordered = record {
    root = v.root;
    here = ground (arith, get-store a a nd' b.heap);
    leaf = leaf;
    ordered = ordered;
  }

  pub IsLeafRoot-ShowsLeaf :
      (b : Bucket) (a : ℕ) (nd : Node)
      → IsLeafRoot tx b a nd
      → ShowsLeaf tx b (record { page = none; node = some a }) nd
  unfolding content
  IsLeafRoot-ShowsLeaf b a nd v = record {
    root = v.root;
    shows = rw v.here refl;
    known = refl;
    leaf = v.leaf;
    ordered = v.ordered;
  }

  read_some :
      (leaf : Bool) (p : Page) (nd : Node) (o : Option (List Inode))
      → (o >>= λ xs. first_key xs >>= λ k.
          some (record (new_node none) { page_id = p.id; is_leaf = leaf; inodes = xs; key = k }))
        ≡ some nd
      → (o ≡ some nd.inodes) × (nd.is_leaf ≡ leaf)
  read_some leaf p nd none e = ground arith
  read_some leaf p nd (some xs) e = elim (Option-cases (first_key xs)) [
    | inl bad ↦ absurd (ground arith)
    | inr (k, good) ↦ (ground arith, ground arith)
  ]

  read-inodes :
      (p : Page) (nd : Node)
      → read (new_node none) p ≡ some nd
      → (read_body (has_flag leaf_page_flag p.flag) p.count p.body [] ≡ some nd.inodes)
        × (nd.is_leaf ≡ has_flag leaf_page_flag p.flag)
  unfolding read
  read-inodes p nd e =
      read_some (has_flag leaf_page_flag p.flag) p nd
        (read_body (has_flag leaf_page_flag p.flag) p.count p.body []) e

  pub IsPageRoot-ShowsLeaf :
      (b : Bucket) (p : Page) (nd : Node)
      → IsPageRoot tx b p nd
      → ShowsLeaf tx b (record { page = some p; node = none }) nd
  unfolding content
  IsPageRoot-ShowsLeaf b p nd v =
      let (body, flag) = read-inodes p nd v.readable in
      record {
        root = v.root;
        shows = rw (body, flag) refl;
        known = ground (arith, flag, v.leaf);
        leaf = v.leaf;
        ordered = v.ordered;
      }

  get_page-here :
      (b : Bucket) (pgid : ℕ) (p : Page)
      → (b.page ≡ some p) ⊎ ((b.page ≡ none) × (tx.get_page pgid ≡ some p))
      → page_or tx b.page pgid ≡ some p
  get_page-here b pgid p (inl e) = rw e refl
  get_page-here b pgid p (inr (e, g)) = rw (e, g) refl

  with_node-IsLeafRoot :
      (b : Bucket) (p : Page) (nd : Node)
      → IsPageRoot tx b p nd
      → IsLeafRoot tx (with_node tx b b.header.root p nd) b.heap.next nd
  unfolding get_page_node
  with_node-IsLeafRoot b p nd v = record {
    root = ground (arith, lookup-insert b.header.root b.header.root b.heap.next b.nodes);
    here = ground (arith, get-store b.heap.next b.heap.next nd (alloc (new_node none) b.heap));
    leaf = v.leaf;
    ordered = v.ordered;
  }

  -- The node that `getNode` of the cursor gives where the search has ended at `pn`: the root of a
  -- bucket that is otherwise as it was.
  abbrev pub Gives : (b : Bucket) (pn : PageNode) (nd : Node) → ShowsLeaf tx b pn nd → Type 0
  Gives b pn nd v =
      (c : Bucket) × (a : ℕ) × IsLeafRoot tx c a nd
      × ((key : Item)
          → cursor_node tx b (place tx b pn nd v key ∷ [])
            ≡ some (c, a, place tx b pn nd v key ∷ []))

  pub HasLeafRoot-Gives :
      (b : Bucket) (nd : Node)
      → HasLeafRoot tx b nd
      → (pn : PageNode) × (v : ShowsLeaf tx b pn nd) × Gives b pn nd v
  unfolding cursor_node leaf_on_top node_at place materialize walk_down root_node_of
  HasLeafRoot-Gives b nd (inl (a, v)) = (
    record { page = none; node = some a },
    IsLeafRoot-ShowsLeaf b a nd v,
    (b, a, v, λ key. rw (v.here, v.leaf) refl),
  )
  HasLeafRoot-Gives b nd (inr (p, v)) =
      let c = with_node tx b b.header.root p nd in
      let w = with_node-IsLeafRoot b p nd v in
      let made : get_node tx b p.id ≡ some (c, b.heap.next) =
        ap (get_node tx b) v.own_page
        ∙ get_node_fresh tx b b.header.root p nd v.uncached v.orphan
            (get_page-here b b.header.root p v.page) v.readable in
      (
        record { page = some p; node = none },
        IsPageRoot-ShowsLeaf b p nd v,
        (c, b.heap.next, w, λ key. rw (made, w.here, v.leaf) refl),
      )
