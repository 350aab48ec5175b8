-- ===== src/Bucket/Nodes.antt =====
-- What `getNode` of bucket.cc makes.
use cbtree.Base.{ℕ, ◌≡◌, ◌≢◌, refl, ap, ◌∙◌, Option, none, some, arith}
use cbtree.Base.Assoc.{lookup, insert, lookup-insert}
use cbtree.Page.{Page}
use cbtree.Node.{Node, new_node}
use cbtree.Heap.{get, store, alloc, get-store, get-alloc}
use cbtree.Codec.{◌>>=◌}
use cbtree.Codec
use cbtree.Bucket.{TxView, Bucket, get_node, hang, load_node, get_or_load, page_or}

module _ (tx : TxView) where
  -- A node in the cache is given again, and nothing changes.
  pub get_node_cached :
      (b : Bucket) (pgid a : ℕ) → lookup pgid b.nodes ≡ some a → get_node tx b pgid ≡ some (b, a)
  unfolding get_node
  get_node_cached b pgid a e = ap (get_or_load tx b pgid) e

  -- The bucket after `getNode` has made the node `nd` from the page `p`.
  abbrev pub with_node : Bucket → ℕ → Page → Node → Bucket
  with_node b pgid p nd = record b {
    page = some p;
    root_node = some b.heap.next;
    nodes = insert pgid b.heap.next b.nodes;
    heap = store b.heap.next nd (alloc (new_node none) b.heap);
  }

  load_node_lem :
      (b : Bucket) (a pgid : ℕ) (p : Page) (old nd : Node)
      → page_or tx b.page pgid ≡ some p
      → get b.heap a ≡ some old
      → Codec.read old p ≡ some nd
      → load_node tx b a pgid
        ≡ some
            (record b { page = some p; nodes = insert pgid a b.nodes; heap = store a nd b.heap }, a)
  unfolding load_node
  load_node_lem b a pgid p old nd q g r = rw (q, g, r) refl

  -- `getNode` for a page without a node, in a bucket whose `parentNode_` is null.
  pub get_node_fresh :
      (b : Bucket) (pgid : ℕ) (p : Page) (nd : Node)
      → lookup pgid b.nodes ≡ none
      → b.parent_node ≡ none
      → page_or tx b.page pgid ≡ some p
      → Codec.read (new_node none) p ≡ some nd
      → get_node tx b pgid ≡ some (with_node b pgid p nd, b.heap.next)
  unfolding get_node get_or_load hang
  get_node_fresh b pgid p nd e o q r = ap (get_or_load tx b pgid) e ∙ orphan b.parent_node o
    where
      orphan :
          (parent : Option ℕ)
          → parent ≡ none
          → load_node tx
              (hang (record b { heap = alloc (new_node parent) b.heap }) b.heap.next parent)
              b.heap.next
              pgid
            ≡ some (with_node b pgid p nd, b.heap.next)
      orphan parent i = rw i (
          load_node_lem
            (record b { root_node = some b.heap.next; heap = alloc (new_node none) b.heap })
            b.heap.next pgid p (new_node none) nd q
            (ground (arith, get-alloc b.heap.next (new_node none) b.heap)) r)

  -- In a bucket with neither a page nor a parent node, where the transaction has a page for the
  -- first of two different ids, which can be read, and neither id has a node: `getNode` of the
  -- first id loads that page, and `getNode` of the second then reads the same page again, so that
  -- both nodes have the page id and the inodes of the first. They are two nodes, and the second is
  -- the bucket's root.
  pub get_node_twice :
      (b : Bucket) (first second : ℕ) (p : Page) (nd : Node)
      → first ≢ second
      → lookup first b.nodes ≡ none
      → lookup second b.nodes ≡ none
      → b.parent_node ≡ none
      → b.page ≡ none
      → tx.get_page first ≡ some p
      → Codec.read (new_node none) p ≡ some nd
      → (b1 : Bucket) × (b2 : Bucket) × (a1 : ℕ) × (a2 : ℕ) × (get_node tx b first ≡ some (b1, a1))
        × (get_node tx b1 second ≡ some (b2, a2))
        × (get b2.heap a1 ≡ some nd)
        × (get b2.heap a2 ≡ some nd)
        × (b2.root_node ≡ some a2)
        × (a1 ≢ a2)
  get_node_twice b first second p nd apart e1 e2 o none_yet q r =
      let b1 = with_node b first p nd in
      let b2 = with_node b1 second p nd in
      let h1 = alloc (new_node none) b.heap in
      let h2 = alloc (new_node none) b1.heap in
      (
        b1,
        b2,
        b.heap.next,
        b1.heap.next,
        get_node_fresh b first p nd e1 o (ap (λ x. page_or tx x first) none_yet ∙ q) r,
        get_node_fresh b1 second p nd
            (ground (arith, lookup-insert second first b.heap.next b.nodes)) o refl r,
        ground (
          arith,
          get-store b.heap.next b1.heap.next nd h2,
          get-alloc b.heap.next (new_node none) b1.heap,
          get-store b.heap.next b.heap.next nd h1,
        ),
        ground (arith, get-store b1.heap.next b1.heap.next nd h2),
        refl,
        ground arith,
      )
