-- ===== src/Inline/Open.antt =====
-- A bucket that `Bucket::write` of src/Bolt/bucket.cc has put into a value is opened again.
use cbtree.Base.{
  ℕ, suc, ◌+◌, ◌*◌, ◌≤◌, ◌<◌, ◌≡◌, refl, sym, subst, ltb, ◌==◌, if◌then◌else◌, true, false, none,
  some, List, [], ◌∷◌, ◌++◌, length, length-append, u32, u64, All, done, Returns, arith,
}
use cbtree.Item.{Item}
use cbtree.Page.{BucketHeader, Page, LeafPageElement, leaf_page_flag}
use cbtree.Node.{Node, Inode, new_node, size}
use cbtree.Node.Sizes.{bytes, node_bytes, size-node_bytes}
use cbtree.Heap.{get, alloc, get-store}
use cbtree.Bucket.{Bucket, TxView, get_node}
use cbtree.Bucket.Nodes.{get_node_fresh, with_node}
use cbtree.Codec.{leaf_elements, content_of, written_body, read, write}
use cbtree.Codec.Leaf.{
  FirstKey, read_back, read-write_leaf, length-content_of, length-leaf_elements,
}
use cbtree.Meta.{zero_page}
use cbtree.Inline.{
  header_bytes, element_bytes, body_bytes, page_bytes, write_bucket, new_bucket, open_bucket,
}
use cbtree.Inline.Bytes.{length-le_bytes, read_header-append}
use cbtree.Inline.Pages.{IsElement, IsLeafPage, elements_or_raw, read_page-page_bytes}

leaf_elements-IsElement :
    (n i off : ℕ) (xs : List Inode)
    → bytes 16 xs < u32
    → All (λ x. x.flag < u32) xs
    → All IsElement (leaf_elements n i off xs)
unfolding leaf_elements
leaf_elements-IsElement n i off [] h f = tt
leaf_elements-IsElement n i off (x ∷ xs) h (f, fs) = (
  (f, omega arith, omega arith, omega arith),
  leaf_elements-IsElement n (i + 1) (off + length x.key + length x.value) xs (omega arith) fs,
)

length-element_bytes : (es : List LeafPageElement) → length (element_bytes es) ≡ 16 * length es
unfolding element_bytes
length-element_bytes [] = refl
length-element_bytes (e ∷ es) =
    simp (length-append, length-le_bytes, length-element_bytes es) (omega arith)

-- The test of `write` for a node without inodes.
bodies :
    (gap : ℕ → ℕ) (xs : List Inode)
    → (if length xs == 0
        then done (record zero_page { flag = leaf_page_flag; count = 0 })
        else done (record zero_page {
          flag = leaf_page_flag;
          count = length xs;
          body = written_body gap true xs;
        }))
      ≡ done (record zero_page {
        flag = leaf_page_flag;
        count = length xs;
        body = elements_or_raw (leaf_elements (length xs) 0 0 xs) (content_of xs);
      })
unfolding leaf_elements
bodies gap [] = refl
bodies gap (x ∷ xs) =
    let some_inode : (suc (length xs) == 0) ≡ false = ground arith in rw some_inode refl

length-body_bytes :
    (xs : List Inode)
    → length (body_bytes (elements_or_raw (leaf_elements (length xs) 0 0 xs) (content_of xs)))
      ≡ bytes 16 xs
unfolding leaf_elements
length-body_bytes [] = refl
length-body_bytes (x ∷ xs) =
    let n = suc (length xs) in
    let es = leaf_elements n 0 0 (x ∷ xs) in
    omega (
      arith,
      length-append (element_bytes es) (content_of (x ∷ xs)),
      length-element_bytes es,
      length-leaf_elements n 0 0 (x ∷ xs),
      length-content_of (x ∷ xs),
    )

module _ (gap : ℕ → ℕ) (nd : Node) where
  abbrev elements : List LeafPageElement
  elements = leaf_elements (length nd.inodes) 0 0 nd.inodes

  -- The page of the value.
  abbrev pub page_of : Page
  page_of = record {
    id = 0;
    flag = leaf_page_flag;
    count = length nd.inodes;
    overflow = 0;
    body = elements_or_raw elements (content_of nd.inodes);
  }

  write-page_of :
      nd.is_leaf ≡ true → length nd.inodes ≤ 0xffff → write gap nd zero_page ≡ done page_of
  unfolding write
  write-page_of l few =
      let room : ltb 0xffff (length nd.inodes) ≡ false = ground arith in
      rw (room, l) (bodies gap nd.inodes)

  -- A leaf whose value can be written.
  pub record IsInline : Type 0 where
    pub leaf : nd.is_leaf ≡ true
    pub few : length nd.inodes ≤ 0xffff
    pub small : node_bytes nd < u32
    pub first_key : FirstKey nd.inodes
    pub flags : All (λ x. x.flag < u32) nd.inodes

  page_of-IsLeafPage : IsInline → IsLeafPage page_of elements (content_of nd.inodes)
  page_of-IsLeafPage v = record {
    id = omega arith;
    flag = omega arith;
    leaf_flag = refl;
    count = sym (length-leaf_elements (length nd.inodes) 0 0 nd.inodes);
    few = omega (arith, v.few);
    overflow = omega arith;
    elements =
        leaf_elements-IsElement (length nd.inodes) 0 0 nd.inodes (omega (arith, v.small)) v.flags;
  }

  read-page_of : IsInline → read (new_node none) page_of ≡ some (read_back zero_page nd)
  read-page_of v =
      subst (λ r. Returns r (λ q. read (new_node none) q ≡ some (read_back zero_page nd)))
        (write-page_of v.leaf v.few)
        (read-write_leaf gap nd zero_page v.leaf v.few v.small v.first_key)

  module _ (header : BucketHeader) (value : Item) (tx : TxView) where
    -- The value is as long as the memory that was asked for, and opening it gives a bucket with the
    -- header whose first node is the root that was written.
    abbrev pub OpensAgain : (stale : List ℕ → List ℕ) → Type 0
    OpensAgain stale =
        (length value ≡ 16 + size nd)
        × ((b : Bucket) × (b' : Bucket) × (a : ℕ) × (open_bucket stale value true ≡ some b)
            × (b.header ≡ header)
            × (get_node tx b 0 ≡ some (b', a))
            × (get b'.heap a ≡ some (read_back zero_page nd)))

  opened :
      (header : BucketHeader) (stale : List ℕ → List ℕ)
      → IsInline
      → header.root ≡ 0
      → header.sequence < u64
      → open_bucket stale (header_bytes header ++ page_bytes page_of) true
        ≡ some (new_bucket header (some page_of))
  unfolding open_bucket
  opened header stale v inline seq =
      let zero : (header.root == 0) ≡ true = ground arith in
      rw
        (
          read_header-append header (page_bytes page_of) (omega arith) seq,
          zero,
          read_page-page_bytes page_of elements (content_of nd.inodes) (page_of-IsLeafPage v) refl,
        )
        refl

  length-value :
      (header : BucketHeader)
      → IsInline
      → length (header_bytes header ++ page_bytes page_of) ≡ 16 + size nd
  unfolding page_bytes
  length-value header v =
      simp (length-append, length-le_bytes)
        (omega (arith, length-body_bytes nd.inodes, size-node_bytes nd v.small))

  -- A bucket whose header has the root page 0 and a sequence below 2 ^ 64, and whose root node is
  -- a leaf with at most 0xffff inodes, less than 2 ^ 32 bytes, flags below 2 ^ 32 and no empty
  -- first key: `Bucket::write` returns a value as long as the memory that it asks for, 16 bytes
  -- more than the size of the node. `openBucket` of that value on a page of the parent returns a
  -- bucket with the same header, and `getNode` in it a root node with the same inodes.
  pub open_bucket-write_bucket :
      (header : BucketHeader) (tx : TxView) (stale : List ℕ → List ℕ)
      → IsInline
      → header.root ≡ 0
      → header.sequence < u64
      → Returns (write_bucket gap header nd) (λ value. OpensAgain header value tx stale)
  unfolding write_bucket
  open_bucket-write_bucket header tx stale v inline seq =
      let b = new_bucket header (some page_of) in
      rw (write-page_of v.leaf v.few) (
        length-value header v,
        (
          b,
          with_node tx b 0 page_of (read_back zero_page nd),
          0,
          opened header stale v inline seq,
          refl,
          get_node_fresh tx b 0 page_of (read_back zero_page nd) refl refl refl (read-page_of v),
          ground (arith, get-store 0 0 (read_back zero_page nd) (alloc (new_node none) b.heap)),
        ),
      )
