-- ===== src/Cursor.antt =====
-- src/Bolt/cursor.h and cursor.cc: a cursor walks the tree of a bucket with a stack of places. The
-- head of the list is the top of the stack. `none` is a failed assertion, a `LOG(FATAL)`, a null
-- or dangling pointer, a stray read, or, in the walks down the tree, too little fuel.
use cbtree.Base.{
  ℕ, zero, suc, ◌+◌, ◌-◌, ◌%◌, leb, ltb, ◌==◌, if◌then◌else◌, Bool, true, false, not, ◌||◌, Option,
  none, some, List, [], ◌∷◌, length, get_elem?, u32, u64, has_flag,
}
use mathlib.Core.List.{reverse}
use cbtree.Item.{Item}
use cbtree.Page.{Page, branch_page_flag, leaf_page_flag, bucket_leaf_flag}
use cbtree.Search.{binary_search}
use cbtree.Node.{Node, Inode, inode_key, del}
use cbtree.Heap.{Heap, get, store}
use cbtree.Codec.{◌>>=◌, read_body}
use cbtree.Bucket.{Bucket, TxView, PageNode, get_page_node, get_node, child_at}

pub record ElementRef : Type 0 where
  pub page : Option Page
  pub node : Option ℕ
  pub index : ℕ

abbrev pub ref_of : PageNode → ElementRef
ref_of pn = record { page = pn.page; node = pn.node; index = 0 }

-- What a place shows: a node, or a page with its elements read.
pub record Content : Type 0 where
  pub is_leaf : Bool
  pub inodes : List Inode

page_content : Option Page → Option Content
page_content none = none
page_content (some p) =
    let leaf = has_flag leaf_page_flag p.flag in
    read_body leaf p.count p.body [] >>= λ xs. some (record { is_leaf = leaf; inodes = xs })

node_content : Option Node → Option Content
node_content none = none
node_content (some nd) = some (record { is_leaf = nd.is_leaf; inodes = nd.inodes })

-- `ElementRef::isLeaf`, `count`, and the accesses to node or page behind the place.
unfoldable pub content : Heap → ElementRef → Option Content
unfolding page_content node_content
content h ref = elim ref.node [ some a ↦ node_content (get h a) | none ↦ page_content ref.page ]

-- The key, value and flag that a call hands back by reference.
pub record Kv : Type 0 where
  pub key : Item
  pub value : Item
  pub flag : ℕ

abbrev pub no_kv : Kv
no_kv = record { key = []; value = []; flag = 0 }

abbrev pub kv_of : Inode → Kv
kv_of x = record { key = x.key; value = x.value; flag = x.flag }

-- `keyValue`: a place out of range leaves `kv` as it was.
unfoldable pub read_kv : Option Inode → Kv → Kv
read_kv none kv = kv
read_kv (some x) kv = kv_of x

unfoldable pub key_value : Heap → List ElementRef → Kv → Option Kv
unfolding read_kv
key_value h [] kv = some no_kv
key_value h (ref ∷ es) kv = content h ref >>= λ c. some (read_kv (get_elem? c.inodes ref.index) kv)

-- The search in one node or page: `Node::search`, `binarySearchLeaf` or `binarySearchBranch`.
unfoldable pub search_content : Content → Item → ℕ × Bool
search_content c key = binary_search (inode_key c.inodes) (length c.inodes % u32) key

-- The child that `searchBranchNode` and `searchBranchPage` go down to.
abbrev pub branch_index : ℕ × Bool → ℕ
branch_index (index, true) = index
branch_index (index, false) = if ltb 0 index then index - 1 else index

-- A page that is neither branch nor leaf ends `search`.
abbrev pub is_unidentifiable : Option Page → Bool
is_unidentifiable none = false
is_unidentifiable (some p) =
    not (has_flag branch_page_flag p.flag || has_flag leaf_page_flag p.flag)

module _ (tx : TxView) where
  -- `search`, `searchLeaf`, `searchBranchNode`, `searchBranchPage`; `fuel` bounds the levels.
  unfoldable pub search :
      (fuel : ℕ) → Bucket → Item → (pgid : ℕ) → List ElementRef → Option (List ElementRef)
  search zero b key pgid es = none
  search (suc fuel) b key pgid es =
      let ref = ref_of (get_page_node tx b pgid) in
      if is_unidentifiable ref.page
      then none
      else content b.heap ref >>= λ c.
          let r = search_content c key in
          let down = get_elem? c.inodes (branch_index r) >>= λ x.
          search fuel b key x.page_id (record ref { index = branch_index r } ∷ es) in
          if c.is_leaf then some (record ref { index = r.0 } ∷ es) else down

  -- `do_seek`: past the end of the leaf that the search ends in there is no key.
  unfoldable pub seek_kv : Heap → List ElementRef → Option (List ElementRef × Kv)
  seek_kv h [] = none
  seek_kv h (ref ∷ es) = content h ref >>= λ c.
      if leb (length c.inodes) ref.index
      then some (ref ∷ es, no_kv)
      else key_value h (ref ∷ es) no_kv >>= λ kv. some (ref ∷ es, kv)

  -- `seek`, which clears the stack first.
  unfoldable pub seek : (fuel : ℕ) → Bucket → Item → Option (List ElementRef × Kv)
  unfolding search seek_kv
  seek fuel b key = search fuel b key b.header.root [] >>= seek_kv b.heap

  -- The place of the child under the top of the stack.
  abbrev pub child_ref : Bucket → Content → (index : ℕ) → Option ElementRef
  child_ref b c index =
      get_elem? c.inodes index >>= λ x. some (ref_of (get_page_node tx b x.page_id))

  -- `do_first`: down to the first leaf under the top.
  unfoldable pub do_first : (fuel : ℕ) → Bucket → List ElementRef → Option (List ElementRef)
  do_first zero b es = none
  do_first (suc fuel) b [] = none
  do_first (suc fuel) b (ref ∷ es) = content b.heap ref >>= λ c.
      let down = child_ref b c ref.index >>= λ r. do_first fuel b (r ∷ ref ∷ es) in
      if c.is_leaf then some (ref ∷ es) else down

  -- `index_ = count() - 1` on `uint64_t`.
  abbrev pub at_last : Content → ElementRef → ElementRef
  at_last c ref = record ref { index = (length c.inodes + u64 - 1) % u64 }

  -- `do_last`: down to the last leaf under the top.
  unfoldable pub do_last : (fuel : ℕ) → Bucket → List ElementRef → Option (List ElementRef)
  do_last zero b es = none
  do_last (suc fuel) b [] = none
  do_last (suc fuel) b (ref ∷ es) = content b.heap ref >>= λ c.
      let down = child_ref b c ref.index >>= λ r.
      content b.heap r >>= λ cr. do_last fuel b (at_last cr r ∷ ref ∷ es) in
      if c.is_leaf then some (ref ∷ es) else down

  -- The inner loop of `do_next`: pops what is at its last element and steps what is not.
  unfoldable pub step_up : Heap → List ElementRef → Option (List ElementRef)
  step_up h [] = some []
  step_up h (ref ∷ es) = content h ref >>= λ c.
      let popped = step_up h es in
      if ltb (ref.index + 1) (length c.inodes)
      then some (record ref { index = ref.index + 1 } ∷ es)
      else popped

  -- `do_next`; `rounds` bounds the empty leaves that it passes over.
  unfoldable pub do_next :
      (rounds fuel : ℕ) → Bucket → List ElementRef → Kv → Option (List ElementRef × Kv)
  do_next zero fuel b es kv = none
  do_next (suc rounds) fuel b es kv = step_up b.heap es >>= λ up. elim up [
    | [] ↦ some ([], no_kv)
    | ref ∷ rest ↦ do_first fuel b (ref ∷ rest) >>= λ down. elim down [
      | [] ↦ none
      | leaf ∷ more ↦ content b.heap leaf >>= λ c.
          let again = do_next rounds fuel b (leaf ∷ more) kv in
          let found = key_value b.heap (leaf ∷ more) kv >>= λ kv'. some (leaf ∷ more, kv') in
          if length c.inodes == 0 then again else found
    ]
  ]

  unfoldable pub next : (rounds fuel : ℕ) → Bucket → List ElementRef → Option (List ElementRef × Kv)
  unfolding do_next
  next rounds fuel b es = do_next rounds fuel b es no_kv

  -- The loop of `prev`: pops what is at its first element and steps back what is not.
  unfoldable pub step_back : List ElementRef → List ElementRef
  step_back [] = []
  step_back (ref ∷ es) =
      let popped = step_back es in
      if ltb 0 ref.index then record ref { index = ref.index - 1 } ∷ es else popped

  unfoldable pub down_last : (fuel : ℕ) → Bucket → List ElementRef → Option (List ElementRef × Kv)
  unfolding do_last
  down_last fuel b [] = some ([], no_kv)
  down_last fuel b (ref ∷ es) =
      do_last fuel b (ref ∷ es) >>= λ down. key_value b.heap down no_kv >>= λ kv. some (down, kv)

  unfoldable pub prev : (fuel : ℕ) → Bucket → List ElementRef → Option (List ElementRef × Kv)
  unfolding step_back down_last
  prev fuel b es = down_last fuel b (step_back es)

  unfoldable pub last : (fuel : ℕ) → Bucket → Option (List ElementRef × Kv)
  unfolding down_last
  last fuel b =
      let ref = ref_of (get_page_node tx b b.header.root) in
      content b.heap ref >>= λ c. down_last fuel b (at_last c ref ∷ [])

  unfoldable pub first_kv :
      (rounds fuel : ℕ) → Bucket → List ElementRef → Option (List ElementRef × Kv)
  unfolding do_next
  first_kv rounds fuel b [] = none
  first_kv rounds fuel b (ref ∷ es) = content b.heap ref >>= λ c.
      let again = do_next rounds fuel b (ref ∷ es) no_kv >>= λ r.
      key_value b.heap r.0 r.1 >>= λ kv. some (r.0, kv) in
      let found = key_value b.heap (ref ∷ es) no_kv >>= λ kv. some (ref ∷ es, kv) in
      if length c.inodes == 0 then again else found

  unfoldable pub first : (rounds fuel : ℕ) → Bucket → Option (List ElementRef × Kv)
  unfolding do_first first_kv
  first rounds fuel b =
      do_first fuel b (ref_of (get_page_node tx b b.header.root) ∷ []) >>= first_kv rounds fuel b

  -- The walk down of `getNode` over the places from the root on, without the last.
  unfoldable pub walk_down : Bucket → (node : ℕ) → List ElementRef → Option (Bucket × ℕ)
  walk_down b a [] = some (b, a)
  walk_down b a (ref ∷ []) = some (b, a)
  walk_down b a (ref ∷ next ∷ path) =
      child_at tx b a ref.index >>= λ r. walk_down r.0 r.1 (next ∷ path)

  -- The node at the root of the path.
  unfoldable pub root_node_of : Bucket → ElementRef → Option (Bucket × ℕ)
  root_node_of b ref = elim ref.node [
    | some a ↦ some (b, a)
    | none ↦ ref.page >>= λ p. get_node tx b p.id
  ]

  abbrev pub leaf_node : Bucket → ℕ → Option (Bucket × ℕ)
  leaf_node b a = get b.heap a >>= λ nd. if nd.is_leaf then some (b, a) else none

  unfoldable pub materialize : Bucket → (path : List ElementRef) → Option (Bucket × ℕ)
  unfolding walk_down root_node_of
  materialize b [] = none
  materialize b (ref ∷ path) =
      root_node_of b ref >>= λ r. walk_down r.0 r.1 (ref ∷ path) >>= λ l. leaf_node l.0 l.1

  -- Whether the top of the stack is a leaf that is a node already.
  unfoldable pub leaf_on_top : Heap → List ElementRef → Option ℕ
  leaf_on_top h [] = none
  leaf_on_top h (ref ∷ es) = ref.node >>= λ a. get h a >>= λ nd. if nd.is_leaf then some a else none

  unfoldable pub node_at :
      Bucket → List ElementRef → Option ℕ → Option (Bucket × ℕ × List ElementRef)
  unfolding materialize
  node_at b es (some a) = some (b, a, es)
  node_at b es none = materialize b (reverse es) >>= λ r. some (r.0, r.1, reverse es)

  -- `getNode` of the cursor, with the stack that it leaves: popped into a vector, the vector
  -- reversed, and its elements pushed from the last to the first.
  unfoldable pub cursor_node : Bucket → List ElementRef → Option (Bucket × ℕ × List ElementRef)
  unfolding leaf_on_top node_at
  cursor_node b es = node_at b es (leaf_on_top b.heap es)

  -- `remove`; 1 stands for the return value -1. `unset` is what stands in the flag before
  -- `keyValue` is called, which leaves it so at a place out of range.
  unfoldable pub remove :
      (unset : ℕ) → Bucket → List ElementRef → Option (Bucket × List ElementRef × ℕ)
  unfolding cursor_node
  remove unset b es =
      let erased = key_value b.heap es (record no_kv { flag = unset }) >>= λ kv.
      if has_flag bucket_leaf_flag kv.flag
      then some (b, es, 1)
      else (cursor_node b es >>= λ r. get r.0.heap r.1 >>= λ nd.
          some (record r.0 { heap = store r.1 (del nd kv.key).0 r.0.heap }, r.2, 0)) in
      if not tx.open_db
      then some (b, es, 1)
      else if not tx.writable
      then some (b, es, 1)
      else erased
