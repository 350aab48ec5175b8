-- ===== src/Node.antt =====
-- src/Bolt/node.h and node.cc: a node is a page of the tree in memory. A `NodePtr` is an address
-- in a heap of nodes (Heap); what a node does to itself alone is a function of the node here.
pub mod Keys
pub mod Lookup
pub mod Sizes
pub mod Lengths
pub mod Index
use cbtree.Base.{
  ℕ, zero, suc, ◌+◌, ◌-◌, ◌%◌, leb, ltb, ◌==◌, if◌then◌else◌, Bool, true, false, ◌&&◌, ◌||◌, not,
  Option, List, [], ◌∷◌, length, u32, has_flag,
}
use cbtree.Item.{Item}
use cbtree.Page.{
  page_header_size, leaf_element_size, branch_element_size, min_keys_per_page, bucket_leaf_flag,
}
use cbtree.Search.{binary_search}

pub record Inode : Type 0 where
  pub flag : ℕ
  pub page_id : ℕ
  pub key : Item
  pub value : Item

-- `bucket_` is the bucket whose code runs.
pub record Node : Type 0 where
  pub is_leaf : Bool
  pub unbalanced : Bool
  pub spilled : Bool
  pub key : Item
  pub page_id : ℕ
  pub parent : Option ℕ
  pub children : List ℕ
  pub inodes : List Inode

-- The constructor.
abbrev pub new_node : Option ℕ → Node
new_node parent = record {
  is_leaf = false;
  unbalanced = false;
  spilled = false;
  key = [];
  page_id = 0;
  parent = parent;
  children = [];
  inodes = [];
}

-- `inodeList_[i].key`; the searches stay inside the list.
abbrev pub inode_key : List Inode → ℕ → Item
inode_key [] i = []
inode_key (x ∷ xs) zero = x.key
inode_key (x ∷ xs) (suc i) = inode_key xs i

-- `vector::insert` before an index, a write at an index, and `vector::erase` at an index.
abbrev pub insert_at : ℕ → Inode → List Inode → List Inode
insert_at zero x ys = x ∷ ys
insert_at (suc i) x [] = x ∷ []
insert_at (suc i) x (y ∷ ys) = y ∷ insert_at i x ys

abbrev pub set_at : ℕ → Inode → List Inode → List Inode
set_at i x [] = []
set_at zero x (y ∷ ys) = x ∷ ys
set_at (suc i) x (y ∷ ys) = y ∷ set_at i x ys

abbrev pub erase_at : ℕ → List Inode → List Inode
erase_at i [] = []
erase_at zero (y ∷ ys) = ys
erase_at (suc i) (y ∷ ys) = y ∷ erase_at i ys

-- `binarySearch(inodeList_, key, found)`, which `search` passes on.
unfoldable pub search : Node → Item → ℕ × Bool
search nd key = binary_search (inode_key nd.inodes) (length nd.inodes % u32) key

abbrev pub write_inode : Node → ℕ × Bool → Inode → Node
write_inode nd (index, true) x = record nd { inodes = set_at index x nd.inodes }
write_inode nd (index, false) x = record nd { inodes = insert_at index x nd.inodes }

-- `put`; `total_pages` is `bucket_->getTotalPageNumber()`.
unfoldable pub put :
    (total_pages : ℕ) (nd : Node) (old_key new_key value : Item) (page_id flag : ℕ) → Node × Bool
unfolding search
put total_pages nd old_key new_key value page_id flag =
    if leb total_pages page_id
    then (nd, false)
    else if leb (length old_key) 0 || leb (length new_key) 0
    then (nd, false)
    else (
      write_inode nd (search nd old_key)
          (record { flag = flag; page_id = page_id; key = new_key; value = value }),
      true,
    )

abbrev pub erase_inode : Node → ℕ × Bool → Node
erase_inode nd (index, true) = record nd { inodes = erase_at index nd.inodes; unbalanced = true }
erase_inode nd (index, false) = nd

unfoldable pub del : Node → Item → Node × Bool
unfolding search
del nd key = (erase_inode nd (search nd key), true)

unfoldable pub do_remove : Node → Item → Node
unfolding search
do_remove nd key = erase_inode nd (search nd key)

-- `childIndex`, given the child's `key_`; the assertion that the key is found ends the process.
abbrev pub asserted : ℕ × Bool → Option ℕ
asserted (index, true) = Option.some index
asserted (index, false) = Option.none

unfoldable pub child_index : Node → Item → Option ℕ
unfolding search
child_index nd key = asserted (search nd key)

unfoldable pub min_keys : Node → ℕ
min_keys nd = if nd.is_leaf then 1 else 2

unfoldable pub page_element_size : Bool → ℕ
page_element_size is_leaf = if is_leaf then leaf_element_size else branch_element_size

-- What one inode adds to a node's size.
abbrev pub element_size : ℕ → Inode → ℕ
element_size header x = (header + length x.key + length x.value) % u32

add_sizes : (header : ℕ) → List Inode → ℕ → ℕ
add_sizes header [] size = size
add_sizes header (x ∷ xs) size = add_sizes header xs ((size + element_size header x) % u32)

unfoldable pub size : Node → ℕ
unfolding add_sizes page_element_size
size nd = add_sizes (page_element_size nd.is_leaf) nd.inodes page_header_size

-- The loop of `sizeLessThan`, which stops at the first inode that reaches `s`.
stays_less : (header s : ℕ) → List Inode → ℕ → Bool
stays_less header s [] sz = true
stays_less header s (x ∷ xs) sz =
    let sz' = (sz + element_size header x) % u32 in
    let later = stays_less header s xs sz' in if leb s sz' then false else later

unfoldable pub size_less_than : Node → ℕ → Bool
unfolding stays_less page_element_size
size_less_than nd s = stays_less (page_element_size nd.is_leaf) s nd.inodes page_header_size

-- The loop of `isinlineable`.
inline_loop : (most : ℕ) → List Inode → ℕ → Bool
inline_loop most [] s = true
inline_loop most (x ∷ xs) s =
    let s' = (s + element_size leaf_element_size x) % u32 in
    let later = inline_loop most xs s' in
    if has_flag bucket_leaf_flag x.flag then false else if ltb most s' then false else later

unfoldable pub is_inlineable : Node → ℕ → Bool
unfolding inline_loop
is_inlineable nd most = inline_loop most nd.inodes page_header_size

-- The loop of `splitIndex` over the inodes but the last two, from number `i` on.
split_loop : (header threshold : ℕ) (n : ℕ) → List Inode → (i index sz : ℕ) → ℕ
split_loop header threshold zero xs i index sz = index
split_loop header threshold (suc n) [] i index sz = index
split_loop header threshold (suc n) (x ∷ xs) i index sz =
    let sz' = sz + element_size header x in
    let later = split_loop header threshold n xs (i + 1) i (sz' % u32) in
    if leb min_keys_per_page i && ltb threshold (sz' % u32) then i else later

unfoldable pub split_index : Node → ℕ → ℕ
unfolding split_loop page_element_size
split_index nd threshold =
    split_loop (page_element_size nd.is_leaf) threshold (length nd.inodes - min_keys_per_page)
      nd.inodes 0 0 page_header_size

unfoldable pub branch_page_ids : List Inode → List ℕ
branch_page_ids [] = []
branch_page_ids (x ∷ xs) = x.page_id ∷ branch_page_ids xs

unfoldable pub num_children : Node → ℕ
num_children nd = length nd.inodes % u32
