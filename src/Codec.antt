-- ===== src/Codec.antt =====
-- `Node::read` and `Node::write` of src/Bolt/node.cc, and the element accessors of page.h and
-- type.h: a node on its page. Behind the header stand the elements, 16 bytes each, then the bytes
-- of the keys and values; an element finds its own by an offset from its own address.
pub mod Leaf
pub mod Branch
use cbtree.Base.{
  ℕ, zero, suc, ◌+◌, ◌-◌, ◌*◌, ◌%◌, leb, ltb, ◌==◌, if◌then◌else◌, Bool, true, false, ◌&&◌, Option,
  none, some, List, [], ◌∷◌, ◌++◌, length, take, drop, u32, has_flag, set_flag, Run, done, aborted,
}
use cbtree.Item.{Item}
use cbtree.Page.{
  Page, Body, raw, id_array, meta, leaf, branch, LeafPageElement, BranchPageElement, leaf_page_flag,
  branch_page_flag, leaf_element_size, branch_element_size,
}
use cbtree.Node.{Node, Inode}

infixl 5 ◌>>=◌
abbrev pub ◌>>=◌ {ℓ κ} : {A : Type ℓ} {B : Type κ} → Option A → (A → Option B) → Option B
none >>= f = none
some a >>= f = f a

-- `s` bytes at the address `a`, counted from behind the page header, where `n` elements stand
-- first; `none` is a read outside the bytes of the keys and values.
unfoldable pub read_at : (n : ℕ) (content : List ℕ) (a s : ℕ) → Option Item
read_at n content a s =
    if leb (n * 16) a && leb (a - n * 16 + s) (length content)
    then some (take s (drop (a - n * 16) content))
    else none

-- `key()` and `value()` of the leaf element number `i`.
unfoldable pub leaf_key : (n : ℕ) (content : List ℕ) (i : ℕ) → LeafPageElement → Option Item
unfolding read_at
leaf_key n content i e = read_at n content (i * leaf_element_size + e.pos) e.ksize

unfoldable pub leaf_value : (n : ℕ) (content : List ℕ) (i : ℕ) → LeafPageElement → Option Item
unfolding read_at
leaf_value n content i e =
    read_at n content (i * leaf_element_size + (e.pos + e.ksize) % u32) e.vsize

-- `key()` of the branch element number `i`.
unfoldable pub branch_key : (n : ℕ) (content : List ℕ) (i : ℕ) → BranchPageElement → Option Item
unfolding read_at
branch_key n content i e = read_at n content (i * branch_element_size + e.pos) e.ksize

-- What the loop of `write` puts behind the elements.
unfoldable pub content_of : List Inode → List ℕ
content_of [] = []
content_of (x ∷ xs) = x.key ++ (x.value ++ content_of xs)

-- The leaf elements from number `i` of `n` on, `off` bytes of content being behind `contentPtr`.
unfoldable pub leaf_elements : (n i off : ℕ) → List Inode → List LeafPageElement
leaf_elements n i off [] = []
leaf_elements n i off (x ∷ xs) =
    record {
      flag = x.flag;
      pos = (n * leaf_element_size + off - i * leaf_element_size) % u32;
      ksize = length x.key;
      vsize = length x.value;
    }
    ∷ leaf_elements n (i + 1) (off + length x.key + length x.value) xs

-- The branch elements. Their `pos` is `contentPtr - (char *)&item`, and `&item` is the address of
-- the local pointer, not of the element: `gap i` is what that difference is for number `i`.
pub branch_elements : (gap : ℕ → ℕ) (i : ℕ) → List Inode → List BranchPageElement
branch_elements gap i [] = []
branch_elements gap i (x ∷ xs) =
    record { pos = gap i % u32; ksize = length x.key; page_id = x.page_id }
    ∷ branch_elements gap (i + 1) xs

abbrev pub written_body : (gap : ℕ → ℕ) → Bool → List Inode → Body
written_body gap true xs = leaf (leaf_elements (length xs) 0 0 xs) (content_of xs)
written_body gap false xs = branch (branch_elements gap 0 xs) (content_of xs)

abbrev pub node_flag : Bool → ℕ
node_flag true = leaf_page_flag
node_flag false = branch_page_flag

-- `write`; more than 0xffff inodes end the process.
unfoldable pub write : (gap : ℕ → ℕ) → Node → Page → Run Page
write gap nd p =
    let flagged = record p { flag = set_flag (node_flag nd.is_leaf) p.flag } in
    let n = length nd.inodes in
    if ltb 0xffff n
    then aborted
    else if n == 0
    then done (record flagged { count = 0 })
    else done (record flagged { count = n; body = written_body gap nd.is_leaf nd.inodes })

-- The inode that `resize` has at the head, and the others.
abbrev pub head_inode : List Inode → Inode
head_inode [] = record { flag = 0; page_id = 0; key = []; value = [] }
head_inode (x ∷ xs) = x

abbrev pub other_inodes : List Inode → List Inode
other_inodes [] = []
other_inodes (x ∷ xs) = xs

-- The loop of `read` on a leaf page and on a branch page, over the `c` elements from number `i`
-- on; `old` are the inodes that are overwritten. An element past the page's is a stray read.
pub read_leafs :
    (n : ℕ) (content : List ℕ) (i c : ℕ) → List LeafPageElement → List Inode → Option (List Inode)
read_leafs n content i zero es old = some []
read_leafs n content i (suc c) [] old = none
read_leafs n content i (suc c) (e ∷ es) old = do
  key ← leaf_key n content i e
  value ← leaf_value n content i e
  rest ← read_leafs n content (i + 1) c es (other_inodes old)
  some (record (head_inode old) { flag = e.flag; key = key; value = value } ∷ rest)

pub read_branches :
    (n : ℕ) (content : List ℕ) (i c : ℕ) → List BranchPageElement → List Inode → Option (List Inode)
read_branches n content i zero es old = some []
read_branches n content i (suc c) [] old = none
read_branches n content i (suc c) (e ∷ es) old = do
  key ← branch_key n content i e
  rest ← read_branches n content (i + 1) c es (other_inodes old)
  some (record (head_inode old) { page_id = e.page_id; key = key } ∷ rest)

abbrev pub read_body : (is_leaf : Bool) (c : ℕ) → Body → List Inode → Option (List Inode)
read_body is_leaf zero b old = some []
read_body true (suc c) (leaf es content) old = read_leafs (length es) content 0 (suc c) es old
read_body false (suc c) (branch es content) old = read_branches (length es) content 0 (suc c) es old
read_body is_leaf (suc c) b old = none

-- `key_` after `read`; the first key must not be empty.
abbrev pub first_key : List Inode → Option Item
first_key [] = some []
first_key (x ∷ xs) = if length x.key == 0 then none else some x.key

-- `read`; `none` is a stray read or the failed assertion.
unfoldable pub read : Node → Page → Option Node
unfolding read_leafs read_branches
read nd p =
    let is_leaf = has_flag leaf_page_flag p.flag in
    read_body is_leaf p.count p.body nd.inodes >>= λ xs. first_key xs >>= λ k.
    some (record nd { page_id = p.id; is_leaf = is_leaf; inodes = xs; key = k })
