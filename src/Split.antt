-- ===== src/Split.antt =====
-- `splitTwo` and `split` of src/Bolt/node.cc, on the heap. The fill percent is in tenths: a bucket
-- only ever has `DEFAULTFILLPERCENT`, 0.5, and the threshold is then the exact product.
pub mod Two
pub mod Pieces
pub mod Root
use cbtree.Base.{
  ℕ, zero, suc, ◌+◌, ◌*◌, ◌/◌, ltb, leb, if◌then◌else◌, Bool, true, false, ◌||◌, Option, none, some,
  List, [], ◌∷◌, ◌++◌, length, take, drop,
}
use cbtree.Page.{min_keys_per_page}
use cbtree.Node.{Node, Inode, new_node, size_less_than, split_index}
use cbtree.Heap.{Heap, get, store, alloc}

-- `MINFILLPERCENT`, `MAXFILLPERCENT` and `DEFAULTFILLPERCENT`.
abbrev pub min_fill : ℕ
min_fill = 1

abbrev pub max_fill : ℕ
max_fill = 10

abbrev pub default_fill : ℕ
default_fill = 5

unfoldable pub split_threshold : (page_size fill : ℕ) → ℕ
split_threshold page_size fill =
    let raised = if ltb fill min_fill then min_fill else fill in
    page_size * (if ltb max_fill raised then max_fill else raised) / 10

infixl 5 ◌>>=◌
abbrev ◌>>=◌ {ℓ κ} : {A : Type ℓ} {B : Type κ} → Option A → (A → Option B) → Option B
none >>= f = none
some a >>= f = f a

-- The test that a node is left as it is.
abbrev pub stays_whole : ℕ → Node → Bool
stays_whole page_size nd =
    leb (length nd.inodes) (min_keys_per_page * 2) || size_less_than nd page_size

-- The parent, made if there is none, with this node for its child.
abbrev pub parent_of : Heap → ℕ → Node → Option ℕ → Heap × ℕ
parent_of h a nd (some p) = (h, p)
parent_of h a nd none = (
  store a (record nd { parent = some h.next })
      (alloc (record (new_node none) { children = a ∷ [] }) h),
  h.next,
)

add_child : Heap → (p b : ℕ) → Option Heap
add_child h p b =
    get h p >>= λ pn. some (store p (record pn { children = pn.children ++ b ∷ [] }) h)

-- The split at an index: the new node takes the inodes from there on.
pub split_at : (h : Heap) (a p index : ℕ) → Option (Heap × ℕ × Option ℕ)
unfolding add_child
split_at h a p index = get h a >>= λ nd.
    let new = record (new_node (some p)) { is_leaf = nd.is_leaf; inodes = drop index nd.inodes } in
    add_child (alloc new h) p h.next >>= λ h'.
    some (store a (record nd { parent = some p; inodes = take index nd.inodes }) h', a, some h.next)

pub cut_under : (page_size fill a : ℕ) → Node → Heap × ℕ → Option (Heap × ℕ × Option ℕ)
unfolding split_at
cut_under page_size fill a nd (h, p) =
    split_at h a p (split_index nd (split_threshold page_size fill))

unfoldable pub split_two : (page_size fill : ℕ) → Heap → ℕ → Option (Heap × ℕ × Option ℕ)
unfolding cut_under
split_two page_size fill h a = get h a >>= λ nd.
    if stays_whole page_size nd
    then some (h, a, none)
    else cut_under page_size fill a nd (parent_of h a nd nd.parent)

-- `split`: the loop over `cur`, on fuel; `none` is a dangling pointer or too little fuel.
unfoldable pub split_from : (fuel page_size fill : ℕ) → Heap → ℕ → Option (Heap × List ℕ)
split_from zero page_size fill h cur = none
split_from (suc fuel) page_size fill h cur = split_two page_size fill h cur >>= λ r. elim r.2 [
  | none ↦ some (r.0, r.1 ∷ [])
  | some b ↦ split_from fuel page_size fill r.0 b >>= λ s. some (s.0, r.1 ∷ s.1)
]
