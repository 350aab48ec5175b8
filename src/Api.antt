-- ===== src/Api.antt =====
-- The operations of src/Bolt/bucket.cc on keys and values, over a cursor: `get`, `put`, `remove`,
-- the tests of `deleteBucket`, `for_each` and the walk over all pages. A status is 0, or 1 for the
-- return value -1. `none` is an end of the process or a stray access, as in Cursor.
pub mod Reads
pub mod Root
pub mod Accepts
pub mod Writes
use cbtree.Base.{
  ℕ, zero, suc, ◌+◌, leb, ltb, ◌==◌, if◌then◌else◌, Bool, true, false, not, ◌&&◌, ◌||◌, Option,
  none, some, List, [], ◌∷◌, ◌++◌, length, map, has_flag,
}
use cbtree.Item.{Item, same}
use cbtree.Page.{Page, Body, branch, branch_page_flag, bucket_leaf_flag}
use cbtree.Node.{Node, Inode, put, del, branch_page_ids}
use cbtree.Heap.{get, store}
use cbtree.Codec.{◌>>=◌}
use cbtree.Bucket.{Bucket, TxView, PageNode, get_page_node}
use cbtree.Cursor.{ElementRef, Kv, seek, first, next, cursor_node}

-- `MAXKEYSIZE` and `MAXVALUESIZE`.
abbrev pub max_key_size : ℕ
max_key_size = 32768

abbrev pub max_value_size : ℕ
max_value_size = 2147483646

abbrev pub is_bucket : Kv → Bool
is_bucket kv = has_flag bucket_leaf_flag kv.flag

-- A node operation at an address.
abbrev pub update_node : Bucket → ℕ → (Node → Node) → Option Bucket
update_node b a f = get b.heap a >>= λ nd. some (record b { heap = store a (f nd) b.heap })

module _ (tx : TxView) (fuel : ℕ) where
  -- `get`; a key without a value gives the empty item.
  unfoldable pub get_value : Bucket → Item → Option Item
  get_value b key = seek tx fuel b key >>= λ r.
      some (if is_bucket r.1 || not (same r.1.key key) then [] else r.1.value)

  -- What `put` refuses: a closed database, a read transaction, or sizes out of range.
  abbrev pub put_refuses : Item → Item → Bool
  put_refuses key value =
      not tx.open_db
      || (not tx.writable
          || ((length key == 0)
              || (ltb max_key_size (length key) || ltb max_value_size (length value))))

  put_at : Bucket → Item → Item → List ElementRef × Kv → Option (Bucket × ℕ)
  put_at b key value (es, kv) =
      let written = cursor_node tx b es >>= λ r.
      update_node r.0 r.1 (λ nd. (put tx.total_pages nd key key value 0 0).0) >>= λ b'.
      some (b', 0) in
      if same kv.key key && is_bucket kv then none else written

  unfoldable pub put_value : Bucket → Item → Item → Option (Bucket × ℕ)
  unfolding put_at
  put_value b key value =
      let written = seek tx fuel b key >>= put_at b key value in
      if put_refuses key value then some (b, 1) else written

  abbrev pub remove_refuses : Item → Bool
  remove_refuses key = not tx.open_db || (not tx.writable || (length key == 0))

  remove_at : Bucket → Item → List ElementRef × Kv → Option (Bucket × ℕ)
  remove_at b key (es, kv) =
      let erased = cursor_node tx b es >>= λ r.
      update_node r.0 r.1 (λ nd. (del nd key).0) >>= λ b'. some (b', 0) in
      if is_bucket kv then none else erased

  -- `remove`; the flag that it tests is that of the entry where the search ends, whatever its key.
  unfoldable pub remove_value : Bucket → Item → Option (Bucket × ℕ)
  unfolding remove_at
  remove_value b key =
      let erased = seek tx fuel b key >>= remove_at b key in
      if remove_refuses key then some (b, 1) else erased

  delete_at : (rest : Option (Bucket × ℕ)) → Bucket → Item → Kv → Option (Bucket × ℕ)
  delete_at rest b key kv = if not (same kv.key key) || is_bucket kv then some (b, 1) else rest

  -- `deleteBucket` up to its tests; `rest` is what follows them.
  unfoldable pub delete_bucket : (rest : Option (Bucket × ℕ)) → Bucket → Item → Option (Bucket × ℕ)
  unfolding delete_at
  delete_bucket rest b key =
      let tested = seek tx fuel b key >>= λ r. delete_at rest b key r.1 in
      if not tx.open_db || not tx.writable then some (b, 1) else tested

-- The loop of `for_each`, which ends at the first empty key; `fn` returns its new state and a
-- status, and a status other than 0 ends the loop. `rounds` bounds the entries.
unfoldable pub for_each_from {ℓ} :
    {S : Type ℓ}
    → (tx : TxView) (fuel : ℕ) (fn : S → Item → Item → S × ℕ) → (rounds : ℕ) → Bucket
    → S
    → List ElementRef × Kv
    → Option (S × ℕ)
for_each_from tx fuel fn zero b s r = none
for_each_from tx fuel fn (suc rounds) b s r =
    let called = fn s r.1.key r.1.value in
    let later = next tx fuel fuel b r.0 >>= for_each_from tx fuel fn rounds b called.0 in
    if length r.1.key == 0 then some (s, 0) else if called.1 == 0 then later else some called

unfoldable pub for_each {ℓ} :
    {S : Type ℓ}
    → (tx : TxView) (fuel : ℕ) (fn : S → Item → Item → S × ℕ) → (rounds : ℕ) → Bucket
    → S
    → Option (S × ℕ)
unfolding for_each_from
for_each tx fuel fn rounds b s =
    let walked = first tx fuel fuel b >>= for_each_from tx fuel fn rounds b s in
    if tx.open_db then walked else some (s, 1)

-- The page ids under a page or node in `for_each_page_node_impl`; a branch page without branch
-- elements is a stray read.
abbrev pub element_ids : Body → Option (List ℕ)
element_ids (branch es content) = some (map (λ e. e.page_id) es)
element_ids _ = none

children_ids : Bucket → PageNode → Option (List ℕ)
children_ids b pn = elim pn.page [
  | some p ↦ if has_flag branch_page_flag p.flag then element_ids p.body else some []
  | none ↦ pn.node >>= λ a.
      get b.heap a >>= λ nd. some (if nd.is_leaf then [] else branch_page_ids nd.inodes)
]

-- The calls of `fn` in order, with the depth; `fuel` bounds the levels.
module _ (tx : TxView) (b : Bucket) where
  visit_all : (ℕ → Option (List (ℕ × PageNode))) → List ℕ → Option (List (ℕ × PageNode))
  visit_all visit [] = some []
  visit_all visit (i ∷ is) = visit i >>= λ xs. visit_all visit is >>= λ ys. some (xs ++ ys)

  visits : (fuel pgid depth : ℕ) → Option (List (ℕ × PageNode))
  visits zero pgid depth = none
  visits (suc fuel) pgid depth =
      let pn = get_page_node tx b pgid in
      children_ids b pn >>= λ is.
      visit_all (λ i. visits fuel i (depth + 1)) is >>= λ xs. some ((depth, pn) ∷ xs)

  -- `for_each_page_node`: an inline bucket has its one page.
  unfoldable pub for_each_page_node : (fuel : ℕ) → Option (List (ℕ × PageNode))
  unfolding visits visit_all children_ids
  for_each_page_node fuel =
      let walked = visits fuel b.header.root 0 in
      elim b.page [
        | some p ↦ some ((0, record { page = some p; node = none }) ∷ [])
        | none ↦ walked
      ]
