-- ===== src/Api/Reads.antt =====
-- `Bucket::get` of bucket.cc on a whole tree, and what `deleteBucket` refuses.
use cbtree.Base.{
  ℕ, suc, ◌≡◌, ap, if◌then◌else◌, true, not, ◌||◌, Bool-cases, Option-cases, inl, inr, Option, none,
  some, List, [], ◌∷◌, has_flag, arith,
}
use cbtree.Item.{Item, same}
use cbtree.Page.{bucket_leaf_flag}
use cbtree.Node.{Inode}
use cbtree.Node.Keys.{find}
use cbtree.Bucket.{Bucket, TxView}
use cbtree.Cursor.{Kv}
use cbtree.Tree.{IsTree}
use cbtree.Tree.Lookup.{seek-Seeks, Seeks}
use cbtree.Api.{get_value, is_bucket, delete_bucket, delete_at}

-- The value of an entry; a bucket has none.
abbrev pub value_of : Option Inode → Item
value_of none = []
value_of (some x) = if has_flag bucket_leaf_flag x.flag then [] else x.value

pub find-same :
    (key : Item) (xs : List Inode) (x : Inode) → find key xs ≡ some x → same x.key key ≡ true
find-same key [] x e = absurd (ground arith)
find-same key (y ∷ ys) x e = elim (Bool-cases (same y.key key)) [
  | inl hit ↦ ground arith
  | inr miss ↦ find-same key ys x (ground arith)
]

module _ (tx : TxView) (b : Bucket) (key : Item) where
  answer : Kv → Item
  answer kv = if is_bucket kv || not (same kv.key key) then [] else kv.value

  answer-value_of :
      (xs : List Inode) (kv : Kv) → Seeks tx b key xs kv → answer kv ≡ value_of (find key xs)
  unfolding answer
  answer-value_of xs kv (hit, miss) = elim (Option-cases (find key xs)) [
    | inl e ↦
        rw e (elim (miss e) [ inl apart ↦ ground arith | inr empty ↦ rw empty (ground arith) ])
    | inr (x, e) ↦ rw (e, hit x e, find-same key xs x e) (ground arith)
  ]

  -- `get` on a tree with the entries `xs`: it returns, with fuel for the levels of the tree, and
  -- its answer is the value of the key's entry, or the empty item if the key has none or is a
  -- bucket.
  pub get_value-find :
      (depth : ℕ) (xs : List Inode)
      → IsTree tx b depth b.header.root xs
      → get_value tx (suc depth) b key ≡ some (value_of (find key xs))
  unfolding get_value answer
  get_value-find depth xs t =
      let (s, kv, e, seeks, ends) = seek-Seeks tx b key depth xs t in
      rw e (ap some (answer-value_of xs kv seeks))

  -- Every bucket is refused by `deleteBucket`: on a tree whose keys are in order, if the key is
  -- that of a bucket, it returns -1 and leaves everything as it was, whatever the rest of the
  -- function would do.
  pub delete_bucket_refused :
      (depth : ℕ) (xs : List Inode) (x : Inode) (rest : Option (Bucket × ℕ))
      → IsTree tx b depth b.header.root xs
      → find key xs ≡ some x
      → has_flag bucket_leaf_flag x.flag ≡ true
      → delete_bucket tx (suc depth) rest b key ≡ some (b, 1)
  unfolding delete_bucket delete_at
  delete_bucket_refused depth xs x rest t f bucket =
      let (s, kv, e, seeks, ends) = seek-Seeks tx b key depth xs t in
      rw (e, seeks.0 x f, bucket) (ground arith)
