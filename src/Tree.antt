-- ===== src/Tree.antt =====
-- The tree of a bucket as the map that it stands for: what the searches of src/Bolt/cursor.cc rest
-- on, and the lookups of bucket.cc.
pub mod Pick
pub mod Lookup
pub mod Walk
pub mod Enumerate
pub mod ForEach
use cbtree.Base.{
  ℕ, zero, suc, ◌<◌, ◌^◌, ◌≡◌, ◌≢◌, Bool, true, false, some, List, [], ◌∷◌, ◌++◌, length, All,
}
use cbtree.Item.{less}
use cbtree.Node.{Inode}
use cbtree.Node.Keys.{KeysAscending}
use cbtree.Bucket.{Bucket, TxView, get_page_node}
use cbtree.Cursor.{Content, content, ref_of, is_unidentifiable}

-- All keys of `ys` are below the first separator of `ss`, if there is one.
abbrev pub BelowHead : List Inode → List Inode → Type 0
BelowHead ys [] = Unit
BelowHead ys (t ∷ ts) = All (λ y. less y.key t.key ≡ true) ys

-- The entries `xs` are those of the children, in order; those of each child lie between its
-- separator and the next one.
abbrev pub Subtrees : (ℕ → List Inode → Type 0) → List Inode → List Inode → Type 0
Subtrees T [] xs = xs ≡ []
Subtrees T (s ∷ ss) xs =
    (ys : List Inode) × (zs : List Inode) × (xs ≡ ys ++ zs)
    × T s.page_id ys
    × All (λ y. less y.key s.key ≡ false) ys
    × BelowHead ys ss
    × Subtrees T ss zs

module _ (tx : TxView) (b : Bucket) where
  -- What stands at a page id, as a cursor sees it.
  abbrev pub Shows : ℕ → Content → Type 0
  Shows pgid c =
      (content b.heap (ref_of (get_page_node tx b pgid)) ≡ some c)
      × (is_unidentifiable (get_page_node tx b pgid).page ≡ false)
      × KeysAscending c.inodes
      × (length c.inodes < 2 ^ 31)

  -- A tree with `depth` levels of branches over its leaves, with the entries `xs`.
  abbrev pub IsTree : (depth pgid : ℕ) → List Inode → Type 0
  IsTree zero pgid xs = (c : Content) × Shows pgid c × (c.is_leaf ≡ true) × (c.inodes ≡ xs)
  IsTree (suc depth) pgid xs =
      (c : Content) × Shows pgid c
      × (c.is_leaf ≡ false)
      × (c.inodes ≢ [])
      × Subtrees (IsTree depth) c.inodes xs
