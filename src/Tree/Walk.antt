-- ===== src/Tree/Walk.antt =====
-- `do_first`, `do_next`, `first` and `next` of cursor.cc on a whole tree: the entries that are
-- still to come at a place of the cursor.
use cbtree.Base.{
  ℕ, zero, suc, ◌+◌, ◌<◌, ◌≡◌, ◌≢◌, refl, ◌∙◌, true, false, some, List, [], ◌∷◌, ◌++◌, length, drop,
  append_assoc, get_elem?-drop, arith,
}
use cbtree.Node.{Inode}
use cbtree.Bucket.{Bucket, TxView, get_page_node}
use cbtree.Cursor.{Content, ElementRef, content, ref_of, child_ref, do_first}
use cbtree.Tree.{Shows, Subtrees}

module _ (tx : TxView) (b : Bucket) where
  -- A tree whose leaves all have entries; an empty one has only its root, a leaf.
  abbrev pub IsFullTree : (depth pgid : ℕ) → List Inode → Type 0
  IsFullTree zero pgid xs =
      (c : Content) × Shows tx b pgid c × (c.is_leaf ≡ true) × (c.inodes ≡ xs) × (xs ≢ [])
  IsFullTree (suc depth) pgid xs =
      (c : Content) × Shows tx b pgid c
      × (c.is_leaf ≡ false)
      × (c.inodes ≢ [])
      × Subtrees (IsFullTree depth) c.inodes xs

  -- A branch at `ref` with subtrees `ws` from the child at its index on.
  abbrev pub FromChild : (depth : ℕ) (ref : ElementRef) (ss ws : List Inode) → Type 0
  FromChild depth ref ss ws =
      (c : Content) × (content b.heap ref ≡ some c)
      × (c.is_leaf ≡ false)
      × (drop ref.index c.inodes ≡ ss)
      × Subtrees (IsFullTree depth) ss ws

  -- The entries that come after the subtree that the cursor is in, in the branches below it on the
  -- stack.
  abbrev pub After : (depth : ℕ) → List ElementRef → List Inode → Type 0
  After depth [] zs = zs ≡ []
  After depth (ref ∷ es) zs =
      (s : Inode) × (ss : List Inode) × (vs : List Inode) × (ws : List Inode) × (us : List Inode)
      × FromChild depth ref (s ∷ ss) vs
      × Subtrees (IsFullTree depth) ss ws
      × (zs ≡ ws ++ us)
      × After (suc depth) es us

  -- The cursor stands at an entry of a leaf, and `xs` are that entry and those to come.
  abbrev pub At : List ElementRef → List Inode → Type 0
  At [] xs = ⊥
  At (ref ∷ es) xs =
      (c : Content) × (y : Inode) × (ys : List Inode) × (us : List Inode) × (content b.heap ref
        ≡ some c)
      × (c.is_leaf ≡ true)
      × (drop ref.index c.inodes ≡ y ∷ ys)
      × (xs ≡ y ∷ (ys ++ us))
      × After 0 es us

  -- What `do_first` does on a stack: it ends, on a leaf, with the entries `xs` to come.
  abbrev pub EndsAt : (fuel levels : ℕ) (s : List ElementRef) (xs : List Inode) → Type 0
  EndsAt fuel levels s xs =
      (s' : List ElementRef) × (do_first tx fuel b s ≡ some s') × At s' xs × (length s' ≡ levels)

  abbrev WalksFirst : (depth : ℕ) → Type 0
  WalksFirst depth =
      (fuel pgid : ℕ) (xs us : List Inode) (es : List ElementRef)
      → IsFullTree depth pgid xs
      → After depth es us
      → depth < fuel
      → EndsAt fuel (depth + 1 + length es) (ref_of (get_page_node tx b pgid) ∷ es) (xs ++ us)

  do_first-child :
      (fuel : ℕ) (ref r : ElementRef) (es : List ElementRef) (c : Content)
      → content b.heap ref ≡ some c
      → c.is_leaf ≡ false
      → child_ref tx b c ref.index ≡ some r
      → do_first tx (suc fuel) b (ref ∷ es) ≡ do_first tx fuel b (r ∷ ref ∷ es)
  unfolding do_first
  do_first-child fuel ref r es c e branch g = rw (e, branch, g) refl

  pub do_first-leaf :
      (fuel : ℕ) (ref : ElementRef) (es : List ElementRef) (c : Content)
      → content b.heap ref ≡ some c
      → c.is_leaf ≡ true
      → do_first tx (suc fuel) b (ref ∷ es) ≡ some (ref ∷ es)
  unfolding do_first
  do_first-leaf fuel ref es c e leaf = rw (e, leaf) refl

  -- From a branch down its child at the index.
  pub walk-FromChild :
      (depth fuel : ℕ) (ref : ElementRef) (es : List ElementRef) (s : Inode) (ss ws us : List Inode)
      → WalksFirst depth
      → FromChild depth ref (s ∷ ss) ws
      → After (suc depth) es us
      → depth + 1 < fuel
      → EndsAt fuel (depth + 2 + length es) (ref ∷ es) (ws ++ us)
  walk-FromChild depth zero ref es s ss ws us walk v after h = absurd (omega arith)
  walk-FromChild depth (suc fuel) ref es s ss ws us walk
        (c, e, branch, d, (ys, zs, cut, t, ge, lt, rest)) after h =
      let below : After depth (ref ∷ es) (zs ++ us) =
        (s, ss, ws, zs, us, (c, e, branch, d, (ys, zs, cut, t, ge, lt, rest)), rest, refl, after) in
      let (s', run, at, levels) =
        walk fuel s.page_id ys (zs ++ us) (ref ∷ es) t below (omega arith) in
      let child : child_ref tx b c ref.index ≡ some (ref_of (get_page_node tx b s.page_id)) =
        rw (get_elem?-drop c.inodes ref.index s ss d) refl in
      (
        s',
        do_first-child fuel ref _ es c e branch child ∙ run,
        rw (cut, append_assoc ys zs us) at,
        omega arith,
      )

  walk-children :
      (depth : ℕ)
      → WalksFirst depth
      → (ss : List Inode) (fuel pgid : ℕ) (xs us : List Inode) (es : List ElementRef) (c : Content)
      → content b.heap (ref_of (get_page_node tx b pgid)) ≡ some c
      → c.is_leaf ≡ false
      → c.inodes ≡ ss
      → ss ≢ []
      → Subtrees (IsFullTree depth) ss xs
      → After (suc depth) es us
      → suc depth < fuel
      → EndsAt fuel (suc depth + 1 + length es) (ref_of (get_page_node tx b pgid) ∷ es) (xs ++ us)
  walk-children depth walk [] fuel pgid xs us es c e branch d some_child v after h =
      absurd (some_child refl)
  walk-children depth walk (s ∷ ss) fuel pgid xs us es c e branch d some_child v after h =
      let (s', run, at, levels) =
        walk-FromChild depth fuel (ref_of (get_page_node tx b pgid)) es s ss xs us walk
          (c, e, branch, d, v) after (omega arith) in
      (s', run, at, omega arith)

  pub walk-first : (depth : ℕ) → WalksFirst depth
  walk-first zero zero pgid xs us es t after h = absurd (omega arith)
  walk-first zero (suc fuel) pgid [] us es (c, shows, leaf, e, some_entry) after h =
      absurd (some_entry refl)
  walk-first zero (suc fuel) pgid (x ∷ xs) us es (c, shows, leaf, e, some_entry) after h = (
    ref_of (get_page_node tx b pgid) ∷ es,
    do_first-leaf fuel _ es c shows.0 leaf,
    (c, x, xs, us, shows.0, leaf, e, refl, after),
    omega arith,
  )
  walk-first (suc depth) fuel pgid xs us es (c, shows, branch, some_child, children) after h =
      walk-children depth (walk-first depth) c.inodes fuel pgid xs us es c shows.0 branch refl
        some_child children after h
