-- ===== src/Tree/Lookup.antt =====
-- `search` and `seek` of cursor.cc find a key in the whole tree.
use cbtree.Base.{
  ℕ, zero, suc, ◌+◌, ◌%◌, ◌≤◌, ◌<◌, ◌^◌, ◌≡◌, ◌⊎◌, refl, sym, ap, ◌∙◌, leb, Bool, true, false,
  Bool-cases, inl, inr, Option, none, some, List, [], ◌∷◌, length, get_elem?, u32, arith,
}
use cbtree.Item.{Item, same, less}
use cbtree.Item.Order.{less-ne_sym}
use cbtree.Search.Correct.{Locates, binary_search-Locates}
use cbtree.Node.{Inode, inode_key}
use cbtree.Node.Keys.{KeysAscending, KeysAscending-IsAscending, find, find-hit, find-miss}
use cbtree.Bucket.{Bucket, TxView, get_page_node}
use cbtree.Cursor.{
  Content, ElementRef, content, ref_of, search, search_content, branch_index, seek, seek_kv, Kv,
  kv_of, no_kv, key_value, read_kv,
}
use cbtree.Tree.{IsTree, Shows}
use cbtree.Tree.Pick.{pick-branch_index}

pub search_content-Locates :
    (c : Content) (key : Item)
    → KeysAscending c.inodes
    → length c.inodes < 2 ^ 31
    → Locates (inode_key c.inodes) (length c.inodes) key (search_content c key)
unfolding search_content
search_content-Locates c key k small =
    let e : length c.inodes % u32 ≡ length c.inodes = omega arith in
    rw e (
      binary_search-Locates (inode_key c.inodes) (length c.inodes) key
        (KeysAscending-IsAscending c.inodes k) small)

get_elem?-key :
    (xs : List Inode) (i : ℕ) (y : Inode)
    → get_elem? xs i ≡ some y
    → (i < length xs) × (inode_key xs i ≡ y.key)
get_elem?-key [] i y e = absurd (ground arith)
get_elem?-key (x ∷ xs) zero y e = (omega arith, ground arith)
get_elem?-key (x ∷ xs) (suc i) y e = let (h, k) = get_elem?-key xs i y e in (omega arith, k)

get_elem?-past : (xs : List Inode) (i : ℕ) → length xs ≤ i → get_elem? xs i ≡ none
get_elem?-past [] i h = refl
get_elem?-past (x ∷ xs) zero h = absurd (omega arith)
get_elem?-past (x ∷ xs) (suc i) h = get_elem?-past xs i (omega arith)

module _ (tx : TxView) (b : Bucket) (key : Item) where
  -- The stack that a search ends with: on top a leaf that has the key if the tree `xs` has it, at
  -- the place of the key, and below it one place for each level and then the stack `es`.
  abbrev pub Ends : (depth : ℕ) (xs : List Inode) (es : List ElementRef) → List ElementRef → Type 0
  Ends depth xs es [] = ⊥
  Ends depth xs es (ref ∷ rest) =
      (c : Content) × (found : Bool) × (content b.heap ref ≡ some c)
      × (c.is_leaf ≡ true)
      × KeysAscending c.inodes
      × Locates (inode_key c.inodes) (length c.inodes) key (ref.index, found)
      × (find key xs ≡ find key c.inodes)
      × (length rest ≡ length es + depth)

  pub content_index :
      (ref : ElementRef) (i : ℕ) → content b.heap (record ref { index = i }) ≡ content b.heap ref
  unfolding content
  content_index ref i = refl

  pub search_leaf :
      (fuel pgid : ℕ) (es : List ElementRef) (c : Content)
      → Shows tx b pgid c
      → c.is_leaf ≡ true
      → search tx (suc fuel) b key pgid es
        ≡ some (record (ref_of (get_page_node tx b pgid)) { index = (search_content c key).0 } ∷ es)
  unfolding search
  search_leaf fuel pgid es c (e, id, k, small) leaf = rw (id, e, leaf) refl

  search_branch :
      (fuel pgid : ℕ) (es : List ElementRef) (c : Content) (x : Inode)
      → Shows tx b pgid c
      → c.is_leaf ≡ false
      → get_elem? c.inodes (branch_index (search_content c key)) ≡ some x
      → search tx (suc fuel) b key pgid es
        ≡ search tx fuel b key x.page_id (
            record (ref_of (get_page_node tx b pgid)) {
              index = branch_index (search_content c key);
            }
            ∷ es)
  unfolding search
  search_branch fuel pgid es c x (e, id, k, small) branch g = rw (id, e, g, branch) refl

  pub Locates-pair :
      (xs : List Inode) (r : ℕ × Bool)
      → Locates (inode_key xs) (length xs) key r
      → Locates (inode_key xs) (length xs) key (r.0, r.1)
  Locates-pair xs (i, true) l = l
  Locates-pair xs (i, false) l = l

  -- On a tree of `depth` levels of branches, whose keys are in order, the search returns, with fuel
  -- for one more level than that, and ends at the place of the key in a leaf that has the key if
  -- any leaf has; its stack has one place for each level.
  pub search-Ends :
      (depth pgid : ℕ) (xs : List Inode) (es : List ElementRef)
      → IsTree tx b depth pgid xs
      → (s : List ElementRef) × (search tx (suc depth) b key pgid es ≡ some s) × Ends depth xs es s
  search-Ends zero pgid xs es (c, shows, leaf, e) = (
    record (ref_of (get_page_node tx b pgid)) { index = (search_content c key).0 } ∷ es,
    search_leaf zero pgid es c shows leaf,
    (
      c,
      (search_content c key).1,
      content_index (ref_of (get_page_node tx b pgid)) (search_content c key).0 ∙ shows.0,
      leaf,
      shows.2,
      Locates-pair c.inodes (search_content c key) (search_content-Locates c key shows.2 shows.3),
      ap (find key) (sym e),
      omega arith,
    ),
  )
  search-Ends (suc depth) pgid xs es (c, shows, branch, some_child, children) =
      let l = search_content-Locates c key shows.2 shows.3 in
      let (x, ys, g, t, f) =
        pick-branch_index (IsTree tx b depth) key c.inodes xs (search_content c key) shows.2
          some_child children l in
      let here = record (ref_of (get_page_node tx b pgid)) {
        index = branch_index (search_content c key);
      } in
      let (s, e, ends) = search-Ends depth x.page_id ys (here ∷ es) t in
      (s, search_branch (suc depth) pgid es c x shows branch g ∙ e, deeper here s xs ys f ends)
    where
      deeper :
          (up : ElementRef) (s : List ElementRef) (us ys : List Inode)
          → find key us ≡ find key ys
          → Ends depth ys (up ∷ es) s
          → Ends (suc depth) us es s
      deeper up [] us ys f h = h
      deeper up (ref ∷ rest) us ys f (c', found, a, leaf, k, l, g, n) =
          (c', found, a, leaf, k, l, f ∙ g, omega arith)

  -- What `seek` hands back: the entry of the key, or something with another key or no key at all.
  abbrev pub Seeks : List Inode → Kv → Type 0
  Seeks xs kv =
      ((x : Inode) → find key xs ≡ some x → kv ≡ kv_of x)
      × (find key xs ≡ none → (same kv.key key ≡ false) ⊎ (kv ≡ no_kv))

  found-Seeks : (xs : List Inode) (o : Option Inode) → find key xs ≡ o → Seeks xs (read_kv o no_kv)
  unfolding read_kv
  found-Seeks xs none e = (λ x p. absurd (ground arith), λ p. inr refl)
  found-Seeks xs (some y) e = (
    λ x p. let same_inode : y ≡ x = ground arith in ap kv_of same_inode,
    λ p. absurd (ground arith),
  )

  missed-Seeks :
      (xs : List Inode) (i : ℕ) (o : Option Inode)
      → find key xs ≡ none
      → get_elem? xs i ≡ o
      → ((j : ℕ) → i ≤ j → j < length xs → less key (inode_key xs j) ≡ true)
      → Seeks xs (read_kv o no_kv)
  unfolding read_kv
  missed-Seeks xs i none e g above = (λ x p. absurd (ground arith), λ p. inr refl)
  missed-Seeks xs i (some y) e g above =
      let (h, k) = get_elem?-key xs i y g in
      (
        λ x p. absurd (ground arith),
        λ p. inl (less-ne_sym key y.key (rw k at (above i (omega arith) h))),
      )

  pub read_kv-Seeks :
      (xs : List Inode) (i : ℕ) (found : Bool)
      → KeysAscending xs
      → Locates (inode_key xs) (length xs) key (i, found)
      → Seeks xs (read_kv (get_elem? xs i) no_kv)
  read_kv-Seeks xs i true k (h, here) =
      let hit : find key xs ≡ get_elem? xs i = rw here at (find-hit i xs k h) in
      found-Seeks xs (get_elem? xs i) hit
  read_kv-Seeks xs i false k (h, below, above) =
      missed-Seeks xs i (get_elem? xs i) (find-miss key i xs h below above) refl above

  pub seek_kv-read_kv :
      (ref : ElementRef) (rest : List ElementRef) (c : Content)
      → content b.heap ref ≡ some c
      → seek_kv tx b.heap (ref ∷ rest)
        ≡ some (ref ∷ rest, read_kv (get_elem? c.inodes ref.index) no_kv)
  unfolding seek_kv key_value
  seek_kv-read_kv ref rest c e = elim (Bool-cases (leb (length c.inodes) ref.index)) [
    | inl past ↦
        let gone : get_elem? c.inodes ref.index ≡ none =
          get_elem?-past c.inodes ref.index (ground arith) in
        rw (e, past, gone, read_kv) refl
    | inr inside ↦ rw (e, inside) refl
  ]

  seek_kv-Seeks :
      (depth : ℕ) (xs : List Inode) (s : List ElementRef)
      → Ends depth xs [] s
      → (kv : Kv) × (seek_kv tx b.heap s ≡ some (s, kv)) × Seeks xs kv
  seek_kv-Seeks depth xs [] e = absurd e
  seek_kv-Seeks depth xs (ref ∷ rest) (c, found, e, leaf, k, l, f, n) =
      let (p, q) = read_kv-Seeks c.inodes ref.index found k l in
      (
        read_kv (get_elem? c.inodes ref.index) no_kv,
        seek_kv-read_kv ref rest c e,
        (λ x h. p x (sym f ∙ h), λ h. q (sym f ∙ h)),
      )

  -- On a tree whose keys are in order `seek` returns, with fuel for its levels. If some leaf has
  -- the key, wherever in the tree, it hands back that entry's key, value and flag; if none has,
  -- what it hands back has another key, or is empty.
  pub seek-Seeks :
      (depth : ℕ) (xs : List Inode)
      → IsTree tx b depth b.header.root xs
      → (s : List ElementRef) × (kv : Kv) × (seek tx (suc depth) b key ≡ some (s, kv))
        × Seeks xs kv
        × Ends depth xs [] s
  unfolding seek
  seek-Seeks depth xs t =
      let (s, e, ends) = search-Ends depth b.header.root xs [] t in
      let (kv, q, seeks) = seek_kv-Seeks depth xs s ends in (s, kv, rw e q, seeks, ends)
