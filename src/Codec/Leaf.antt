-- ===== src/Codec/Leaf.antt =====
-- A leaf that is written to a page is read back from it.
use cbtree.Base.{
  ℕ, suc, ◌+◌, ◌-◌, ◌*◌, ◌%◌, ◌≤◌, ◌<◌, ◌≡◌, refl, ap, ◌∙◌, ltb, ◌==◌, true, false, Bool-cases, inl,
  inr, none, some, List, [], ◌∷◌, ◌++◌, append_assoc, length, length-append, take, drop,
  take-length_append, drop-length_append, u32, has_flag, set_flag, Returns, arith,
}
use cbtree.Page.{Page, LeafPageElement, leaf_page_flag}
use cbtree.Node.{Node, Inode, new_node}
use cbtree.Node.Sizes.{bytes, node_bytes}
use cbtree.Codec.{
  read_at, leaf_key, leaf_value, content_of, leaf_elements, read_leafs, read, write, read_body,
  written_body, first_key, node_flag,
}

-- A leaf page has no place for a page id.
abbrev pub as_read : List Inode → List Inode
as_read [] = []
as_read (x ∷ xs) = record x { page_id = 0 } ∷ as_read xs

pub length-content_of : (xs : List Inode) → length (content_of xs) + 16 * length xs ≡ bytes 16 xs
unfolding content_of
length-content_of [] = omega arith
length-content_of (x ∷ xs) = omega (
  arith,
  length-append x.key (x.value ++ content_of xs),
  length-append x.value (content_of xs),
  length-content_of xs,
)

pub length-leaf_elements :
    (n i off : ℕ) (xs : List Inode) → length (leaf_elements n i off xs) ≡ length xs
unfolding leaf_elements
length-leaf_elements n i off [] = refl
length-leaf_elements n i off (x ∷ xs) =
    ap suc (length-leaf_elements n (i + 1) (off + length x.key + length x.value) xs)

-- Bytes that stand behind others are read by their distance from the first.
pub read_at-append :
    (n : ℕ) (pre item rest : List ℕ) (a : ℕ)
    → a ≡ n * 16 + length pre
    → read_at n (pre ++ (item ++ rest)) a (length item) ≡ some item
unfolding read_at
read_at-append n pre item rest a e =
    let off : a - n * 16 ≡ length pre = omega arith in
    let l = length-append pre (item ++ rest) in
    let k = length-append item rest in
    let found : take (length item) (drop (length pre) (pre ++ (item ++ rest))) ≡ item =
      ap (take (length item)) (drop-length_append (length pre) pre (item ++ rest) refl)
      ∙ take-length_append (length item) item rest refl in
    rw off (ground (arith, found))

abbrev element : (n i off : ℕ) → Inode → LeafPageElement
element n i off x = record {
  flag = x.flag;
  pos = (n * 16 + off - i * 16) % u32;
  ksize = length x.key;
  vsize = length x.value;
}

module _ (n i : ℕ) (pre rest : List ℕ) (x : Inode) (h : i ≤ n) where
  abbrev all_bytes : List ℕ
  all_bytes = pre ++ (x.key ++ (x.value ++ rest))

  leaf_key-element :
      n * 16 + length pre < u32 → leaf_key n all_bytes i (element n i (length pre) x) ≡ some x.key
  unfolding leaf_key
  leaf_key-element small =
      let pos : (n * 16 + length pre - i * 16) % u32 ≡ n * 16 + length pre - i * 16 = omega arith in
      rw pos (read_at-append n pre x.key (x.value ++ rest) _ (omega arith))

  leaf_value-element :
      n * 16 + length pre + length x.key < u32
      → leaf_value n all_bytes i (element n i (length pre) x) ≡ some x.value
  unfolding leaf_value
  leaf_value-element small =
      let pos : ((n * 16 + length pre - i * 16) % u32 + length x.key) % u32
          ≡ n * 16 + length pre - i * 16 + length x.key =
        omega arith in
      rw (pos, ← append_assoc pre x.key (x.value ++ rest))
        (read_at-append n (pre ++ x.key) x.value rest _ (omega (arith, length-append pre x.key)))

  regroup : ((pre ++ x.key) ++ x.value) ++ rest ≡ all_bytes
  regroup = append_assoc (pre ++ x.key) x.value rest ∙ append_assoc pre x.key (x.value ++ rest)

  length-regroup : length ((pre ++ x.key) ++ x.value) ≡ length pre + length x.key + length x.value
  length-regroup = omega (arith, length-append (pre ++ x.key) x.value, length-append pre x.key)

read_leafs-written :
    (n i : ℕ) (pre : List ℕ) (xs : List Inode)
    → i + length xs ≤ n
    → n * 16 + length pre + length (content_of xs) < u32
    → read_leafs n (pre ++ content_of xs) i (length xs) (leaf_elements n i (length pre) xs) []
      ≡ some (as_read xs)
unfolding read_leafs leaf_elements content_of
read_leafs-written n i pre [] h small = refl
read_leafs-written n i pre (x ∷ xs) h small =
    let rest = content_of xs in
    let l = length-append x.key (x.value ++ rest) in
    let m = length-append x.value rest in
    let r = length-regroup n i pre rest x (omega arith) in
    let later : read_leafs n (((pre ++ x.key) ++ x.value) ++ rest) (i + 1) (length xs)
          (leaf_elements n (i + 1) (length ((pre ++ x.key) ++ x.value)) xs) []
        ≡ some (as_read xs) =
      read_leafs-written n (i + 1) ((pre ++ x.key) ++ x.value) xs (omega arith) (omega arith) in
    let moved : read_leafs n (pre ++ (x.key ++ (x.value ++ rest))) (i + 1) (length xs)
          (leaf_elements n (i + 1) (length pre + length x.key + length x.value) xs) []
        ≡ some (as_read xs) =
      rw (← regroup n i pre rest x (omega arith), ← r) later in
    rw
      (
        leaf_key-element n i pre rest x (omega arith) (omega arith),
        leaf_value-element n i pre rest x (omega arith) (omega arith),
        moved,
      )
      refl

has-set_flag_leaf : (f : ℕ) → has_flag 2 (set_flag 2 f) ≡ true
has-set_flag_leaf f = ground arith

-- What a new node reads from the page.
abbrev pub read_back : Page → Node → Node
read_back p nd = record (new_node none) {
  page_id = p.id;
  is_leaf = true;
  inodes = as_read nd.inodes;
  key = (elim nd.inodes [ [] ↦ [] | x ∷ xs ↦ x.key ]);
}

-- The first key, if there is one, is not empty.
abbrev pub FirstKey : List Inode → Type 0
FirstKey [] = Unit
FirstKey (x ∷ xs) = 0 < length x.key

read_body-written :
    (gap : ℕ → ℕ) (xs : List Inode)
    → length xs * 16 + length (content_of xs) < u32
    → read_body true (length xs) (written_body gap true xs) [] ≡ some (as_read xs)
read_body-written gap [] h = refl
read_body-written gap (x ∷ xs) h =
    rw (length-leaf_elements (length (x ∷ xs)) 0 0 (x ∷ xs))
      (read_leafs-written (length (x ∷ xs)) 0 [] (x ∷ xs) (omega arith) (omega arith))

first_key-as_read :
    (xs : List Inode)
    → FirstKey xs
    → first_key (as_read xs) ≡ some (elim xs [ [] ↦ [] | x ∷ xs ↦ x.key ])
first_key-as_read [] h = refl
first_key-as_read (x ∷ xs) h = ground arith

read-body :
    (nd : Node) (p q : Page)
    → q.id ≡ p.id
    → has_flag leaf_page_flag q.flag ≡ true
    → read_body true q.count q.body [] ≡ some (as_read nd.inodes)
    → FirstKey nd.inodes
    → read (new_node none) q ≡ some (read_back p nd)
unfolding read
read-body nd p q i f b first = rw (f, b, first_key-as_read nd.inodes first, i) refl

no_inodes : (xs : List Inode) → (length xs == 0) ≡ true → xs ≡ []
no_inodes [] e = refl
no_inodes (x ∷ xs) e = ground arith

-- A leaf of at most 0xffff inodes and less than 2 ^ 32 bytes, whose first key is not empty: writing
-- it returns, whatever flags the page had, and a new node that reads the page has its inodes, in
-- order, with flag, key and value, is a leaf, and has the page's id and the first key as its own.
pub read-write_leaf :
    (gap : ℕ → ℕ) (nd : Node) (p : Page)
    → nd.is_leaf ≡ true
    → length nd.inodes ≤ 0xffff
    → node_bytes nd < u32
    → FirstKey nd.inodes
    → Returns (write gap nd p) (λ q. read (new_node none) q ≡ some (read_back p nd))
unfolding write
read-write_leaf gap nd p leaf_node few small first =
    let l = length-content_of nd.inodes in
    let room : ltb 0xffff (length nd.inodes) ≡ false = ground arith in
    let b = read_body-written gap nd.inodes (omega arith) in
    let flag : has_flag 2 (set_flag (node_flag nd.is_leaf) p.flag) ≡ true =
      ap (λ k. has_flag 2 (set_flag (node_flag k) p.flag)) leaf_node ∙ has-set_flag_leaf p.flag in
    let body : read_body true (length nd.inodes) (written_body gap nd.is_leaf nd.inodes) []
        ≡ some (as_read nd.inodes) =
      ap (λ k. read_body true (length nd.inodes) (written_body gap k nd.inodes) []) leaf_node ∙ b in
    elim (Bool-cases (length nd.inodes == 0)) [
      | inl empty ↦
          rw (room, empty) (read-body nd p _ refl flag (rw (no_inodes nd.inodes empty) refl) first)
      | inr some_inode ↦ rw (room, some_inode) (read-body nd p _ refl flag body first)
    ]
