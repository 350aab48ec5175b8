-- ===== src/Codec/Branch.antt =====
-- A branch that is written to a page. The page ids and key sizes arrive; the keys do not, unless
-- the address of a local variable happens to be right.
use cbtree.Base.{
  ℕ, suc, ◌+◌, ◌*◌, ◌%◌, ◌≤◌, ◌<◌, ◌≡◌, refl, ap, ◌∙◌, ltb, ◌==◌, false, inl, inr, none, List, [],
  ◌∷◌, length, ◌/◌, ◌⊎◌, subst, u32, has_flag, set_flag, Returns, arith,
}
use cbtree.Page.{Page, BranchPageElement, leaf_page_flag}
use cbtree.Node.{Node, Inode, new_node}
use cbtree.Codec.{
  read_at, branch_key, content_of, branch_elements, read_branches, read, write, read_body,
  written_body, node_flag,
}

read_branches-stray :
    (n : ℕ) (content : List ℕ) (i c : ℕ) (e : BranchPageElement) (es : List BranchPageElement)
    (old : List Inode)
    → branch_key n content i e ≡ none
    → read_branches n content i (suc c) (e ∷ es) old ≡ none
unfolding read_branches
read_branches-stray n content i c e es old h = rw h refl

read_at-before : (n : ℕ) (content : List ℕ) (a s : ℕ) → a < n * 16 → read_at n content a s ≡ none
unfolding read_at
read_at-before n content a s h = ground arith

read_at-past :
    (n : ℕ) (content : List ℕ) (a s : ℕ)
    → length content + n * 16 < a
    → read_at n content a s ≡ none
unfolding read_at
read_at-past n content a s h = ground arith

-- The address at which the first key of a branch page is looked for lies outside the keys.
abbrev pub IsStray : (gap : ℕ → ℕ) → List Inode → Type 0
IsStray gap xs =
    (gap 0 % u32 < length xs * 16) ⊎ (length (content_of xs) + length xs * 16 < gap 0 % u32)

length-branch_elements :
    (gap : ℕ → ℕ) (i : ℕ) (xs : List Inode) → length (branch_elements gap i xs) ≡ length xs
unfolding branch_elements
length-branch_elements gap i [] = refl
length-branch_elements gap i (x ∷ xs) = ap suc (length-branch_elements gap (i + 1) xs)

stray_body :
    (gap : ℕ → ℕ) (x : Inode) (xs : List Inode)
    → IsStray gap (x ∷ xs)
    → read_body false (length (x ∷ xs)) (written_body gap false (x ∷ xs)) [] ≡ none
unfolding branch_elements branch_key
stray_body gap x xs h = rw (length-branch_elements gap 1 xs) (
    read_branches-stray _ _ 0 (length xs)
      (record { pos = gap 0 % u32; ksize = length x.key; page_id = x.page_id })
      (branch_elements gap 1 xs) [] (outside h))
  where
    outside :
        IsStray gap (x ∷ xs)
        → branch_key
            (length (x ∷ xs))
            (content_of (x ∷ xs))
            0
            (record { pos = gap 0 % u32; ksize = length x.key; page_id = x.page_id })
          ≡ none
    outside (inl before) =
        read_at-before (length (x ∷ xs)) (content_of (x ∷ xs)) (0 * 16 + gap 0 % u32) (length x.key)
          (omega arith)
    outside (inr past) =
        read_at-past (length (x ∷ xs)) (content_of (x ∷ xs)) (0 * 16 + gap 0 % u32) (length x.key)
          (omega arith)

has-set_flag_branch : (f : ℕ) → (f / 2) % 2 ≡ 0 → has_flag 2 (set_flag 1 f) ≡ false
has-set_flag_branch f h = ground arith

read-none :
    (q : Page)
    → has_flag leaf_page_flag q.flag ≡ false
    → read_body false q.count q.body [] ≡ none
    → read (new_node none) q ≡ none
unfolding read
read-none q f b = rw (f, b) refl

-- `write` computes a branch element's `pos` from the address of a local variable. Whenever that
-- puts the first key outside the page's keys, a branch with inodes, written to a page that was not
-- flagged as a leaf, cannot be read back: `read` strays from the bytes that were written.
pub read-write_branch_stray :
    (gap : ℕ → ℕ) (nd : Node) (p : Page) (x : Inode) (xs : List Inode)
    → nd.is_leaf ≡ false
    → nd.inodes ≡ x ∷ xs
    → length nd.inodes ≤ 0xffff
    → (p.flag / 2) % 2 ≡ 0
    → IsStray gap nd.inodes
    → Returns (write gap nd p) (λ q. read (new_node none) q ≡ none)
unfolding write
read-write_branch_stray gap nd p x xs branch_node e few unflagged stray =
    let room : ltb 0xffff (length nd.inodes) ≡ false = ground arith in
    let some_inode : (length nd.inodes == 0) ≡ false = rw e (ground arith) in
    let flag : has_flag 2 (set_flag (node_flag nd.is_leaf) p.flag) ≡ false =
      ap (λ k. has_flag 2 (set_flag (node_flag k) p.flag)) branch_node
      ∙ has-set_flag_branch p.flag unflagged in
    let at_cons : IsStray gap (x ∷ xs) = subst (IsStray gap) e stray in
    let body : read_body false (length nd.inodes) (written_body gap nd.is_leaf nd.inodes) []
        ≡ none =
      ap (λ k. read_body false (length nd.inodes) (written_body gap k nd.inodes) []) branch_node
      ∙ (ap (λ ys. read_body false (length ys) (written_body gap false ys) []) e
          ∙ stray_body gap x xs at_cons) in
    rw (room, some_inode)
      (read-none
        (record p {
          flag = set_flag (node_flag nd.is_leaf) p.flag;
          count = length nd.inodes;
          body = written_body gap nd.is_leaf nd.inodes;
        })
        flag body)
