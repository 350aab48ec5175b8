-- ===== src/Node/Sizes.antt =====
-- The sizes of a node: `size`, `sizeLessThan`, `isinlineable` and `splitIndex` of node.cc.
use cbtree.Base.{
  ℕ, ◌+◌, ◌%◌, ◌≤◌, ◌<◌, ◌≡◌, ◌↔◌, refl, leb, ltb, if◌then◌else◌, Bool, true, false, Bool-cases,
  inl, inr, List, [], ◌∷◌, length, All, u32, has_flag, arith,
}
use cbtree.Page.{bucket_leaf_flag}
use cbtree.Node.{
  Inode, Node, element_size, add_sizes, size, stays_less, size_less_than, inline_loop,
  is_inlineable, page_element_size,
}

-- The size without the wrap of 32 bits: a header and the elements with their keys and values.
abbrev pub bytes : ℕ → List Inode → ℕ
bytes header [] = 0
bytes header (x ∷ xs) = header + length x.key + length x.value + bytes header xs

abbrev pub node_bytes : Node → ℕ
node_bytes nd = 16 + bytes 16 nd.inodes

add_sizes-bytes :
    (xs : List Inode) (acc : ℕ) → acc + bytes 16 xs < u32 → add_sizes 16 xs acc ≡ acc + bytes 16 xs
unfolding add_sizes
add_sizes-bytes [] acc h = omega arith
add_sizes-bytes (x ∷ xs) acc h =
    let e : (acc + element_size 16 x) % u32 ≡ acc + (16 + length x.key + length x.value) =
      omega arith in
    rw e
      (omega (arith, add_sizes-bytes xs (acc + (16 + length x.key + length x.value)) (omega arith)))

-- As long as it fits 32 bits, `size` is the bytes of the node on its page, for leaf and branch.
pub size-node_bytes : (nd : Node) → node_bytes nd < u32 → size nd ≡ node_bytes nd
unfolding size page_element_size
size-node_bytes nd h = elim (Bool-cases nd.is_leaf) [
  | inl e ↦ rw e (add_sizes-bytes nd.inodes 16 h)
  | inr e ↦ rw e (add_sizes-bytes nd.inodes 16 h)
]

stays_less-bytes :
    (s : ℕ) (x : Inode) (xs : List Inode) (acc : ℕ)
    → acc + bytes 16 (x ∷ xs) < u32
    → stays_less 16 s (x ∷ xs) acc ≡ ltb (acc + bytes 16 (x ∷ xs)) s
unfolding stays_less
stays_less-bytes s x [] acc h =
    let e : (acc + element_size 16 x) % u32 ≡ acc + (16 + length x.key + length x.value) =
      omega arith in
    rw e (ground arith)
stays_less-bytes s x (y ∷ xs) acc h =
    let sum = acc + (16 + length x.key + length x.value) in
    let e : (acc + element_size 16 x) % u32 ≡ sum = omega arith in
    rw e (elim (Bool-cases (leb s sum)) [
      | inl over ↦ rw over (ground arith)
      | inr under ↦ rw under (ground (arith, stays_less-bytes s y xs sum))
    ])

-- On a node with at least one inode, of less than 2 ^ 32 bytes, `sizeLessThan` compares the bytes.
pub size_less_than-node_bytes :
    (nd : Node) (s : ℕ)
    → 0 < length nd.inodes
    → node_bytes nd < u32
    → size_less_than nd s ≡ ltb (node_bytes nd) s
unfolding size_less_than page_element_size
size_less_than-node_bytes nd s some_inode h = go nd.is_leaf nd.inodes some_inode h
  where
    go :
        (b : Bool) (xs : List Inode)
        → 0 < length xs
        → 16 + bytes 16 xs < u32
        → stays_less (if b then 16 else 16) s xs 16 ≡ ltb (16 + bytes 16 xs) s
    go b [] e k = absurd (omega arith)
    go true (x ∷ xs) e k = stays_less-bytes s x xs 16 k
    go false (x ∷ xs) e k = stays_less-bytes s x xs 16 k

-- No inode is a bucket.
abbrev pub NoBuckets : List Inode → Type 0
NoBuckets = All (λ x. has_flag bucket_leaf_flag x.flag ≡ false)

inline_loop_lem :
    (most : ℕ) (xs : List Inode) (acc : ℕ)
    → acc + bytes 16 xs < u32
    → acc ≤ most
    → (inline_loop most xs acc ≡ true) ↔ (NoBuckets xs × (acc + bytes 16 xs ≤ most))
unfolding inline_loop
inline_loop_lem most [] acc h k = (λ e. (tt, omega arith), λ e. refl)
inline_loop_lem most (x ∷ xs) acc h k =
    let sum = acc + (16 + length x.key + length x.value) in
    let e : (acc + element_size 16 x) % u32 ≡ sum = omega arith in
    rw e (elim (Bool-cases (has_flag bucket_leaf_flag x.flag)) [
      | inl bucket ↦ (λ t. ground arith, λ p. ground arith)
      | inr plain ↦ elim (Bool-cases (ltb most sum)) [
        | inl over ↦ (λ t. ground arith, λ p. ground arith)
        | inr under ↦
            let later = inline_loop_lem most xs sum (omega arith) (ground arith) in
            rw (plain, under)
              (
                λ t. ((refl, (later.0 t).0), omega (arith, (later.0 t).1)),
                λ p. later.1 (p.0.1, omega arith),
              )
      ]
    ])

-- `isinlineable` holds exactly of the nodes that contain no bucket and whose bytes are at most the
-- limit, for nodes of less than 2 ^ 32 bytes and a limit of at least a page header.
pub is_inlineable_iff :
    (nd : Node) (most : ℕ)
    → node_bytes nd < u32
    → 16 ≤ most
    → (is_inlineable nd most ≡ true) ↔ (NoBuckets nd.inodes × (node_bytes nd ≤ most))
unfolding is_inlineable
is_inlineable_iff nd most h k = inline_loop_lem most nd.inodes 16 h k
