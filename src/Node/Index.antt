-- ===== src/Node/Index.antt =====
-- Where `splitIndex` of node.cc cuts a node.
use cbtree.Base.{
  ℕ, zero, suc, ◌+◌, ◌-◌, ◌%◌, ◌≤◌, ◌<◌, ◌≡◌, ◌⊎◌, leb, ltb, Bool-cases, inl, inr, ◌&&◌, List, [],
  ◌∷◌, length, u32, take, arith,
}
use cbtree.Node.{Inode, Node, element_size, split_loop, split_index, page_element_size}
use cbtree.Node.Sizes.{bytes, node_bytes}

-- The index that the loop ends with, `i` inodes of `acc` bytes being behind it.
abbrev Cut : (threshold n i acc : ℕ) → List Inode → ℕ → Type 0
Cut threshold n i acc xs r =
    (i ≤ r) × (r < i + n) × ((r ≡ 2) ⊎ (acc + bytes 16 (take (r - i) xs) ≤ threshold))

Cut-here :
    (threshold n i acc : ℕ) (xs : List Inode)
    → 0 < n
    → 2 ≤ i
    → (i ≤ 2) ⊎ (acc ≤ threshold)
    → (2 ≤ i) × Cut threshold n i acc xs i
Cut-here threshold n i acc xs a b e =
    let none_taken : i - i ≡ 0 = omega arith in
    (b, (omega arith, omega arith, rw none_taken (ground arith)))

Cut-later :
    (threshold n i acc r : ℕ) (x : Inode) (xs : List Inode)
    → (2 ≤ r) × Cut threshold n (i + 1) (acc + (16 + length x.key + length x.value)) xs r
    → (2 ≤ r) × Cut threshold (suc n) i acc (x ∷ xs) r
Cut-later threshold n i acc r x xs (two, (lo, hi, fit)) =
    let e : r - i ≡ suc (r - (i + 1)) = omega arith in
    (two, (omega arith, omega arith, rw e (ground arith)))

split_loop-Cut :
    (threshold n : ℕ) (xs : List Inode) (i index acc : ℕ)
    → 0 < n
    → n ≤ length xs
    → 2 ≤ i + n - 1
    → acc + bytes 16 xs < u32
    → (i ≤ 2) ⊎ (acc ≤ threshold)
    → (2 ≤ split_loop 16 threshold n xs i index acc)
      × Cut threshold n i acc xs (split_loop 16 threshold n xs i index acc)
unfolding split_loop
split_loop-Cut threshold zero xs i index acc a b c d e = absurd (omega arith)
split_loop-Cut threshold (suc n) [] i index acc a b c d e = absurd (omega arith)
split_loop-Cut threshold (suc zero) (x ∷ xs) i index acc a b c d e =
    let sz = (acc + element_size 16 x) % u32 in
    let here = Cut-here threshold 1 i acc (x ∷ xs) a (omega arith) e in
    elim (Bool-cases (leb 2 i && ltb threshold sz)) [
      | inl stop ↦ rw stop here
      | inr on ↦ rw on here
    ]
split_loop-Cut threshold (suc (suc n)) (x ∷ xs) i index acc a b c d e =
    let sum = acc + (16 + length x.key + length x.value) in
    let exact : (acc + element_size 16 x) % u32 ≡ sum = omega arith in
    rw exact (elim (Bool-cases (leb 2 i && ltb threshold sum)) [
      | inl stop ↦ rw stop (Cut-here threshold (suc (suc n)) i acc (x ∷ xs) a (ground arith) e)
      | inr on ↦ rw on (
          Cut-later threshold (suc n) i acc (split_loop 16 threshold (suc n) xs (i + 1) i sum) x xs
            (split_loop-Cut threshold (suc n) xs (i + 1) i sum (omega arith) (omega arith)
              (omega arith) (omega arith) (ground arith)))
    ])

-- A node of more than four inodes and less than 2 ^ 32 bytes is cut so that at least two inodes
-- stay and at least three go; and what stays is exactly two inodes, or has at most `threshold`
-- bytes.
pub split_index_lem :
    (nd : Node) (threshold : ℕ)
    → 4 < length nd.inodes
    → node_bytes nd < u32
    → (2 ≤ split_index nd threshold)
      × (split_index nd threshold + 2 < length nd.inodes)
      × ((split_index nd threshold ≡ 2)
          ⊎ (16 + bytes 16 (take (split_index nd threshold) nd.inodes) ≤ threshold))
unfolding split_index page_element_size
split_index_lem nd threshold h k = elim (Bool-cases nd.is_leaf) [
  | inl e ↦ rw e (conclude (start))
  | inr e ↦ rw e (conclude (start))
]
  where
    n : ℕ
    n = length nd.inodes - 2

    start :
        (2 ≤ split_loop 16 threshold n nd.inodes 0 0 16)
        × Cut threshold n 0 16 nd.inodes (split_loop 16 threshold n nd.inodes 0 0 16)
    start =
        split_loop-Cut threshold n nd.inodes 0 0 16 (omega arith) (omega arith) (omega arith) k
          (inl (omega arith))

    conclude :
        {r : ℕ}
        → (2 ≤ r) × Cut threshold n 0 16 nd.inodes r
        → (2 ≤ r)
          × (r + 2 < length nd.inodes)
          × ((r ≡ 2) ⊎ (16 + bytes 16 (take r nd.inodes) ≤ threshold))
    conclude {r} (two, (lo, hi, fit)) =
        let e : r - 0 ≡ r = omega arith in (two, omega arith, rw e at fit)
