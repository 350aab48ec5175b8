-- ===== src/Node/Lengths.antt =====
-- How many inodes `Node::put` and `Node::del` of node.cc leave in a node.
use cbtree.Base.{
  ℕ, zero, suc, ◌+◌, ◌≤◌, ◌<◌, ◌^◌, ◌≡◌, refl, Bool, true, false, List, [], ◌∷◌, length, arith,
}
use cbtree.Item.{Item}
use cbtree.Node.{
  Node, Inode, put, del, search, insert_at, set_at, erase_at, write_inode, erase_inode,
}

length-insert_at : (i : ℕ) (x : Inode) (xs : List Inode) → length (insert_at i x xs) ≡ length xs + 1
length-insert_at zero x xs = omega arith
length-insert_at (suc i) x [] = refl
length-insert_at (suc i) x (y ∷ ys) = omega (arith, length-insert_at i x ys)

length-set_at : (i : ℕ) (x : Inode) (xs : List Inode) → length (set_at i x xs) ≡ length xs
length-set_at i x [] = refl
length-set_at zero x (y ∷ ys) = refl
length-set_at (suc i) x (y ∷ ys) = omega (arith, length-set_at i x ys)

length-erase_at : (i : ℕ) (xs : List Inode) → length (erase_at i xs) ≤ length xs
length-erase_at i [] = omega arith
length-erase_at zero (y ∷ ys) = omega arith
length-erase_at (suc i) (y ∷ ys) = omega (arith, length-erase_at i ys)

length-write_inode :
    (nd : Node) (r : ℕ × Bool) (x : Inode)
    → length (write_inode nd r x).inodes ≤ length nd.inodes + 1
length-write_inode nd (i, true) x = omega (arith, length-set_at i x nd.inodes)
length-write_inode nd (i, false) x = omega (arith, length-insert_at i x nd.inodes)

length-erase_inode :
    (nd : Node) (r : ℕ × Bool) → length (erase_inode nd r).inodes ≤ length nd.inodes
length-erase_inode nd (i, true) = length-erase_at i nd.inodes
length-erase_inode nd (i, false) = omega arith

pub put-small :
    (total_pages : ℕ) (nd : Node) (key value : Item)
    → length nd.inodes + 1 < 2 ^ 31
    → length (put total_pages nd key key value 0 0).0.inodes < 2 ^ 31
unfolding put
put-small total_pages nd key value h = ground (
  arith,
  length-write_inode nd (search nd key)
      (record { flag = 0; page_id = 0; key = key; value = value }),
)

pub del-small :
    (nd : Node) (key : Item) → length nd.inodes < 2 ^ 31 → length (del nd key).0.inodes < 2 ^ 31
unfolding del
del-small nd key h = omega (arith, length-erase_inode nd (search nd key))

erase_inode-is_leaf : (nd : Node) (r : ℕ × Bool) → (erase_inode nd r).is_leaf ≡ nd.is_leaf
erase_inode-is_leaf nd (i, true) = refl
erase_inode-is_leaf nd (i, false) = refl

pub del-is_leaf : (nd : Node) (key : Item) → (del nd key).0.is_leaf ≡ nd.is_leaf
unfolding del
del-is_leaf nd key = erase_inode-is_leaf nd (search nd key)

pub length-le-erase_at : (i : ℕ) (xs : List Inode) → length xs ≤ length (erase_at i xs) + 1
length-le-erase_at i [] = omega arith
length-le-erase_at zero (x ∷ xs) = omega arith
length-le-erase_at (suc i) (x ∷ xs) = omega (arith, length-le-erase_at i xs)
