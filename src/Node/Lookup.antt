-- ===== src/Node/Lookup.antt =====
-- A node as a map: `search`, `put` and `del` of node.cc.
use cbtree.Base.{
  ℕ, ◌<◌, ◌≤◌, ◌^◌, ◌%◌, ◌≡◌, ◌≢◌, refl, zero, suc, leb, if◌then◌else◌, Bool, true, false,
  Bool-cases, inl, inr, ◌⊎◌, none, some, List, [], ◌∷◌, length, get_elem?, u32, arith,
}
use cbtree.Item.{Item, same}
use cbtree.Item.Order.{same_iff}
use cbtree.Search.Correct.{Locates, binary_search-Locates}
use cbtree.Node.{Inode, Node, inode_key, search, put, del, do_remove, write_inode, erase_inode}
use cbtree.Node.Keys.{
  KeysAscending, find, KeysAscending-IsAscending, insert_at-KeysAscending, find-insert_at,
  set_at-KeysAscending, find-set_at, erase_at-KeysAscending, find-erase_at, find-hit, find-miss,
}

-- A node's keys are in strict ascending order, and fewer than 2 ^ 31.
pub record IsOrdered (nd : Node) : Type 0 where
  pub ascending : KeysAscending nd.inodes
  pub small : length nd.inodes < 2 ^ 31

module _ (nd : Node) (key : Item) (v : IsOrdered nd) where
  search-Locates : Locates (inode_key nd.inodes) (length nd.inodes) key (search nd key)
  unfolding search
  search-Locates =
      let e : length nd.inodes % u32 ≡ length nd.inodes = omega (arith, v.small) in
      rw e (
        binary_search-Locates (inode_key nd.inodes) (length nd.inodes) key
          (KeysAscending-IsAscending nd.inodes v.ascending) v.small)

-- `nd'` is `nd` with `x` under its key.
pub record HasPut (nd : Node) (x : Inode) (nd' : Node) : Type 0 where
  pub ascending : KeysAscending nd'.inodes
  pub found_as :
      (k : Item) → find k nd'.inodes ≡ (if same x.key k then some x else find k nd.inodes)
  pub rest_kept : nd' ≡ record nd { inodes = nd'.inodes }

write_inode-HasPut :
    (nd : Node) (x : Inode) (r : ℕ × Bool)
    → KeysAscending nd.inodes
    → Locates (inode_key nd.inodes) (length nd.inodes) x.key r
    → HasPut nd x (write_inode nd r x)
write_inode-HasPut nd x (i, true) s l = record {
  ascending = set_at-KeysAscending i x nd.inodes s l.0 l.1;
  found_as = λ k. find-set_at k i x nd.inodes s l.0 l.1;
  rest_kept = refl;
}
write_inode-HasPut nd x (i, false) s l = record {
  ascending = insert_at-KeysAscending i x nd.inodes s l.0 l.1 l.2;
  found_as = λ k. find-insert_at k i x nd.inodes l.0 l.1;
  rest_kept = refl;
}

-- `put` under one key, as `Bucket::put` and `Bucket::createBucket` call it, in a node with fewer
-- than 2 ^ 31 keys, in order: on a page that exists and with a key that is not empty it succeeds,
-- keeps the keys in order, and afterwards the key has the new inode, every other key the inode it
-- had, and the rest of the node is as it was.
pub put_lem :
    (total_pages : ℕ) (nd : Node) (key value : Item) (page_id flag : ℕ)
    → IsOrdered nd
    → page_id < total_pages
    → key ≢ []
    → ((put total_pages nd key key value page_id flag).1 ≡ true)
      × HasPut nd
          (record { flag = flag; page_id = page_id; key = key; value = value })
          (put total_pages nd key key value page_id flag).0
unfolding put
put_lem total_pages nd [] value page_id flag v h e = absurd (e refl)
put_lem total_pages nd (c ∷ cs) value page_id flag v h e =
    elim (Bool-cases (leb total_pages page_id)) [
      | inl missing ↦ absurd (ground arith)
      | inr there ↦
          let filled : leb (length (c ∷ cs)) 0 ≡ false = ground arith in
          rw (there, filled)
            (
              refl,
              write_inode-HasPut nd
                  (record { flag = flag; page_id = page_id; key = c ∷ cs; value = value })
                  (search nd (c ∷ cs)) v.ascending (search-Locates nd (c ∷ cs) v),
            )
    ]

-- A page that does not exist or an empty key: `put` fails and changes nothing.
pub put_refused :
    (total_pages : ℕ) (nd : Node) (old_key new_key value : Item) (page_id flag : ℕ)
    → (total_pages ≤ page_id) ⊎ ((old_key ≡ []) ⊎ (new_key ≡ []))
    → put total_pages nd old_key new_key value page_id flag ≡ (nd, false)
unfolding put
put_refused total_pages nd old_key new_key value page_id flag (inl h) = ground arith
put_refused total_pages nd old_key new_key value page_id flag (inr (inl h)) = rw h (ground arith)
put_refused total_pages nd old_key new_key value page_id flag (inr (inr h)) = rw h (ground arith)

-- `nd'` is `nd` without a key.
pub record HasDeleted (nd : Node) (key : Item) (nd' : Node) : Type 0 where
  pub ascending : KeysAscending nd'.inodes
  pub found_as : (k : Item) → find k nd'.inodes ≡ (if same key k then none else find k nd.inodes)
  pub marked : find key nd.inodes ≢ none → nd'.unbalanced ≡ true
  pub unmarked : find key nd.inodes ≡ none → nd' ≡ nd

erase_inode-HasDeleted :
    (nd : Node) (key : Item) (r : ℕ × Bool)
    → KeysAscending nd.inodes
    → Locates (inode_key nd.inodes) (length nd.inodes) key r
    → HasDeleted nd key (erase_inode nd r)
erase_inode-HasDeleted nd key (i, true) s l = record {
  ascending = erase_at-KeysAscending i nd.inodes s;
  found_as = λ k. find-erase_at k key i nd.inodes s l.0 l.1;
  marked = λ h. refl;
  unmarked = λ h. absurd (present nd.inodes i l.0 (rw l.1 at (find-hit i nd.inodes s l.0)) h);
}
  where
    present :
        (xs : List Inode) (j : ℕ)
        → j < length xs
        → find key nd.inodes ≡ get_elem? xs j
        → find key nd.inodes ≡ none
        → ⊥
    present [] j b e h = absurd (omega arith)
    present (x ∷ xs) zero b e h = ground arith
    present (x ∷ xs) (suc j) b e h = present xs j (omega arith) e h
erase_inode-HasDeleted nd key (i, false) s l =
    let gone = find-miss key i nd.inodes l.0 l.1 l.2 in
    record {
      ascending = s;
      found_as = λ k. elim (Bool-cases (same key k)) [
        | inl e ↦ let e' : key ≡ k = (same_iff key k).0 e in rw (e, ← e') gone
        | inr e ↦ rw e refl
      ];
      marked = λ h. absurd (h gone);
      unmarked = λ h. refl;
    }

-- `del` in a node with fewer than 2 ^ 31 keys, in order, always answers true. It keeps the keys in
-- order; afterwards the key has no inode and every other key the one it had. If the key was there
-- the node is marked unbalanced, and if it was not the node is as it was.
pub del_lem :
    (nd : Node) (key : Item)
    → IsOrdered nd
    → ((del nd key).1 ≡ true) × HasDeleted nd key (del nd key).0
unfolding del
del_lem nd key v =
    (refl, erase_inode-HasDeleted nd key (search nd key) v.ascending (search-Locates nd key v))

-- `do_remove` does to the node what `del` does.
pub do_remove-del : (nd : Node) (key : Item) → do_remove nd key ≡ (del nd key).0
unfolding do_remove del
do_remove-del nd key = refl

-- What the result of `search` says of the map.
abbrev pub Finds : Node → Item → ℕ × Bool → Type 0
Finds nd key (i, true) = (i < length nd.inodes) × (find key nd.inodes ≡ get_elem? nd.inodes i)
Finds nd key (i, false) = find key nd.inodes ≡ none

Locates-Finds :
    (nd : Node) (key : Item) (r : ℕ × Bool)
    → KeysAscending nd.inodes
    → Locates (inode_key nd.inodes) (length nd.inodes) key r
    → Finds nd key r
Locates-Finds nd key (i, true) s l = (l.0, rw l.1 at (find-hit i nd.inodes s l.0))
Locates-Finds nd key (i, false) s l = find-miss key i nd.inodes l.0 l.1 l.2

-- In a node with fewer than 2 ^ 31 keys, in order, `search` answers found exactly for a key that
-- the node has, with the index of its inode.
pub search-Finds : (nd : Node) (key : Item) → IsOrdered nd → Finds nd key (search nd key)
search-Finds nd key v = Locates-Finds nd key (search nd key) v.ascending (search-Locates nd key v)
