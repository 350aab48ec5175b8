-- ===== src/Tree/Pick.antt =====
-- Which child of a branch has a key.
use cbtree.Base.{
  ℕ, zero, suc, ◌≤◌, ◌<◌, ◌≡◌, ◌≢◌, refl, ◌==◌, Bool, true, false, Bool-cases, inl, inr, none, some,
  List, [], ◌∷◌, ◌++◌, length, get_elem?, All, arith,
}
use cbtree.Item.{Item, less, same}
use cbtree.Item.Order.{same_iff, less_trans, less_irrefl}
use cbtree.Search.Correct.{Locates}
use cbtree.Node.{Inode, inode_key}
use cbtree.Node.Keys.{KeysAscending, KeysAscending-IsAscending, find}
use cbtree.Cursor.{branch_index}
use cbtree.Tree.{Subtrees}

find-append :
    (k : Item) (ys zs : List Inode)
    → find k (ys ++ zs) ≡ (elim (find k ys) [ none ↦ find k zs | some y ↦ some y ])
find-append k [] zs = refl
find-append k (y ∷ ys) zs = ground (arith, find-append k ys zs)

find-All_ge :
    (k t : Item) (ys : List Inode)
    → less k t ≡ true
    → All (λ y. less y.key t ≡ false) ys
    → find k ys ≡ none
find-All_ge k t [] h a = refl
find-All_ge k t (y ∷ ys) h a = elim (Bool-cases (same y.key k)) [
  | inl e ↦ let e' = (same_iff y.key k).0 e in absurd (ground (arith, e', a.0))
  | inr e ↦ rw e (find-All_ge k t ys h a.1)
]

find-All_lt :
    (k t : Item) (ys : List Inode)
    → less k t ≡ false
    → All (λ y. less y.key t ≡ true) ys
    → find k ys ≡ none
find-All_lt k t [] h a = refl
find-All_lt k t (y ∷ ys) h a = elim (Bool-cases (same y.key k)) [
  | inl e ↦ let e' = (same_iff y.key k).0 e in absurd (ground (arith, e', a.0))
  | inr e ↦ rw e (find-All_lt k t ys h a.1)
]

module _ (T : ℕ → List Inode → Type 0) (key : Item) where
  -- A key below the first separator is in none of the children.
  find-below :
      (s : Inode) (ss xs : List Inode)
      → KeysAscending (s ∷ ss)
      → less key s.key ≡ true
      → Subtrees T (s ∷ ss) xs
      → find key xs ≡ none
  find-below s [] xs k h (ys, zs, e, t, a, b, rest) =
      rw (e, rest, find-append key ys []) (ground (arith, find-All_ge key s.key ys h a))
  find-below s (s' ∷ ss) xs k h (ys, zs, e, t, a, b, rest) =
      rw (e, find-append key ys zs)
        (ground (
          arith,
          find-All_ge key s.key ys h a,
          find-below s' ss zs k.1 (less_trans key s.key s'.key h k.0) rest,
        ))

  find-rest :
      (ss zs : List Inode)
      → KeysAscending ss
      → ((i : ℕ) → i < length ss → less key (inode_key ss i) ≡ true)
      → Subtrees T ss zs
      → find key zs ≡ none
  find-rest [] zs k h e = rw e refl
  find-rest (s ∷ ss) zs k h t = find-below s ss zs k (h 0 (omega arith)) t

  -- The child number `j` is the one for the key: no later separator is up to the key, and none
  -- from the second to its own is above it.
  abbrev pub Picked : List Inode → List Inode → ℕ → Type 0
  Picked ss xs j =
      (s : Inode) × (ys : List Inode) × (get_elem? ss j ≡ some s)
      × T s.page_id ys
      × (find key xs ≡ find key ys)

  pick :
      (ss xs : List Inode) (j : ℕ)
      → KeysAscending ss
      → Subtrees T ss xs
      → j < length ss
      → ((i : ℕ) → 0 < i → i ≤ j → less key (inode_key ss i) ≡ false)
      → ((i : ℕ) → j < i → i < length ss → less key (inode_key ss i) ≡ true)
      → Picked ss xs j
  pick [] xs j k t h lo hi = absurd (omega arith)
  pick (s ∷ ss) xs zero k (ys, zs, e, t, a, b, rest) h lo hi =
      let none_later = find-rest ss zs k.1 (λ i l. hi (suc i) (omega arith) (omega arith)) rest in
      (s, ys, refl, t, rw (e, find-append key ys zs) (ground (arith, none_later)))
  pick (s ∷ []) xs (suc j) k t h lo hi = absurd (omega arith)
  pick (s ∷ s' ∷ ss) xs (suc j) k (ys, zs, e, t, a, b, rest) h lo hi =
      let none_here = find-All_lt key s'.key ys (lo 1 (omega arith) (omega arith)) b in
      let (u, us, g, tu, f) =
        pick (s' ∷ ss) zs j k.1 rest (omega arith) (λ i p q. lo (suc i) (omega arith) (omega arith))
          (λ i p q. hi (suc i) (omega arith) (omega arith)) in
      (u, us, g, tu, rw (e, find-append key ys zs) (ground (arith, none_here, f)))

less_asymm : (a b : Item) → less a b ≡ true → less b a ≡ false
less_asymm a b h = elim (Bool-cases (less b a)) [
  | inl e ↦ absurd (ground (arith, less_trans a b a h e, less_irrefl a))
  | inr e ↦ e
]

-- The branch search goes down to the child that has the key, if any has.
pub pick-branch_index :
    (T : ℕ → List Inode → Type 0) (key : Item) (ss xs : List Inode) (r : ℕ × Bool)
    → KeysAscending ss
    → ss ≢ []
    → Subtrees T ss xs
    → Locates (inode_key ss) (length ss) key r
    → Picked T key ss xs (branch_index r)
pick-branch_index T key [] xs r k e t l = absurd (e refl)
pick-branch_index T key (s ∷ ss) xs (i, true) k e t (h, here) =
    let up = KeysAscending-IsAscending (s ∷ ss) k in
    pick T key (s ∷ ss) xs i k t h
      (λ p a b. elim (Bool-cases (p == i)) [
        | inl same_place ↦ let q : p ≡ i = ground arith in rw (q, here) (less_irrefl key)
        | inr before ↦ less_asymm (inode_key (s ∷ ss) p) key (rw here at (up p i (ground arith) h))
      ])
      (λ p a b. rw here at (up i p a b))
pick-branch_index T key (s ∷ ss) xs (zero, false) k e t (h, below, above) =
    pick T key (s ∷ ss) xs 0 k t (omega arith) (λ p a b. absurd (omega arith))
      (λ p a b. above p (omega arith) b)
pick-branch_index T key (s ∷ ss) xs (suc i, false) k e t (h, below, above) =
    let j : branch_index (suc i, false) ≡ i = ground arith in
    rw j (
      pick T key (s ∷ ss) xs i k t (omega arith)
        (λ p a b. less_asymm (inode_key (s ∷ ss) p) key (below p (omega arith)))
        (λ p a b. above p (omega arith) b))
