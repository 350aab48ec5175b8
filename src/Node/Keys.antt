-- ===== src/Node/Keys.antt =====
-- The inodes of a node as a list with keys in strict ascending order, and as a map from keys.
use cbtree.Base.{
  ℕ, zero, suc, ◌≤◌, ◌<◌, ◌≡◌, refl, if◌then◌else◌, true, Bool-cases, inl, inr, Option, none, some,
  List, [], ◌∷◌, length, get_elem?, arith,
}
use cbtree.Item.{Item, same, less}
use cbtree.Item.Order.{same_iff, same_refl, less_trans, less-ne, less-ne_sym}
use cbtree.Search.Correct.{IsAscending}
use cbtree.Node.{Inode, inode_key, insert_at, set_at, erase_at}

abbrev pub LtHead : Item → List Inode → Type 0
LtHead k [] = Unit
LtHead k (x ∷ xs) = less k x.key ≡ true

abbrev pub KeysAscending : List Inode → Type 0
KeysAscending [] = Unit
KeysAscending (x ∷ xs) = LtHead x.key xs × KeysAscending xs

-- The inode with a key.
abbrev pub find : Item → List Inode → Option Inode
find k [] = none
find k (x ∷ xs) = if same x.key k then some x else find k xs

LtHead-at :
    (k : Item) (xs : List Inode) (j : ℕ)
    → LtHead k xs
    → KeysAscending xs
    → j < length xs
    → less k (inode_key xs j) ≡ true
LtHead-at k [] j h s b = absurd (omega arith)
LtHead-at k (x ∷ xs) zero h s b = h
LtHead-at k (x ∷ xs) (suc j) h s b =
    less_trans k x.key (inode_key xs j) h (LtHead-at x.key xs j s.0 s.1 (omega arith))

pub KeysAscending-IsAscending :
    (xs : List Inode) → KeysAscending xs → IsAscending (inode_key xs) (length xs)
KeysAscending-IsAscending [] s i j h b = absurd (omega arith)
KeysAscending-IsAscending (x ∷ xs) s i zero h b = absurd (omega arith)
KeysAscending-IsAscending (x ∷ xs) s zero (suc j) h b = LtHead-at x.key xs j s.0 s.1 (omega arith)
KeysAscending-IsAscending (x ∷ xs) s (suc i) (suc j) h b =
    KeysAscending-IsAscending xs s.1 i j (omega arith) (omega arith)

find_above : (k : Item) (xs : List Inode) → LtHead k xs → KeysAscending xs → find k xs ≡ none
find_above k [] h s = refl
find_above k (x ∷ xs) h s = rw (less-ne_sym k x.key h) (find_above k xs (next xs s.0) s.1)
  where
    next : (ys : List Inode) → LtHead x.key ys → LtHead k ys
    next [] g = tt
    next (y ∷ ys) g = less_trans k x.key y.key h g

-- The places at which a key belongs in the list.
abbrev pub Below : Item → List Inode → ℕ → Type 0
Below k xs i = (j : ℕ) → j < i → less (inode_key xs j) k ≡ true

abbrev pub Above : Item → List Inode → ℕ → Type 0
Above k xs i = (j : ℕ) → i ≤ j → j < length xs → less k (inode_key xs j) ≡ true

LtHead-insert_at :
    (k : Item) (i : ℕ) (x : Inode) (xs : List Inode)
    → LtHead k xs
    → less k x.key ≡ true
    → LtHead k (insert_at i x xs)
LtHead-insert_at k zero x xs h e = e
LtHead-insert_at k (suc i) x [] h e = e
LtHead-insert_at k (suc i) x (y ∷ ys) h e = h

pub insert_at-KeysAscending :
    (i : ℕ) (x : Inode) (xs : List Inode)
    → KeysAscending xs
    → i ≤ length xs
    → Below x.key xs i
    → Above x.key xs i
    → KeysAscending (insert_at i x xs)
insert_at-KeysAscending zero x [] s h b a = (tt, tt)
insert_at-KeysAscending zero x (y ∷ ys) s h b a = (a 0 (omega arith) (omega arith), s)
insert_at-KeysAscending (suc i) x [] s h b a = absurd (omega arith)
insert_at-KeysAscending (suc i) x (y ∷ ys) s h b a = (
  LtHead-insert_at y.key i x ys s.0 (b 0 (omega arith)),
  insert_at-KeysAscending i x ys s.1 (omega arith) (λ j p. b (suc j) (omega arith))
      (λ j p q. a (suc j) (omega arith) (omega arith)),
)

pub find-insert_at :
    (k : Item) (i : ℕ) (x : Inode) (xs : List Inode)
    → i ≤ length xs
    → Below x.key xs i
    → find k (insert_at i x xs) ≡ (if same x.key k then some x else find k xs)
find-insert_at k zero x xs h b = refl
find-insert_at k (suc i) x [] h b = absurd (omega arith)
find-insert_at k (suc i) x (y ∷ ys) h b =
    let later = find-insert_at k i x ys (omega arith) (λ j p. b (suc j) (omega arith)) in
    let apart = less-ne_sym y.key x.key (b 0 (omega arith)) in
    elim (Bool-cases (same y.key k)) [
      | inl e ↦ let e' : y.key ≡ k = (same_iff y.key k).0 e in rw (e, ← e', apart) refl
      | inr e ↦ rw (e, later) refl
    ]

pub set_at-KeysAscending :
    (i : ℕ) (x : Inode) (xs : List Inode)
    → KeysAscending xs
    → i < length xs
    → inode_key xs i ≡ x.key
    → KeysAscending (set_at i x xs)
set_at-KeysAscending i x [] s h e = tt
set_at-KeysAscending zero x (y ∷ ys) s h e = rw (← e) s
set_at-KeysAscending (suc i) x (y ∷ ys) s h e =
    (head ys i s.0 e, set_at-KeysAscending i x ys s.1 (omega arith) e)
  where
    head :
        (zs : List Inode) (j : ℕ)
        → LtHead y.key zs
        → inode_key zs j ≡ x.key
        → LtHead y.key (set_at j x zs)
    head [] j l p = tt
    head (z ∷ zs) zero l p = rw (← p) l
    head (z ∷ zs) (suc j) l p = l

pub find-set_at :
    (k : Item) (i : ℕ) (x : Inode) (xs : List Inode)
    → KeysAscending xs
    → i < length xs
    → inode_key xs i ≡ x.key
    → find k (set_at i x xs) ≡ (if same x.key k then some x else find k xs)
find-set_at k i x [] s h e = absurd (omega arith)
find-set_at k zero x (y ∷ ys) s h e = elim (Bool-cases (same x.key k)) [
  | inl hit ↦ rw (hit) refl
  | inr miss ↦ rw (e, miss) refl
]
find-set_at k (suc i) x (y ∷ ys) s h e =
    let later = find-set_at k i x ys s.1 (omega arith) e in
    let apart : less y.key x.key ≡ true = rw e at (LtHead-at y.key ys i s.0 s.1 (omega arith)) in
    elim (Bool-cases (same y.key k)) [
      | inl hit ↦
          let hit' : y.key ≡ k = (same_iff y.key k).0 hit in
          rw (hit, ← hit', less-ne_sym y.key x.key apart) refl
      | inr miss ↦ rw (miss, later) refl
    ]

pub erase_at-KeysAscending :
    (i : ℕ) (xs : List Inode) → KeysAscending xs → KeysAscending (erase_at i xs)
erase_at-KeysAscending i [] s = tt
erase_at-KeysAscending zero (y ∷ ys) s = s.1
erase_at-KeysAscending (suc i) (y ∷ ys) s = (head ys i s.0 s.1, erase_at-KeysAscending i ys s.1)
  where
    head :
        (zs : List Inode) (j : ℕ)
        → LtHead y.key zs
        → KeysAscending zs
        → LtHead y.key (erase_at j zs)
    head [] j l t = tt
    head (z ∷ []) zero l t = tt
    head (z ∷ w ∷ zs) zero l t = less_trans y.key z.key w.key l t.0
    head (z ∷ zs) (suc j) l t = l

pub find-erase_at :
    (k key : Item) (i : ℕ) (xs : List Inode)
    → KeysAscending xs
    → i < length xs
    → inode_key xs i ≡ key
    → find k (erase_at i xs) ≡ (if same key k then none else find k xs)
find-erase_at k key i [] s h e = absurd (omega arith)
find-erase_at k key zero (y ∷ ys) s h e = elim (Bool-cases (same key k)) [
  | inl hit ↦
      let hit' : key ≡ k = (same_iff key k).0 hit in
      rw (hit, ← hit', ← e) (find_above y.key ys s.0 s.1)
  | inr miss ↦ rw (e, miss) refl
]
find-erase_at k key (suc i) (y ∷ ys) s h e =
    let later = find-erase_at k key i ys s.1 (omega arith) e in
    let apart : less y.key key ≡ true = rw e at (LtHead-at y.key ys i s.0 s.1 (omega arith)) in
    elim (Bool-cases (same y.key k)) [
      | inl hit ↦
          let hit' : y.key ≡ k = (same_iff y.key k).0 hit in
          rw (hit, ← hit', less-ne_sym y.key key apart) refl
      | inr miss ↦ rw (miss, later) refl
    ]

-- A found index holds the inode with the key, and a place that is not found tells there is none.
pub find-hit :
    (i : ℕ) (xs : List Inode)
    → KeysAscending xs
    → i < length xs
    → find (inode_key xs i) xs ≡ get_elem? xs i
find-hit i [] s h = absurd (omega arith)
find-hit zero (y ∷ ys) s h = rw (same_refl y.key) refl
find-hit (suc i) (y ∷ ys) s h =
    rw (less-ne y.key (inode_key ys i) (LtHead-at y.key ys i s.0 s.1 (omega arith)))
      (find-hit i ys s.1 (omega arith))

pub find-miss :
    (k : Item) (i : ℕ) (xs : List Inode)
    → i ≤ length xs
    → Below k xs i
    → Above k xs i
    → find k xs ≡ none
find-miss k i [] h b a = refl
find-miss k zero (y ∷ ys) h b a = rw (less-ne_sym k y.key (a 0 (omega arith) (omega arith))) (
    find-miss k zero ys (omega arith) (λ j p. absurd (omega arith))
      (λ j p q. a (suc j) (omega arith) (omega arith)))
find-miss k (suc i) (y ∷ ys) h b a = rw (less-ne y.key k (b 0 (omega arith))) (
    find-miss k i ys (omega arith) (λ j p. b (suc j) (omega arith))
      (λ j p q. a (suc j) (omega arith) (omega arith)))
