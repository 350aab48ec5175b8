-- ===== src/Tree/ForEach.antt =====
-- `Bucket::for_each` of bucket.cc against the list of the entries of the tree.
use cbtree.Base.{
  ℕ, zero, suc, ◌+◌, ◌≤◌, ◌<◌, ◌≡◌, ◌≢◌, ◌⊎◌, refl, ap, ◌∙◌, ◌==◌, if◌then◌else◌, Bool, true, false,
  inl, inr, Option, some, List, [], ◌∷◌, length, All, arith,
}
use cbtree.Item.{Item}
use cbtree.Node.{Inode}
use cbtree.Codec.{◌>>=◌}
use cbtree.Bucket.{Bucket, TxView, get_page_node}
use cbtree.Cursor.{Content, ElementRef, ref_of, kv_of, no_kv, next, first}
use cbtree.Tree.{Shows}
use cbtree.Tree.Walk.{IsFullTree, At, walk-first}
use cbtree.Tree.Enumerate.{next-At, first-IsFullTree, first-empty, EndsAt-ne-nil}
use cbtree.Api.{for_each, for_each_from}

-- The function called on the entries in order, until it returns a status other than 0.
abbrev pub visit_entries {ℓ} : {S : Type ℓ} → (S → Item → Item → S × ℕ) → S → List Inode → S × ℕ
visit_entries fn s [] = (s, 0)
visit_entries fn s (x ∷ xs) =
    let called = fn s x.key x.value in
    let later = visit_entries fn called.0 xs in if called.1 == 0 then later else called

-- The entries of a bucket's tree: no leaf is empty, or the root is a leaf and the only page.
abbrev pub IsWholeTree : TxView → Bucket → (depth : ℕ) → List Inode → Type 0
IsWholeTree tx b depth xs =
    IsFullTree tx b depth b.header.root xs
    ⊎ ((c : Content) × Shows tx b b.header.root c
        × (c.is_leaf ≡ true)
        × (c.inodes ≡ [])
        × (xs ≡ []))

abbrev pub HasKeys : List Inode → Type 0
HasKeys = All (λ x. x.key ≢ [])

if_some {ℓ} :
    {A : Type ℓ} (t : Bool) (o : Option A) (u v : A)
    → o ≡ some u
    → (if t then o else some v) ≡ some (if t then u else v)
if_some true o u v e = e
if_some false o u v e = refl

module _ {ℓ} {S : Type ℓ} (tx : TxView) (b : Bucket) (fn : S → Item → Item → S × ℕ) where
  for_each_from-end :
      (fuel rounds : ℕ) (s : S)
      → for_each_from tx fuel fn (suc rounds) b s ([], no_kv) ≡ some (s, 0)
  unfolding for_each_from
  for_each_from-end fuel rounds s = refl

  for_each_from-cons :
      (fuel rounds : ℕ) (s : S) (es : List ElementRef) (x : Inode)
      → x.key ≢ []
      → for_each_from tx fuel fn (suc rounds) b s (es, kv_of x) ≡ (
          if (fn s x.key x.value).1 == 0
          then (next tx fuel fuel b es >>= for_each_from tx fuel fn rounds b (fn s x.key x.value).0)
          else some (fn s x.key x.value))
  unfolding for_each_from
  for_each_from-cons fuel rounds s es x h =
      let filled : (length x.key == 0) ≡ false = go x.key h in rw filled refl
    where
      go : (k : Item) → k ≢ [] → (length k == 0) ≡ false
      go [] n = absurd (n refl)
      go (a ∷ k) n = ground arith

  for_each_from-visit :
      (fuel rounds : ℕ) (s : S) (es : List ElementRef) (x : Inode) (xs : List Inode)
      → At tx b es (x ∷ xs)
      → HasKeys (x ∷ xs)
      → length es ≤ fuel
      → length xs + 1 < rounds
      → for_each_from tx fuel fn rounds b s (es, kv_of x) ≡ some (visit_entries fn s (x ∷ xs))
  for_each_from-visit fuel zero s es x xs at keys h k = absurd (omega arith)
  for_each_from-visit fuel (suc zero) s es x xs at keys h k = absurd (omega arith)
  for_each_from-visit zero (suc (suc rounds)) s [] x xs at keys h k = absurd at
  for_each_from-visit zero (suc (suc rounds)) s (ref ∷ es) x xs at keys h k = absurd (omega arith)
  for_each_from-visit (suc fuel) (suc (suc rounds)) s es x [] at keys h k =
      for_each_from-cons (suc fuel) (suc rounds) s es x keys.0
      ∙ if_some ((fn s x.key x.value).1 == 0) _ ((fn s x.key x.value).0, 0) (fn s x.key x.value)
          (rw (next-At tx b fuel (suc fuel) es x [] at h)
            (for_each_from-end (suc fuel) rounds (fn s x.key x.value).0))
  for_each_from-visit (suc fuel) (suc (suc rounds)) s es x (y ∷ ys) at keys h k =
      let (es', e, at', levels) = next-At tx b fuel (suc fuel) es x (y ∷ ys) at h in
      let ih =
        for_each_from-visit (suc fuel) (suc rounds) (fn s x.key x.value).0 es' y ys at' keys.1
          (omega arith) (omega arith) in
      for_each_from-cons (suc fuel) (suc rounds) s es x keys.0
      ∙ if_some ((fn s x.key x.value).1 == 0) _ (visit_entries fn (fn s x.key x.value).0 (y ∷ ys))
          (fn s x.key x.value) (rw e ih)

  for_each-first :
      (fuel rounds : ℕ) (s : S)
      → tx.open_db ≡ true
      → for_each tx fuel fn rounds b s
        ≡ (first tx fuel fuel b >>= for_each_from tx fuel fn rounds b s)
  unfolding for_each
  for_each-first fuel rounds s o =
      ap
        (λ (t : Bool).
          if t then (first tx fuel fuel b >>= for_each_from tx fuel fn rounds b s) else some (s, 1))
        o

  -- On an open database and a tree with the entries `xs`, no leaf of which is empty but a root, and
  -- all of whose keys are not empty: with fuel for the levels of the tree and rounds for its
  -- entries `for_each` ends, having called the function on exactly the entries, in order, up to the
  -- first call with a status other than 0, and it returns that status, or 0.
  pub for_each-visit_entries :
      (fuel rounds depth : ℕ) (s : S) (xs : List Inode)
      → tx.open_db ≡ true
      → IsWholeTree tx b depth xs
      → HasKeys xs
      → depth < fuel
      → length xs < rounds
      → for_each tx fuel fn rounds b s ≡ some (visit_entries fn s xs)
  for_each-visit_entries fuel rounds depth s [] o (inl t) keys h k =
      let none_left = walk-first tx b depth fuel b.header.root [] [] [] t refl h in
      absurd (
        EndsAt-ne-nil tx b fuel (depth + 1 + 0) (ref_of (get_page_node tx b b.header.root) ∷ []) []
          none_left refl)
  for_each-visit_entries fuel rounds depth s (x ∷ xs) o (inl t) keys h k =
      let (es, e, at, levels) = first-IsFullTree tx b fuel fuel depth x xs t h in
      for_each-first fuel rounds s o
      ∙ rw e (for_each_from-visit fuel rounds s es x xs at keys (omega arith) (omega arith))
  for_each-visit_entries zero rounds depth s xs o (inr r) keys h k = absurd (omega arith)
  for_each-visit_entries (suc fuel) zero depth s xs o (inr r) keys h k = absurd (omega arith)
  for_each-visit_entries (suc fuel) (suc rounds) depth s xs o (inr (c, shows, leaf, e, empty)) keys
        h k =
      for_each-first (suc fuel) (suc rounds) s o
      ∙ rw (first-empty tx b fuel fuel c shows.0 leaf e, empty)
          (for_each_from-end (suc fuel) rounds s)
