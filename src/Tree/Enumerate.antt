-- ===== src/Tree/Enumerate.antt =====
-- `first`, `next` of cursor.cc and `for_each` of bucket.cc go through the entries of a tree in
-- order.
use cbtree.Base.{
  ℕ, zero, suc, ◌+◌, ◌≤◌, ◌<◌, ◌≡◌, ◌≢◌, ◌⊎◌, refl, subst, ◌∙◌, ltb, ◌==◌, true, false, inl, inr,
  Option, some, List, [], ◌∷◌, ◌++◌, length, drop, append-nil, get_elem?-drop, drop-suc,
  drop_cons-lt, length-of_drop, arith,
}
use cbtree.Node.{Inode}
use cbtree.Bucket.{Bucket, TxView, get_page_node}
use cbtree.Cursor.{
  Content, ElementRef, content, ref_of, Kv, kv_of, no_kv, key_value, read_kv, do_first, step_up,
  do_next, next, first, first_kv,
}
use cbtree.Heap.{Heap}
use cbtree.Tree.Lookup.{content_index}
use cbtree.Tree.Walk.{
  IsFullTree, FromChild, After, At, EndsAt, walk-first, walk-FromChild, do_first-leaf,
}

module _ (tx : TxView) where
  step_up-stay :
      (h : Heap) (ref : ElementRef) (es : List ElementRef) (c : Content)
      → content h ref ≡ some c
      → ref.index + 1 < length c.inodes
      → step_up tx h (ref ∷ es) ≡ some (record ref { index = ref.index + 1 } ∷ es)
  unfolding step_up
  step_up-stay h ref es c e inside =
      let more : ltb (ref.index + 1) (length c.inodes) ≡ true = ground arith in rw (e, more) refl

  pub step_up-pop :
      (h : Heap) (ref : ElementRef) (es : List ElementRef) (c : Content)
      → content h ref ≡ some c
      → length c.inodes ≤ ref.index + 1
      → step_up tx h (ref ∷ es) ≡ step_up tx h es
  unfolding step_up
  step_up-pop h ref es c e past =
      let over : ltb (ref.index + 1) (length c.inodes) ≡ false = ground arith in rw (e, over) refl

module _ (tx : TxView) (b : Bucket) where
  -- What the inner loop of `do_next` leaves of the branches `es`: nothing, if nothing is to come,
  -- or a branch at the next of its children.
  abbrev StepsUp :
      (depth : ℕ) (es : List ElementRef) (zs : List Inode) → Option (List ElementRef) → Type 0
  StepsUp depth es zs r =
      ((r ≡ some []) × (zs ≡ []))
      ⊎ ((d : ℕ) × (ref : ElementRef) × (rest : List ElementRef) × (s : Inode) × (ss : List Inode)
          × (ws : List Inode) × (us : List Inode) × (r ≡ some (ref ∷ rest))
          × FromChild tx b d ref (s ∷ ss) ws
          × After tx b (suc d) rest us
          × (zs ≡ ws ++ us)
          × (d + 1 + length rest ≡ depth + length es))

  step_up-After :
      (es : List ElementRef) (depth : ℕ) (zs : List Inode)
      → After tx b depth es zs
      → StepsUp depth es zs (step_up tx b.heap es)
  unfolding step_up
  step_up-After [] depth zs e = inl (refl, e)
  step_up-After (ref ∷ es) depth zs (s, [], vs, ws, us, (c, e, branch, d, v), sub, cut, after) =
      let shorter : length c.inodes ≤ ref.index + 1 = omega (
        arith,
        length-of_drop c.inodes ref.index (s ∷ []) d
            (omega (arith, drop_cons-lt c.inodes ref.index s [] d)),
      ) in
      let same_rest : zs ≡ us = rw (cut, sub) refl in
      popped same_rest (step_up-pop tx b.heap ref es c e shorter)
        (step_up-After es (suc depth) us after)
    where
      popped :
          zs ≡ us
          → step_up tx b.heap (ref ∷ es) ≡ step_up tx b.heap es
          → StepsUp (suc depth) es us (step_up tx b.heap es)
          → StepsUp depth (ref ∷ es) zs (step_up tx b.heap (ref ∷ es))
      popped z p (inl (q, n)) = inl (p ∙ q, z ∙ n)
      popped z p (inr (d', ref', rest, s', ss', ws', us', q, f, a, k, l)) =
          inr (d', ref', rest, s', ss', ws', us', p ∙ q, f, a, z ∙ k, omega arith)
  step_up-After (ref ∷ es) depth zs
        (s, s' ∷ ss, vs, ws, us, (c, e, branch, d, v), sub, cut, after) =
      let longer : ref.index + 1 < length c.inodes = omega (
        arith,
        length-of_drop c.inodes ref.index (s ∷ s' ∷ ss) d
            (omega (arith, drop_cons-lt c.inodes ref.index s (s' ∷ ss) d)),
      ) in
      let ref' : ElementRef = record ref { index = ref.index + 1 } in
      inr (
        depth,
        ref',
        es,
        s',
        ss,
        ws,
        us,
        step_up-stay tx b.heap ref es c e longer,
        (
          c,
          content_index tx b [] ref (ref.index + 1) ∙ e,
          branch,
          drop-suc c.inodes ref.index s (s' ∷ ss) d,
          sub,
        ),
        after,
        cut,
        omega arith,
      )

  kv_of-At :
      (ref : ElementRef) (es : List ElementRef) (c : Content) (kv : Kv) (y : Inode)
      (ys : List Inode)
      → content b.heap ref ≡ some c
      → drop ref.index c.inodes ≡ y ∷ ys
      → key_value b.heap (ref ∷ es) kv ≡ some (kv_of y)
  unfolding key_value read_kv
  kv_of-At ref es c kv y ys e d = rw (e, get_elem?-drop c.inodes ref.index y ys d) refl

  do_next-At :
      (rounds fuel : ℕ) (s : List ElementRef) (ref : ElementRef) (rest s' : List ElementRef)
      (kv : Kv) (x : Inode) (xs : List Inode)
      → step_up tx b.heap s ≡ some (ref ∷ rest)
      → do_first tx fuel b (ref ∷ rest) ≡ some s'
      → At tx b s' (x ∷ xs)
      → do_next tx (suc rounds) fuel b s kv ≡ some (s', kv_of x)
  unfolding do_next
  do_next-At rounds fuel s ref rest [] kv x xs up down at = absurd at
  do_next-At rounds fuel s ref rest (leaf ∷ more) kv x xs up down
        (c, y, ys, us, e, l, d, cut, after) =
      let filled : (length c.inodes == 0) ≡ false =
        ground (arith, drop_cons-lt c.inodes leaf.index y ys d) in
      let same_entry : y ≡ x = ground arith in
      rw (up, down, e, filled, kv_of-At leaf more c kv y ys e d, same_entry) refl

  pub do_next-end :
      (rounds fuel : ℕ) (s : List ElementRef) (kv : Kv)
      → step_up tx b.heap s ≡ some []
      → do_next tx (suc rounds) fuel b s kv ≡ some ([], no_kv)
  unfolding do_next
  do_next-end rounds fuel s kv up = rw up refl

  -- What `next` does from a stack: it ends, with the first of the entries `xs` to come, or with no
  -- key if there is none.
  abbrev pub Comes : (levels : ℕ) (r : Option (List ElementRef × Kv)) → List Inode → Type 0
  Comes levels r [] = r ≡ some ([], no_kv)
  Comes levels r (x ∷ xs) =
      (s' : List ElementRef) × (r ≡ some (s', kv_of x)) × At tx b s' (x ∷ xs) × (length s' ≡ levels)

  next-up :
      (rounds fuel : ℕ) (s : List ElementRef) (kv : Kv) (ref : ElementRef) (rest : List ElementRef)
      (xs : List Inode) (levels : ℕ)
      → xs ≢ []
      → step_up tx b.heap s ≡ some (ref ∷ rest)
      → EndsAt tx b fuel levels (ref ∷ rest) xs
      → Comes levels (do_next tx (suc rounds) fuel b s kv) xs
  next-up rounds fuel s kv ref rest [] levels n up r = absurd (n refl)
  next-up rounds fuel s kv ref rest (x ∷ xs) levels n up (s', run, at, l) =
      (s', do_next-At rounds fuel s ref rest s' kv x xs up run at, at, l)

  pub EndsAt-ne-nil :
      (fuel levels : ℕ) (s : List ElementRef) (xs : List Inode)
      → EndsAt tx b fuel levels s xs
      → xs ≢ []
  EndsAt-ne-nil fuel levels s [] ([], run, at, l) = absurd at
  EndsAt-ne-nil fuel levels s [] (ref ∷ es, run, (c, y, ys, us, e, leaf, d, cut, after), l) =
      absurd (ground arith)
  EndsAt-ne-nil fuel levels s (x ∷ xs) r = λ e. ground arith

  do_next-StepsUp :
      (rounds fuel : ℕ) (s : List ElementRef) (kv : Kv) (depth : ℕ) (es : List ElementRef)
      (zs : List Inode)
      → depth + length es < fuel
      → StepsUp depth es zs (step_up tx b.heap s)
      → Comes (depth + 1 + length es) (do_next tx (suc rounds) fuel b s kv) zs
  do_next-StepsUp rounds fuel s kv depth es zs h (inl (up, none_left)) =
      rw none_left (do_next-end rounds fuel s kv up)
  do_next-StepsUp rounds fuel s kv depth es zs h
        (inr (d, ref, rest, c, cs, ws, us, up, f, after, cut, l)) =
      let same_levels : depth + 1 + length es ≡ d + 2 + length rest = omega arith in
      let ends =
        walk-FromChild tx b d fuel ref rest c cs ws us (walk-first tx b d) f after (omega arith) in
      rw (cut, same_levels)
        (next-up rounds fuel s kv ref rest (ws ++ us) (d + 2 + length rest)
          (EndsAt-ne-nil fuel (d + 2 + length rest) (ref ∷ rest) (ws ++ us) ends) up ends)

  -- From an entry of a leaf to the next one.
  pub next-At :
      (rounds fuel : ℕ) (s : List ElementRef) (x : Inode) (xs : List Inode)
      → At tx b s (x ∷ xs)
      → length s ≤ fuel
      → Comes (length s) (next tx (suc rounds) fuel b s) xs
  unfolding next
  next-At rounds fuel [] x xs at h = absurd at
  next-At rounds fuel (ref ∷ es) x xs (c, y, [], us, e, leaf, d, cut, after) h =
      let past : length c.inodes ≤ ref.index + 1 = omega (
        arith,
        length-of_drop c.inodes ref.index (y ∷ []) d
            (omega (arith, drop_cons-lt c.inodes ref.index y [] d)),
      ) in
      let rest : xs ≡ us = ground arith in
      let levels : length (ref ∷ es) ≡ 0 + 1 + length es = omega arith in
      let up = step_up-After es 0 us after in
      rw (rest, levels)
        (do_next-StepsUp rounds fuel (ref ∷ es) no_kv 0 es us (omega arith)
          (rw (step_up-pop tx b.heap ref es c e past) up))
  next-At rounds zero (ref ∷ es) x xs (c, y, y' ∷ ys, us, e, leaf, d, cut, after) h =
      absurd (omega arith)
  next-At rounds (suc fuel) (ref ∷ es) x xs (c, y, y' ∷ ys, us, e, leaf, d, cut, after) h =
      let inside : ref.index + 1 < length c.inodes = omega (
        arith,
        length-of_drop c.inodes ref.index (y ∷ y' ∷ ys) d
            (omega (arith, drop_cons-lt c.inodes ref.index y (y' ∷ ys) d)),
      ) in
      let ref' : ElementRef = record ref { index = ref.index + 1 } in
      let here : content b.heap ref' ≡ some c = content_index tx b [] ref (ref.index + 1) ∙ e in
      let rest : xs ≡ y' ∷ (ys ++ us) = ground arith in
      let at : At tx b (ref' ∷ es) (y' ∷ (ys ++ us)) =
        (c, y', ys, us, here, leaf, drop-suc c.inodes ref.index y (y' ∷ ys) d, refl, after) in
      rw rest (
        ref' ∷ es,
        do_next-At rounds (suc fuel) (ref ∷ es) ref' es (ref' ∷ es) no_kv y' (ys ++ us)
            (step_up-stay tx b.heap ref es c e inside) (do_first-leaf tx b fuel ref' es c here leaf)
            at,
        at,
        omega arith,
      )

  -- `first` on a tree: the first entry, or no key on an empty one.
  first_kv-At :
      (rounds fuel : ℕ) (s : List ElementRef) (x : Inode) (xs : List Inode)
      → At tx b s (x ∷ xs)
      → first_kv tx rounds fuel b s ≡ some (s, kv_of x)
  unfolding first_kv
  first_kv-At rounds fuel [] x xs at = absurd at
  first_kv-At rounds fuel (ref ∷ es) x xs (c, y, ys, us, e, leaf, d, cut, after) =
      let filled : (length c.inodes == 0) ≡ false =
        ground (arith, drop_cons-lt c.inodes ref.index y ys d) in
      let same_entry : y ≡ x = ground arith in
      rw (e, filled, kv_of-At ref es c no_kv y ys e d, same_entry) refl

  pub first-IsFullTree :
      (rounds fuel depth : ℕ) (x : Inode) (xs : List Inode)
      → IsFullTree tx b depth b.header.root (x ∷ xs)
      → depth < fuel
      → (s : List ElementRef) × (first tx rounds fuel b ≡ some (s, kv_of x))
        × At tx b s (x ∷ xs)
        × (length s ≡ depth + 1)
  unfolding first
  first-IsFullTree rounds fuel depth x xs t h =
      let (s, run, at, levels) = walk-first tx b depth fuel b.header.root (x ∷ xs) [] [] t refl h in
      let at' : At tx b s (x ∷ xs) = subst (At tx b s) (append-nil (x ∷ xs)) at in
      (s, rw run (first_kv-At rounds fuel s x xs at'), at', omega arith)

  -- `first` where the root is an empty leaf.
  pub first-empty :
      (rounds fuel : ℕ) (c : Content)
      → content b.heap (ref_of (get_page_node tx b b.header.root)) ≡ some c
      → c.is_leaf ≡ true
      → c.inodes ≡ []
      → first tx (suc rounds) (suc fuel) b ≡ some ([], no_kv)
  unfolding first first_kv key_value
  first-empty rounds fuel c e leaf empty =
      let ref = ref_of (get_page_node tx b b.header.root) in
      let past : length c.inodes ≤ ref.index + 1 = rw empty (omega arith) in
      let no_entry : (length c.inodes == 0) ≡ true = rw empty refl in
      let up : step_up tx b.heap (ref ∷ []) ≡ some [] =
        step_up-pop tx b.heap ref [] c e past ∙ step_up-nil in
      rw
        (
          do_first-leaf tx b fuel ref [] c e leaf,
          e,
          no_entry,
          do_next-end rounds (suc fuel) (ref ∷ []) no_kv up,
        )
        refl
    where
      step_up-nil : step_up tx b.heap [] ≡ some []
      step_up-nil = unfold step_up in refl
