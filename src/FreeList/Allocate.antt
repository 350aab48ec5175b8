-- ===== src/FreeList/Allocate.antt =====
-- `allocate` of freeList.cc: it takes a run of neighbouring pages out of the list if there is one.
use cbtree.Base.{
  ℕ, ◌≤◌, ◌<◌, ◌≡◌, ◌≢◌, refl, subst, ◌==◌, Bool-cases, inl, inr, List, [], ◌∷◌, ◌++◌, arith, drop,
  range, u64, All, Returns, Returns-map,
}
use cbtree.Base.Sort.{IsSorted, LeHead}
use cbtree.FreeList.{FreeList, Scan, missing, found, fatal, scan, allocate_scanned, allocate}
use cbtree.FreeList.Runs.{
  Found, IsIdList, drop-cons-lt, drop-nil-lt, drop_run, head_run, hit-Found, length-range,
  scan-Found, scan-Missing, scan-ne-fatal, scan-nil_lem, scan_first,
}

-- What `allocate` does to the list: nothing where there is no run of `n`, and otherwise it takes
-- one run out.
pub data Outcome (n : ℕ) (f : FreeList) (page : ℕ) (g : FreeList) : Type 0 where
  none_left : page ≡ 0 → g ≡ f → ((j : ℕ) → head_run (drop j f.ids) < n) → Outcome n f page g
  taken :
      (front back : List ℕ)
      → 2 ≤ page
      → f.ids ≡ front ++ (range page n ++ back)
      → g.ids ≡ front ++ back
      → g.pending ≡ f.pending
      → Outcome n f page g

first-Missing :
    (n : ℕ) (rest : List ℕ)
    → 1 ≤ n
    → IsIdList rest
    → scan n rest 0 0 0 ≡ missing
    → (j : ℕ) → head_run (drop j rest) < n
first-Missing n [] h v e = λ j. drop-nil-lt n j h
first-Missing n (id ∷ rest) h v e =
    let step = scan_first n id 0 0 rest v.data_pages.0 v.small.0 in
    let later =
      scan-Missing n 1 id id 1 rest v.data_pages.0 (omega arith) (omega arith)
        (ground (arith, step)) (v.sorted.0, v.sorted.1, v.data_pages.1, v.small.1)
        (ground (arith, step)) in
    λ j. drop-cons-lt n id j rest (ground (arith, later)) later.1

first-Found :
    (n i init : ℕ) (rest : List ℕ)
    → IsIdList rest
    → scan n rest 0 0 0 ≡ found i init
    → Found n i init rest
first-Found n i init [] v e = absurd (ground (arith, scan-nil_lem n 0 0 0))
first-Found n i init (id ∷ rest) v e =
    let step = scan_first n id 0 0 rest v.data_pages.0 v.small.0 in
    elim (Bool-cases (1 == n)) [
      | inl hit ↦
          hit-Found n 0 id i init 0 id [] rest v.data_pages.0 (omega arith) (ground arith) refl
            (ground (arith, step))
      | inr miss ↦
          scan-Found n 1 id id 1 i init [] rest v.data_pages.0 (omega arith) (omega arith) refl
            (v.sorted.0, v.sorted.1, v.data_pages.1, v.small.1) (ground (arith, step))
    ]

allocate_scanned-Outcome :
    (n : ℕ) (f : FreeList) (s : Scan)
    → s ≢ fatal
    → (s ≡ missing → (j : ℕ) → head_run (drop j f.ids) < n)
    → ((i init : ℕ) → s ≡ found i init → Found n i init f.ids)
    → Returns (allocate_scanned n f s) (λ r. Outcome n f r.0 r.1)
unfolding allocate_scanned
allocate_scanned-Outcome n f missing h m k = none_left refl refl (m refl)
allocate_scanned-Outcome n f fatal h m k = absurd (h refl)
allocate_scanned-Outcome n f (found i init) h m k =
    let (front, back, e, l, two) = k i init refl in
    taken front back two e (rw e (drop_run front (range init n) back i n (length-range init n) l))
      refl

-- On a list of data page ids in order, `allocate` returns. Either it finds no run of `n`
-- neighbours anywhere in the list, and returns 0 with the list as it was; or it returns the first
-- page, not below 2, of such a run, and exactly that run has left the list, the pending pages
-- being as they were.
pub allocate-Outcome :
    (n : ℕ) (f : FreeList)
    → 1 ≤ n
    → IsIdList f.ids
    → Returns (allocate n f) (λ r. Outcome n f r.0 r.1)
unfolding allocate
allocate-Outcome n f h v =
    allocate_scanned-Outcome n f (scan n f.ids 0 0 0) (scan-ne-fatal n 0 0 0 f.ids v.data_pages)
      (first-Missing n f.ids h v) (λ i init e. first-Found n i init f.ids v e)

LeHead-append_remove :
    (b : ℕ) (front run back : List ℕ)
    → IsSorted (front ++ (run ++ back))
    → LeHead b (front ++ (run ++ back))
    → LeHead b (front ++ back)
LeHead-append_remove b [] [] back s h = h
LeHead-append_remove b [] (x ∷ []) [] s h = tt
LeHead-append_remove b [] (x ∷ []) (y ∷ back) s h = omega arith
LeHead-append_remove b [] (x ∷ y ∷ run) back s h =
    LeHead-append_remove b [] (y ∷ run) back s.1 (omega arith)
LeHead-append_remove b (x ∷ front) run back s h = h

IsSorted-remove :
    (front run back : List ℕ) → IsSorted (front ++ (run ++ back)) → IsSorted (front ++ back)
IsSorted-remove [] [] back s = s
IsSorted-remove [] (x ∷ run) back s = IsSorted-remove [] run back s.1
IsSorted-remove (x ∷ front) run back s =
    (LeHead-append_remove x front run back s.1 s.0, IsSorted-remove front run back s.1)

All-remove :
    (P : ℕ → Type 0) (front run back : List ℕ)
    → All P (front ++ (run ++ back))
    → All P (front ++ back)
All-remove P [] [] back s = s
All-remove P [] (x ∷ run) back s = All-remove P [] run back s.1
All-remove P (x ∷ front) run back s = (s.0, All-remove P front run back s.1)

-- A list of free ids from which a part is taken.
pub IsIdList-remove :
    (front run back : List ℕ) → IsIdList (front ++ (run ++ back)) → IsIdList (front ++ back)
IsIdList-remove front run back w = record {
  sorted = IsSorted-remove front run back w.sorted;
  data_pages = All-remove (λ p. 2 ≤ p) front run back w.data_pages;
  small = All-remove (λ p. p < u64) front run back w.small;
}

Outcome-IsIdList :
    {n page : ℕ} {f g : FreeList} → Outcome n f page g → IsIdList f.ids → IsIdList g.ids
Outcome-IsIdList (none_left p e m) v = rw e v
Outcome-IsIdList {n} {page} {f} (taken front back two e e' q) v =
    rw e' (IsIdList-remove front (range page n) back (subst IsIdList e v))

-- What is left after an allocation is again such a list.
pub allocate-IsIdList :
    (n : ℕ) (f : FreeList) → 1 ≤ n → IsIdList f.ids → Returns (allocate n f) (λ r. IsIdList r.1.ids)
allocate-IsIdList n f h v =
    Returns-map (λ r. Outcome n f r.0 r.1) (λ r. IsIdList r.1.ids) (allocate n f)
      (λ r o. Outcome-IsIdList o v) (allocate-Outcome n f h v)
