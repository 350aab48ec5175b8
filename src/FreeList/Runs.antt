-- ===== src/FreeList/Runs.antt =====
-- The scan of `allocate` in freeList.cc: what runs of neighbouring pages it finds and misses.
use cbtree.Base.{
  ℕ, zero, suc, ◌+◌, ◌-◌, ◌≤◌, ◌<◌, ◌≡◌, ◌≢◌, refl, ◌==◌, if◌then◌else◌, Bool-cases, inl, inr, List,
  [], ◌∷◌, ◌++◌, arith, length, length-append, take, drop, range, take-length_append,
  drop-length_append, append_assoc, sub64_exact, u64, All,
}
use native.Mathlib.Numerals.{add-one}
use cbtree.Base.Sort.{IsSorted, LeHead}
use cbtree.FreeList.{missing, found, fatal, scan, run_start}

-- The ids are in order, none is a meta page's, and each fits its word.
pub record IsIdList (ids : List ℕ) : Type 0 where
  pub sorted : IsSorted ids
  pub data_pages : All (λ p. 2 ≤ p) ids
  pub small : All (λ p. p < u64) ids

-- How many of the ids at the head of `ids` go on from `prev`, each one above the last.
abbrev pub run_on : ℕ → List ℕ → ℕ
run_on prev [] = 0
run_on prev (x ∷ xs) = if x == prev + 1 then suc (run_on x xs) else 0

-- The length of the run at the head.
abbrev pub head_run : List ℕ → ℕ
head_run [] = 0
head_run (x ∷ xs) = suc (run_on x xs)

-- One round of the scan, inside a run of `k` ids that goes from `init` to `prev`.
module _ (n id i init prev k : ℕ) (rest : List ℕ) where
  scan_inside :
      2 ≤ init
      → prev + 1 ≡ init + k
      → 0 < k
      → prev ≤ id
      → 2 ≤ id
      → id < u64
      → scan n (id ∷ rest) i init prev ≡ (
          if id == prev + 1
          then (if k + 1 == n then found i init else scan n rest (i + 1) init id)
          else (if 1 == n then found i id else scan n rest (i + 1) id id))
  unfolding scan
  scan_inside a b c d e f =
      ground (arith, sub64_exact id prev, sub64_exact id init, sub64_exact id id)

-- The first round.
pub scan_first :
    (n id i init : ℕ) (rest : List ℕ)
    → 2 ≤ id
    → id < u64
    → scan n (id ∷ rest) i init 0 ≡ (if 1 == n then found i id else scan n rest (i + 1) id id)
unfolding scan
scan_first n id i init rest e f = ground (arith, sub64_exact id id)

range-suc : (first k : ℕ) → range first (suc k) ≡ range first k ++ (first + k) ∷ []
range-suc first zero = ground arith
range-suc first (suc k) = ground (arith, range-suc (first + 1) k)

range-snoc : (first k : ℕ) → range first (k + 1) ≡ range first k ++ (first + k) ∷ []
range-snoc first k = rw (add-one k) (range-suc first k)

pub length-range : (first k : ℕ) → length (range first k) ≡ k
length-range first zero = refl
length-range first (suc k) = omega (arith, length-range (first + 1) k)

-- What the scan says of the ids that are left, `k` ids of a run being behind it.
abbrev Missing : (n k prev : ℕ) → List ℕ → Type 0
Missing n k prev rest = (k + run_on prev rest < n) × ((j : ℕ) → head_run (drop j rest) < n)

pub drop-nil-lt : (n j : ℕ) → 0 < n → head_run (drop j []) < n
drop-nil-lt n zero h = h
drop-nil-lt n (suc j) h = h

pub drop-cons-lt :
    (n id j : ℕ) (rest : List ℕ)
    → head_run (id ∷ rest) < n
    → ((m : ℕ) → head_run (drop m rest) < n)
    → head_run (drop j (id ∷ rest)) < n
drop-cons-lt n id zero rest h k = h
drop-cons-lt n id (suc j) rest h k = k j

-- The facts about the list that a round hands on to the next.
abbrev Tail : ℕ → List ℕ → Type 0
Tail prev rest = LeHead prev rest × IsSorted rest × All (λ p. 2 ≤ p) rest × All (λ p. p < u64) rest

pub scan-Missing :
    (n i init prev k : ℕ) (rest : List ℕ)
    → 2 ≤ init
    → prev + 1 ≡ init + k
    → 0 < k
    → k < n
    → Tail prev rest
    → scan n rest i init prev ≡ missing
    → Missing n k prev rest
scan-Missing n i init prev k [] a b c d t e = (omega arith, λ j. drop-nil-lt n j (omega arith))
scan-Missing n i init prev k (id ∷ rest) a b c d t e =
    let step = scan_inside n id i init prev k rest a b c t.0 t.2.0 t.3.0 in
    elim (Bool-cases (id == prev + 1)) [
      | inl on ↦
          let later =
            scan-Missing n (i + 1) init id (k + 1) rest a (ground arith) (omega arith)
              (ground (arith, step)) (t.1.0, t.1.1, t.2.1, t.3.1) (ground (arith, step)) in
          (ground (arith, later), λ j. drop-cons-lt n id j rest (ground (arith, later)) later.1)
      | inr off ↦
          let later =
            scan-Missing n (i + 1) id id 1 rest t.2.0 (omega arith) (omega arith)
              (ground (arith, step)) (t.1.0, t.1.1, t.2.1, t.3.1) (ground (arith, step)) in
          (ground (arith, later), λ j. drop-cons-lt n id j rest (ground (arith, later)) later.1)
    ]

-- Behind a run of `k` ids the scan finds a run that ends at the index it gives.
abbrev pub Found : (n i init : ℕ) → List ℕ → Type 0
Found n i init all =
    (front : List ℕ) × (back : List ℕ) × (all ≡ front ++ (range init n ++ back))
    × (length front + n ≡ i + 1)
    × (2 ≤ init)

range-grow :
    (front : List ℕ) (init k id : ℕ) (rest : List ℕ)
    → id ≡ init + k
    → front ++ (range init k ++ (id ∷ rest)) ≡ front ++ (range init (k + 1) ++ rest)
range-grow front init k id rest e =
    rw (e, range-snoc init k, append_assoc (range init k) ((init + k) ∷ []) rest)

pub scan-nil_lem : (n i init prev : ℕ) → scan n [] i init prev ≡ missing
unfolding scan
scan-nil_lem n i init prev = refl

found_parts : (i init i' init' : ℕ) → found i init ≡ found i' init' → (i ≡ i') × (init ≡ init')
found_parts i init i' init' e = ground arith

-- The run that has just become long enough is found where the scan stands.
pub hit-Found :
    (n i init i' init' k id : ℕ) (front rest : List ℕ)
    → 2 ≤ init
    → id ≡ init + k
    → k + 1 ≡ n
    → i ≡ length front + k
    → found i init ≡ found i' init'
    → Found n i' init' (front ++ (range init k ++ (id ∷ rest)))
hit-Found n i init i' init' k id front rest a b c d e =
    let (p, q) = found_parts i init i' init' e in
    (front, rest, rw (range-grow front init k id rest b, c, q), omega arith, omega arith)

pub scan-Found :
    (n i init prev k i' init' : ℕ) (front rest : List ℕ)
    → 2 ≤ init
    → prev + 1 ≡ init + k
    → 0 < k
    → i ≡ length front + k
    → Tail prev rest
    → scan n rest i init prev ≡ found i' init'
    → Found n i' init' (front ++ (range init k ++ rest))
scan-Found n i init prev k i' init' front [] a b c d t e =
    absurd (ground (arith, scan-nil_lem n i init prev))
scan-Found n i init prev k i' init' front (id ∷ rest) a b c d t e =
    let step = scan_inside n id i init prev k rest a b c t.0 t.2.0 t.3.0 in
    elim (Bool-cases (id == prev + 1)) [
      | inl on ↦ elim (Bool-cases (k + 1 == n)) [
        | inl hit ↦
            hit-Found n i init i' init' k id front rest a (ground arith) (ground arith) d
              (ground (arith, step))
        | inr miss ↦ rw (range-grow front init k id rest (ground arith)) (
            scan-Found n (i + 1) init id (k + 1) i' init' front rest a (ground arith) (omega arith)
              (omega arith) (t.1.0, t.1.1, t.2.1, t.3.1) (ground (arith, step)))
      ]
      | inr off ↦ elim (Bool-cases (1 == n)) [
        | inl hit ↦ rw (← append_assoc front (range init k) (id ∷ rest)) (
            hit-Found n i id i' init' 0 id (front ++ range init k) rest t.2.0 (omega arith)
              (ground arith)
              (omega (arith, length-append front (range init k), length-range init k))
              (ground (arith, step)))
        | inr miss ↦ rw (← append_assoc front (range init k) (id ∷ rest)) (
            scan-Found n (i + 1) id id 1 i' init' (front ++ range init k) rest t.2.0 (omega arith)
              (omega arith) (omega (arith, length-append front (range init k), length-range init k))
              (t.1.0, t.1.1, t.2.1, t.3.1) (ground (arith, step)))
      ]
    ]

-- `allocate` never reaches its `LOG(FATAL)` on such a list.
pub scan-ne-fatal :
    (n i init prev : ℕ) (rest : List ℕ) → All (λ p. 2 ≤ p) rest → scan n rest i init prev ≢ fatal
unfolding scan
scan-ne-fatal n i init prev [] g e = cc
scan-ne-fatal n i init prev (id ∷ rest) g e =
    ground (arith, scan-ne-fatal n (i + 1) (run_start init prev id) id rest g.1)

pub drop_run :
    (front run back : List ℕ) (i n : ℕ)
    → length run ≡ n
    → length front + n ≡ i + 1
    → take (i + 1 - n) (front ++ (run ++ back)) ++ drop (i + 1) (front ++ (run ++ back))
      ≡ front ++ back
drop_run front run back i n e h = rw (
  take-length_append (i + 1 - n) front (run ++ back) (omega arith),
  ← append_assoc front run back,
  drop-length_append (i + 1) (front ++ run) back (omega (arith, length-append front run)),
)
