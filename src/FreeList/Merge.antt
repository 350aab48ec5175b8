-- ===== src/FreeList/Merge.antt =====
-- `mergeids_` of freeList.cc: what `release`, `copyall` and through it `write` rest on.
use cbtree.Base.{
  ℕ, ◌+◌, ◌≡◌, refl, ltb, true, false, List, [], ◌∷◌, ◌++◌, arith, length, count, count-append,
  append_assoc,
}
use cbtree.Base.Sort.{IsSorted, LeHead}
use cbtree.FreeList.{merge_ids}

-- The loop without its accumulator.
merged : (src own : List ℕ) → List ℕ
merged [] own = own
merged (x ∷ src) [] = x ∷ src
merged (x ∷ src) (y ∷ own) = elim (ltb x y) [
  | true ↦ x ∷ merged src (y ∷ own)
  | false ↦ y ∷ merged (x ∷ src) own
]

merge_ids-merged : (dest src own : List ℕ) → merge_ids dest src own ≡ dest ++ merged src own
unfolding merge_ids merged
merge_ids-merged dest [] own = refl
merge_ids-merged dest (x ∷ src) [] = refl
merge_ids-merged dest (x ∷ src) (y ∷ own) = grind (
  arith,
  merge_ids-merged (dest ++ x ∷ []) src (y ∷ own),
  merge_ids-merged (dest ++ y ∷ []) (x ∷ src) own,
  append_assoc,
)

count-merged : (a : ℕ) (src own : List ℕ) → count a (merged src own) ≡ count a src + count a own
unfolding merged
count-merged a [] own = omega arith
count-merged a (x ∷ src) [] = omega arith
count-merged a (x ∷ src) (y ∷ own) =
    ground (arith, count-merged a src (y ∷ own), count-merged a (x ∷ src) own)

merged-LeHead : (b : ℕ) (src own : List ℕ) → LeHead b src → LeHead b own → LeHead b (merged src own)
unfolding merged
merged-LeHead b [] own h k = k
merged-LeHead b (x ∷ src) [] h k = h
merged-LeHead b (x ∷ src) (y ∷ own) h k = ground arith

merged-IsSorted : (src own : List ℕ) → IsSorted src → IsSorted own → IsSorted (merged src own)
unfolding merged
merged-IsSorted [] own s t = t
merged-IsSorted (x ∷ src) [] s t = s
merged-IsSorted (x ∷ src) (y ∷ own) s t = ground (
  arith,
  merged-IsSorted src (y ∷ own),
  merged-IsSorted (x ∷ src) own,
  merged-LeHead x src (y ∷ own),
  merged-LeHead y (x ∷ src) own,
)

pub count-merge_ids :
    (a : ℕ) (dest src own : List ℕ)
    → count a (merge_ids dest src own) ≡ count a dest + count a src + count a own
count-merge_ids a dest src own =
    rw (merge_ids-merged dest src own)
      (omega (arith, count-append a dest (merged src own), count-merged a src own))

pub merge_ids-IsSorted :
    (src own : List ℕ) → IsSorted src → IsSorted own → IsSorted (merge_ids [] src own)
merge_ids-IsSorted src own s t = rw (merge_ids-merged [] src own) (merged-IsSorted src own s t)

length-merged : (src own : List ℕ) → length (merged src own) ≡ length src + length own
unfolding merged
length-merged [] own = omega arith
length-merged (x ∷ src) [] = omega arith
length-merged (x ∷ src) (y ∷ own) =
    ground (arith, length-merged src (y ∷ own), length-merged (x ∷ src) own)

pub length-merge_ids : (src own : List ℕ) → length (merge_ids [] src own) ≡ length src + length own
length-merge_ids src own = rw (merge_ids-merged [] src own) (length-merged src own)
