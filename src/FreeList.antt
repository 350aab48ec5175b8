-- ===== src/FreeList.antt =====
-- src/Bolt/freeList.h and freeList.cc: the ids of free pages, and of pages that become free once
-- the transactions that can still see them are over. Each method is a function of the list's
-- state; `sizeof(pgid)` is 8. A `pending_` or `cache_` is the list of its entries in the order in
-- which the C++ map happens to be walked.
pub mod Merge
pub mod Runs
pub mod Allocate
pub mod Pending
pub mod Persist
use cbtree.Base.{
  ℕ, zero, suc, ◌+◌, ◌-◌, ◌*◌, ◌%◌, ◌<◌, ltb, leb, ◌==◌, if◌then◌else◌, Bool, true, false, ◌||◌,
  not, Option, none, some, List, [], ◌∷◌, ◌++◌, Run, done, aborted, ◌>>=◌, length, take, drop,
  range, sub64, u16, u32, u64, set_flag,
}
use cbtree.Base.Assoc.{lookup, insert, erase}
use cbtree.Base.Sort.{sort}
use cbtree.Page.{Page, Body, id_array, freelist_page_flag, page_header_size}

pub record FreeList : Type 0 where
  pub ids : List ℕ
  pub pending : List (ℕ × List ℕ)
  pub cache : List (ℕ × Bool)

abbrev pub empty : FreeList
empty = record { ids = []; pending = []; cache = [] }

-- `reset`.
unfoldable pub reset : FreeList → FreeList
reset f = record f { ids = []; pending = []; cache = [] }

-- All ids that stand in `pending_`, in the order of the walk.
abbrev pub flatten : List (ℕ × List ℕ) → List ℕ
flatten [] = []
flatten ((t, ps) ∷ m) = ps ++ flatten m

-- The merging loop of `mergeids_`, then what is left of either list; `dest` grows at its end.
pub merge_ids : (dest src own : List ℕ) → List ℕ
merge_ids dest [] own = dest ++ own
merge_ids dest (x ∷ src) [] = dest ++ x ∷ src
merge_ids dest (x ∷ src) (y ∷ own) = elim (ltb x y) [
  | true ↦ merge_ids (dest ++ x ∷ []) src (y ∷ own)
  | false ↦ merge_ids (dest ++ y ∷ []) (x ∷ src) own
]

unfoldable pub copyall : FreeList → List ℕ → List ℕ
copyall f dest = merge_ids dest (sort (flatten f.pending)) f.ids

-- `cache_[id] = true` for each id.
pub mark_all : List ℕ → List (ℕ × Bool) → List (ℕ × Bool)
mark_all [] cache = cache
mark_all (p ∷ ps) cache = mark_all ps (insert p true cache)

unfoldable pub reindex : FreeList → FreeList
reindex f = record f { cache = mark_all (flatten f.pending) (mark_all f.ids []) }

unfoldable pub free_count : FreeList → ℕ
free_count f = length f.ids % u32

sum_sizes : List (ℕ × List ℕ) → ℕ → ℕ
sum_sizes [] result = result
sum_sizes ((t, ps) ∷ m) result = sum_sizes m ((result + length ps) % u32)

unfoldable pub pending_count : FreeList → ℕ
unfolding sum_sizes
pending_count f = sum_sizes f.pending 0

unfoldable pub count : FreeList → ℕ
unfolding free_count pending_count
count f = (free_count f + pending_count f) % u32

-- The bytes that `write` needs.
unfoldable pub size : FreeList → ℕ
unfolding count
size f =
    let ret = count f in
    (page_header_size + (if leb 0xffff ret then (ret + 1) % u32 else ret) * 8) % u32

-- What the loop of `allocate` comes to: no run, a run with its last index and first id, or the
-- `LOG(FATAL)` on an id of a meta page.
pub data Scan : Type 0 where
  missing : Scan
  found : (i init : ℕ) → Scan
  fatal : Scan

-- `init` after the test for a break in the run.
abbrev pub run_start : (init prev id : ℕ) → ℕ
run_start init prev id = if (prev == 0) || not (sub64 id prev == 1) then id else init

unfoldable pub scan : (num_pages : ℕ) (rest : List ℕ) (i init prev : ℕ) → Scan
scan n [] i init prev = missing
scan n (id ∷ rest) i init prev =
    let init' = run_start init prev id in
    let later = scan n rest (i + 1) init' id in
    if ltb id 2 then fatal else if (sub64 id init' + 1) % u64 == n then found i init' else later

-- `cache_.erase(init + j)` for each `j` below `n`.
pub erase_all : List ℕ → List (ℕ × Bool) → List (ℕ × Bool)
erase_all [] cache = cache
erase_all (p ∷ ps) cache = erase_all ps (erase p cache)

unfoldable pub allocate_scanned : ℕ → FreeList → Scan → Run (ℕ × FreeList)
allocate_scanned n f missing = done (0, f)
allocate_scanned n f fatal = aborted
allocate_scanned n f (found i init) = done (
  init,
  record f {
    ids = take (i + 1 - n) f.ids ++ drop (i + 1) f.ids;
    cache = erase_all (range init n) f.cache;
  },
)

-- The first id of a run of pages that leaves the list, or 0. On the empty list the scan ends at
-- once, as the early return does.
unfoldable pub allocate : ℕ → FreeList → Run (ℕ × FreeList)
unfolding allocate_scanned
allocate n f = allocate_scanned n f (scan n f.ids 0 0 0)

-- The ids that a transaction has freed; `pending_[txid]` where the entry may be missing.
abbrev pub or_empty : Option (List ℕ) → List ℕ
or_empty none = []
or_empty (some ps) = ps

abbrev pub pending_of : ℕ → List (ℕ × List ℕ) → List ℕ
pending_of t m = or_empty (lookup t m)

-- `pending_` without the transactions up to `txid`, and the ids of those.
pub kept : ℕ → List (ℕ × List ℕ) → List (ℕ × List ℕ)
kept txid [] = []
kept txid ((t, ps) ∷ m) = let rest = kept txid m in if leb t txid then rest else (t, ps) ∷ rest

pub released : ℕ → List (ℕ × List ℕ) → List ℕ
released txid [] = []
released txid ((t, ps) ∷ m) = let rest = released txid m in if leb t txid then ps ++ rest else rest

unfoldable pub release : ℕ → FreeList → FreeList
unfolding kept released
release txid f = record f {
  ids = merge_ids [] (sort (released txid f.pending)) f.ids;
  pending = kept txid f.pending;
}

unfoldable pub rollback : ℕ → FreeList → FreeList
rollback txid f = record f {
  cache = erase_all (pending_of txid f.pending) f.cache;
  pending = erase txid f.pending;
}

-- What `cache_[id]` as a condition does: it reads the entry, or makes one that is false.
abbrev pub touched : ℕ → List (ℕ × Bool) → Option Bool → Bool × List (ℕ × Bool)
touched id cache none = (false, insert id false cache)
touched id cache (some b) = (b, cache)

abbrev pub touch : ℕ → List (ℕ × Bool) → Bool × List (ℕ × Bool)
touch id cache = touched id cache (lookup id cache)

-- The loop of `free`, over the `n` pages from `id` on. The assertion ends the process.
pub free_loop : (n id : ℕ) (cache : List (ℕ × Bool)) (ids : List ℕ) → Run (List (ℕ × Bool) × List ℕ)
free_loop zero id cache ids = done (cache, ids)
free_loop (suc n) id cache ids =
    let later = free_loop n (id + 1) (touch id cache).1 (ids ++ id ∷ []) in
    if (touch id cache).0 then aborted else later

-- `free`; the ids do not wrap at 2 ^ 64. Freeing page 0 or 1 is only logged.
unfoldable pub free : ℕ → Page → FreeList → Run FreeList
unfolding free_loop
free txid p f = do
  r ← free_loop (suc p.overflow) p.id f.cache (pending_of txid f.pending)
  done (record f { cache = r.0; pending = insert txid r.1 f.pending })

-- `n` page ids from `index` on; `none` is a read past what the page holds.
abbrev pub read_ids : (n index : ℕ) → List ℕ → Option (List ℕ)
read_ids n index words =
    if leb (index + n) (length words) then some (take n (drop index words)) else none

abbrev pub page_words : Body → Option (List ℕ)
page_words (id_array words) = some words
page_words _ = none

-- `count` and `index` of `read`: a full count field stands for a count in the first word.
abbrev pub first_word : List ℕ → Option (ℕ × ℕ)
first_word [] = none
first_word (w ∷ ws) = some (w, 1)

abbrev pub stored_count : Page → List ℕ → Option (ℕ × ℕ)
stored_count p words = if p.count == 0xffff then first_word words else some (p.count, 0)

infixl 5 ◌>>=?◌
abbrev ◌>>=?◌ {ℓ κ} : {A : Type ℓ} {B : Type κ} → Option A → (A → Option B) → Option B
none >>=? f = none
some a >>=? f = f a

-- `read`; where the count is 0 the memory behind the header is not looked at.
unfoldable pub read : Page → FreeList → Option FreeList
unfolding reindex
read p f =
    let read_all = page_words p.body >>=? λ words. stored_count p words >>=? λ c.
    read_ids c.0 c.1 words >>=? λ ps. some (reindex (record f { ids = sort ps })) in
    if p.count == 0 then some (reindex (record f { ids = [] })) else read_all

-- `write`: the count goes to the header, or, from 0xffff on, in front of the ids.
unfoldable pub write : FreeList → Page → Page
unfolding count copyall
write f p =
    let cnt = count f in
    let flagged = record p { flag = set_flag freelist_page_flag p.flag } in
    if cnt == 0
    then record flagged { count = 0 }
    else if ltb cnt 0xffff
    then record flagged { count = cnt; body = id_array (copyall f []) }
    else record flagged { count = 0xffff; body = id_array (cnt ∷ copyall f []) }

-- The ids of `xs` that are no keys of the map of pending pages.
pub without : List (ℕ × Bool) → List ℕ → List ℕ
without pending [] = []
without pending (x ∷ xs) =
    let rest = without pending xs in elim (lookup x pending) [ none ↦ x ∷ rest | some b ↦ rest ]

unfoldable pub reload : Page → FreeList → Option FreeList
unfolding read reindex
reload p f = read p f >>=? λ g.
    some (reindex (record g { ids = without (mark_all (flatten g.pending) []) g.ids }))
