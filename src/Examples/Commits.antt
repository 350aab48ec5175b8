-- ===== src/Examples/Commits.antt =====
-- Runs of `commit`, `spill` and `rebalance` of tx.cc, bucket.cc and node.cc on the file that
-- `DB::Init` makes.
use cbtree.Base.{
  ℕ, inl, ◌+◌, ◌≡◌, ◌/◌, refl, ltb, ◌==◌, ◌&&◌, if◌then◌else◌, Bool, true, false, none, some, List,
  [], ◌∷◌, done, aborted, Returns, Whenever, arith,
}
use cbtree.Item.{same, less}
use cbtree.Page.{Page, raw}
use cbtree.FreeList.{FreeList}
use cbtree.FreeList
use cbtree.Search
use cbtree.Node.{Node, Inode, new_node, size, min_keys, child_index, size_less_than}
use cbtree.Bucket.{Bucket}
use cbtree.Meta.{first_meta}
use cbtree.TxPages.{TxPages, get_page, tx_allocate}
use cbtree.Commit.{System, Commit, commit, commit_spilled}
use cbtree.Commit.Apart.{IsApart}
use cbtree.Commit.Keeps.{KeepsUsed}
use cbtree.Commit.Succeeds.{Works, Committed, new_meta, commit_spilled-Committed}
use cbtree.Commit.Durable.{Shows, commit_spilled-Shows}
use cbtree.Work.{Work, Setting, spill}
use cbtree.Work.Spill.{Spills, IsLoneLeaf, spill-Spills}
use cbtree.Rebalance.{rebalance}
use cbtree.Rebalance.Cases.{rebalance_first_child, rebalance_single_child}
use cbtree.SubBuckets.{BucketTree, bucket_tree, none_open}
use cbtree.SubBuckets.Spill.{spill_all}
use cbtree.SubBuckets.Spill.Reports.{spill_all-true}
use cbtree.SubBuckets.Spill.Commits.{commit-KeepsUsed}

abbrev blank : Page
blank = record { id = 0; flag = 0; count = 0; overflow = 0; body = raw }

-- Every call succeeds.
abbrev sys : System
sys = record {
  order = λ ps. ps;
  goes_through = λ p. true;
  torn = λ i. blank;
  syncs_data = true;
  syncs_meta = true;
  truncates = true;
  syncs_size = true;
  remap = λ n. some 65536;
  fresh = blank;
}

sys-Works : Works sys
sys-Works = record {
  goes_through = λ p. refl;
  syncs_data = refl;
  syncs_meta = refl;
  truncates = refl;
  syncs_size = refl;
}

abbrev set : Setting
set = record {
  txid = 2;
  order = λ cs. cs;
  gap = λ i. 0;
  page_size = 4096;
  remap = λ n. some 65536;
  fresh = blank;
}

abbrev file : ℕ → Page
file i = record { id = i; flag = if i == 2 then 16 else 2; count = 0; overflow = 0; body = raw }

abbrev pages : TxPages
pages = record { total = 4; dirty = []; free_list = FreeList.empty; mapped = 32768; file = file }

abbrev some_commit : Commit
some_commit = record {
  managed = false;
  writable = true;
  no_sync = false;
  no_grow_sync = false;
  read_only = false;
  alloc_size = 16777216;
  page_size = 4096;
  file_size = 16384;
  meta = first_meta 4096 2;
  pages = pages;
}

-- The pages that a reader of the meta on page 1 sees.
abbrev used : ℕ → Bool
used i = ltb 0 i && ltb i 4

used-IsApart : IsApart used pages
used-IsApart = record { inside = λ i u. ground arith; not_free = λ i u. refl; not_dirty = tt }

abbrev entry : (page_id k : ℕ) → Inode
entry page_id k = record { flag = 0; page_id = page_id; key = k ∷ []; value = 7 ∷ [] }

-- A root that is a leaf on page 3, with one entry.
abbrev lone_leaf : Node
lone_leaf = record (new_node none) { is_leaf = true; page_id = 3; inodes = entry 0 1 ∷ [] }

abbrev bucket_of : List (ℕ × Node) → List (ℕ × ℕ) → Bucket
bucket_of nodes cached = record {
  header = record { root = 3; sequence = 0 };
  page = none;
  root_node = some 0;
  parent_node = none;
  nodes = cached;
  heap = record { nodes = nodes; next = 9 };
}

abbrev small_work : Work
small_work = record { bucket = bucket_of ((0, lone_leaf) ∷ []) ((3, 0) ∷ []); pages = pages }

abbrev small_tree : BucketTree
small_tree = bucket_tree small_work.bucket none_open

commit-KeepsUsed_example :
    KeepsUsed sys used pages.file (commit sys (spill_all set 4 small_tree) some_commit)
commit-KeepsUsed_example =
    commit-KeepsUsed sys used (λ P ps a. a) set 4 small_tree some_commit used-IsApart
      (record { sorted = tt; data_pages = tt; small = tt }) refl

spill_all-true_example :
    Whenever (spill_all set 4 small_tree pages) (λ r. (page : ℕ) × (r.1 ≡ some page))
spill_all-true_example = spill_all-true set 4 small_tree pages

-- The free list when the page of the old one is pending.
abbrev freed : FreeList
freed = record { ids = []; pending = (2, 2 ∷ []) ∷ []; cache = (2, false) ∷ [] }

freed-free : FreeList.free 2 (file 2) FreeList.empty ≡ done freed
unfolding FreeList.free
freed-free = refl

given-tx_allocate :
    tx_allocate 4096 sys.remap
      (FreeList.size freed / 4096 + 1)
      blank
      (record pages { free_list = freed })
    ≡ done (
      record pages { total = 5; free_list = freed; dirty = (4, record blank { id = 4 }) ∷ [] },
      some (record blank { id = 4 }),
    )
unfolding tx_allocate FreeList.allocate FreeList.scan FreeList.size
given-tx_allocate = refl

commit_spilled-Committed_example : Returns (commit_spilled sys 3 some_commit) (
    Committed sys sys-Works (
      new_meta sys sys-Works 3 some_commit
        (record pages { total = 5; free_list = freed; dirty = (4, record blank { id = 4 }) ∷ [] })
        (record blank { id = 4 })))
commit_spilled-Committed_example =
    commit_spilled-Committed sys sys-Works 3 some_commit freed
      (record pages { total = 5; free_list = freed; dirty = (4, record blank { id = 4 }) ∷ [] })
      (record blank { id = 4 }) freed-free given-tx_allocate (omega arith) (omega arith)

-- The root page as the spill has written it.
abbrev root_page : Page
root_page = record { id = 3; flag = 2; count = 0; overflow = 0; body = raw }

abbrev dirty_pages : TxPages
dirty_pages = record pages { dirty = (3, root_page) ∷ [] }

abbrev with_list : TxPages
with_list = record pages {
  total = 5;
  free_list = freed;
  dirty = (3, root_page) ∷ (4, record blank { id = 4 }) ∷ [];
}

with_list-tx_allocate :
    tx_allocate 4096 sys.remap
      (FreeList.size freed / 4096 + 1)
      blank
      (record dirty_pages { free_list = freed })
    ≡ done (with_list, some (record blank { id = 4 }))
unfolding tx_allocate FreeList.allocate FreeList.scan FreeList.size
with_list-tx_allocate = refl

commit_spilled-Shows_example :
    Returns
      (commit_spilled sys 3 (record some_commit { pages = dirty_pages }))
      (Shows sys sys-Works root_page)
unfolding FreeList.size
commit_spilled-Shows_example =
    commit_spilled-Shows sys sys-Works root_page (omega arith) (λ P ps a. a) (λ ps h. h) 3
      (record some_commit { pages = dirty_pages }) freed with_list (record blank { id = 4 })
      freed-free with_list-tx_allocate (omega arith)
      (record { sorted = tt; data_pages = tt; small = tt }) (omega arith) (omega arith)
      (omega arith) refl (inl refl, tt) refl

-- The transaction after the page of the leaf has become free.
abbrev leaf_freed : TxPages
leaf_freed = record pages {
  free_list = record { ids = []; pending = (2, 3 ∷ []) ∷ []; cache = (3, false) ∷ [] };
}

lone_leaf-IsLoneLeaf : IsLoneLeaf set 0 lone_leaf leaf_freed
unfolding size_less_than
lone_leaf-IsLoneLeaf = record {
  leaf = refl;
  unspilled = refl;
  childless = refl;
  orphan = refl;
  whole = refl;
  few = omega arith;
  small = omega arith;
  first_key = omega arith;
}

spill-Spills_example : Returns (spill set 2 0 small_work) (Spills set 0 lone_leaf leaf_freed)
unfolding get_page FreeList.free
spill-Spills_example =
    spill-Spills set 0 lone_leaf leaf_freed 0 small_work lone_leaf-IsLoneLeaf refl refl refl
      (record { sorted = tt; data_pages = tt; small = tt }) tt (omega arith)

-- Two leaves under a branch, all with nodes; the right one has one entry left.
abbrev left_leaf : Node
left_leaf = record (new_node none) {
  is_leaf = true;
  page_id = 5;
  key = 1 ∷ [];
  parent = some 0;
  inodes = entry 0 1 ∷ [];
}

abbrev right_leaf : Node
right_leaf = record (new_node none) {
  is_leaf = true;
  page_id = 6;
  key = 4 ∷ [];
  parent = some 0;
  unbalanced = true;
  inodes = entry 0 4 ∷ [];
}

abbrev above : Node
above = record (new_node none) {
  page_id = 3;
  children = 1 ∷ 2 ∷ [];
  inodes = entry 5 1 ∷ entry 6 4 ∷ [];
}

abbrev family : Work
family = record {
  bucket =
      bucket_of ((0, above) ∷ (1, record left_leaf { unbalanced = true }) ∷ (2, right_leaf) ∷ [])
        ((3, 0) ∷ (5, 1) ∷ (6, 2) ∷ []);
  pages = record pages { total = 9 };
}

-- Three leaves under a branch; the middle one has one entry left.
abbrev above_three : Node
above_three = record above {
  children = 1 ∷ 2 ∷ 3 ∷ [];
  inodes = entry 5 1 ∷ entry 6 4 ∷ entry 7 8 ∷ [];
}

abbrev last_leaf : Node
last_leaf = record left_leaf { page_id = 7; key = 8 ∷ []; inodes = entry 0 8 ∷ [] }

abbrev big_family : Work
big_family = record {
  bucket =
      bucket_of ((0, above_three) ∷ (1, left_leaf) ∷ (2, right_leaf) ∷ (3, last_leaf) ∷ [])
        ((3, 0) ∷ (5, 1) ∷ (6, 2) ∷ (7, 3) ∷ []);
  pages = record pages { total = 9 };
}

rebalance_first_child_example : rebalance set 5 1 family ≡ aborted
unfolding child_index less size min_keys Search.binary_search same
rebalance_first_child_example =
    rebalance_first_child set 4 1 0 (record left_leaf { unbalanced = true }) above family
      (record {
        here = refl;
        unbalanced = refl;
        small = refl;
        child = refl;
        entries = refl;
        apart = λ e. ground arith;
        parent_here = refl;
      })
      refl

-- A branch over one leaf.
abbrev over_one : Node
over_one = record (new_node none) {
  page_id = 3;
  unbalanced = true;
  children = 1 ∷ [];
  inodes = entry 5 1 ∷ [];
}

abbrev narrow : Work
narrow = record {
  bucket = bucket_of ((0, over_one) ∷ (1, left_leaf) ∷ []) ((3, 0) ∷ (5, 1) ∷ []);
  pages = record pages { total = 9 };
}

rebalance_single_child_example : rebalance set 5 0 narrow ≡ aborted
unfolding size min_keys
rebalance_single_child_example =
    rebalance_single_child set 4 0 1 over_one left_leaf (entry 5 1) (entry 0 1) [] [] narrow
      (record {
        here = refl;
        unbalanced = refl;
        small = refl;
        root = refl;
        is_branch = refl;
        single = refl;
        cached = refl;
        apart = λ e. ground arith;
        child_here = refl;
        entries = refl;
      })
      refl
