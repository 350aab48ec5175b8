-- ===== src/Examples/Buckets.antt =====
-- Runs of bucket.cc on buckets in buckets, and of `DB::Open` and `initMeta` of db.cc.
use cbtree.Base.{
  ℕ, ◌≡◌, ◌⊎◌, refl, Bool, true, false, none, some, [], ◌∷◌, done, Returns, Whenever, arith,
}
use cbtree.Page.{Page, raw}
use cbtree.Node.{Node, Inode, new_node}
use cbtree.Bucket.{Bucket, TxView}
use cbtree.Inline.{write_bucket}
use cbtree.Inline.Open.{OpensAgain, open_bucket-write_bucket}
use cbtree.SubBuckets.{bucket_tree, none_open, find_bucket, delete_sub_bucket}
use cbtree.SubBuckets.Names.{delete_sub_bucket_fails}
use cbtree.Db.Files.{OpenSystem, Files, new_files, init_disk, init_meta, open_db, db_close}
use cbtree.Db.Files.Opens.{Maps, init_meta-Maps, open_db-again}

abbrev entry : (flag k v : ℕ) → Inode
entry flag k v = record { flag = flag; page_id = 0; key = k ∷ []; value = v ∷ [] }

abbrev leaf : Node
leaf = record (new_node none) { is_leaf = true; inodes = entry 0 1 10 ∷ entry 1 2 20 ∷ [] }

abbrev tx : TxView
tx = record {
  get_page = λ i. some (record { id = i; flag = 2; count = 0; overflow = 0; body = raw });
  total_pages = 9;
  open_db = true;
  writable = true;
}

open_bucket-write_bucket_example :
    Returns
      (write_bucket (λ i. 0) (record { root = 0; sequence = 3 }) leaf)
      (λ value. OpensAgain (λ i. 0) leaf (record { root = 0; sequence = 3 }) value tx (λ bs. []))
open_bucket-write_bucket_example =
    open_bucket-write_bucket (λ i. 0) leaf (record { root = 0; sequence = 3 }) tx (λ bs. [])
      (record {
        leaf = refl;
        few = omega arith;
        small = omega arith;
        first_key = omega arith;
        flags = (omega arith, (omega arith, tt));
      })
      refl (omega arith)

-- The bucket with the leaf for its root.
abbrev parent : Bucket
parent = record {
  header = record { root = 5; sequence = 0 };
  page = none;
  root_node = some 0;
  parent_node = none;
  nodes = (5, 0) ∷ [];
  heap = record { nodes = (0, leaf) ∷ []; next = 1 };
}

delete_sub_bucket_fails_example :
    (delete_sub_bucket tx 1 (λ bs. bs) (λ t. some (t, 0)) (bucket_tree parent none_open) (2 ∷ [])
      ≡ none)
    ⊎ (delete_sub_bucket tx 1 (λ bs. bs) (λ t. some (t, 0)) (bucket_tree parent none_open) (2 ∷ [])
        ≡ some (bucket_tree parent none_open, 1))
unfolding find_bucket
delete_sub_bucket_fails_example =
    delete_sub_bucket_fails tx 1 (λ bs. bs) (λ t. some (t, 0)) parent none_open (2 ∷ []) refl

-- A system on which every call succeeds.
abbrev sys : OpenSystem
sys = record {
  opens_lock = true;
  locked_by_others = false;
  opens_file = true;
  writes = true;
  reads = true;
  maps = λ n. true;
  unmaps = true;
  page_size = 4096;
  torn = λ i. record { id = 0; flag = 0; count = 0; overflow = 0; body = raw };
}

abbrev blank_disk : ℕ → Page
blank_disk i = record { id = 0; flag = 0; count = 0; overflow = 0; body = raw }

abbrev new_file : Files
new_file = new_files 0 blank_disk

-- The database after `Init`.
abbrev old_file : Files
old_file = record (new_files 16384 (init_disk 4096 blank_disk)) { page_size = 4096 }

init_meta-Maps_example : Returns (init_meta sys 40000 old_file) (Maps sys 40000)
init_meta-Maps_example = init_meta-Maps sys 40000 old_file refl (omega arith)

open_db-again_example : Whenever (open_db sys false false 0 new_file) (λ r.
    r.1 ≡ 0
    → (ro' ng' : Bool) (n' : ℕ) → open_db sys ro' ng' n' (db_close r.0) ≡ done (db_close r.0, 1))
open_db-again_example = open_db-again sys new_file false false 0 refl
