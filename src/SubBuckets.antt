-- ===== src/SubBuckets.antt =====
-- A bucket and the buckets in it, of src/Bolt/bucket.cc: `getBucketByName`, `createBucket` and
-- `deleteBucket`. `none` is an end of the process or a stray access.
pub mod Names
pub mod Spill
use cbtree.Base.{
  ℕ, ◌==◌, leb, ltb, if◌then◌else◌, Bool, true, false, not, ◌&&◌, ◌||◌, Option, none, some, List,
  [], ◌∷◌, length, Run, done, aborted,
}
use cbtree.Item.{Item, same}
use cbtree.Page.{BucketHeader, bucket_leaf_flag}
use cbtree.Node.{Node, new_node, put}
use cbtree.Bucket.{Bucket, TxView}
use cbtree.Cursor.{ElementRef, Kv, seek, cursor_node}
use cbtree.Codec.{◌>>=◌}
use cbtree.Api.{is_bucket, update_node, delete_bucket}
use cbtree.Inline.{write_bucket, open_bucket}

-- `buckets_` holds the opened buckets by name, in the order of iteration.
mutual
  pub data BucketTree : Type 0 where
    bucket_tree : Bucket → SubBuckets → BucketTree

  pub data SubBuckets : Type 0 where
    none_open : SubBuckets
    sub_bucket : Item → BucketTree → SubBuckets → SubBuckets

-- `buckets_.find` and `buckets_[k] = t`.
unfoldable pub find_bucket : Item → SubBuckets → Option BucketTree
find_bucket k none_open = none
find_bucket k (sub_bucket j t ts) = if same j k then some t else find_bucket k ts

unfoldable pub set_bucket : Item → BucketTree → SubBuckets → SubBuckets
set_bucket k t none_open = sub_bucket k t none_open
set_bucket k t (sub_bucket j u ts) =
    if same j k then sub_bucket j t ts else sub_bucket j u (set_bucket k t ts)

-- Whether the place that a cursor stands on is that of a page.
abbrev pub stands_on_page : List ElementRef → Bool
stands_on_page [] = false
stands_on_page (ref ∷ es) = elim ref.node [ some a ↦ false | none ↦ true ]

module _ (tx : TxView) (fuel : ℕ) (stale : List ℕ → List ℕ) where
  -- The bucket in the entry that the search has found.
  abbrev pub open_found :
      Bucket → SubBuckets → Item → List ElementRef × Kv → Option (BucketTree × Bool)
  open_found b ts key (es, kv) =
      let opened = open_bucket stale kv.value (stands_on_page es) >>= λ c.
      some (bucket_tree b (set_bucket key (bucket_tree c none_open) ts), true) in
      if not (same key kv.key) || not (is_bucket kv) then some (bucket_tree b ts, false) else opened

  -- `getBucketByName`; false is a null pointer, otherwise the bucket is the one of that name in
  -- `buckets_`.
  unfoldable pub get_bucket_by_name : BucketTree → Item → Option (BucketTree × Bool)
  get_bucket_by_name (bucket_tree b ts) key = elim (find_bucket key ts) [
    | some t ↦ some (bucket_tree b ts, true)
    | none ↦ seek tx fuel b key >>= open_found b ts key
  ]

  -- The entry of a new bucket: an empty leaf behind a header of 0 and 0.
  abbrev pub put_bucket : (key : Item) → Run Item → Bucket × ℕ → Option Bucket
  put_bucket key aborted r = none
  put_bucket key (done value) r =
      update_node r.0 r.1 (λ nd. (put tx.total_pages nd key key value 0 bucket_leaf_flag).0)

  abbrev pub empty_bucket : (gap : ℕ → ℕ) → Run Item
  empty_bucket gap =
      write_bucket gap (record { root = 0; sequence = 0 })
        (record (new_node none) { is_leaf = true })

  abbrev pub create_at :
      (gap : ℕ → ℕ) → Bucket → SubBuckets → Item → List ElementRef × Kv → Option (BucketTree × Bool)
  create_at gap b ts key (es, kv) =
      let there =
        if is_bucket kv
        then get_bucket_by_name (bucket_tree b ts) key
        else some (bucket_tree b ts, false) in
      let made = cursor_node tx b es >>= λ r. put_bucket key (empty_bucket gap) (r.0, r.1) >>= λ b'.
      get_bucket_by_name (bucket_tree (record b' { page = none }) ts) key in
      if same kv.key key then there else made

  -- `createBucket`, which `createBucketIfNotExists` is too.
  unfoldable pub create_bucket : (gap : ℕ → ℕ) → BucketTree → Item → Option (BucketTree × Bool)
  unfolding get_bucket_by_name
  create_bucket gap (bucket_tree b ts) key =
      let created = seek tx fuel b key >>= create_at gap b ts key in
      if not tx.open_db || (not tx.writable || (length key == 0))
      then some (bucket_tree b ts, false)
      else created

  -- What `deleteBucket` does with the bucket that `getBucketByName` gives; a null pointer is
  -- followed.
  abbrev pub delete_found :
      (rest : BucketTree → Option (BucketTree × ℕ)) → BucketTree × Bool → Option (BucketTree × ℕ)
  delete_found rest (t, true) = rest t
  delete_found rest (t, false) = none

  abbrev pub delete_at :
      (rest : BucketTree → Option (BucketTree × ℕ))
      → Bucket
      → SubBuckets
      → Item
      → Kv
      → Option (BucketTree × ℕ)
  delete_at rest b ts key kv =
      let found = get_bucket_by_name (bucket_tree b ts) key >>= delete_found rest in
      if not (same kv.key key) || is_bucket kv then some (bucket_tree b ts, 1) else found

  -- `deleteBucket`; `rest` is what it does once it has the bucket. 1 is the return value -1.
  unfoldable pub delete_sub_bucket :
      (rest : BucketTree → Option (BucketTree × ℕ)) → BucketTree → Item → Option (BucketTree × ℕ)
  unfolding get_bucket_by_name
  delete_sub_bucket rest (bucket_tree b ts) key =
      let tested = seek tx fuel b key >>= λ r. delete_at rest b ts key r.1 in
      if not tx.open_db || not tx.writable then some (bucket_tree b ts, 1) else tested
