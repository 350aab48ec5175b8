-- ===== src/SubBuckets/Spill.antt =====
-- `Bucket::rebalance`, `Bucket::spill`, `free`, `isInlineable` and `maxInlineBucketSize` of
-- src/Bolt/bucket.cc on a bucket and the buckets in it, and what `Tx::commit` of tx.cc calls of
-- them. `fuel` bounds the height of the trees and the numbers of children.
pub mod Reports
pub mod Keeps
pub mod Commits
use cbtree.Base.{
  ℕ, ◌==◌, leb, if◌then◌else◌, Bool, true, false, not, ◌||◌, Option, none, some, List, [], ◌∷◌, Run,
  done, aborted, ◌>>=◌,
}
use cbtree.Item.{Item, same}
use cbtree.Page.{bucket_leaf_flag}
use cbtree.Node.{Node, put, is_inlineable}
use cbtree.Bucket.{Bucket, PageNode}
use cbtree.Cursor.{ElementRef, Kv, seek, cursor_node}
use cbtree.Api.{is_bucket, update_node, for_each_page_node}
use cbtree.TxPages.{TxPages}
use cbtree.Work.{
  Work, Setting, or_abort, node_at, view_of, total_page_number, root, free, free_page, spill,
}
use cbtree.Rebalance.{rebalance_all}
use cbtree.Inline.{header_bytes, write_bucket}
use cbtree.SubBuckets.{BucketTree, bucket_tree, SubBuckets, none_open, sub_bucket}

abbrev pub max_inline_bucket_size : ℕ
max_inline_bucket_size = 1024

-- `isInlineable`.
abbrev pub is_small : Work → Run Bool
is_small w = elim w.bucket.root_node [
  | none ↦ done false
  | some a ↦ node_at w a >>= λ nd.
      done (if nd.is_leaf then is_inlineable nd max_inline_bucket_size else false)
]

module _ (set : Setting) (fuel : ℕ) where
  -- `Bucket::free`: every page, or the page of every node, becomes free.
  free_visited : List (ℕ × PageNode) → Work → Run Work
  free_visited [] w = done w
  free_visited ((depth, pn) ∷ pns) w = elim pn.page [
    | some p ↦ free_page set (some p) w.pages >>= λ s. free_visited pns (record w { pages = s })
    | none ↦ or_abort pn.node >>= λ a. free set a w >>= free_visited pns
  ]

  unfoldable pub free_bucket : Work → Run Work
  unfolding free_visited
  free_bucket w =
      let freed = or_abort (for_each_page_node (view_of w.pages) w.bucket fuel) >>= λ pns.
      free_visited pns w >>= λ w'.
      done (record w' {
        bucket = record w'.bucket { header = record w'.bucket.header { root = 0 } };
      }) in
      if w.bucket.header.root == 0 then done w else freed

  -- The value of a sub-bucket that is written inline; its pages become free.
  abbrev pub inline_value : Work → Run (Work × Item)
  inline_value w = free_bucket w >>= λ w'. or_abort w'.bucket.root_node >>= λ a.
      node_at w' a >>= λ nd. write_bucket set.gap w'.bucket.header nd >>= λ value. done (w', value)

  -- The new value goes under the name, where there must be a bucket.
  abbrev pub put_found : (name value : Item) → Work → List ElementRef × Kv → Run Work
  put_found name value w (es, kv) =
      let written = or_abort (cursor_node (view_of w.pages) w.bucket es) >>= λ r.
      or_abort (
        update_node r.0 r.1
          (λ nd. (put (total_page_number w.pages) nd name name value 0 bucket_leaf_flag).0))
      >>= λ b. done (record w { bucket = b }) in
      if not (same kv.key name) || not (is_bucket kv) then aborted else written

  unfoldable pub put_value_of : (name value : Item) → Work → Run Work
  put_value_of name value w =
      or_abort (seek (view_of w.pages) fuel w.bucket name) >>= put_found name value w

  -- `spill` of the root node; a failure that it reports is returned as true.
  unfoldable pub spill_root : Work → Run (Work × Bool)
  spill_root w = elim w.bucket.root_node [
    | none ↦ done (w, true)
    | some a ↦ spill set fuel a w >>= λ r.
        let rooted = root fuel r.0 a >>= λ top. node_at r.0 top >>= λ nd.
        if leb r.0.pages.total nd.page_id
        then aborted
        else done (
          record r.0 {
            bucket = record r.0.bucket {
              root_node = some top;
              header = record r.0.bucket.header { root = nd.page_id };
            };
          },
          true,
        ) in
        if r.1 then done (r.0, true) else rooted
  ]

  -- A sub-bucket `t` after its turn, and its value; nothing if its `spill` returned false.
  abbrev pub spilled_value :
      Run (BucketTree × TxPages × Bool) → Run (BucketTree × TxPages × Option Item)
  spilled_value aborted = aborted
  spilled_value (done (t, s, false)) = done (t, s, none)
  spilled_value (done (bucket_tree b ts, s, true)) =
      done (bucket_tree b ts, s, some (header_bytes b.header))

  abbrev pub sub_value :
      BucketTree
      → TxPages
      → Run (BucketTree × TxPages × Bool)
      → Run (BucketTree × TxPages × Option Item)
  sub_value (bucket_tree b ts) s spilled =
      let w : Work = record { bucket = b; pages = s } in
      let inline = inline_value w >>= λ r. done (bucket_tree r.0.bucket ts, r.0.pages, some r.1) in
      is_small w >>= λ small. if small then inline else spilled_value spilled

  -- The entry of a sub-bucket, unless it has no root node.
  abbrev pub put_sub : (name value : Item) → BucketTree → Work → Run Work
  put_sub name value (bucket_tree b ts) w = elim b.root_node [
    | none ↦ done w
    | some a ↦ put_value_of name value w
  ]

  -- `spill`: the buckets in it first, then its own nodes.
  unfoldable mutual
    pub spill_tree : BucketTree → TxPages → Run (BucketTree × TxPages × Bool)
    spill_tree (bucket_tree b ts) s = spill_subs ts (record { bucket = b; pages = s }) >>= λ r.
        let own = spill_root r.1 >>= λ q. done (bucket_tree q.0.bucket r.0, q.0.pages, q.1) in
        if r.2 then own else done (bucket_tree r.1.bucket r.0, r.1.pages, false)

    pub spill_subs : SubBuckets → Work → Run (SubBuckets × Work × Bool)
    spill_subs none_open w = done (none_open, w, true)
    spill_subs (sub_bucket name t ts) w = sub_value t w.pages (spill_tree t w.pages) >>= λ r.
        elim r.2 [
          | none ↦ done (sub_bucket name r.0 ts, record w { pages = r.1 }, false)
          | some value ↦ put_sub name value r.0 (record w { pages = r.1 }) >>= λ w'.
              spill_subs ts w' >>= λ q. done (sub_bucket name r.0 q.0, q.1, q.2)
        ]

  -- `rebalance`: its own nodes first, then the buckets in it.
  unfoldable mutual
    pub rebalance_tree : BucketTree → TxPages → Run (BucketTree × TxPages)
    rebalance_tree (bucket_tree b ts) s =
        rebalance_all set fuel b.nodes (record { bucket = b; pages = s }) >>= λ w.
        rebalance_subs ts w.pages >>= λ r. done (bucket_tree w.bucket r.0, r.1)

    pub rebalance_subs : SubBuckets → TxPages → Run (SubBuckets × TxPages)
    rebalance_subs none_open s = done (none_open, s)
    rebalance_subs (sub_bucket name t ts) s = rebalance_tree t s >>= λ r.
        rebalance_subs ts r.1 >>= λ q. done (sub_bucket name r.0 q.0, q.1)

  abbrev pub root_page : BucketTree → ℕ
  root_page (bucket_tree b ts) = b.header.root

  -- What `commit` does with the root bucket: the new root page, or nothing if `spill` returned
  -- false.
  unfoldable pub spill_all : BucketTree → TxPages → Run (TxPages × Option ℕ)
  unfolding rebalance_tree spill_tree
  spill_all t s = rebalance_tree t s >>= λ r.
      spill_tree r.0 r.1 >>= λ q. done (q.1, if q.2 then some (root_page q.0) else none)
