-- ===== src/SubBuckets/Spill/Keeps.antt =====
-- The rebalancing and the spilling of all buckets in src/Bolt/bucket.cc keep of the pages of a
-- transaction what `freeList::free` and `Tx::allocate` keep.
use cbtree.Base.{
  ℕ, ◌==◌, leb, Bool, true, false, not, ◌||◌, some, List, [], ◌∷◌, Run, done, aborted, Whenever,
  Whenever-bind, Whenever-if, Whenever-then, Whenever-option,
}
use cbtree.Item.{Item, same}
use cbtree.Bucket.{PageNode}
use cbtree.Api.{is_bucket, update_node, for_each_page_node}
use cbtree.Cursor.{seek, cursor_node}
use cbtree.TxPages.{TxPages}
use cbtree.Work.{Work, Setting, or_abort, node_at, view_of, root, free, free_page, spill}
use cbtree.Work.Keeps.{IsKept, free_page-Inv, free-Kept, spill-Kept}
use cbtree.Rebalance.{rebalance_all}
use cbtree.Rebalance.Keeps.{rebalance_all-Keeps}
use cbtree.Inline.{write_bucket}
use cbtree.SubBuckets.{BucketTree, bucket_tree, SubBuckets, none_open, sub_bucket}
use cbtree.SubBuckets.Spill.{
  is_small, free_visited, free_bucket, inline_value, put_value_of, spill_root, spilled_value,
  sub_value, put_sub, spill_tree, spill_subs, rebalance_tree, rebalance_subs, spill_all,
}

module _ (set : Setting) (fuel : ℕ) (Inv : TxPages → Type 0) (v : IsKept set Inv) where
  abbrev Keeps : Work → Type 0
  Keeps w = Inv w.pages

  abbrev KeepsItem : Work × Item → Type 0
  KeepsItem r = Inv r.0.pages

  abbrev KeepsBool : Work × Bool → Type 0
  KeepsBool r = Inv r.0.pages

  abbrev KeepsTree {ℓ} : {A : Type ℓ} → BucketTree × TxPages × A → Type 0
  KeepsTree r = Inv r.1

  free_visited-Keeps :
      (pns : List (ℕ × PageNode)) (w : Work)
      → Keeps w
      → Whenever (free_visited set fuel pns w) Keeps
  unfolding free_visited
  free_visited-Keeps [] w k = k
  free_visited-Keeps ((depth, pn) ∷ pns) w k =
      Whenever-option Keeps pn.page _ _
        (Whenever-bind Keeps (or_abort pn.node) _ (λ a.
          Whenever-then Keeps Keeps (free set a w) _ (λ w' h. free_visited-Keeps pns w' h)
            (free-Kept set Inv v a w k)))
        (λ p.
          Whenever-then Inv Keeps (free_page set (some p) w.pages) _
            (λ s h. free_visited-Keeps pns (record w { pages = s }) h)
            (free_page-Inv set Inv v (some p) w.pages k))

  free_bucket-Keeps : (w : Work) → Keeps w → Whenever (free_bucket set fuel w) Keeps
  unfolding free_bucket
  free_bucket-Keeps w k = Whenever-if Keeps (w.bucket.header.root == 0) _ _ k (
      Whenever-bind Keeps (or_abort (for_each_page_node (view_of w.pages) w.bucket fuel)) _ (λ pns.
        Whenever-then Keeps Keeps (free_visited set fuel pns w) _ (λ w' h. h)
          (free_visited-Keeps pns w k)))

  inline_value-Keeps : (w : Work) → Keeps w → Whenever (inline_value set fuel w) KeepsItem
  inline_value-Keeps w k =
      Whenever-then Keeps KeepsItem (free_bucket set fuel w) _
        (λ w' h. Whenever-bind KeepsItem (or_abort w'.bucket.root_node) _ (λ a.
          Whenever-bind KeepsItem (node_at w' a) _ (λ nd.
            Whenever-bind KeepsItem (write_bucket set.gap w'.bucket.header nd) _ (λ value. h))))
        (free_bucket-Keeps w k)

  put_value_of-Keeps :
      (name value : Item) (w : Work) → Keeps w → Whenever (put_value_of set fuel name value w) Keeps
  unfolding put_value_of
  put_value_of-Keeps name value w k =
      Whenever-bind Keeps (or_abort (seek (view_of w.pages) fuel w.bucket name)) _ (λ (es, kv).
        Whenever-if Keeps (not (same kv.key name) || not (is_bucket kv)) _ _ tt (
          Whenever-bind Keeps (or_abort (cursor_node (view_of w.pages) w.bucket es)) _
            (λ r. Whenever-bind Keeps (or_abort (update_node r.0 r.1 _)) _ (λ b. k))))

  put_sub-Keeps :
      (name value : Item) (t : BucketTree) (w : Work)
      → Keeps w
      → Whenever (put_sub set fuel name value t w) Keeps
  put_sub-Keeps name value (bucket_tree b ts) w k =
      Whenever-option Keeps b.root_node _ _ k (λ a. put_value_of-Keeps name value w k)

  spill_root-Keeps : (w : Work) → Keeps w → Whenever (spill_root set fuel w) KeepsBool
  unfolding spill_root
  spill_root-Keeps w k = Whenever-option KeepsBool w.bucket.root_node _ _ k (λ a.
      Whenever-then KeepsBool KeepsBool (spill set fuel a w) _
        (λ r h. Whenever-if KeepsBool r.1 _ _ h (
          Whenever-bind KeepsBool (root fuel r.0 a) _ (λ top.
            Whenever-bind KeepsBool (node_at r.0 top) _
              (λ nd. Whenever-if KeepsBool (leb r.0.pages.total nd.page_id) _ _ tt h))))
        (spill-Kept set Inv v fuel a w k))

  spilled_value-Keeps :
      (r : Run (BucketTree × TxPages × Bool))
      → Whenever r KeepsTree
      → Whenever (spilled_value set fuel r) KeepsTree
  spilled_value-Keeps aborted k = tt
  spilled_value-Keeps (done (t, s, false)) k = k
  spilled_value-Keeps (done (bucket_tree b ts, s, true)) k = k

  sub_value-Keeps :
      (t : BucketTree) (s : TxPages) (r : Run (BucketTree × TxPages × Bool))
      → Inv s
      → Whenever r KeepsTree
      → Whenever (sub_value set fuel t s r) KeepsTree
  sub_value-Keeps (bucket_tree b ts) s r k h =
      let w : Work = record { bucket = b; pages = s } in
      Whenever-bind KeepsTree (is_small w) _ (λ small.
        Whenever-if KeepsTree small _ _
          (Whenever-then KeepsItem KeepsTree (inline_value set fuel w) _ (λ q k'. k')
            (inline_value-Keeps w k))
          (spilled_value-Keeps r h))

  abbrev KeepsSubs : SubBuckets × Work × Bool → Type 0
  KeepsSubs r = Inv r.1.pages

  mutual
    unfolding spill_tree

    spill_tree-Keeps :
        (t : BucketTree) (s : TxPages) → Inv s → Whenever (spill_tree set fuel t s) KeepsTree
    spill_tree-Keeps (bucket_tree b ts) s k =
        Whenever-then KeepsSubs KeepsTree
          (spill_subs set fuel ts (record { bucket = b; pages = s })) _
          (λ r h.
            Whenever-if KeepsTree r.2 _ _
              (Whenever-then KeepsBool KeepsTree (spill_root set fuel r.1) _ (λ q h'. h')
                (spill_root-Keeps r.1 h))
              h)
          (spill_subs-Keeps ts _ k)

    spill_subs-Keeps :
        (ts : SubBuckets) (w : Work) → Keeps w → Whenever (spill_subs set fuel ts w) KeepsSubs
    spill_subs-Keeps none_open w k = k
    spill_subs-Keeps (sub_bucket name t ts) w k =
        Whenever-then KeepsTree KeepsSubs
          (sub_value set fuel t w.pages (spill_tree set fuel t w.pages)) _
          (λ r h. Whenever-option KeepsSubs r.2 _ _ h (λ value.
            Whenever-then Keeps KeepsSubs
              (put_sub set fuel name value r.0 (record w { pages = r.1 })) _
              (λ w' h'.
                Whenever-then KeepsSubs KeepsSubs (spill_subs set fuel ts w') _ (λ q h''. h'')
                  (spill_subs-Keeps ts w' h'))
              (put_sub-Keeps name value r.0 (record w { pages = r.1 }) h)))
          (sub_value-Keeps t w.pages (spill_tree set fuel t w.pages) k
            (spill_tree-Keeps t w.pages k))

  abbrev KeepsPair {ℓ} : {A : Type ℓ} → A × TxPages → Type 0
  KeepsPair r = Inv r.1

  mutual
    unfolding rebalance_tree

    rebalance_tree-Keeps :
        (t : BucketTree) (s : TxPages) → Inv s → Whenever (rebalance_tree set fuel t s) KeepsPair
    rebalance_tree-Keeps (bucket_tree b ts) s k =
        Whenever-then Keeps KeepsPair
          (rebalance_all set fuel b.nodes (record { bucket = b; pages = s })) _
          (λ w h.
            Whenever-then KeepsPair KeepsPair (rebalance_subs set fuel ts w.pages) _ (λ r h'. h')
              (rebalance_subs-Keeps ts w.pages h))
          (rebalance_all-Keeps set Inv v fuel b.nodes _ k)

    rebalance_subs-Keeps :
        (ts : SubBuckets) (s : TxPages) → Inv s → Whenever (rebalance_subs set fuel ts s) KeepsPair
    rebalance_subs-Keeps none_open s k = k
    rebalance_subs-Keeps (sub_bucket name t ts) s k =
        Whenever-then KeepsPair KeepsPair (rebalance_tree set fuel t s) _
          (λ r h.
            Whenever-then KeepsPair KeepsPair (rebalance_subs set fuel ts r.1) _ (λ q h'. h')
              (rebalance_subs-Keeps ts r.1 h))
          (rebalance_tree-Keeps t s k)

  pub spill_all-Keeps :
      (t : BucketTree) (s : TxPages) → Inv s → Whenever (spill_all set fuel t s) (λ r. Inv r.0)
  unfolding spill_all
  spill_all-Keeps t s k =
      Whenever-then KeepsPair (λ r. Inv r.0) (rebalance_tree set fuel t s) _
        (λ r h.
          Whenever-then KeepsTree (λ r. Inv r.0) (spill_tree set fuel r.0 r.1) _ (λ q h'. h')
            (spill_tree-Keeps r.0 r.1 h))
        (rebalance_tree-Keeps t s k)
