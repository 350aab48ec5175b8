-- ===== src/SubBuckets/Spill/Reports.antt =====
-- What `spill` of src/Bolt/node.cc and bucket.cc reports to `Tx::commit`.
use cbtree.Base.{
  ℕ, zero, suc, ◌≡◌, refl, ◌==◌, Bool, true, false, Option, some, Run, done, aborted, Whenever,
  Whenever-bind, Whenever-if, Whenever-then, Whenever-option, leb, arith,
}
use cbtree.Item.{Item}
use cbtree.TxPages.{TxPages}
use cbtree.Work.{
  Work, Setting, node_at, root, spill, spill_self, spill_parent, spill_children, spill_pieces,
  split_node,
}
use cbtree.SubBuckets.{BucketTree, bucket_tree, SubBuckets, none_open, sub_bucket}
use cbtree.SubBuckets.Spill.{
  is_small, inline_value, spill_root, spilled_value, sub_value, put_sub, spill_tree, spill_subs,
  rebalance_tree, root_page, spill_all,
}

module _ (set : Setting) where
  abbrev NoFailure : Work × Bool → Type 0
  NoFailure r = r.1 ≡ false

  spill_parent-NoFailure :
      (again : ℕ → Work → Run (Work × Bool)) (a : ℕ) (w : Work)
      → ((p : ℕ) (u : Work) → Whenever (again p u) NoFailure)
      → Whenever (spill_parent set again a w) NoFailure
  spill_parent-NoFailure again a w h = Whenever-bind NoFailure (node_at w a) _ (λ nd.
      Whenever-option NoFailure nd.parent _ _ refl (λ p.
        Whenever-bind NoFailure (node_at w p) _
          (λ parent. Whenever-if NoFailure (parent.page_id == 0) _ _ (h p _) refl)))

  spill_self-NoFailure :
      (again : ℕ → Work → Run (Work × Bool)) (a : ℕ) (w : Work)
      → ((p : ℕ) (u : Work) → Whenever (again p u) NoFailure)
      → Whenever (spill_self set again a w) NoFailure
  spill_self-NoFailure again a w h = Whenever-bind NoFailure (split_node set a w) _ (λ r.
      Whenever-bind NoFailure (spill_pieces set a r.1 r.0) _
        (λ q. Whenever-if NoFailure q.1 _ _ (spill_parent-NoFailure again a q.0 h) refl))

  -- `Node::spill` never returns true.
  pub spill-NoFailure : (fuel a : ℕ) (w : Work) → Whenever (spill set fuel a w) NoFailure
  unfolding spill
  spill-NoFailure zero a w = tt
  spill-NoFailure (suc fuel) a w = Whenever-bind NoFailure (node_at w a) _ (λ nd.
      Whenever-if NoFailure nd.spilled _ _ refl (
        Whenever-bind NoFailure (spill_children set (spill set fuel) fuel 0 a _) _ (λ r.
          Whenever-if NoFailure r.1 _ _
            (spill_self-NoFailure (spill set fuel) a r.0 (spill-NoFailure fuel)) refl)))

  module _ (fuel : ℕ) where
    spill_root-true : (w : Work) → Whenever (spill_root set fuel w) (λ r. r.1 ≡ true)
    unfolding spill_root
    spill_root-true w =
        Whenever-option (λ r. r.1 ≡ true) w.bucket.root_node _ _ refl
          (λ a.
            Whenever-bind (λ r. r.1 ≡ true) (spill set fuel a w) _
              (λ r.
                Whenever-if (λ r. r.1 ≡ true) r.1 _ _ refl
                  (Whenever-bind (λ r. r.1 ≡ true) (root fuel r.0 a) _
                    (λ top.
                      Whenever-bind (λ r. r.1 ≡ true) (node_at r.0 top) _
                        (λ nd.
                          Whenever-if (λ r. r.1 ≡ true) (leb r.0.pages.total nd.page_id) _ _ tt
                            refl)))))

    abbrev HasValue : BucketTree × TxPages × Option Item → Type 0
    HasValue r = (value : Item) × (r.2 ≡ some value)

    spilled_value-HasValue :
        (r : Run (BucketTree × TxPages × Bool))
        → Whenever r (λ q. q.2 ≡ true)
        → Whenever (spilled_value set fuel r) HasValue
    spilled_value-HasValue aborted e = tt
    spilled_value-HasValue (done (t, s, false)) e = absurd (ground arith)
    spilled_value-HasValue (done (bucket_tree b ts, s, true)) e = (_, refl)

    sub_value-HasValue :
        (t : BucketTree) (s : TxPages) (r : Run (BucketTree × TxPages × Bool))
        → Whenever r (λ q. q.2 ≡ true)
        → Whenever (sub_value set fuel t s r) HasValue
    sub_value-HasValue (bucket_tree b ts) s r e =
        let w : Work = record { bucket = b; pages = s } in
        Whenever-bind HasValue (is_small w) _ (λ small.
          Whenever-if HasValue small _ _
            (Whenever-bind HasValue (inline_value set fuel w) _ (λ q. (_, refl)))
            (spilled_value-HasValue r e))

    mutual
      unfolding spill_tree

      spill_tree-true :
          (t : BucketTree) (s : TxPages) → Whenever (spill_tree set fuel t s) (λ r. r.2 ≡ true)
      spill_tree-true (bucket_tree b ts) s =
          Whenever-then (λ r. r.2 ≡ true) (λ r. r.2 ≡ true)
            (spill_subs set fuel ts (record { bucket = b; pages = s })) _
            (λ r e. rw e (
              Whenever-then (λ q. q.1 ≡ true) (λ r. r.2 ≡ true) (spill_root set fuel r.1) _
                (λ q f. f) (spill_root-true r.1)))
            (spill_subs-true ts _)

      spill_subs-true :
          (ts : SubBuckets) (w : Work) → Whenever (spill_subs set fuel ts w) (λ r. r.2 ≡ true)
      spill_subs-true none_open w = refl
      spill_subs-true (sub_bucket name t ts) w =
          Whenever-then HasValue (λ r. r.2 ≡ true)
            (sub_value set fuel t w.pages (spill_tree set fuel t w.pages)) _
            (λ r (value, e). rw e (
              Whenever-bind (λ r. r.2 ≡ true)
                (put_sub set fuel name value r.0 (record w { pages = r.1 })) _
                (λ w'.
                  Whenever-then (λ q. q.2 ≡ true) (λ r. r.2 ≡ true) (spill_subs set fuel ts w') _
                    (λ q f. f) (spill_subs-true ts w'))))
            (sub_value-HasValue t w.pages (spill_tree set fuel t w.pages)
              (spill_tree-true t w.pages))

    -- Whatever the calls of the system do, the rebalancing and spilling of all buckets in `commit`
    -- reports success if it comes to an end and hands a root page to it.
    pub spill_all-true :
        (t : BucketTree) (s : TxPages)
        → Whenever (spill_all set fuel t s) (λ r. (page : ℕ) × (r.1 ≡ some page))
    unfolding spill_all
    spill_all-true t s =
        Whenever-bind (λ r. (page : ℕ) × (r.1 ≡ some page)) (rebalance_tree set fuel t s) _
          (λ r.
            Whenever-then (λ q. q.2 ≡ true) (λ r. (page : ℕ) × (r.1 ≡ some page))
              (spill_tree set fuel r.0 r.1) _ (λ q e. (root_page set fuel q.0, rw e refl))
              (spill_tree-true r.0 r.1))
