-- ===== src/Api/Writes.antt =====
-- `Bucket::put` and `Bucket::remove` of bucket.cc in a bucket whose root is one leaf.
use cbtree.Base.{
  ◌+◌, ◌<◌, ◌^◌, ◌≡◌, refl, ◌∙◌, ap, if◌then◌else◌, Bool, true, false, Bool-cases, Option-cases,
  inl, inr, ◌&&◌, not, none, some, [], length, arith,
}
use cbtree.Item.{Item, same}
use cbtree.Node.{Node, put, del, search}
use cbtree.Node.Keys.{find}
use cbtree.Node.Lookup.{put_lem, del_lem}
use cbtree.Bucket.{Bucket, TxView, PageNode}
use cbtree.Cursor.{search_content, read_kv}
use cbtree.Api.{
  get_value, put_value, put_at, put_refuses, remove_value, remove_at, remove_refuses, is_bucket,
}
use cbtree.Api.Reads.{find-same, value_of, get_value-find}
use cbtree.Api.Root.{
  HasLeafRoot, HasLeafRoot-Gives, ShowsLeaf, kv_at, kv_at-Seeks, root-IsTree, root_content,
  seek-place, stored, stored-IsLeafRoot,
}
use cbtree.Node.Lengths.{put-small, del-small, del-is_leaf}
use cbtree.Api.Accepts.{
  key_given, may_put, may_remove, may_put-refuses, may_remove-refuses, is_sub_bucket, landing,
}

module _ (tx : TxView) where
  get_value-root :
      (b : Bucket) (nd : Node)
      → HasLeafRoot tx b nd
      → (k : Item) → get_value tx 1 b k ≡ some (value_of (find k nd.inodes))
  get_value-root b nd h k =
      let (pn, v, g) = HasLeafRoot-Gives tx b nd h in
      get_value-find tx b k 0 nd.inodes (root-IsTree tx b pn nd v)

  module _ (b : Bucket) (pn : PageNode) (nd : Node) (v : ShowsLeaf tx b pn nd) (key : Item) where
    -- The tests of `put` and of `remove` on what the search hands back.
    put-tests :
        (same (kv_at tx b pn nd v key).key key && is_bucket (kv_at tx b pn nd v key))
        ≡ is_sub_bucket (find key nd.inodes)
    put-tests =
        let (hit, miss) = kv_at-Seeks tx b pn nd v key in
        elim (Option-cases (find key nd.inodes)) [
          | inl e ↦
              rw e
                (elim (miss e) [ inl apart ↦ rw apart refl | inr empty ↦ rw empty (ground arith) ])
          | inr (x, e) ↦ rw (hit x e, e, find-same key nd.inodes x e) refl
        ]

    remove-tests : is_bucket (kv_at tx b pn nd v key) ≡ is_sub_bucket (landing nd key)
    unfolding kv_at root_content search_content read_kv search
    remove-tests = elim (Option-cases (landing nd key)) [
      | inl e ↦ rw e refl
      | inr (x, e) ↦ rw e refl
    ]

  module _ (b : Bucket) (nd : Node) (key : Item) where
    -- What `put` makes of a bucket, by whether it refuses, and whether the key is that of a bucket:
    -- -1 and no change; the end of the process; or 0 and a bucket whose root is again a leaf, with
    -- the value under the key, and under every other key what was there.
    abbrev pub Puts : (value : Item) → (refused bucket : Bool) → Type 0
    Puts value true bucket = put_value tx 1 b key value ≡ some (b, 1)
    Puts value false true = put_value tx 1 b key value ≡ none
    Puts value false false =
        (b' : Bucket) × (nd' : Node) × (put_value tx 1 b key value ≡ some (b', 0))
        × HasLeafRoot tx b' nd'
        × ((k : Item)
            → get_value tx 1 b' k
              ≡ some (if same key k then value else value_of (find k nd.inodes)))

    put_branches :
        (value k : Item)
        → value_of (
            if same key k
            then some (record { flag = 0; page_id = 0; key = key; value = value })
            else find k nd.inodes)
          ≡ (if same key k then value else value_of (find k nd.inodes))
    put_branches value k = ground (arith, Bool-cases (same key k))

    stored-Puts :
        (value : Item)
        → HasLeafRoot tx b nd
        → 0 < tx.total_pages
        → length nd.inodes + 1 < 2 ^ 31
        → (refused bucket : Bool) → put_refuses tx 1 key value ≡ refused
        → is_sub_bucket (find key nd.inodes) ≡ bucket
        → Puts value refused bucket
    unfolding put_value put_at
    stored-Puts value h pages room true bucket no_entry t = rw no_entry refl
    stored-Puts value h pages room false true accepted t =
        let (pn, v, g) = HasLeafRoot-Gives tx b nd h in
        rw (accepted, seek-place tx b pn nd v key, put-tests b pn nd v key ∙ t) refl
    stored-Puts value h pages room false false accepted t =
        let (pn, v, (c, a, w, given)) = HasLeafRoot-Gives tx b nd h in
        let (ok, made) =
          put_lem tx.total_pages nd key value 0 0 v.ordered pages
            (key_given tx key value accepted) in
        let nd' = (put tx.total_pages nd key key value 0 0).0 in
        let root : HasLeafRoot tx (stored c a nd') nd' = inl (
          a,
          stored-IsLeafRoot tx c a nd nd' w (ap (λ n. n.is_leaf) made.rest_kept ∙ v.leaf) (record {
            ascending = made.ascending;
            small = put-small tx.total_pages nd key value room;
          }),
        ) in
        (
          stored c a nd',
          nd',
          unfold stored in
              rw
                (
                  accepted,
                  seek-place tx b pn nd v key,
                  put-tests b pn nd v key ∙ t,
                  given key,
                  w.here,
                )
                refl,
          root,
          λ k.
              get_value-root (stored c a nd') nd' root k
              ∙ ap some (ap value_of (made.found_as k) ∙ put_branches value k),
        )

    -- `put` in a bucket whose root is one leaf with its keys in order, in memory or on a page that
    -- can be read while no node has its id, `page_` is null or that page, and there is no parent
    -- node, with fewer than 2 ^ 31 - 1 keys, in a file of at least one page. If the database is
    -- closed, the transaction only reads, the key is empty, or a size is out of range, it returns
    -- -1 and changes nothing. Otherwise, if the key is that of a bucket, it ends the process. In
    -- all other cases it returns 0; the root of the bucket is again one leaf with its keys in
    -- order, now in memory; and from then on `get` finds the value under the key, and under every
    -- other key what the leaf had there, nothing for a bucket.
    pub put_value-Puts :
        (value : Item)
        → HasLeafRoot tx b nd
        → 0 < tx.total_pages
        → length nd.inodes + 1 < 2 ^ 31
        → Puts value (not (may_put tx key value)) (is_sub_bucket (find key nd.inodes))
    put_value-Puts value h pages room =
        stored-Puts value h pages room _ _ (may_put-refuses tx key value) refl

    -- What `remove` makes of a bucket, by whether it refuses, and whether the search for the key
    -- ends at the entry of a bucket.
    abbrev pub Removes : (refused bucket : Bool) → Type 0
    Removes true bucket = remove_value tx 1 b key ≡ some (b, 1)
    Removes false true = remove_value tx 1 b key ≡ none
    Removes false false =
        (b' : Bucket) × (nd' : Node) × (remove_value tx 1 b key ≡ some (b', 0))
        × HasLeafRoot tx b' nd'
        × ((k : Item)
            → get_value tx 1 b' k ≡ some (if same key k then [] else value_of (find k nd.inodes)))

    remove_branches :
        (k : Item)
        → value_of (if same key k then none else find k nd.inodes)
          ≡ (if same key k then [] else value_of (find k nd.inodes))
    remove_branches k = ground (arith, Bool-cases (same key k))

    stored-Removes :
        HasLeafRoot tx b nd
        → (refused bucket : Bool) → remove_refuses tx 1 key ≡ refused
        → is_sub_bucket (landing nd key) ≡ bucket
        → Removes refused bucket
    unfolding remove_value remove_at
    stored-Removes h true bucket no_entry t = rw no_entry refl
    stored-Removes h false true accepted t =
        let (pn, v, g) = HasLeafRoot-Gives tx b nd h in
        rw (accepted, seek-place tx b pn nd v key, remove-tests b pn nd v key ∙ t) refl
    stored-Removes h false false accepted t =
        let (pn, v, (c, a, w, given)) = HasLeafRoot-Gives tx b nd h in
        let (ok, made) = del_lem nd key v.ordered in
        let nd' = (del nd key).0 in
        let root : HasLeafRoot tx (stored c a nd') nd' = inl (
          a,
          stored-IsLeafRoot tx c a nd nd' w (del-is_leaf nd key ∙ v.leaf)
              (record { ascending = made.ascending; small = del-small nd key v.ordered.small }),
        ) in
        (
          stored c a nd',
          nd',
          unfold stored in
              rw
                (
                  accepted,
                  seek-place tx b pn nd v key,
                  remove-tests b pn nd v key ∙ t,
                  given key,
                  w.here,
                )
                refl,
          root,
          λ k.
              get_value-root (stored c a nd') nd' root k
              ∙ ap some (ap value_of (made.found_as k) ∙ remove_branches k),
        )

    -- `remove` in a bucket whose root is one leaf with its keys in order, in memory or on a page
    -- that can be read while no node has its id, `page_` is null or that page, and there is no
    -- parent node, with fewer than 2 ^ 31 keys. If the database is closed, the transaction only
    -- reads, or the key is empty, it returns -1 and changes nothing. Otherwise, if the search for
    -- the key ends at the entry of a bucket, be that the key's own or the next one after the place
    -- of a key that the leaf does not have, it ends the process. In all other cases, also where the
    -- leaf does not have the key, it returns 0; the root of the bucket is again one leaf with its
    -- keys in order, now in memory; and from then on `get` finds nothing under the key, and under
    -- every other key what the leaf had there, nothing for a bucket.
    pub remove_value-Removes :
        HasLeafRoot tx b nd → Removes (not (may_remove tx key)) (is_sub_bucket (landing nd key))
    remove_value-Removes h = stored-Removes h _ _ (may_remove-refuses tx key) refl
