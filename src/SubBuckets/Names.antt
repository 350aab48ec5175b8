-- ===== src/SubBuckets/Names.antt =====
-- What the calls by name of src/Bolt/bucket.cc hand back.
use cbtree.Base.{
  ℕ, ◌≡◌, ◌⊎◌, refl, ◌==◌, Bool, true, false, not, ◌||◌, Bool-cases, Option-cases, subst, length,
  inl, inr, Option, none, some, List, arith,
}
use cbtree.Item.{Item, same}
use cbtree.Item.Order.{same_refl}
use cbtree.Bucket.{Bucket, TxView}
use cbtree.Cursor.{ElementRef, Kv, seek, cursor_node}
use cbtree.Codec.{◌>>=◌}
use cbtree.Api.{is_bucket}
use cbtree.Inline.{open_bucket}
use cbtree.SubBuckets.{
  BucketTree, bucket_tree, SubBuckets, none_open, sub_bucket, find_bucket, set_bucket,
  get_bucket_by_name, open_found, stands_on_page, create_bucket, create_at, put_bucket,
  empty_bucket, delete_sub_bucket,
}

find_bucket-set_bucket :
    (k : Item) (t : BucketTree) (ts : SubBuckets) → find_bucket k (set_bucket k t ts) ≡ some t
unfolding find_bucket set_bucket
find_bucket-set_bucket k t none_open = rw (same_refl k) refl
find_bucket-set_bucket k t (sub_bucket j u ts) = elim (Bool-cases (same j k)) [
  | inl e ↦ rw (e, e) refl
  | inr e ↦ rw (e, e) (find_bucket-set_bucket k t ts)
]

-- The bucket of that name is open.
abbrev pub IsOpen : Item → BucketTree → Type 0
IsOpen key (bucket_tree b ts) = (t : BucketTree) × (find_bucket key ts ≡ some t)

-- A result, if there is one, that is not a null pointer is the tree with the bucket open.
abbrev OpensOrNull : Item → Option (BucketTree × Bool) → Type 0
OpensOrNull key none = Unit
OpensOrNull key (some (t, found)) = found ≡ true → IsOpen key t

bind-OpensOrNull {ℓ} :
    {A : Type ℓ} (key : Item) (o : Option A) (f : A → Option (BucketTree × Bool))
    → ((a : A) → OpensOrNull key (f a))
    → OpensOrNull key (o >>= f)
bind-OpensOrNull key none f h = tt
bind-OpensOrNull key (some a) f h = h a

module _ (tx : TxView) (fuel : ℕ) (stale : List ℕ → List ℕ) where
  open_found-OpensOrNull :
      (b : Bucket) (ts : SubBuckets) (key : Item) (r : List ElementRef × Kv)
      → OpensOrNull key (open_found tx fuel stale b ts key r)
  open_found-OpensOrNull b ts key (es, kv) =
      elim (Bool-cases (not (same key kv.key) || not (is_bucket kv))) [
        | inl missing ↦ rw missing (λ e. absurd (ground arith))
        | inr there ↦ rw there (
            bind-OpensOrNull key (open_bucket stale kv.value (stands_on_page es)) _ (λ c e.
              (bucket_tree c none_open, find_bucket-set_bucket key (bucket_tree c none_open) ts)))
      ]

  get-OpensOrNull :
      (t : BucketTree) (key : Item) → OpensOrNull key (get_bucket_by_name tx fuel stale t key)
  unfolding get_bucket_by_name
  get-OpensOrNull (bucket_tree b ts) key = elim (Option-cases (find_bucket key ts)) [
    | inl none_yet ↦
        rw (get_bucket_by_name, none_yet)
          (bind-OpensOrNull key (seek tx fuel b key) (open_found tx fuel stale b ts key)
            (open_found-OpensOrNull b ts key))
    | inr (t, e) ↦ rw (get_bucket_by_name, e) (λ i. (t, e))
  ]

  get_bucket_by_name-IsOpen :
      (t : BucketTree) (key : Item)
      → IsOpen key t
      → get_bucket_by_name tx fuel stale t key ≡ some (t, true)
  unfolding get_bucket_by_name
  get_bucket_by_name-IsOpen (bucket_tree b ts) key (t, e) = rw (get_bucket_by_name, e) refl

  create_at-OpensOrNull :
      (gap : ℕ → ℕ) (b : Bucket) (ts : SubBuckets) (key : Item) (r : List ElementRef × Kv)
      → OpensOrNull key (create_at tx fuel stale gap b ts key r)
  create_at-OpensOrNull gap b ts key (es, kv) = elim (Bool-cases (same kv.key key)) [
    | inl there ↦ elim (Bool-cases (is_bucket kv)) [
      | inl e ↦ rw (there, e) (get-OpensOrNull (bucket_tree b ts) key)
      | inr e ↦ rw (there, e) (λ i. absurd (ground arith))
    ]
    | inr missing ↦ rw missing (
        bind-OpensOrNull key (cursor_node tx b es) _ (λ r.
          bind-OpensOrNull key
            (put_bucket tx fuel stale key (empty_bucket tx fuel stale gap) (r.0, r.1)) _
            (λ b'. get-OpensOrNull (bucket_tree (record b' { page = none }) ts) key)))
  ]

  create_bucket-OpensOrNull :
      (gap : ℕ → ℕ) (t : BucketTree) (key : Item)
      → OpensOrNull key (create_bucket tx fuel stale gap t key)
  unfolding create_bucket
  create_bucket-OpensOrNull gap (bucket_tree b ts) key =
      elim (Bool-cases (not tx.open_db || (not tx.writable || (length key == 0)))) [
        | inl refused ↦ rw (create_bucket, refused) (λ e. absurd (ground arith))
        | inr taken ↦
            rw (create_bucket, taken)
              (bind-OpensOrNull key (seek tx fuel b key) (create_at tx fuel stale gap b ts key)
                (create_at-OpensOrNull gap b ts key))
      ]

  -- After `createBucket` has returned a bucket, `getBucketByName` of the same name returns it
  -- again and changes nothing.
  pub create_bucket-again :
      (gap : ℕ → ℕ) (t t' : BucketTree) (key : Item)
      → create_bucket tx fuel stale gap t key ≡ some (t', true)
      → get_bucket_by_name tx fuel stale t' key ≡ some (t', true)
  create_bucket-again gap t t' key e =
      get_bucket_by_name-IsOpen t' key
        (subst (OpensOrNull key) e (create_bucket-OpensOrNull gap t key) refl)

  -- `deleteBucket` of a name under which no bucket is open never deletes: it returns -1 and
  -- changes nothing, or it ends the process, whatever the tree holds and whatever would follow.
  pub delete_sub_bucket_fails :
      (rest : BucketTree → Option (BucketTree × ℕ)) (b : Bucket) (ts : SubBuckets) (key : Item)
      → find_bucket key ts ≡ none
      → (delete_sub_bucket tx fuel stale rest (bucket_tree b ts) key ≡ none)
        ⊎ (delete_sub_bucket tx fuel stale rest (bucket_tree b ts) key ≡ some (bucket_tree b ts, 1))
  unfolding delete_sub_bucket get_bucket_by_name
  delete_sub_bucket_fails rest b ts key e = elim (Bool-cases (not tx.open_db || not tx.writable)) [
    | inl refused ↦ inr (rw (delete_sub_bucket, refused) refl)
    | inr taken ↦ elim (Option-cases (seek tx fuel b key)) [
      | inl lost ↦ inl (rw (delete_sub_bucket, taken, lost) refl)
      | inr ((es, kv), found) ↦ elim (Bool-cases (not (same kv.key key) || is_bucket kv)) [
        | inl refused ↦ inr (rw (delete_sub_bucket, taken, found, refused) refl)
        | inr passed ↦
            let plain : is_bucket kv ≡ false = ground arith in
            let null : (not (same key kv.key) || not (is_bucket kv)) ≡ true =
              ground (arith, plain) in
            inl (
              rw (delete_sub_bucket, taken, found, passed, get_bucket_by_name, e, found, null) refl)
      ]
    ]
  ]
