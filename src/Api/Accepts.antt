-- ===== src/Api/Accepts.antt =====
-- What `Bucket::put` and `Bucket::remove` of bucket.cc accept.
use cbtree.Base.{
  ◌≡◌, ◌≢◌, Bool, false, ◌&&◌, not, ltb, Option, none, some, [], ◌∷◌, length, get_elem?, has_flag,
  arith,
}
use cbtree.Item.{Item}
use cbtree.Page.{bucket_leaf_flag}
use cbtree.Node.{Node, Inode, search}
use cbtree.Bucket.{TxView}
use cbtree.Api.{put_refuses, remove_refuses}

pub key_given : (tx : TxView) (key value : Item) → put_refuses tx 1 key value ≡ false → key ≢ []
key_given tx [] value h e = ground (arith, h)
key_given tx (c ∷ cs) value h e = ground arith

-- What a put and a remove need to be accepted.
abbrev pub may_put : TxView → Item → Item → Bool
may_put tx key value =
    (tx.open_db && tx.writable)
    && (ltb 0 (length key) && (ltb (length key) 32769 && ltb (length value) 2147483647))

abbrev pub may_remove : TxView → Item → Bool
may_remove tx key = (tx.open_db && tx.writable) && ltb 0 (length key)

pub may_put-refuses :
    (tx : TxView) (key value : Item) → put_refuses tx 1 key value ≡ not (may_put tx key value)
may_put-refuses tx key value = ground arith

pub may_remove-refuses :
    (tx : TxView) (key : Item) → remove_refuses tx 1 key ≡ not (may_remove tx key)
may_remove-refuses tx key = ground arith

-- Whether an entry is there and is that of a bucket.
abbrev pub is_sub_bucket : Option Inode → Bool
is_sub_bucket none = false
is_sub_bucket (some x) = has_flag bucket_leaf_flag x.flag

-- The entry at the place where a search for the key ends.
abbrev pub landing : Node → Item → Option Inode
landing nd key = get_elem? nd.inodes (search nd key).0
