-- ===== src/Inline.antt =====
-- `Bucket::write` and `openBucket` of src/Bolt/bucket.cc: a bucket in the value of an entry of its
-- parent. A value is its header, 16 bytes, and for an inline bucket the page of its root behind it.
-- Numbers stand in memory with the low byte first.
pub mod Bytes
pub mod Pages
pub mod Open
use cbtree.Base.{
  ℕ, zero, suc, ◌+◌, ◌*◌, ◌/◌, ◌%◌, ◌==◌, if◌then◌else◌, Bool, true, false, Option, none, some,
  List, [], ◌∷◌, ◌++◌, length, drop, has_flag, Run, done, aborted,
}
use cbtree.Item.{Item}
use cbtree.Page.{
  BucketHeader, Page, Body, raw, id_array, meta, leaf, branch, LeafPageElement, leaf_page_flag,
}
use cbtree.Node.{Node}
use cbtree.Heap.{Heap}
use cbtree.Bucket.{Bucket}
use cbtree.Codec.{◌>>=◌}
use cbtree.Codec
use cbtree.Meta.{zero_page}

-- A number of `n` bytes.
unfoldable pub le_bytes : (n x : ℕ) → List ℕ
le_bytes zero x = []
le_bytes (suc n) x = x % 256 ∷ le_bytes n (x / 256)

-- The number in the first `n` bytes, and the bytes behind it; `none` is a read past the end.
unfoldable pub read_le : (n : ℕ) → List ℕ → Option (ℕ × List ℕ)
read_le zero bs = some (0, bs)
read_le (suc n) [] = none
read_le (suc n) (b ∷ bs) = read_le n bs >>= λ r. some (b + 256 * r.0, r.1)

-- The two numbers of a `bucketHeader`.
abbrev pub header_bytes : BucketHeader → List ℕ
header_bytes h = le_bytes 8 h.root ++ le_bytes 8 h.sequence

unfoldable pub read_header : List ℕ → Option (BucketHeader × List ℕ)
read_header bs = do
  root ← read_le 8 bs
  sequence ← read_le 8 root.1
  some (record { root = root.0; sequence = sequence.0 }, sequence.1)

-- The elements of a leaf page.
unfoldable pub element_bytes : List LeafPageElement → List ℕ
element_bytes [] = []
element_bytes (e ∷ es) =
    le_bytes 4 e.flag
    ++ (le_bytes 4 e.pos ++ (le_bytes 4 e.ksize ++ (le_bytes 4 e.vsize ++ element_bytes es)))

pub read_elements : (n : ℕ) → List ℕ → Option (List LeafPageElement × List ℕ)
read_elements zero bs = some ([], bs)
read_elements (suc n) bs = do
  flag ← read_le 4 bs
  pos ← read_le 4 flag.1
  ksize ← read_le 4 pos.1
  vsize ← read_le 4 ksize.1
  rest ← read_elements n vsize.1
  some (record { flag = flag.0; pos = pos.0; ksize = ksize.0; vsize = vsize.0 } ∷ rest.0, rest.1)

-- A page that shows elements of a leaf, or nothing, behind its header. An inline bucket has no
-- other.
abbrev pub body_bytes : Body → List ℕ
body_bytes (leaf es content) = element_bytes es ++ content
body_bytes _ = []

unfoldable pub page_bytes : Page → List ℕ
page_bytes p =
    le_bytes 8 p.id
    ++ (le_bytes 2 p.flag ++ (le_bytes 2 p.count ++ (le_bytes 4 p.overflow ++ body_bytes p.body)))

abbrev pub read_leaf_body : (is_leaf : Bool) → (count : ℕ) → List ℕ → Option Body
read_leaf_body true (suc n) bs = read_elements (suc n) bs >>= λ r. some (leaf r.0 r.1)
read_leaf_body _ _ bs = some raw

unfoldable pub read_page : List ℕ → Option Page
unfolding read_elements
read_page bs = do
  id ← read_le 8 bs
  flag ← read_le 2 id.1
  count ← read_le 2 flag.1
  overflow ← read_le 4 count.1
  body ← read_leaf_body (has_flag leaf_page_flag flag.0) count.0 overflow.1
  some (record { id = id.0; flag = flag.0; count = count.0; overflow = overflow.0; body = body })

-- `Bucket::write`: the header, and the root node on a page whose memory was cleared.
abbrev value_of : BucketHeader → Run Page → Run Item
value_of header (done p) = done (header_bytes header ++ page_bytes p)
value_of header aborted = aborted

unfoldable pub write_bucket : (gap : ℕ → ℕ) → BucketHeader → (root : Node) → Run Item
write_bucket gap header root = value_of header (Codec.write gap root zero_page)

-- A new bucket with its header, and the page that `page_` points to.
abbrev pub new_bucket : BucketHeader → Option Page → Bucket
new_bucket header page = record {
  header = header;
  page = page;
  root_node = none;
  parent_node = none;
  nodes = [];
  heap = record { nodes = []; next = 0 };
}

-- `openBucket`. The page of an inline bucket is that in the value on the page of the parent, if the
-- entry stands on one; otherwise it is in a copy of the value that ends with the call, and `stale`
-- is what is in the memory of that copy later. The model reads the page when the bucket is opened;
-- `none` is a read past the end of the value.
unfoldable pub open_bucket :
    (stale : List ℕ → List ℕ) → (value : Item) → (on_page : Bool) → Option Bucket
unfolding read_header read_page
open_bucket stale value on_page = read_header value >>= λ r.
    let inline =
      read_page (if on_page then r.1 else stale r.1) >>= λ p. some (new_bucket r.0 (some p)) in
    if r.0.root == 0 then inline else some (new_bucket r.0 none)
