-- ===== src/Page.antt =====
-- src/Bolt/page.h, type.h, meta.h and the `bucketHeader` of bucket.h: a page, its header and what
-- lies behind it. The bytes behind the header are read by the layout that wrote them: an array of
-- page ids, a `meta`, or an array of elements followed by the bytes of the keys and values.
use cbtree.Base.{ℕ, List}

pub record BucketHeader : Type 0 where
  pub root : ℕ
  pub sequence : ℕ

pub record Meta : Type 0 where
  pub magic : ℕ
  pub version : ℕ
  pub page_size : ℕ
  pub flags : ℕ
  pub root : BucketHeader
  pub free_list_page_number : ℕ
  pub total_page_number : ℕ
  pub txid : ℕ
  pub checksum : ℕ

pub record LeafPageElement : Type 0 where
  pub flag : ℕ
  pub pos : ℕ
  pub ksize : ℕ
  pub vsize : ℕ

pub record BranchPageElement : Type 0 where
  pub pos : ℕ
  pub ksize : ℕ
  pub page_id : ℕ

-- `raw` is memory that no layout describes.
pub data Body : Type 0 where
  raw : Body
  id_array : List ℕ → Body
  meta : Meta → Body
  leaf : List LeafPageElement → List ℕ → Body
  branch : List BranchPageElement → List ℕ → Body

pub record Page : Type 0 where
  pub id : ℕ
  pub flag : ℕ
  pub count : ℕ
  pub overflow : ℕ
  pub body : Body

-- `pageFlags`.
abbrev pub branch_page_flag : ℕ
branch_page_flag = 0x01

abbrev pub leaf_page_flag : ℕ
leaf_page_flag = 0x02

abbrev pub meta_page_flag : ℕ
meta_page_flag = 0x04

abbrev pub freelist_page_flag : ℕ
freelist_page_flag = 0x10

-- `valueLeafFlag` is 0.
abbrev pub bucket_leaf_flag : ℕ
bucket_leaf_flag = 0x01

-- `PAGEHEADERSIZE`, and the sizes of the two packed elements.
abbrev pub page_header_size : ℕ
page_header_size = 16

abbrev pub leaf_element_size : ℕ
leaf_element_size = 16

abbrev pub branch_element_size : ℕ
branch_element_size = 16

abbrev pub min_keys_per_page : ℕ
min_keys_per_page = 2
