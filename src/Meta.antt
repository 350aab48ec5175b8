-- ===== src/Meta.antt =====
-- src/Bolt/meta.h, meta.cc, `Tx::writeMeta` of tx.cc, and `meta::validate`, `DB::getMeta` and the
-- meta pages of `DB::Init` of db.cc: the two pages at the front of the file that say where
-- everything else stands. `none` is a failed assertion.
pub mod Crash
pub mod Torn
use cbtree.Base.{
  ℕ, ◌+◌, ◌%◌, ltb, leb, ◌==◌, if◌then◌else◌, Bool, true, false, not, ◌&&◌, Option, none, some, u64,
  set_flag,
}
use cbtree.Page.{BucketHeader, Meta, Page, Body, raw, meta, meta_page_flag}
use cbtree.Codec.{◌>>=◌}

-- `MAGIC` and `VERSION`.
abbrev pub magic_number : ℕ
magic_number = 0xED0CDAED

abbrev pub version_number : ℕ
version_number = 1

-- `sum64`.
abbrev pub sum64 : Meta → ℕ
sum64 m = 0

unfoldable pub validate : Meta → Bool
validate m =
    if not (m.magic == magic_number)
    then false
    else if not (m.version == version_number)
    then false
    else if m.checksum == 0
    then true
    else m.checksum == sum64 m

-- `meta::write`.
unfoldable pub write : Meta → Page → Option Page
write m p =
    if leb m.total_page_number m.root.root
    then none
    else if leb m.total_page_number m.free_list_page_number
    then none
    else some (record p {
      id = m.txid % 2;
      flag = set_flag meta_page_flag p.flag;
      body = meta (record m { checksum = 0 });
    })

-- What stands in the two meta pages.
pub record MetaPages : Type 0 where
  pub meta0 : Meta
  pub meta1 : Meta

-- A meta as `DB::Init` writes it to page `i`.
abbrev pub first_meta : (page_size i : ℕ) → Meta
first_meta page_size i = record {
  magic = magic_number;
  version = version_number;
  page_size = page_size;
  flags = 0;
  root = record { root = 3; sequence = 0 };
  free_list_page_number = 2;
  total_page_number = 4;
  txid = i;
  checksum = 0;
}

-- The meta pages that `DB::Init` writes.
abbrev pub init_metas : (page_size : ℕ) → MetaPages
init_metas page_size = record { meta0 = first_meta page_size 0; meta1 = first_meta page_size 1 }

-- `getMeta`: the one with the higher transaction id, or the other one if that is not valid.
abbrev pub pick_meta : Meta → Meta → Option Meta
pick_meta first second =
    if validate first then some first else if validate second then some second else none

unfoldable pub get_meta : MetaPages → Option Meta
get_meta ms =
    if ltb ms.meta0.txid ms.meta1.txid
    then pick_meta ms.meta1 ms.meta0
    else pick_meta ms.meta0 ms.meta1

-- The meta that `Tx::init` gives to a transaction.
unfoldable pub tx_meta : (writable : Bool) → Meta → Meta
tx_meta writable m = if writable then record m { txid = (m.txid + 1) % u64 } else m

-- The file after a write at page `i`, which is 0 or 1.
abbrev pub store_meta : ℕ → Meta → MetaPages → MetaPages
store_meta i m ms = if i == 0 then record ms { meta0 = m } else record ms { meta1 = m }

-- The page of zeros that `writeMeta` fills.
abbrev pub zero_page : Page
zero_page = record { id = 0; flag = 0; count = 0; overflow = 0; body = raw }

abbrev pub body_meta : Body → Option Meta
body_meta (meta m) = some m
body_meta _ = none

-- `Tx::writeMeta`, where the write to the file succeeds.
unfoldable pub write_meta : Meta → MetaPages → Option MetaPages
unfolding write
write_meta m ms = write m zero_page >>= λ p. body_meta p.body >>= λ m'. some (store_meta p.id m' ms)
