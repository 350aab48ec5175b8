-- ===== src/Meta/Crash.antt =====
-- What a commit of tx.cc does to the meta pages that `DB::getMeta` of db.cc chooses between, when
-- it goes through.
use cbtree.Base.{
  ℕ, ◌+◌, ◌%◌, ◌≤◌, ◌<◌, ◌≡◌, ◌⊎◌, refl, ltb, leb, true, false, Bool-cases, inl, inr, some, arith,
}
use cbtree.Page.{Meta}
use cbtree.Meta.{
  MetaPages, validate, write, get_meta, pick_meta, store_meta, write_meta, init_metas, first_meta,
  magic_number, version_number,
}

-- The id of a meta page is the remainder of its transaction id.
pub record IsMetaPages (ms : MetaPages) : Type 0 where
  pub even : ms.meta0.txid % 2 ≡ 0
  pub odd : ms.meta1.txid % 2 ≡ 1

-- A meta that may be written.
pub record IsWritable (m : Meta) : Type 0 where
  pub magic_ok : m.magic ≡ magic_number
  pub version_ok : m.version ≡ version_number
  pub root_inside : m.root.root < m.total_page_number
  pub free_list_inside : m.free_list_page_number < m.total_page_number

validate-unsummed : (m : Meta) → IsWritable m → validate (record m { checksum = 0 }) ≡ true
unfolding validate
validate-unsummed m w = rw (w.magic_ok, w.version_ok) refl

pub write_meta-store :
    (m : Meta) (ms : MetaPages)
    → IsWritable m
    → write_meta m ms ≡ some (store_meta (m.txid % 2) (record m { checksum = 0 }) ms)
unfolding write_meta write
write_meta-store m ms w =
    let root : leb m.total_page_number m.root.root ≡ false = ground (arith, w.root_inside) in
    let list : leb m.total_page_number m.free_list_page_number ≡ false =
      ground (arith, w.free_list_inside) in
    rw (root, list) refl

-- `m` is the first of two metas and valid, and the other is older or not valid.
abbrev pub IsCurrent : Meta → Meta → Meta → Type 0
IsCurrent m first second =
    (first ≡ m) × (validate first ≡ true) × ((second.txid ≤ first.txid) ⊎ (validate second ≡ false))

pick_meta-cases :
    (first second m : Meta)
    → pick_meta first second ≡ some m
    → ((first ≡ m) × (validate first ≡ true))
      ⊎ ((second ≡ m) × (validate second ≡ true) × (validate first ≡ false))
pick_meta-cases first second m e = elim (Bool-cases (validate first)) [
  | inl valid ↦ inl (ground arith, valid)
  | inr broken ↦ elim (Bool-cases (validate second)) [
    | inl valid ↦ inr (ground arith, valid, broken)
    | inr both ↦ absurd (ground arith)
  ]
]

pub get_meta-IsCurrent :
    (ms : MetaPages) (m : Meta)
    → get_meta ms ≡ some m
    → IsCurrent m ms.meta0 ms.meta1 ⊎ IsCurrent m ms.meta1 ms.meta0
unfolding get_meta
get_meta-IsCurrent ms m e = elim (Bool-cases (ltb ms.meta0.txid ms.meta1.txid)) [
  | inl newer ↦ elim (pick_meta-cases ms.meta1 ms.meta0 m (rw newer at e)) [
    | inl (p, valid) ↦ inr (p, valid, inl (ground arith))
    | inr (p, valid, broken) ↦ inl (p, valid, inr broken)
  ]
  | inr older ↦ elim (pick_meta-cases ms.meta0 ms.meta1 m (rw older at e)) [
    | inl (p, valid) ↦ inl (p, valid, inl (ground arith))
    | inr (p, valid, broken) ↦ inr (p, valid, inr broken)
  ]
]

pub get_meta-first :
    (m0 m1 : Meta)
    → m1.txid < m0.txid
    → validate m0 ≡ true
    → get_meta (record { meta0 = m0; meta1 = m1 }) ≡ some m0
unfolding get_meta
get_meta-first m0 m1 h valid =
    let newer : ltb m0.txid m1.txid ≡ false = ground arith in rw (newer, valid) refl

pub get_meta-second :
    (m0 m1 : Meta)
    → m0.txid < m1.txid
    → validate m1 ≡ true
    → get_meta (record { meta0 = m0; meta1 = m1 }) ≡ some m1
unfolding get_meta
get_meta-second m0 m1 h valid =
    let newer : ltb m0.txid m1.txid ≡ true = ground arith in rw (newer, valid) refl

-- A commit, on meta pages whose ids are the remainders of their transaction ids, whose meta has
-- the right magic and version, the transaction id after that of the meta it began from, and page
-- numbers inside the file: it writes its meta, `getMeta` from then on returns that meta, and the
-- page ids are again the remainders of the transaction ids.
pub write_meta-get_meta :
    (ms : MetaPages) (m next : Meta)
    → IsMetaPages ms
    → get_meta ms ≡ some m
    → IsWritable next
    → next.txid ≡ m.txid + 1
    → (written : MetaPages) × (write_meta next ms ≡ some written)
      × IsMetaPages written
      × (get_meta written ≡ some (record next { checksum = 0 }))
write_meta-get_meta ms m next v e w t = elim (get_meta-IsCurrent ms m e) [
  | inl (p, valid, h) ↦
      let even : m.txid % 2 ≡ 0 = rw (← p) v.even in
      let odd : next.txid % 2 ≡ 1 = omega arith in
      let older : ms.meta0.txid < next.txid = rw p (omega arith) in
      (
        record { meta0 = ms.meta0; meta1 = record next { checksum = 0 } },
        rw odd at (write_meta-store next ms w),
        record { even = v.even; odd = odd },
        get_meta-second ms.meta0 (record next { checksum = 0 }) older (validate-unsummed next w),
      )
  | inr (p, valid, h) ↦
      let odd : m.txid % 2 ≡ 1 = rw (← p) v.odd in
      let even : next.txid % 2 ≡ 0 = omega arith in
      let older : ms.meta1.txid < next.txid = rw p (omega arith) in
      (
        record { meta0 = record next { checksum = 0 }; meta1 = ms.meta1 },
        rw even at (write_meta-store next ms w),
        record { even = even; odd = v.odd },
        get_meta-first (record next { checksum = 0 }) ms.meta1 older (validate-unsummed next w),
      )
]

-- The file that `Init` writes has such meta pages, and its current meta is the second.
pub init_metas-get_meta :
    (page_size : ℕ)
    → IsMetaPages (init_metas page_size)
      × (get_meta (init_metas page_size) ≡ some (first_meta page_size 1))
unfolding get_meta validate
init_metas-get_meta page_size = (record { even = refl; odd = refl }, refl)
