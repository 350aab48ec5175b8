-- ===== src/Meta/Torn.antt =====
-- What `DB::getMeta` of db.cc finds after `Tx::writeMeta` of tx.cc has been interrupted while it
-- wrote a meta.
use cbtree.Base.{
  ℕ, ◌+◌, ◌%◌, ◌≤◌, ◌<◌, ◌≡◌, ◌⊎◌, refl, ap, sym, then_lem, else_lem, ◌==◌, ◌∙◌, if◌then◌else◌,
  true, false, inl, inr, some, arith,
}
use cbtree.Page.{Meta}
use cbtree.Meta.{
  MetaPages, validate, get_meta, store_meta, write_meta, magic_number, version_number,
}
use cbtree.Meta.Crash.{
  IsMetaPages, IsWritable, write_meta-store, get_meta-IsCurrent, get_meta-first, get_meta-second,
}

-- The page that the next transaction writes its meta to.
abbrev next_page : Meta → ℕ
next_page m = (m.txid + 1) % 2

abbrev meta_at : ℕ → MetaPages → Meta
meta_at i ms = if i == 0 then ms.meta0 else ms.meta1

-- A meta of which any fields have been written over `old` from `new`, and the others not yet.
pub record IsTorn (old new torn : Meta) : Type 0 where
  pub magic : (torn.magic ≡ old.magic) ⊎ (torn.magic ≡ new.magic)
  pub version : (torn.version ≡ old.version) ⊎ (torn.version ≡ new.version)
  pub page_size : (torn.page_size ≡ old.page_size) ⊎ (torn.page_size ≡ new.page_size)
  pub flags : (torn.flags ≡ old.flags) ⊎ (torn.flags ≡ new.flags)
  pub root : (torn.root ≡ old.root) ⊎ (torn.root ≡ new.root)
  pub free_list :
      (torn.free_list_page_number ≡ old.free_list_page_number)
      ⊎ (torn.free_list_page_number ≡ new.free_list_page_number)
  pub total :
      (torn.total_page_number ≡ old.total_page_number)
      ⊎ (torn.total_page_number ≡ new.total_page_number)
  pub txid : (torn.txid ≡ old.txid) ⊎ (torn.txid ≡ new.txid)
  pub checksum : (torn.checksum ≡ old.checksum) ⊎ (torn.checksum ≡ new.checksum)

-- What `validate` looks at.
abbrev HasFormat : Meta → Type 0
HasFormat m = (m.magic ≡ magic_number) × (m.version ≡ version_number) × (m.checksum ≡ 0)

validate-HasFormat : (m : Meta) → validate m ≡ true → HasFormat m
unfolding validate
validate-HasFormat m e = (ground arith, ground arith, ground arith)

HasFormat-validate : (m : Meta) → HasFormat m → validate m ≡ true
unfolding validate
HasFormat-validate m (magic, version, checksum) = rw (magic, version, checksum) refl

either : {x y z v : ℕ} → (x ≡ y) ⊎ (x ≡ z) → y ≡ v → z ≡ v → x ≡ v
either (inl e) p q = e ∙ p
either (inr e) p q = e ∙ q

IsTorn-validate :
    (old new torn : Meta)
    → validate old ≡ true
    → IsWritable new
    → IsTorn old (record new { checksum = 0 }) torn
    → validate torn ≡ true
IsTorn-validate old new torn valid w t =
    let (magic, version, checksum) = validate-HasFormat old valid in
    HasFormat-validate torn (
      either t.magic magic w.magic_ok,
      either t.version version w.version_ok,
      either t.checksum checksum refl,
    )

not_newer :
    (first second : Meta)
    → (second.txid ≤ first.txid) ⊎ (validate second ≡ false)
    → validate second ≡ true
    → second.txid ≤ first.txid
not_newer first second (inl h) valid = h
not_newer first second (inr h) valid = ground arith

torn-order :
    (old : ℕ) (m next torn : Meta)
    → (torn.txid ≡ old) ⊎ (torn.txid ≡ next.txid)
    → old < m.txid
    → next.txid ≡ m.txid + 1
    → ((torn.txid < m.txid) × ((if torn.txid == next.txid then torn else m) ≡ m))
      ⊎ ((m.txid < torn.txid) × ((if torn.txid == next.txid then torn else m) ≡ torn))
torn-order old m next torn (inl e) lower after =
    inl (omega arith, else_lem (torn.txid == next.txid) torn m (ground arith))
torn-order old m next torn (inr e) lower after =
    inr (omega arith, then_lem (torn.txid == next.txid) torn m (ground arith))

-- A commit that is interrupted while it writes its meta, on two valid metas on the pages of the
-- remainders of their transaction ids, where the commit's meta has the right magic and version, the
-- transaction id after that of the current meta `m`, and page numbers inside the file: the meta
-- goes to the page that `m` is not on; and whatever fields of it have been written when the write
-- stops, `getMeta` returns `m` if the transaction id is not among them, and if it is, the half
-- written meta, which `validate` does not tell from a whole one.
pub get_meta-torn :
    (ms : MetaPages) (m next torn : Meta)
    → IsMetaPages ms
    → validate ms.meta0 ≡ true
    → validate ms.meta1 ≡ true
    → get_meta ms ≡ some m
    → IsWritable next
    → next.txid ≡ m.txid + 1
    → IsTorn (meta_at (next_page m) ms) (record next { checksum = 0 }) torn
    → (write_meta next ms ≡ some (store_meta (next_page m) (record next { checksum = 0 }) ms))
      × (get_meta (store_meta (next_page m) torn ms)
          ≡ some (if torn.txid == next.txid then torn else m))
get_meta-torn ms m next torn v valid0 valid1 e w after t = (
  rw (← after) (write_meta-store next ms w),
  elim (get_meta-IsCurrent ms m e) [
    | inl (p, valid, h) ↦
        let slot : next_page m ≡ 1 = rw (← p) (omega (arith, v.even)) in
        let t1 : IsTorn ms.meta1 (record next { checksum = 0 }) torn = rw slot at t in
        let ok = IsTorn-validate ms.meta1 next torn valid1 w t1 in
        let old = not_newer ms.meta0 ms.meta1 h valid1 in
        let lower : ms.meta1.txid < m.txid = rw (← p) (omega (arith, old, v.even, v.odd)) in
        rw slot (elim (torn-order ms.meta1.txid m next torn t1.txid lower after) [
          | inl (k, is_m) ↦ get_meta-first ms.meta0 torn (rw p k) valid0 ∙ ap some (p ∙ sym is_m)
          | inr (k, is_torn) ↦ get_meta-second ms.meta0 torn (rw p k) ok ∙ ap some (sym is_torn)
        ])
    | inr (p, valid, h) ↦
        let slot : next_page m ≡ 0 = rw (← p) (omega (arith, v.odd)) in
        let t0 : IsTorn ms.meta0 (record next { checksum = 0 }) torn = rw slot at t in
        let ok = IsTorn-validate ms.meta0 next torn valid0 w t0 in
        let old = not_newer ms.meta1 ms.meta0 h valid0 in
        let lower : ms.meta0.txid < m.txid = rw (← p) (omega (arith, old, v.even, v.odd)) in
        rw slot (elim (torn-order ms.meta0.txid m next torn t0.txid lower after) [
          | inl (k, is_m) ↦ get_meta-second torn ms.meta1 (rw p k) valid1 ∙ ap some (p ∙ sym is_m)
          | inr (k, is_torn) ↦ get_meta-first torn ms.meta1 (rw p k) ok ∙ ap some (sym is_torn)
        ])
  ],
)
