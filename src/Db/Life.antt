-- ===== src/Db/Life.antt =====
-- The life of transactions in db.cc: `beginRWTx`, `view`, `update` and `closeTx`.
use cbtree.Base.{
  ℕ, zero, suc, ◌+◌, ◌-◌, ◌≤◌, ◌<◌, ◌≡◌, ◌≢◌, refl, sym, ap, ◌∙◌, leb, ◌==◌, if◌then◌else◌, true,
  false, Bool-cases, inl, inr, Option, none, some, List, [], ◌∷◌, ◌++◌, get_elem?, All, count, min,
  u64, done, aborted, arith,
}
use cbtree.Base.Assoc.{lookup}
use cbtree.Base.Sort.{IsSorted}
use cbtree.Page.{Page, Meta}
use cbtree.FreeList.{FreeList}
use cbtree.FreeList
use cbtree.FreeList.Pending.{held, release_lem}
use cbtree.Meta.{get_meta, tx_meta}
use cbtree.Db.{
  Db, Tx, begin_rw_tx, begin_tx, close_tx, remove_tx, erase_tx, rollback, view, view_with, update,
  update_with, min_id, release_below, new_tx, is_tx,
}

-- A database that a writer may begin on, with the current meta `m`.
pub record IsIdle (d : Db) (m : Meta) : Type 0 where
  pub opened : d.opened ≡ true
  pub writable : d.read_only ≡ false
  pub unlocked : d.rw_locked ≡ false
  pub current : get_meta d.metas ≡ some m

-- The ids of the read transactions have been given out.
abbrev pub IsFresh : Db → Type 0
IsFresh d = All (λ t. t.id < d.next_id) d.txs

min_id-le_arg : (ts : List Tx) (m : ℕ) → min_id ts m ≤ m
unfolding min_id
min_id-le_arg [] m = omega arith
min_id-le_arg (t ∷ ts) m = omega (arith, min_id-le_arg ts (min m t.meta.txid))

min_id-le : (ts : List Tx) (m i : ℕ) (t : Tx) → get_elem? ts i ≡ some t → min_id ts m ≤ t.meta.txid
unfolding min_id
min_id-le [] m i t e = absurd (ground arith)
min_id-le (s ∷ ts) m zero t e =
    let same : s ≡ t = ground arith in rw same (omega (arith, min_id-le_arg ts (min m t.meta.txid)))
min_id-le (s ∷ ts) m (suc i) t e = min_id-le ts (min m s.meta.txid) i t e

release_below_lem :
    (n : ℕ) (f : FreeList)
    → IsSorted f.ids
    → ((a : ℕ) → count a (held (release_below n f)) ≡ count a (held f))
      × ((t : ℕ) → n ≤ t → lookup t (release_below n f).pending ≡ lookup t f.pending)
release_below_lem zero f s = (λ a. refl, λ t h. refl)
release_below_lem (suc n) f s =
    let (held_kept, sorted, kept) = release_lem n f s in
    (held_kept, λ t h. let b : leb t n ≡ false = ground arith in kept t ∙ rw b refl)

-- `beginRWTx` on an open, writable database with a valid meta, no other writer and the free ids in
-- order: it returns a transaction, writable and with the transaction id after that of the current
-- meta, and holds the writers' lock. It loses no page of the free list and makes none up; and for
-- every transaction id from that of an open reader on, the pages pending for it are what they
-- were.
pub begin_rw_tx_lem :
    (d : Db) (m : Meta)
    → IsIdle d m
    → IsSorted d.free_list.ids
    → (d' : Db) × (t : Tx) × (begin_rw_tx d ≡ done (d', some t))
      × (t.writable ≡ true)
      × (t.meta ≡ tx_meta true m)
      × (d'.rw_locked ≡ true)
      × ((a : ℕ) → count a (held d'.free_list) ≡ count a (held d.free_list))
      × ((i : ℕ) (r : Tx) (txid : ℕ)
          → get_elem? d.txs i ≡ some r
          → r.meta.txid ≤ txid
          → lookup txid d'.free_list.pending ≡ lookup txid d.free_list.pending)
unfolding begin_rw_tx
begin_rw_tx_lem d m v s =
    let (all_held, kept) = release_below_lem (min_id d.txs (u64 - 1)) d.free_list s in
    (
      record d {
        rw_locked = true;
        rwtx = some (new_tx d true m);
        next_id = d.next_id + 1;
        free_list = release_below (min_id d.txs (u64 - 1)) d.free_list;
      },
      new_tx d true m,
      rw (v.writable, v.unlocked, v.opened, v.current) refl,
      refl,
      refl,
      refl,
      all_held,
      λ i r txid e h. kept txid (omega (arith, min_id-le d.txs (u64 - 1) i r e)),
    )

-- The database as `beginTx` and `beginRWTx` leave it.
abbrev reading : Db → Meta → Db
reading d m = record d {
  readers = d.readers + 1;
  txs = d.txs ++ new_tx d false m ∷ [];
  next_id = d.next_id + 1;
}

abbrev pub writing : Db → Meta → Db
writing d m = record d {
  rw_locked = true;
  rwtx = some (new_tx d true m);
  next_id = d.next_id + 1;
  free_list = release_below (min_id d.txs (u64 - 1)) d.free_list;
}

erase_tx-append :
    (id : ℕ) (ts : List Tx) (t : Tx)
    → All (λ s. s.id < id) ts
    → t.id ≡ id
    → erase_tx id (ts ++ t ∷ []) ≡ ts
unfolding erase_tx
erase_tx-append id [] t h e = let b : (t.id == id) ≡ true = ground arith in rw b refl
erase_tx-append id (s ∷ ts) t (h, hs) e =
    let b : (s.id == id) ≡ false = ground arith in rw (b, erase_tx-append id ts t hs e) refl

-- `view` on an open database with a valid meta, whose readers have ids that have been given out
-- and whose writer, if any, has another id than the next: with any user's function it returns 0 or
-- -1 as that function does, and afterwards the locks, the open transactions, the free list and the
-- meta pages are what they were.
pub view_lem :
    (free_page : Page) (fn : Tx → Db → ℕ) (d : Db) (m : Meta)
    → d.opened ≡ true
    → get_meta d.metas ≡ some m
    → IsFresh d
    → is_tx d.rwtx d.next_id ≡ false
    → view free_page fn d
      ≡ done (
        record d { next_id = d.next_id + 1 },
        if fn (new_tx d false m) (reading d m) == 0 then 0 else 1,
      )
unfolding view view_with begin_tx rollback close_tx remove_tx
view_lem free_page fn d m o c fresh other =
    let back : d.readers + 1 - 1 ≡ d.readers = omega arith in
    rw (o, c, other, erase_tx-append d.next_id d.txs (new_tx d false m) fresh refl, back) refl

rollback-rw_locked :
    (free_page : Page) (t : Tx) (d d' : Db)
    → rollback free_page t d ≡ some d'
    → (d'.rw_locked ≡ d.rw_locked) × (d'.read_only ≡ d.read_only)
unfolding rollback
rollback-rw_locked free_page t d d' e = elim (Bool-cases t.writable) [
  | inl w ↦
      reloaded (FreeList.reload free_page (FreeList.rollback t.meta.txid d.free_list)) (rw w at e)
  | inr w ↦
      let same : d ≡ d' = ground arith in
      (ap (λ x. x.rw_locked) (sym same), ap (λ x. x.read_only) (sym same))
]
  where
    reloaded :
        (o : Option FreeList)
        → elim o [ some f ↦ some (record d { free_list = f }) | none ↦ none ] ≡ some d'
        → (d'.rw_locked ≡ d.rw_locked) × (d'.read_only ≡ d.read_only)
    reloaded none p = absurd (ground arith)
    reloaded (some f) p =
        let same : record d { free_list = f } ≡ d' = ground arith in
        (ap (λ x. x.rw_locked) (sym same), ap (λ x. x.read_only) (sym same))

pub begin_rw_tx-writing :
    (d : Db) (m : Meta) → IsIdle d m → begin_rw_tx d ≡ done (writing d m, some (new_tx d true m))
unfolding begin_rw_tx
begin_rw_tx-writing d m v = rw (v.writable, v.unlocked, v.opened, v.current) refl

begin_rw_tx-blocks : (d : Db) → d.rw_locked ≡ true → d.read_only ≡ false → begin_rw_tx d ≡ aborted
unfolding begin_rw_tx
begin_rw_tx-blocks d l w = rw (w, l) refl

-- `update` on an open, writable database with a valid meta and no other writer, whose user's
-- function fails and leaves the database as it is, and where the rollback after it can read the
-- free list: it returns -1 with the writers' lock still taken, and the next `beginRWTx` blocks for
-- ever.
pub update_failed :
    (free_page : Page) (commit : Tx → Db → Db × ℕ) (status : ℕ) (d d' : Db) (m : Meta)
    → IsIdle d m
    → status ≢ 0
    → rollback free_page (new_tx d true m) (writing d m) ≡ some d'
    → (update free_page (λ t e. (e, status)) commit d ≡ done (d', 1))
      × (d'.rw_locked ≡ true)
      × (begin_rw_tx d' ≡ aborted)
unfolding update update_with
update_failed free_page commit status d d' m v bad r =
    let (locked, same_mode) = rollback-rw_locked free_page (new_tx d true m) (writing d m) d' r in
    let failed : (status == 0) ≡ false = ground arith in
    (
      rw (begin_rw_tx-writing d m v, failed, r) refl,
      locked,
      begin_rw_tx-blocks d' locked (same_mode ∙ v.writable),
    )

-- `update` on an open, writable database with a valid meta and no other writer, whose user's
-- function succeeds, with any `commit` that leaves `rwtx_` as it is: it returns what `commit`
-- returns, and leaves the database as `commit` did, with the writers' lock given back.
pub update_committed :
    (free_page : Page) (fn commit : Tx → Db → Db × ℕ) (d d1 d2 : Db) (m : Meta) (status : ℕ)
    → IsIdle d m
    → fn (new_tx d true m) (writing d m) ≡ (d1, 0)
    → commit (new_tx d true m) d1 ≡ (d2, status)
    → d2.rwtx ≡ some (new_tx d true m)
    → update free_page fn commit d ≡ done (record d2 { rwtx = none; rw_locked = false }, status)
unfolding update update_with close_tx
update_committed free_page fn commit d d1 d2 m status v e c r =
    let self : (d.next_id == d.next_id) ≡ true = ground arith in
    rw (begin_rw_tx-writing d m v, e, c, r, self) refl
