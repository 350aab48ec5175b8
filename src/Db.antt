-- ===== src/Db.antt =====
-- src/Bolt/db.h, db.cc and tx.cc: how a database hands out transactions, the locks that they hold,
-- and the size of the memory map. A thread that blocks for ever on a mutex that it cannot get and a
-- failed assertion are both `aborted`.
pub mod Life
pub mod Mmap
pub mod Files
pub mod Steps
use cbtree.Base.{
  ℕ, zero, suc, ◌+◌, ◌-◌, ◌^◌, leb, ltb, ◌==◌, if◌then◌else◌, Bool, true, false, not, Option, none,
  some, List, [], ◌∷◌, ◌++◌, min, u64, Run, done, aborted, ◌>>=◌,
}
use cbtree.Page.{Meta, Page}
use cbtree.FreeList.{FreeList}
use cbtree.FreeList
use cbtree.Meta.{MetaPages, get_meta, tx_meta}

-- A transaction; `id` is the address of the object.
pub record Tx : Type 0 where
  pub id : ℕ
  pub writable : Bool
  pub meta : Meta

-- `rw_locked` is `rwLock_`; `readers` counts the read locks on `mmapLock_`. `metaLock_` is taken
-- and given back inside each operation.
pub record Db : Type 0 where
  pub opened : Bool
  pub read_only : Bool
  pub metas : MetaPages
  pub free_list : FreeList
  pub rw_locked : Bool
  pub readers : ℕ
  pub rwtx : Option Tx
  pub txs : List Tx
  pub next_id : ℕ

-- `getMeta`, with its assertion.
abbrev pub or_abort {ℓ} : {A : Type ℓ} → Option A → Run A
or_abort none = aborted
or_abort (some a) = done a

-- `init` of the new transaction.
abbrev pub new_tx : Db → (writable : Bool) → Meta → Tx
new_tx d writable m = record { id = d.next_id; writable = writable; meta = tx_meta writable m }

-- The lowest transaction id of the open read transactions, `UINT64_MAX` if there is none.
pub min_id : List Tx → ℕ → ℕ
min_id [] m = m
min_id (t ∷ ts) m = min_id ts (min m t.meta.txid)

-- `freeList_->release(minId - 1)`.
abbrev pub release_below : ℕ → FreeList → FreeList
release_below zero f = f
release_below (suc n) f = FreeList.release n f

-- `beginRWTx`; `none` is a null pointer.
unfoldable pub begin_rw_tx : Db → Run (Db × Option Tx)
unfolding min_id
begin_rw_tx d =
    let begun = or_abort (get_meta d.metas) >>= λ m. done (
      record d {
        rw_locked = true;
        rwtx = some (new_tx d true m);
        next_id = d.next_id + 1;
        free_list = release_below (min_id d.txs (u64 - 1)) d.free_list;
      },
      some (new_tx d true m),
    ) in
    if d.read_only
    then done (d, none)
    else if d.rw_locked
    then aborted
    else if not d.opened
    then done (d, none)
    else begun

-- `beginTx`.
unfoldable pub begin_tx : Db → Run (Db × Option Tx)
begin_tx d =
    let begun = or_abort (get_meta d.metas) >>= λ m. done (
      record d {
        readers = d.readers + 1;
        txs = d.txs ++ new_tx d false m ∷ [];
        next_id = d.next_id + 1;
      },
      some (new_tx d false m),
    ) in
    if not d.opened then done (d, none) else begun

-- The loop of `removeTx`: the first entry that is the transaction.
pub erase_tx : ℕ → List Tx → List Tx
erase_tx id [] = []
erase_tx id (t ∷ ts) = let rest = erase_tx id ts in if t.id == id then ts else t ∷ rest

-- `removeTx`, in a thread that holds a read lock.
unfoldable pub remove_tx : ℕ → Db → Db
unfolding erase_tx
remove_tx id d = record d { readers = d.readers - 1; txs = erase_tx id d.txs }

abbrev pub is_tx : Option Tx → ℕ → Bool
is_tx none id = false
is_tx (some t) id = t.id == id

-- `closeTx`, with `resetRWTX` and `writerLeave`.
unfoldable pub close_tx : Tx → Db → Db
unfolding remove_tx
close_tx t d =
    if is_tx d.rwtx t.id then record d { rwtx = none; rw_locked = false } else remove_tx t.id d

-- `Tx::rollback`, of a transaction that is not managed at the time; `free_page` is the page of the
-- free list in the file, and `none` a stray read of it.
unfoldable pub rollback : (free_page : Page) → Tx → Db → Option Db
rollback free_page t d = elim t.writable [
  | true ↦ elim (FreeList.reload free_page (FreeList.rollback t.meta.txid d.free_list)) [
    | some f ↦ some (record d { free_list = f })
    | none ↦ none
  ]
  | false ↦ some d
]

-- `view`; `fn` is the user's function, which sees the database and returns a status. 1 is -1.
module _ (free_page : Page) where
  unfoldable pub view_with : (fn : Tx → Db → ℕ) → Db × Option Tx → Run (Db × ℕ)
  view_with fn (d, none) = done (d, 1)
  view_with fn (d, some t) =
      or_abort (rollback free_page t d) >>= λ d'. done (close_tx t d', if fn t d == 0 then 0 else 1)

  unfoldable pub view : (fn : Tx → Db → ℕ) → Db → Run (Db × ℕ)
  unfolding view_with
  view fn d = begin_tx d >>= view_with fn

  -- `update`; `fn` is the user's function, which may change the database, and `commit` is
  -- `Tx::commit`.
  unfoldable pub update_with : (fn commit : Tx → Db → Db × ℕ) → Db × Option Tx → Run (Db × ℕ)
  update_with fn commit (d, none) = done (d, 1)
  update_with fn commit (d, some t) =
      let r = fn t d in
      let failed = or_abort (rollback free_page t r.0) >>= λ d'. done (d', 1) in
      let c = commit t r.0 in if r.1 == 0 then done (close_tx t c.0, c.1) else failed

  unfoldable pub update : (fn commit : Tx → Db → Db × ℕ) → Db → Run (Db × ℕ)
  unfolding update_with
  update fn commit d = begin_rw_tx d >>= update_with fn commit

-- The loop of `getMmapSize` over the `n` powers of two from the `i`th on.
pub mmap_loop : (n i target : ℕ) → Option ℕ
mmap_loop zero i target = none
mmap_loop (suc n) i target =
    let later = mmap_loop n (i + 1) target in if leb target (2 ^ i) then some (2 ^ i) else later

-- `MAXMAPSIZE`.
abbrev pub max_map_size : ℕ
max_map_size = 0x7FFFFFFF

abbrev too_large : ℕ → Option ℕ → Run (Option ℕ)
too_large target (some size) = done (some size)
too_large target none = if ltb max_map_size target then done none else aborted

-- `getMmapSize`: the new target size, or nothing for the return value -1.
unfoldable pub get_mmap_size : (target : ℕ) → Run (Option ℕ)
unfolding mmap_loop
get_mmap_size target = too_large target (mmap_loop 16 15 target)
