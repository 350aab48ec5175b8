-- ===== src/Examples/Database.antt =====
-- Runs of db.cc and tx.cc on a database as `DB::Init` leaves it.
use cbtree.Base.{
  ℕ, inl, inr, ◌≡◌, ◌≤◌, refl, true, false, none, some, [], ◌∷◌, get_elem?, count, done, aborted,
  arith,
}
use cbtree.Base.Assoc.{lookup}
use cbtree.Page.{Meta, Page, raw}
use cbtree.FreeList
use cbtree.FreeList.Pending.{held}
use cbtree.Meta.{
  MetaPages, validate, get_meta, tx_meta, store_meta, write_meta, init_metas, first_meta,
}
use cbtree.Meta.Crash.{IsMetaPages, write_meta-get_meta, init_metas-get_meta}
use cbtree.Meta.Torn.{get_meta-torn}
use cbtree.Db.{close_tx, Db, Tx, new_tx, begin_rw_tx, update, rollback}
use cbtree.Db.Steps.{
  IsSound, Reachable, start, then_step, begins_writing, closes_reader, Reachable-IsSound,
}
use cbtree.Db.Life.{begin_rw_tx-writing, IsIdle, writing, begin_rw_tx_lem, update_failed}

-- A commit that moves the root to page 2: its transaction id is written, and the root is not.
abbrev moved : Meta
moved = record (first_meta 4096 2) { root = record { root = 2; sequence = 0 } }

abbrev torn : Meta
torn = first_meta 4096 2

get_meta-torn_example :
    (write_meta moved (init_metas 4096) ≡ some (store_meta 0 moved (init_metas 4096)))
    × (get_meta (store_meta 0 torn (init_metas 4096)) ≡ some torn)
unfolding validate
get_meta-torn_example =
    get_meta-torn (init_metas 4096) (first_meta 4096 1) moved torn
      (record { even = refl; odd = refl }) refl refl (init_metas-get_meta 4096).1
      (record {
        magic_ok = refl;
        version_ok = refl;
        root_inside = omega arith;
        free_list_inside = omega arith;
      })
      refl
      (record {
        magic = inl refl;
        version = inl refl;
        page_size = inl refl;
        flags = inl refl;
        root = inl refl;
        free_list = inl refl;
        total = inl refl;
        txid = inr refl;
        checksum = inl refl;
      })

write_meta-get_meta_example :
    (written : MetaPages) × (write_meta (first_meta 4096 2) (init_metas 4096) ≡ some written)
    × IsMetaPages written
    × (get_meta written ≡ some (first_meta 4096 2))
write_meta-get_meta_example =
    write_meta-get_meta (init_metas 4096) (first_meta 4096 1) (first_meta 4096 2)
      (record { even = refl; odd = refl }) (init_metas-get_meta 4096).1
      (record {
        magic_ok = refl;
        version_ok = refl;
        root_inside = omega arith;
        free_list_inside = omega arith;
      })
      refl

-- An open database with one reader; page 8 is pending for transaction 1.
abbrev some_db : Db
some_db = record {
  opened = true;
  read_only = false;
  metas = init_metas 4096;
  free_list = record { ids = []; pending = (1, 8 ∷ []) ∷ []; cache = [] };
  rw_locked = false;
  readers = 1;
  rwtx = none;
  txs = record { id = 0; writable = false; meta = first_meta 4096 1 } ∷ [];
  next_id = 1;
}

some_db-IsIdle : IsIdle some_db (first_meta 4096 1)
some_db-IsIdle = record {
  opened = refl;
  writable = refl;
  unlocked = refl;
  current = (init_metas-get_meta 4096).1;
}

begin_rw_tx_lem_example :
    (d' : Db) × (t : Tx) × (begin_rw_tx some_db ≡ done (d', some t))
    × (t.writable ≡ true)
    × (t.meta ≡ tx_meta true (first_meta 4096 1))
    × (d'.rw_locked ≡ true)
    × ((a : ℕ) → count a (held d'.free_list) ≡ count a (held some_db.free_list))
    × ((i : ℕ) (r : Tx) (txid : ℕ)
        → get_elem? some_db.txs i ≡ some r
        → r.meta.txid ≤ txid
        → lookup txid d'.free_list.pending ≡ lookup txid some_db.free_list.pending)
begin_rw_tx_lem_example = begin_rw_tx_lem some_db (first_meta 4096 1) some_db-IsIdle tt

abbrev free_page : Page
free_page = record { id = 2; flag = 0x10; count = 0; overflow = 0; body = raw }

-- The free list that the rollback reads back, and the database with it.
abbrev reread : FreeList.FreeList
reread =
    FreeList.reindex
      (record (FreeList.rollback 2 (writing some_db (first_meta 4096 1)).free_list) { ids = [] })

abbrev rolled_back : Db
rolled_back = record (writing some_db (first_meta 4096 1)) {
  free_list = FreeList.reindex (record reread {
    ids = FreeList.without (FreeList.mark_all (FreeList.flatten reread.pending) []) reread.ids;
  });
}

rolled_back-rollback :
    rollback free_page
      (new_tx some_db true (first_meta 4096 1))
      (writing some_db (first_meta 4096 1))
    ≡ some rolled_back
unfolding rollback FreeList.reload FreeList.rollback FreeList.read FreeList.reindex tx_meta
rolled_back-rollback = refl

update_failed_example :
    (update free_page (λ t e. (e, 3)) (λ t d. (d, 0)) some_db ≡ done (rolled_back, 1))
    × (rolled_back.rw_locked ≡ true)
    × (begin_rw_tx rolled_back ≡ aborted)
update_failed_example =
    update_failed free_page (λ t d. (d, 0)) 3 some_db rolled_back (first_meta 4096 1) some_db-IsIdle
      (λ e. ground arith) rolled_back-rollback

some_db-IsSound : IsSound some_db
some_db-IsSound = record {
  read_locks = refl;
  write_lock = refl;
  reader_ids = (omega arith, tt);
  writer_id = tt;
}

-- A writer begins, then the reader ends.
abbrev reader : Tx
reader = record { id = 0; writable = false; meta = first_meta 4096 1 }

abbrev reader_gone : Db
reader_gone = close_tx reader (writing some_db (first_meta 4096 1))

some_steps : Reachable some_db reader_gone
some_steps =
    then_step
      (then_step start (
        begins_writing (new_tx some_db true (first_meta 4096 1))
          (begin_rw_tx-writing some_db (first_meta 4096 1) some_db-IsIdle)))
      (closes_reader reader refl)

Reachable-IsSound_example :
    IsSound reader_gone
    × ((t : Tx)
        → reader_gone.rwtx ≡ some t
        → reader_gone.read_only ≡ false
        → begin_rw_tx reader_gone ≡ aborted)
Reachable-IsSound_example = Reachable-IsSound some_db reader_gone some_db-IsSound some_steps
