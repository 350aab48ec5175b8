-- ===== src/Db/Files.antt =====
-- `FlockUtil` of src/Bolt/util.h, and `DB::Open`, `DbClose`, `Init`, `initMeta`, `mmapDbFile` and
-- `DbMunmap` of db.cc: the files of a database and its memory map. What the calls of the system do
-- is a parameter. A status is 0, or 1 for the return value -1. `aborted` is a failed assertion, a
-- stray read, or a wait for a lock that the thread itself holds.
pub mod Opens
use cbtree.Base.{
  ℕ, ◌+◌, ◌*◌, ◌%◌, u32, ltb, leb, ◌==◌, if◌then◌else◌, Bool, true, false, not, ◌&&◌, ◌||◌, Option,
  none, some, max, Run, done, aborted, ◌>>=◌,
}
use cbtree.Page.{Page, Body, raw, meta, Meta, meta_page_flag, freelist_page_flag, leaf_page_flag}
use cbtree.FreeList.{FreeList}
use cbtree.FreeList
use cbtree.Meta.{MetaPages, first_meta, validate, get_meta}
use cbtree.Db.{get_mmap_size}

-- A file descriptor: 0, -1, or that of a file.
pub data Descriptor : Type 0 where
  zero_fd : Descriptor
  bad_fd : Descriptor
  open_fd : Descriptor

-- What the system does: whether the lock file opens and another process holds its lock, whether the
-- database file opens, is written, is read, is mapped at a length and is unmapped, and what a write
-- that fails leaves behind.
pub record OpenSystem : Type 0 where
  pub opens_lock : Bool
  pub locked_by_others : Bool
  pub opens_file : Bool
  pub writes : Bool
  pub reads : Bool
  pub maps : ℕ → Bool
  pub unmaps : Bool
  pub page_size : ℕ
  pub torn : ℕ → Page

-- `lock_held` says that a descriptor of this process holds the lock, `readers` how many read locks
-- are held on `mmapLock_`; `mapped` is `datasz_` where `dataref_` is not null. `disk` is the
-- database file.
pub record Files : Type 0 where
  pub file : Descriptor
  pub lock_held : Bool
  pub opened : Bool
  pub read_only : Bool
  pub no_grow_sync : Bool
  pub file_size : ℕ
  pub page_size : ℕ
  pub mapped : Option ℕ
  pub metas : MetaPages
  pub readers : ℕ
  pub free_list : FreeList
  pub disk : ℕ → Page

-- The constructor, for a file of that size.
abbrev pub new_files : (file_size : ℕ) (disk : ℕ → Page) → Files
new_files file_size disk = record {
  file = zero_fd;
  lock_held = false;
  opened = false;
  read_only = false;
  no_grow_sync = false;
  file_size = file_size;
  page_size = 0;
  mapped = none;
  metas = record { meta0 = first_meta 0 0; meta1 = first_meta 0 1 };
  readers = 0;
  free_list = FreeList.empty;
  disk = disk;
}

-- What a page shows as a `meta`; what is written by another layout is none that is valid.
abbrev pub meta_of : Body → Meta
meta_of (meta m) = m
meta_of _ = record {
  magic = 0;
  version = 0;
  page_size = 0;
  flags = 0;
  root = record { root = 0; sequence = 0 };
  free_list_page_number = 0;
  total_page_number = 0;
  txid = 0;
  checksum = 0;
}

-- The file that `Init` writes: two metas, an empty free list and an empty leaf.
abbrev pub init_page : (page_size i : ℕ) → Page
init_page page_size i =
    if ltb i 2
    then record {
      id = i;
      flag = meta_page_flag;
      count = 0;
      overflow = 0;
      body = meta (first_meta page_size i);
    }
    else record {
      id = i;
      flag = if i == 2 then freelist_page_flag else leaf_page_flag;
      count = 0;
      overflow = 0;
      body = raw;
    }

abbrev pub init_disk : (page_size : ℕ) → (disk : ℕ → Page) → ℕ → Page
init_disk page_size disk i = if ltb i 4 then init_page page_size i else disk i

-- `DbMunmap`.
unfoldable pub db_munmap : OpenSystem → Files → Files × Bool
db_munmap sys d = elim d.mapped [
  | none ↦ (d, true)
  | some size ↦ if sys.unmaps then (record d { mapped = none }, true) else (d, false)
]

-- `DbClose`: it returns early without giving `mmapLock_` back, and leaves the lock file and the map
-- alone.
unfoldable pub db_close : Files → Files
db_close d = if not d.opened then record d { readers = d.readers + 1 } else record d {
  opened = false;
  free_list = FreeList.reset d.free_list;
  file = elim d.file [ zero_fd ↦ zero_fd | _ ↦ bad_fd ];
}

module _ (sys : OpenSystem) where
  -- `FlockUtil::lock`: `flock` refuses while any other descriptor holds the lock, also one of this
  -- process.
  unfoldable pub lock : Files → Files × Bool
  lock d =
      if sys.opens_lock && not (sys.locked_by_others || d.lock_held)
      then (record d { lock_held = true }, true)
      else (d, false)

  -- `mmapDbFile`.
  unfoldable pub mmap_db_file : (size : ℕ) → Files → Files × Bool
  mmap_db_file size d =
      if sys.maps size then (record d { mapped = some size }, true) else (d, false)

  -- The end of `initMeta`, at the size that `getMmapSize` gives.
  abbrev pub metas_shown : Files → Run (Files × ℕ)
  metas_shown d =
      let ms : MetaPages = record {
        meta0 = meta_of (d.disk 0).body;
        meta1 = meta_of (d.disk 1).body;
      } in
      done (
        record d { metas = ms },
        if not (validate ms.meta0) && not (validate ms.meta1) then 1 else 0,
      )

  abbrev pub map_file : Files → Option ℕ → Run (Files × ℕ)
  map_file d none = done (d, 1)
  map_file d (some size) =
      let unmapped = db_munmap sys d in
      let mapped = mmap_db_file size unmapped.0 in
      if not unmapped.1
      then done (unmapped.0, 1)
      else if not mapped.1
      then done (mapped.0, 1)
      else metas_shown mapped.0

  -- `initMeta`, without a write transaction.
  unfoldable pub init_meta : (initial_size : ℕ) → Files → Run (Files × ℕ)
  unfolding db_munmap mmap_db_file
  init_meta initial_size d =
      let run = get_mmap_size (max d.file_size initial_size) >>= map_file d in
      if not (d.readers == 0)
      then aborted
      else if ltb d.file_size (d.page_size * 2 % u32)
      then done (d, 1)
      else run

  -- `Init`; that the file may not be synchronized is only logged.
  unfoldable pub init : Files → Files × ℕ
  init d =
      if sys.writes
      then (
        record d {
          page_size = sys.page_size;
          file_size = sys.page_size * 4;
          disk = init_disk sys.page_size d.disk;
        },
        0,
      )
      else (record d { page_size = sys.page_size; disk = sys.torn }, 1)

  -- The end of `Open`: the free list is read from its page.
  abbrev pub with_list : Files → Option FreeList → Run (Files × ℕ)
  with_list d none = aborted
  with_list d (some f) = done (record d { free_list = f }, 0)

  abbrev pub read_list : Files → Option Meta → Run (Files × ℕ)
  read_list d none = aborted
  read_list d (some m) = with_list d (FreeList.read (d.disk m.free_list_page_number) d.free_list)

  abbrev pub list_read : Files × ℕ → Run (Files × ℕ)
  list_read (d, status) =
      if status == 0 then read_list d (get_meta d.metas) else done (db_close d, 1)

  abbrev pub default_page_size : ℕ
  default_page_size = 4096

  -- The page size: the default if the first meta is valid, else what it says.
  abbrev pub sized : Files → Files
  sized d =
      let m = meta_of (d.disk 0).body in
      record d { page_size = if validate m then default_page_size else m.page_size }

  abbrev pub open_sized : (initial_size : ℕ) → Files × ℕ → Run (Files × ℕ)
  open_sized initial_size (d, status) =
      let run = init_meta initial_size (sized d) >>= list_read in
      if not (status == 0)
      then done (db_close d, 1)
      else if not sys.reads
      then done (db_close d, 1)
      else run

  -- `Open`, after the file lock has been taken.
  abbrev pub open_locked :
      (read_only no_grow_sync : Bool) (initial_size : ℕ) → Files × Bool → Run (Files × ℕ)
  open_locked read_only no_grow_sync initial_size (d, false) = done (d, 1)
  open_locked read_only no_grow_sync initial_size (d, true) =
      let d1 = record d {
        opened = true;
        no_grow_sync = no_grow_sync;
        read_only = read_only || d.read_only;
      } in
      let d2 = record d1 { file = open_fd } in
      let started = if d2.file_size == 0 then init d2 else (d2, 0) in
      if not sys.opens_file
      then done (record d1 { file = bad_fd }, 1)
      else open_sized initial_size started

  unfoldable pub open_db :
      (read_only no_grow_sync : Bool) (initial_size : ℕ) → Files → Run (Files × ℕ)
  unfolding lock init_meta init db_close
  open_db read_only no_grow_sync initial_size d = elim d.file [
    | open_fd ↦ done (d, 0)
    | _ ↦ open_locked read_only no_grow_sync initial_size (lock d)
  ]
