-- ===== src/Db/Files/Opens.antt =====
-- What `DB::Open` and `initMeta` of db.cc leave behind, and what `DbClose` leaves of the file lock.
use cbtree.Base.{
  ℕ, ◌*◌, ◌^◌, ◌≤◌, ◌≡◌, refl, ap, sym, subst, ltb, ◌==◌, if◌then◌else◌, Bool, true, false, not,
  ◌%◌, u32, ◌&&◌, ◌||◌, Bool-cases, Option-cases, inl, inr, Option, none, some, max, Run, done,
  Returns, Returns-if, Returns-else, Whenever, Whenever-bind, Whenever-if, Whenever-then,
  Whenever-map, arith,
}
use cbtree.Page.{Meta}
use cbtree.FreeList.{FreeList}
use cbtree.FreeList
use cbtree.Meta.{validate, get_meta}
use cbtree.Db.{get_mmap_size}
use cbtree.Db.Mmap.{get_mmap_size_lem}
use cbtree.Db.Files.{
  zero_fd, bad_fd, open_fd, OpenSystem, Files, db_munmap, db_close, lock, mmap_db_file, metas_shown,
  map_file, init_meta, init, with_list, read_list, list_read, sized, open_sized, open_locked,
  open_db,
}

module _ (sys : OpenSystem) where
  -- The map is as long as asked for, and one of the metas is valid.
  abbrev pub Maps : (target : ℕ) → Files × ℕ → Type 0
  Maps target (d, status) =
      status ≡ 0
      → (size : ℕ) × (d.mapped ≡ some size)
        × (target ≤ size)
        × ((validate d.metas.meta0 || validate d.metas.meta1) ≡ true)

  metas_shown-Maps :
      (target size : ℕ) (d : Files)
      → d.mapped ≡ some size
      → target ≤ size
      → Returns (metas_shown sys d) (Maps target)
  metas_shown-Maps target size d m h e = (size, m, h, ground (arith, e))

  map_file-Maps :
      (target size : ℕ) (d : Files)
      → target ≤ size
      → Returns (map_file sys d (some size)) (Maps target)
  unfolding mmap_db_file
  map_file-Maps target size d h =
      let unmapped = db_munmap sys d in
      Returns-if (Maps target) (not unmapped.1) _ _ (λ e. absurd (omega arith))
        (elim (Bool-cases (sys.maps size)) [
          | inl ok ↦
              rw ok (metas_shown-Maps target size (record unmapped.0 { mapped = some size }) refl h)
          | inr bad ↦ rw bad (λ e. absurd (omega arith))
        ])

  -- `initMeta` where no read lock on the map is held and neither the file nor the length that is
  -- asked for is longer than 2 ^ 30: it returns, and if it returns 0, the map is at least as long
  -- as the file and as what was asked for, and one of the two metas in it is valid.
  pub init_meta-Maps :
      (n : ℕ) (d : Files)
      → d.readers ≡ 0
      → max d.file_size n ≤ 2 ^ 30
      → Returns (init_meta sys n d) (Maps (max d.file_size n))
  unfolding init_meta
  init_meta-Maps n d unlocked few =
      let target = max d.file_size n in
      let free : (not (d.readers == 0)) ≡ false = ground arith in
      let (i, low, high, size, fits, least) = get_mmap_size_lem target few in
      Returns-else (Maps target) (not (d.readers == 0)) _ _ free (
        Returns-if (Maps target) (ltb d.file_size (d.page_size * 2 % u32)) _ _
          (λ e. absurd (omega arith)) (rw size (map_file-Maps target (2 ^ i) d fits)))

  -- The database is open and holds the lock of its lock file.
  abbrev pub IsHeld : Files → Type 0
  IsHeld d = (d.lock_held ≡ true) × (d.opened ≡ true) × (d.file ≡ open_fd)

  abbrev Held : Files × ℕ → Type 0
  Held (d, status) = status ≡ 0 → IsHeld d

  munmap-IsHeld : (d : Files) → IsHeld d → IsHeld (db_munmap sys d).0
  unfolding db_munmap
  munmap-IsHeld d h = elim (Option-cases d.mapped) [
    | inl unmapped ↦ rw (db_munmap, unmapped) h
    | inr (size, e) ↦ elim (Bool-cases sys.unmaps) [
      | inl ok ↦ rw (db_munmap, e, ok) h
      | inr bad ↦ rw (db_munmap, e, bad) h
    ]
  ]

  map_file-Held : (d : Files) (o : Option ℕ) → IsHeld d → Whenever (map_file sys d o) Held
  unfolding mmap_db_file
  map_file-Held d none h = λ e. h
  map_file-Held d (some size) h =
      let k = munmap-IsHeld d h in
      Whenever-if Held (not (db_munmap sys d).1) _ _ (λ e. k)
        (elim (Bool-cases (sys.maps size)) [ inl ok ↦ rw ok (λ e. k) | inr bad ↦ rw bad (λ e. k) ])

  init_meta-Held : (n : ℕ) (d : Files) → IsHeld d → Whenever (init_meta sys n d) Held
  unfolding init_meta
  init_meta-Held n d h = Whenever-if Held (not (d.readers == 0)) _ _ tt (
      Whenever-if Held (ltb d.file_size (d.page_size * 2 % u32)) _ _ (λ e. h)
        (Whenever-bind Held (get_mmap_size (max d.file_size n)) _ (λ o. map_file-Held d o h)))

  list_read-Held : (r : Files × ℕ) → Held r → Whenever (list_read sys r) Held
  list_read-Held (d, status) h = elim (Bool-cases (status == 0)) [
    | inl ok ↦ rw ok (on_meta (get_meta d.metas) (h (ground arith)))
    | inr bad ↦ rw bad (λ e. absurd (omega arith))
  ]
    where
      on_list : (o : Option FreeList) → IsHeld d → Whenever (with_list sys d o) Held
      on_list none k = tt
      on_list (some f) k = λ e. k

      on_meta : (o : Option Meta) → IsHeld d → Whenever (read_list sys d o) Held
      on_meta none k = tt
      on_meta (some m) k = on_list (FreeList.read (d.disk m.free_list_page_number) d.free_list) k

  init-IsHeld : (d : Files) → IsHeld d → IsHeld (if d.file_size == 0 then init sys d else (d, 0)).0
  unfolding init
  init-IsHeld d h = elim (Bool-cases (d.file_size == 0)) [
    | inl new ↦ elim (Bool-cases sys.writes) [ inl ok ↦ rw (new, ok) h | inr bad ↦ rw (new, bad) h ]
    | inr old ↦ rw old h
  ]

  open_sized-Held : (n : ℕ) (r : Files × ℕ) → IsHeld r.0 → Whenever (open_sized sys n r) Held
  open_sized-Held n (d, status) h =
      Whenever-if Held (not (status == 0)) _ _ (λ e. absurd (omega arith))
        (Whenever-if Held (not sys.reads) _ _ (λ e. absurd (omega arith))
          (Whenever-then Held Held (init_meta sys n (sized sys d)) _ list_read-Held
            (init_meta-Held n (sized sys d) h)))

  open_locked-Held :
      (ro ng : Bool) (n : ℕ) (r : Files × Bool)
      → (r.1 ≡ true → r.0.lock_held ≡ true)
      → Whenever (open_locked sys ro ng n r) Held
  open_locked-Held ro ng n (d, false) h = λ e. absurd (omega arith)
  open_locked-Held ro ng n (d, true) h =
      Whenever-if Held (not sys.opens_file) _ _ (λ e. absurd (omega arith))
        (open_sized-Held n _ (
          init-IsHeld
            (record d {
              opened = true;
              no_grow_sync = ng;
              read_only = ro || d.read_only;
              file = open_fd;
            })
            (h refl, refl, refl)))

  lock-held : (d : Files) → (lock sys d).1 ≡ true → (lock sys d).0.lock_held ≡ true
  unfolding lock
  lock-held d = elim (Bool-cases (sys.opens_lock && not (sys.locked_by_others || d.lock_held))) [
    | inl granted ↦ rw granted (λ e. refl)
    | inr refused ↦ rw refused (λ e. absurd (ground arith))
  ]

  open_db-locked :
      (d : Files) (ro ng : Bool) (n : ℕ)
      → d.file ≡ bad_fd
      → d.lock_held ≡ true
      → open_db sys ro ng n d ≡ done (d, 1)
  unfolding open_db lock
  open_db-locked d ro ng n f l =
      let refused : (sys.opens_lock && not (sys.locked_by_others || d.lock_held)) ≡ false =
        ground (arith, l) in
      rw (open_db, f, lock, refused) (ap (λ x. done (record d { file = x }, 1)) f)

  db_close-locked :
      (d : Files) → IsHeld d → ((db_close d).file ≡ bad_fd) × ((db_close d).lock_held ≡ true)
  unfolding db_close
  db_close-locked d (l, o, f) = rw (db_close, o, f) (refl, l)

  open_db-Held :
      (d : Files) (ro ng : Bool) (n : ℕ) → d.file ≡ zero_fd → Whenever (open_db sys ro ng n d) Held
  unfolding open_db
  open_db-Held d ro ng n new =
      let first : open_db sys ro ng n d ≡ open_locked sys ro ng n (lock sys d) =
        ap
          (λ x. elim x as (λ y. Run (Files × ℕ)) [
            | open_fd ↦ done (d, 0)
            | _ ↦ open_locked sys ro ng n (lock sys d)
          ])
          new in
      subst (λ r. Whenever r Held) (sym first) (open_locked-Held ro ng n (lock sys d) (lock-held d))

  -- A database object that has not been opened yet: once `Open` has returned 0 and `DbClose` has
  -- been called, every later `Open` of the object returns -1 and changes nothing, since `DbClose`
  -- does not give the lock of the lock file back.
  pub open_db-again :
      (d : Files) (ro ng : Bool) (n : ℕ)
      → d.file ≡ zero_fd
      → Whenever (open_db sys ro ng n d) (λ r.
        r.1 ≡ 0
        → (ro' ng' : Bool) (n' : ℕ)
        → open_db sys ro' ng' n' (db_close r.0) ≡ done (db_close r.0, 1))
  open_db-again d ro ng n new =
      Whenever-map Held _ (open_db sys ro ng n d)
        (λ r held e ro' ng' n'.
          let closed = db_close-locked r.0 (held e) in
          open_db-locked (db_close r.0) ro' ng' n' closed.0 closed.1)
        (open_db-Held d ro ng n new)
