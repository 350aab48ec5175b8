-- ===== src/Db/Steps.antt =====
-- `beginRWTx`, `beginTx` and `closeTx` of src/Bolt/db.cc in any order, and what holds of the locks
-- and the open transactions after any number of them.
use cbtree.Base.{
  ℕ, suc, ◌+◌, ◌<◌, ◌≡◌, refl, ap, subst, ◌==◌, if◌then◌else◌, Bool, true, false, not, Bool-cases,
  inl, inr, Option, none, some, List, [], ◌∷◌, ◌++◌, length, length-append, All, done, aborted,
  Whenever, Whenever-if, Whenever-bind, arith,
}
use cbtree.Meta.{get_meta}
use cbtree.Db.{
  Db, Tx, new_tx, or_abort, begin_rw_tx, begin_tx, erase_tx, remove_tx, is_tx, close_tx,
}

-- The transaction with that id is among the readers.
abbrev pub has_tx : ℕ → List Tx → Bool
has_tx id [] = false
has_tx id (t ∷ ts) = if t.id == id then true else has_tx id ts

-- One call that returns a transaction, or that closes an open one.
pub data Step : Db → Db → Type 0 where
  begins_writing : {d d' : Db} (t : Tx) → begin_rw_tx d ≡ done (d', some t) → Step d d'
  begins_reading : {d d' : Db} (t : Tx) → begin_tx d ≡ done (d', some t) → Step d d'
  closes_writer : {d : Db} (t : Tx) → d.rwtx ≡ some t → Step d (close_tx t d)
  closes_reader : {d : Db} (t : Tx) → has_tx t.id d.txs ≡ true → Step d (close_tx t d)

pub data Reachable (d0 : Db) : Db → Type 0 where
  start : Reachable d0 d0
  then_step : {d d' : Db} → Reachable d0 d → Step d d' → Reachable d0 d'

-- The lock of the writers is held for the open write transaction, and no reader has its id.
abbrev pub LockedFor : Option Tx → Bool → List Tx → Type 0
LockedFor none locked ts = locked ≡ false
LockedFor (some t) locked ts = (locked ≡ true) × All (λ r. (r.id == t.id) ≡ false) ts

abbrev pub IdBelow : ℕ → Option Tx → Type 0
IdBelow n none = Unit
IdBelow n (some t) = t.id < n

-- As many read locks on the map as open readers, and the ids of the transactions are used up.
pub record IsSound (d : Db) : Type 0 where
  pub read_locks : d.readers ≡ length d.txs
  pub write_lock : LockedFor d.rwtx d.rw_locked d.txs
  pub reader_ids : All (λ r. r.id < d.next_id) d.txs
  pub writer_id : IdBelow d.next_id d.rwtx

All-map {ℓ} :
    {A : Type ℓ} (P Q : A → Type 0) (xs : List A) → ((a : A) → P a → Q a) → All P xs → All Q xs
All-map P Q [] h a = tt
All-map P Q (x ∷ xs) h (p, a) = (h x p, All-map P Q xs h a)

All-last {ℓ} :
    {A : Type ℓ} (P : A → Type 0) (xs : List A) (x : A) → All P xs → P x → All P (xs ++ x ∷ [])
All-last P [] x a p = (p, tt)
All-last P (y ∷ ys) x (q, a) p = (q, All-last P ys x a p)

All-erase_tx : (P : Tx → Type 0) (id : ℕ) (ts : List Tx) → All P ts → All P (erase_tx id ts)
unfolding erase_tx
All-erase_tx P id [] a = tt
All-erase_tx P id (t ∷ ts) (p, a) = elim (Bool-cases (t.id == id)) [
  | inl e ↦ rw e a
  | inr e ↦ rw e (p, All-erase_tx P id ts a)
]

length-erase_tx :
    (id : ℕ) (ts : List Tx) → has_tx id ts ≡ true → suc (length (erase_tx id ts)) ≡ length ts
unfolding erase_tx
length-erase_tx id [] h = absurd (ground arith)
length-erase_tx id (t ∷ ts) h = elim (Bool-cases (t.id == id)) [
  | inl e ↦ rw e refl
  | inr e ↦ rw e (ap suc (length-erase_tx id ts (rw e at h)))
]

LockedFor-last :
    (n : ℕ) (o : Option Tx) (locked : Bool) (ts : List Tx) (r : Tx)
    → r.id ≡ n
    → IdBelow n o
    → LockedFor o locked ts
    → LockedFor o locked (ts ++ r ∷ [])
LockedFor-last n none locked ts r e i l = l
LockedFor-last n (some t) locked ts r e i (l, a) =
    (l, All-last (λ r. (r.id == t.id) ≡ false) ts r a (ground (arith, e, i)))

LockedFor-erase_tx :
    (id : ℕ) (o : Option Tx) (locked : Bool) (ts : List Tx)
    → LockedFor o locked ts
    → LockedFor o locked (erase_tx id ts)
LockedFor-erase_tx id none locked ts l = l
LockedFor-erase_tx id (some t) locked ts (l, a) =
    (l, All-erase_tx (λ r. (r.id == t.id) ≡ false) id ts a)

IdBelow-suc : (n : ℕ) (o : Option Tx) → IdBelow n o → IdBelow (n + 1) o
IdBelow-suc n none i = tt
IdBelow-suc n (some t) i = omega (arith, i)

module _ (d : Db) (v : IsSound d) where
  abbrev Sound : Db × Option Tx → Type 0
  Sound r = IsSound r.0

  later_ids : All (λ r. r.id < d.next_id + 1) d.txs
  later_ids =
      All-map (λ r. r.id < d.next_id) (λ r. r.id < d.next_id + 1) d.txs (λ r h. omega (arith, h))
        v.reader_ids

  begin_rw_tx-IsSound : Whenever (begin_rw_tx d) Sound
  unfolding begin_rw_tx
  begin_rw_tx-IsSound = Whenever-if Sound d.read_only _ _ v (
      Whenever-if Sound d.rw_locked _ _ tt (
        Whenever-if Sound (not d.opened) _ _ v (
          Whenever-bind Sound (or_abort (get_meta d.metas)) _ (λ m. record {
            read_locks = v.read_locks;
            write_lock = (
              refl,
              All-map (λ r. r.id < d.next_id) (λ r. (r.id == d.next_id) ≡ false) d.txs
                  (λ r h. ground (arith, h)) v.reader_ids,
            );
            reader_ids = later_ids;
            writer_id = omega arith;
          }))))

  begin_tx-IsSound : Whenever (begin_tx d) Sound
  unfolding begin_tx
  begin_tx-IsSound = Whenever-if Sound (not d.opened) _ _ v (
      Whenever-bind Sound (or_abort (get_meta d.metas)) _ (λ m. record {
        read_locks = omega (arith, v.read_locks, length-append d.txs (new_tx d false m ∷ []));
        write_lock =
            LockedFor-last d.next_id d.rwtx d.rw_locked d.txs (new_tx d false m) refl v.writer_id
              v.write_lock;
        reader_ids =
            All-last (λ r. r.id < d.next_id + 1) d.txs (new_tx d false m) later_ids (omega arith);
        writer_id = IdBelow-suc d.next_id d.rwtx v.writer_id;
      }))

  unlocked : IsSound (record d { rwtx = none; rw_locked = false })
  unlocked = record {
    read_locks = v.read_locks;
    write_lock = refl;
    reader_ids = v.reader_ids;
    writer_id = tt;
  }

  close_writer : (t : Tx) → d.rwtx ≡ some t → IsSound (close_tx t d)
  unfolding close_tx
  close_writer t e = let own : is_tx d.rwtx t.id ≡ true = rw e (ground arith) in rw own unlocked

  close_reader : (t : Tx) → has_tx t.id d.txs ≡ true → IsSound (close_tx t d)
  unfolding close_tx remove_tx
  close_reader t e = elim (Bool-cases (is_tx d.rwtx t.id)) [
    | inl writer ↦ rw (close_tx, writer) unlocked
    | inr reader ↦
        rw (close_tx, reader)
          (record {
            read_locks = omega (arith, v.read_locks, length-erase_tx t.id d.txs e);
            write_lock = LockedFor-erase_tx t.id d.rwtx d.rw_locked d.txs v.write_lock;
            reader_ids = All-erase_tx (λ r. r.id < d.next_id) t.id d.txs v.reader_ids;
            writer_id = v.writer_id;
          })
  ]

  blocks : (t : Tx) → d.rwtx ≡ some t → d.read_only ≡ false → begin_rw_tx d ≡ aborted
  unfolding begin_rw_tx
  blocks t e w =
      let locked : d.rw_locked ≡ true =
        (subst (λ o. LockedFor o d.rw_locked d.txs) e v.write_lock).0 in
      rw (w, locked) refl

Step-IsSound : {d d' : Db} → IsSound d → Step d d' → IsSound d'
Step-IsSound {d} {d'} v (begins_writing t e) =
    subst (λ r. Whenever r (λ q. IsSound q.0)) e (begin_rw_tx-IsSound d v)
Step-IsSound {d} {d'} v (begins_reading t e) =
    subst (λ r. Whenever r (λ q. IsSound q.0)) e (begin_tx-IsSound d v)
Step-IsSound {d} v (closes_writer t e) = close_writer d v t e
Step-IsSound {d} v (closes_reader t e) = close_reader d v t e

all_steps : {d0 d : Db} → IsSound d0 → Reachable d0 d → IsSound d
all_steps v start = v
all_steps v (then_step r s) = Step-IsSound (all_steps v r) s

-- From a database whose locks fit its open transactions, after any number of calls of `beginRWTx`
-- and `beginTx` that return a transaction and calls of `closeTx` of open transactions, in any
-- order: the map has as many read locks as there are open readers, the lock of the writers is held
-- exactly while a write transaction is open, no reader has its id, and all ids are used up. While a
-- write transaction is open, `beginRWTx` of a writable database blocks.
pub Reachable-IsSound :
    (d0 d : Db)
    → IsSound d0
    → Reachable d0 d
    → IsSound d × ((t : Tx) → d.rwtx ≡ some t → d.read_only ≡ false → begin_rw_tx d ≡ aborted)
Reachable-IsSound d0 d v r = let w = all_steps v r in (w, blocks d w)
