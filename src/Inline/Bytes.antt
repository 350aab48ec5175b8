-- ===== src/Inline/Bytes.antt =====
-- The numbers of src/Bolt/page.h and bucket.h in memory are read as they were written.
use cbtree.Base.{
  ℕ, zero, suc, ◌+◌, ◌*◌, ◌/◌, ◌%◌, ◌<◌, ◌≡◌, refl, some, List, ◌++◌, append_assoc, length, u16,
  u32, u64, arith,
}
use cbtree.Page.{BucketHeader}
use cbtree.Inline.{le_bytes, read_le, header_bytes, read_header}

-- `n` bytes are enough for the number.
abbrev pub Fits : (n x : ℕ) → Type 0
Fits zero x = x ≡ 0
Fits (suc n) x = Fits n (x / 256)

pub length-le_bytes : (n x : ℕ) → length (le_bytes n x) ≡ n
unfolding le_bytes
length-le_bytes zero x = refl
length-le_bytes (suc n) x = omega (arith, length-le_bytes n (x / 256))

pub read_le-append :
    (n x : ℕ) (bs : List ℕ) → Fits n x → read_le n (le_bytes n x ++ bs) ≡ some (x, bs)
unfolding le_bytes read_le
read_le-append zero x bs h = rw h refl
read_le-append (suc n) x bs h =
    let digits : x % 256 + 256 * (x / 256) ≡ x = omega arith in
    rw (read_le-append n (x / 256) bs h, digits) refl

pub u16-Fits : (x : ℕ) → x < u16 → Fits 2 x
u16-Fits x h = omega arith

pub u32-Fits : (x : ℕ) → x < u32 → Fits 4 x
u32-Fits x h = omega arith

pub u64-Fits : (x : ℕ) → x < u64 → Fits 8 x
u64-Fits x h = omega arith

pub read_header-append :
    (h : BucketHeader) (bs : List ℕ)
    → h.root < u64
    → h.sequence < u64
    → read_header (header_bytes h ++ bs) ≡ some (h, bs)
unfolding read_header
read_header-append h bs a b =
    rw
      (
        append_assoc (le_bytes 8 h.root) (le_bytes 8 h.sequence) bs,
        read_le-append 8 h.root (le_bytes 8 h.sequence ++ bs) (u64-Fits h.root a),
        read_le-append 8 h.sequence bs (u64-Fits h.sequence b),
      )
      refl
