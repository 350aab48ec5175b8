-- ===== src/Search/Correct.antt =====
-- What the binary search returns on keys in ascending order.
use cbtree.Base.{
  ℕ, zero, suc, ◌+◌, ◌/◌, ◌%◌, ◌^◌, ◌≤◌, ◌<◌, ◌≡◌, ltb, ◌==◌, Bool, true, false, Bool-cases, inl,
  inr, u32, arith,
}
use cbtree.Item.{Item, same, less}
use cbtree.Item.Order.{same_iff, less_trans, less_total}
use cbtree.Search.{search_loop, binary_search}

-- The first `n` keys are in strict ascending order.
abbrev pub IsAscending : (ℕ → Item) → ℕ → Type 0
IsAscending key_at n = (i j : ℕ) → i < j → j < n → less (key_at i) (key_at j) ≡ true

-- The index of the key, or, with `found` false, the place where it belongs.
abbrev pub Locates : (ℕ → Item) → ℕ → Item → ℕ × Bool → Type 0
Locates key_at n key (i, true) = (i < n) × (key_at i ≡ key)
Locates key_at n key (i, false) =
    (i ≤ n)
    × ((j : ℕ) → j < i → less (key_at j) key ≡ true)
    × ((j : ℕ) → i ≤ j → j < n → less key (key_at j) ≡ true)

module _ (key_at : ℕ → Item) (n : ℕ) (key : Item) (sorted : IsAscending key_at n)
    (small : n < 2 ^ 31) where
  -- `begin` and `end` keep the place of the key between them.
  record Bounds (begin end : ℕ) : Type 0 where
    ordered : begin ≤ end
    within : end ≤ n
    below : (j : ℕ) → j < begin → less (key_at j) key ≡ true
    above : (j : ℕ) → end ≤ j → j < n → less key (key_at j) ≡ true

  lower-Bounds :
      (begin end mid : ℕ)
      → Bounds begin end
      → begin ≤ mid
      → mid < end
      → less key (key_at mid) ≡ true
      → Bounds begin mid
  lower-Bounds begin end mid b h k e = record {
    ordered = h;
    within = omega (arith, b.within);
    below = b.below;
    above = λ j p q. elim (Bool-cases (j == mid)) [
      | inl here ↦ let here' : j ≡ mid = ground arith in rw here' e
      | inr past ↦ less_trans key (key_at mid) (key_at j) e (sorted mid j (ground arith) q)
    ];
  }

  upper-Bounds :
      (begin end mid : ℕ)
      → Bounds begin end
      → begin ≤ mid
      → mid < end
      → less (key_at mid) key ≡ true
      → Bounds (mid + 1) end
  upper-Bounds begin end mid b h k e = record {
    ordered = omega arith;
    within = b.within;
    below = λ j p. elim (Bool-cases (j == mid)) [
      | inl here ↦ let here' : j ≡ mid = ground arith in rw here' e
      | inr before ↦
          less_trans (key_at j) (key_at mid) key
            (sorted j mid (ground arith) (omega (arith, b.within))) e
    ];
    above = b.above;
  }

  Bounds-Locates :
      (begin end : ℕ) → Bounds begin end → end ≤ begin → Locates key_at n key (end, false)
  Bounds-Locates begin end b h = (b.within, λ j p. b.below j (omega arith), b.above)

  search_loop-Locates :
      (fuel begin end : ℕ)
      → Bounds begin end
      → end ≤ begin + fuel
      → Locates key_at n key (search_loop key_at key fuel begin end)
  unfolding search_loop
  search_loop-Locates zero begin end b h = Bounds-Locates begin end b (omega arith)
  search_loop-Locates (suc fuel) begin end b h = elim (Bool-cases (ltb begin end)) [
    | inr over ↦ rw over (Bounds-Locates begin end b (ground arith))
    | inl more ↦
        let m = ((begin + end) % u32) / 2 in
        let w = b.within in
        let lo : begin ≤ m = ground arith in
        let hi : m < end = ground arith in
        let step : (m + 1) % u32 ≡ m + 1 = omega arith in
        elim (Bool-cases (less key (key_at m))) [
          | inl left ↦
              rw (more, left)
                (search_loop-Locates fuel begin m (lower-Bounds begin end m b lo hi left)
                  (omega arith))
          | inr not_left ↦ elim (Bool-cases (same (key_at m) key)) [
            | inl hit ↦ rw (more, not_left, hit) (omega arith, (same_iff (key_at m) key).0 hit)
            | inr right ↦
                rw (more, not_left, right, step)
                  (search_loop-Locates fuel (m + 1) end
                    (upper-Bounds begin end m b lo hi (
                      less_total key (key_at m) not_left
                        (ground (arith, same_iff (key_at m) key, same_iff key (key_at m)))))
                    (omega arith))
          ]
        ]
  ]

  -- On fewer than 2 ^ 31 keys in strict ascending order the search returns the index of the key,
  -- or, not found, the number of keys below it, all others being above.
  pub binary_search-Locates : Locates key_at n key (binary_search key_at n key)
  unfolding binary_search
  binary_search-Locates =
      search_loop-Locates n 0 n
        (record {
          ordered = omega arith;
          within = omega arith;
          below = λ j p. absurd (omega arith);
          above = λ j p q. absurd (omega arith);
        })
        (omega arith)
