-- ===== src/Search.antt =====
-- The binary search that src/Bolt has three times, word for word: `Node::binarySearch` over inodes
-- (node.cc), `Cursor::binarySearchLeaf` and `Cursor::binarySearchBranch` over the elements of a
-- page (cursor.cc). Here it is over the keys by index.
pub mod Correct
use cbtree.Base.{ℕ, zero, suc, ltb, ◌+◌, ◌/◌, ◌%◌, if◌then◌else◌, Bool, true, false, u32}
use cbtree.Item.{Item, same, less}

-- One `while` loop; `fuel` is the width of the range at the start, and the loop is over when there
-- is none left, since each round narrows the range. The result is the index and `found`.
pub search_loop : (key_at : ℕ → Item) (key : Item) (fuel begin end : ℕ) → ℕ × Bool
search_loop key_at key zero begin end = (end, false)
search_loop key_at key (suc fuel) begin end =
    let mid = ((begin + end) % u32) / 2 in
    let lower = search_loop key_at key fuel begin mid in
    let upper = search_loop key_at key fuel ((mid + 1) % u32) end in
    if ltb begin end
    then (if less key (key_at mid)
        then lower
        else if same (key_at mid) key
        then (mid, true)
        else upper)
    else (end, false)

unfoldable pub binary_search : (key_at : ℕ → Item) (n : ℕ) (key : Item) → ℕ × Bool
unfolding search_loop
binary_search key_at n key = search_loop key_at key n 0 n
