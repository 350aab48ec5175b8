-- ===== src/Item.antt =====
-- `Item` of src/Bolt/type.h, the wrapper round a `std::string` that keys and values are. Every
-- constructor, `operator=` and `reset` leaves `length_` at `data_.size()`, so an item is its bytes
-- and `length_` is their number. The comparisons are those of `std::string`, byte by byte.
pub mod Order
use cbtree.Base.{ℕ, ltb, ◌==◌, if◌then◌else◌, Bool, true, false, ◌&&◌, not, List, [], ◌∷◌}

abbrev pub Item : Type 0
Item = List ℕ

-- `operator==` and `operator<`; `a > b` is `less b a`.
unfoldable pub same : Item → Item → Bool
same [] [] = true
same [] (y ∷ b) = false
same (x ∷ a) [] = false
same (x ∷ a) (y ∷ b) = (x == y) && same a b

unfoldable pub less : Item → Item → Bool
less [] [] = false
less [] (y ∷ b) = true
less (x ∷ a) [] = false
less (x ∷ a) (y ∷ b) = if ltb x y then true else ((x == y) && less a b)
