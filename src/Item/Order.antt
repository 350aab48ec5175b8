-- ===== src/Item/Order.antt =====
-- The comparisons of items are equality and a strict total order.
use cbtree.Base.{◌≡◌, ◌↔◌, refl, true, false, Bool-cases, inl, inr, [], ◌∷◌, arith}
use cbtree.Item.{Item, same, less}

pub same_iff : (a b : Item) → (same a b ≡ true) ↔ (a ≡ b)
unfolding same
same_iff [] [] = (λ e. refl, λ e. refl)
same_iff [] (y ∷ b) = (λ e. cc, λ e. cc)
same_iff (x ∷ a) [] = (λ e. cc, λ e. cc)
same_iff (x ∷ a) (y ∷ b) =
    (λ e. ground (arith, (same_iff a b).0), λ e. ground (arith, (same_iff a b).1))

pub same_refl : (a : Item) → same a a ≡ true
same_refl a = (same_iff a a).1 refl

pub less_irrefl : (a : Item) → less a a ≡ false
unfolding less
less_irrefl [] = refl
less_irrefl (x ∷ a) = ground (arith, less_irrefl a)

pub less_trans : (a b c : Item) → less a b ≡ true → less b c ≡ true → less a c ≡ true
unfolding less
less_trans [] [] c h k = cc
less_trans [] (y ∷ b) [] h k = cc
less_trans [] (y ∷ b) (z ∷ c) h k = refl
less_trans (x ∷ a) [] c h k = cc
less_trans (x ∷ a) (y ∷ b) [] h k = cc
less_trans (x ∷ a) (y ∷ b) (z ∷ c) h k = ground (arith, less_trans a b c)

-- Where neither of the first two tests of a search passes, the third order holds.
pub less_total : (a b : Item) → less a b ≡ false → same a b ≡ false → less b a ≡ true
unfolding less same
less_total [] [] h k = cc
less_total [] (y ∷ b) h k = cc
less_total (x ∷ a) [] h k = refl
less_total (x ∷ a) (y ∷ b) h k = ground (arith, less_total a b)

pub less-ne : (a b : Item) → less a b ≡ true → same a b ≡ false
less-ne a b h = elim (Bool-cases (same a b)) [
  | inl e ↦ ground (arith, (same_iff a b).0 e, less_irrefl a)
  | inr e ↦ e
]

pub less-ne_sym : (a b : Item) → less a b ≡ true → same b a ≡ false
less-ne_sym a b h = elim (Bool-cases (same b a)) [
  | inl e ↦ ground (arith, (same_iff b a).0 e, less_irrefl a)
  | inr e ↦ e
]
