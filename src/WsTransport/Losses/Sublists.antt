-- ===== src/WsTransport/Losses/Sublists.antt =====
-- Lists of messages of which some are lost.
use lp_clients.Base.{◌≡◌, sym, ◌∙◌, subst, List, [], ◌∷◌, ◌++◌}
use mathlib.Core.List.{append-nil}

-- The first list has elements of the second, in their order, each at most as often.
pub data Sub {A : Type 0} : List A → List A → Type 0 where
  none_left : Sub [] []
  kept : (x : A) (xs ys : List A) → Sub xs ys → Sub (x ∷ xs) (x ∷ ys)
  dropped : (y : A) (xs ys : List A) → Sub xs ys → Sub xs (y ∷ ys)

pub Sub-refl : {A : Type 0} (xs : List A) → Sub xs xs
Sub-refl [] = none_left
Sub-refl (x ∷ xs) = kept x xs xs (Sub-refl xs)

pub Sub-nil : {A : Type 0} (ys : List A) → Sub [] ys
Sub-nil [] = none_left
Sub-nil (y ∷ ys) = dropped y [] ys (Sub-nil ys)

pub Sub-append :
    {A : Type 0} (xs ys us vs : List A) → Sub xs ys → Sub us vs → Sub (xs ++ us) (ys ++ vs)
Sub-append _ _ us vs none_left s = s
Sub-append _ _ us vs (kept x xs ys r) s = kept x (xs ++ us) (ys ++ vs) (Sub-append xs ys us vs r s)
Sub-append _ _ us vs (dropped y xs ys r) s =
    dropped y (xs ++ us) (ys ++ vs) (Sub-append xs ys us vs r s)

pub Sub-trans : {A : Type 0} (xs ys zs : List A) → Sub xs ys → Sub ys zs → Sub xs zs
Sub-trans xs ys _ r (dropped z _ zs s) = dropped z xs zs (Sub-trans xs ys zs r s)
Sub-trans _ _ _ none_left none_left = none_left
Sub-trans _ _ _ (kept x xs ys r) (kept _ _ zs s) = kept x xs zs (Sub-trans xs ys zs r s)
Sub-trans _ _ _ (dropped y xs ys r) (kept _ _ zs s) = dropped y xs zs (Sub-trans xs ys zs r s)

-- What follows from an equation of all the messages.
pub same-Sub : {A : Type 0} (xs ys : List A) → xs ≡ ys → Sub xs (ys ++ [])
same-Sub xs ys e = subst (Sub xs) (e ∙ sym (append-nil ys)) (Sub-refl xs)
