-- ===== src/WsTransport/Silence/Handles.antt =====
-- Lists of the handles of timers.
use lp_clients.Base.{ℕ, ◌≡◌, true, List, [], ◌∷◌, ◌++◌, arith, All, All-map, member}

pub All-split : (P : ℕ → Type 0) (xs ys : List ℕ) → All P (xs ++ ys) → All P xs × All P ys
All-split P [] ys h = (tt, h)
All-split P (x ∷ xs) ys (p, h) = let (a, b) = All-split P xs ys h in ((p, a), b)

-- The handle is one of these.
abbrev pub Among : List ℕ → ℕ → Type 0
Among ks k = member k ks ≡ true

pub earlier_one : (xs ys : List ℕ) (k : ℕ) → Among xs k → Among (xs ++ ys) k
unfolding member
earlier_one [] ys k h = absurd (ground (arith, h))
earlier_one (x ∷ xs) ys k h = ground (arith, earlier_one xs ys k, h)

later_one : (xs ys : List ℕ) (k : ℕ) → Among ys k → Among (xs ++ ys) k
unfolding member
later_one [] ys k h = h
later_one (x ∷ xs) ys k h = ground (arith, later_one xs ys k, h)

every_one : (ys : List ℕ) → All (Among ys) ys
unfolding member
every_one [] = tt
every_one (y ∷ ys) = (ground arith, All-map (λ k h. later_one (y ∷ []) ys k h) ys (every_one ys))

pub later_ones : (xs ys : List ℕ) → All (Among (xs ++ ys)) ys
later_ones xs ys = All-map (later_one xs ys) ys (every_one ys)
