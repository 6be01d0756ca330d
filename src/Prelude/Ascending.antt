-- ===== src/Prelude/Ascending.antt =====
-- `sorted(set(...))` ascends.
use Prim.Native.Nat.{Ordering}
use Prim.Native.String.{String, compare}
use mathlib.Core.Path.{◌≡◌, refl, sym, ap, ◌∙◌}
use mathlib.Core.Bool.{Bool, true, false, ◌&&◌}
use mathlib.Core.List.{List, [], ◌∷◌}
use native.Mathlib.Omega.{arith}
use matchmaking_backend.Prelude.Texts.{insert_sorted, sorted_set, place}
use matchmaking_backend.Prelude.Turned.{turned}

abbrev is_lt : Ordering → Bool
is_lt Ordering.lt = true
is_lt _ = false

-- Each text comes before the next one.
abbrev pub ascends : List String → Bool
ascends [] = true
ascends (x ∷ []) = true
ascends (x ∷ y ∷ rest) = is_lt (compare x y) && ascends (y ∷ rest)

-- The first of the list, after an insertion, comes after whatever comes before the text and the list.
abbrev follows : String → List String → Bool
follows x [] = true
follows x (y ∷ ys) = is_lt (compare x y)

ascends-cons : (x : String) (ys : List String) → ascends (x ∷ ys) ≡ (follows x ys && ascends ys)
ascends-cons x [] = refl
ascends-cons x (y ∷ ys) = refl

follows-insert_sorted :
    (x s : String) (ys : List String)
    → is_lt (compare x s) ≡ true
    → follows x ys ≡ true
    → follows x (insert_sorted s ys) ≡ true
unfolding insert_sorted
follows-insert_sorted x s [] e h = e
follows-insert_sorted x s (y ∷ ys) e h = by (compare s y)
  where
    by : (o : Ordering) → follows x (place o s y ys (insert_sorted s ys)) ≡ true
    by Ordering.lt = e
    by Ordering.eq = h
    by Ordering.gt = h

place-ascends :
    (s x : String) (xs later : List String) (o : Ordering)
    → compare s x ≡ o
    → ascends (x ∷ xs) ≡ true
    → (is_lt (compare x s) ≡ true → follows x later ≡ true)
    → ascends later ≡ true
    → ascends (place o s x xs later) ≡ true
place-ascends s x xs later Ordering.lt e h k m = rw e h
place-ascends s x xs later Ordering.eq e h k m = h
place-ascends s x xs later Ordering.gt e h k m =
    let before = ap is_lt (turned s x e) in rw (ascends-cons x later) (rw (k before) m)

insert_sorted-ascends :
    (s : String) (xs : List String) → ascends xs ≡ true → ascends (insert_sorted s xs) ≡ true
unfolding insert_sorted
insert_sorted-ascends s [] h = refl
insert_sorted-ascends s (x ∷ xs) h =
    let both : (follows x xs && ascends xs) ≡ true = sym (ascends-cons x xs) ∙ h in
    let first_ : follows x xs ≡ true = ground arith in
    let rest : ascends xs ≡ true = ground arith in
    place-ascends s x xs (insert_sorted s xs) (compare s x) refl h
      (λ e. follows-insert_sorted x s xs e first_) (insert_sorted-ascends s xs rest)

-- A sorted set ascends.
pub sorted_set-ascends : (xs : List String) → ascends (sorted_set xs) ≡ true
unfolding sorted_set
sorted_set-ascends [] = refl
sorted_set-ascends (x ∷ xs) = insert_sorted-ascends x (sorted_set xs) (sorted_set-ascends xs)
