-- ===== src/Prelude/Texts.antt =====
-- Lists of texts: membership, and `sorted(set(...))`.
use Prim.Native.Nat.{Ordering}
use Prim.Native.String.{String, compare}
use mathlib.Core.Path.{◌≡◌, refl}
use mathlib.Core.Bool.{Bool, true, false, ◌&&◌, ◌||◌}
use mathlib.Core.List.{List, [], ◌∷◌}
use native.Mathlib.Omega.{arith}
use text.Mathlib.Text.{◌==◌ as str_eq}
use text.Mathlib.TextEquality.{eq_iff, path_by_compare}

-- `s in xs`.
abbrev pub contains : String → List String → Bool
contains s [] = false
contains s (x ∷ xs) = str_eq s x || contains s xs

-- `all(x in ys for x in xs)`.
abbrev pub contains_all : List String → List String → Bool
contains_all [] ys = true
contains_all (x ∷ xs) ys = contains x ys && contains_all xs ys

abbrev pub contains_any : List String → List String → Bool
contains_any [] ys = false
contains_any (x ∷ xs) ys = contains x ys || contains_any xs ys

abbrev pub place : Ordering → String → String → List String → List String → List String
place Ordering.lt s x xs later = s ∷ x ∷ xs
place Ordering.eq s x xs later = x ∷ xs
place Ordering.gt s x xs later = x ∷ later

unfoldable pub insert_sorted : String → List String → List String
insert_sorted s [] = s ∷ []
insert_sorted s (x ∷ xs) = let later = insert_sorted s xs in place (compare s x) s x xs later

-- `sorted(set(xs))`.
unfoldable pub sorted_set : List String → List String
sorted_set [] = []
sorted_set (x ∷ xs) = insert_sorted x (sorted_set xs)

contains-place :
    (s t x : String) (xs later : List String) (o : Ordering)
    → compare s x ≡ o
    → contains t later ≡ (str_eq t s || contains t xs)
    → contains t (place o s x xs later) ≡ (str_eq t s || (str_eq t x || contains t xs))
contains-place s t x xs later Ordering.lt e h = refl
contains-place s t x xs later Ordering.eq e h =
    ground (arith, path_by_compare s x e, eq_iff t s, eq_iff t x)
contains-place s t x xs later Ordering.gt e h = ground arith

contains-insert_sorted :
    (s t : String) (xs : List String)
    → contains t (insert_sorted s xs) ≡ (str_eq t s || contains t xs)
unfolding insert_sorted
contains-insert_sorted s t [] = refl
contains-insert_sorted s t (x ∷ xs) =
    contains-place s t x xs (insert_sorted s xs) (compare s x) refl (contains-insert_sorted s t xs)

-- Sorting and dropping repeats changes no membership.
pub contains-sorted_set :
    (t : String) (xs : List String) → contains t (sorted_set xs) ≡ contains t xs
unfolding sorted_set
contains-sorted_set t [] = refl
contains-sorted_set t (x ∷ xs) =
    ground (arith, contains-insert_sorted x t (sorted_set xs), contains-sorted_set t xs)

pub contains_all-contains :
    (t : String) (xs ys : List String)
    → contains_all xs ys ≡ true
    → contains t xs ≡ true
    → contains t ys ≡ true
contains_all-contains t [] ys h c = ground arith
contains_all-contains t (x ∷ xs) ys h c = ground (arith, contains_all-contains t xs ys, eq_iff t x)

contains_self : (t : String) (xs : List String) → contains t (t ∷ xs) ≡ true
contains_self t xs = ground (arith, eq_iff t t)

-- A list whose members are all in another is contained in it.
pub contains_all-intro :
    (xs ys : List String)
    → ((t : String) → contains t xs ≡ true → contains t ys ≡ true)
    → contains_all xs ys ≡ true
contains_all-intro [] ys f = refl
contains_all-intro (x ∷ xs) ys f =
    let head = f x (contains_self x xs) in
    let tail = contains_all-intro xs ys λ t h. f t (later t x xs h) in rw head tail
  where
    later : (t x : String) (xs : List String) → contains t xs ≡ true → contains t (x ∷ xs) ≡ true
    later t x xs h = ground arith
