-- ===== src/Prelude/Turned.antt =====
-- The order of texts, turned round.
use Prim.Native.Nat.{ℕ, Ordering, compare as compare_ℕ}
use Prim.Native.Char.{code}
use Prim.Native.String.{String, [], ◌∷◌, compare, then}
use Prim.Native.String.compare
use mathlib.Core.Path.{◌≡◌, refl, sym, ◌∙◌}
use native.Mathlib.Omega.{arith}

turned_ℕ : (m n : ℕ) → compare_ℕ m n ≡ Ordering.gt → compare_ℕ n m ≡ Ordering.lt
turned_ℕ m n e = ground arith

equal_ℕ : (m n : ℕ) → compare_ℕ m n ≡ Ordering.eq → compare_ℕ n m ≡ Ordering.eq
equal_ℕ m n e = ground arith

turned_then :
    (o p q r : Ordering)
    → (o ≡ Ordering.gt → p ≡ Ordering.lt)
    → (o ≡ Ordering.eq → p ≡ Ordering.eq)
    → (q ≡ Ordering.gt → r ≡ Ordering.lt)
    → then o q ≡ Ordering.gt
    → then p r ≡ Ordering.lt
turned_then Ordering.lt p q r f g h e = ground arith
turned_then Ordering.eq p q r f g h e = ground (arith, g refl, h e)
turned_then Ordering.gt p q r f g h e = ground (arith, f refl)

-- A text that comes after another has that one before it.
pub turned : (s t : String) → compare s t ≡ Ordering.gt → compare t s ≡ Ordering.lt
turned [] [] e = ground (arith, compare.nil-nil)
turned [] (d ∷ t) e = ground (arith, compare.nil-cons d t)
turned (c ∷ s) [] e = compare.nil-cons c s
turned (c ∷ s) (d ∷ t) e =
    compare.cons-cons d c t s
    ∙ turned_then (compare_ℕ (code c) (code d)) (compare_ℕ (code d) (code c)) (compare s t)
        (compare t s) (turned_ℕ (code c) (code d)) (equal_ℕ (code c) (code d)) (turned s t)
        (sym (compare.cons-cons c d s t) ∙ e)
