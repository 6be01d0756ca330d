-- ===== src/Prelude/Counts.antt =====
-- How many rows satisfy a clause, after the statements that change them.
use Prim.Native.Nat.{suc, ◌≤◌}
use mathlib.Core.Path.{◌≡◌, refl}
use mathlib.Core.Bool.{Bool, true, false}
use mathlib.Core.List.{List, [], ◌∷◌}
use native.Mathlib.Omega.{arith}
use matchmaking_backend.Prelude.Tests.{if◌then◌else◌}
use matchmaking_backend.Prelude.Table.{count_where, add, update, update_first}

module _ {ℓ} {A : Type ℓ} where
  pub count_where-add :
      (p : A → Bool) (a : A) (xs : List A)
      → count_where p (add a xs) ≡ (if p a then suc (count_where p xs) else count_where p xs)
  count_where-add p a [] = refl
  count_where-add p a (x ∷ xs) = ground (arith, count_where-add p a xs)

  -- Assignments to one row that make no row satisfy the clause, and any assignments to one row.
  pub count_where-update_first :
      (p q : A → Bool) (f : A → A) (xs : List A)
      → ((x : A) → q x ≡ true → p (f x) ≡ true → p x ≡ true)
      → count_where p (update_first q f xs) ≤ count_where p xs
  count_where-update_first p q f [] h = omega arith
  count_where-update_first p q f (x ∷ xs) h =
      ground (arith, h x, count_where-update_first p q f xs h)

  pub count_where-update_first-suc :
      (p q : A → Bool) (f : A → A) (xs : List A)
      → count_where p (update_first q f xs) ≤ suc (count_where p xs)
  count_where-update_first-suc p q f [] = omega arith
  count_where-update_first-suc p q f (x ∷ xs) =
      ground (arith, count_where-update_first-suc p q f xs)

  -- The same for assignments to many rows, and assignments that leave no row with the clause.
  pub count_where-update :
      (p q : A → Bool) (f : A → A) (xs : List A)
      → ((x : A) → q x ≡ true → p (f x) ≡ true → p x ≡ true)
      → count_where p (update q f xs) ≤ count_where p xs
  count_where-update p q f [] h = omega arith
  count_where-update p q f (x ∷ xs) h = ground (arith, h x, count_where-update p q f xs h)

  pub count_where-cleared :
      (p q : A → Bool) (f : A → A) (xs : List A)
      → ((x : A) → p (if q x then f x else x) ≡ false)
      → count_where p (update q f xs) ≡ 0
  count_where-cleared p q f [] h = refl
  count_where-cleared p q f (x ∷ xs) h = ground (arith, h x, count_where-cleared p q f xs h)
