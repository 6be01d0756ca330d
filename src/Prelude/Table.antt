-- ===== src/Prelude/Table.antt =====
-- A database table as the list of its rows: the select, update and delete statements that the
-- repositories issue, over a Boolean `where` clause, and their laws.
use Prim.Native.Nat.{ℕ, suc}
use mathlib.Core.Path.{◌≡◌, refl}
use mathlib.Core.Bool.{Bool, true, false, ◌&&◌, ◌||◌}
use mathlib.Core.Option.{Option, none, some}
use mathlib.Core.List.{List, [], ◌∷◌, ◌++◌}
use native.Mathlib.Omega.{arith}
use matchmaking_backend.Prelude.Tests.{if◌then◌else◌, is_some}

module _ {ℓ} {A : Type ℓ} where
  -- `select(...).where(p).limit(1)`: the first row, or None.
  abbrev pub first : (A → Bool) → List A → Option A
  first p [] = none
  first p (x ∷ xs) = if p x then some x else first p xs

  -- Whether a row satisfies the clause.
  abbrev pub exists : (A → Bool) → List A → Bool
  exists p [] = false
  exists p (x ∷ xs) = p x || exists p xs

  -- `select(...).where(p)`, all rows.
  abbrev pub select : (A → Bool) → List A → List A
  select p [] = []
  select p (x ∷ xs) = let rest = select p xs in if p x then x ∷ rest else rest

  -- The assignments `f` to the attributes of every row that satisfies the clause.
  abbrev pub update : (A → Bool) → (A → A) → List A → List A
  update p f [] = []
  update p f (x ∷ xs) = (if p x then f x else x) ∷ update p f xs

  -- The assignments `f` to the attributes of the one row that a select gave.
  abbrev pub update_first : (A → Bool) → (A → A) → List A → List A
  update_first p f [] = []
  update_first p f (x ∷ xs) = let rest = update_first p f xs in if p x then f x ∷ xs else x ∷ rest

  -- Whether every row satisfies the clause.
  abbrev pub every : (A → Bool) → List A → Bool
  every p [] = true
  every p (x ∷ xs) = p x && every p xs

  -- `delete(...).where(p)`.
  abbrev pub delete : (A → Bool) → List A → List A
  delete p [] = []
  delete p (x ∷ xs) = let rest = delete p xs in if p x then rest else x ∷ rest

  -- `select(func.count()).where(p)`.
  abbrev pub count_where : (A → Bool) → List A → ℕ
  count_where p [] = 0
  count_where p (x ∷ xs) = let n = count_where p xs in if p x then suc n else n

  abbrev pub length : List A → ℕ
  length [] = 0
  length (x ∷ xs) = suc (length xs)

  -- `session.add`: a new row goes last.
  abbrev pub add : A → List A → List A
  add a xs = xs ++ a ∷ []

module _ {ℓ} {A : Type ℓ} where
  pub first_sound : (p : A → Bool) (xs : List A) (a : A) → first p xs ≡ some a → p a ≡ true
  first_sound p [] a h = ground arith
  first_sound p (x ∷ xs) a h = ground (arith, first_sound p xs a)

  pub first-exists : (p : A → Bool) (xs : List A) → is_some (first p xs) ≡ exists p xs
  first-exists p [] = refl
  first-exists p (x ∷ xs) = ground (arith, first-exists p xs)

  pub exists-add : (p : A → Bool) (a : A) (xs : List A) → exists p (add a xs) ≡ (exists p xs || p a)
  exists-add p a [] = ground arith
  exists-add p a (x ∷ xs) = ground (arith, exists-add p a xs)

  pub every-add : (p : A → Bool) (a : A) (xs : List A) → every p (add a xs) ≡ (every p xs && p a)
  every-add p a [] = ground arith
  every-add p a (x ∷ xs) = ground (arith, every-add p a xs)

  -- What every row satisfies, every selected row satisfies.
  pub every-select :
      (q p : A → Bool) (xs : List A) → every q xs ≡ true → every q (select p xs) ≡ true
  every-select q p [] h = refl
  every-select q p (x ∷ xs) h = ground (arith, every-select q p xs)

  -- A row of a table whose rows all satisfy a clause satisfies it.
  pub every-first :
      (q p : A → Bool) (xs : List A) (a : A) → every q xs ≡ true → first p xs ≡ some a → q a ≡ true
  every-first q p [] a h e = ground arith
  every-first q p (x ∷ xs) a h e = ground (arith, every-first q p xs a)

  -- Assignments keep a clause that the selected row keeps.
  pub every-update_first :
      (q p : A → Bool) (f : A → A) (xs : List A) (a : A)
      → every q xs ≡ true
      → first p xs ≡ some a
      → q (f a) ≡ true
      → every q (update_first p f xs) ≡ true
  every-update_first q p f [] a h e k = refl
  every-update_first q p f (x ∷ xs) a h e k = ground (arith, every-update_first q p f xs a)

  pub first-add :
      (p : A → Bool) (a : A) (xs : List A)
      → first p (add a xs) ≡ (if exists p xs then first p xs else if p a then some a else none)
  first-add p a [] = refl
  first-add p a (x ∷ xs) = ground (arith, first-add p a xs)

module _ {ℓ} {A : Type ℓ} where
  -- What an update makes of a row that was selected before it.
  abbrev pub after : (A → Bool) → (A → A) → Option A → Option A
  after q f none = none
  after q f (some x) = some (if q x then f x else x)

  -- A clause that the assignments do not touch selects the same row.
  pub first-update :
      (p q : A → Bool) (f : A → A) (xs : List A)
      → ((x : A) → p (f x) ≡ p x)
      → first p (update q f xs) ≡ after q f (first p xs)
  first-update p q f [] h = refl
  first-update p q f (x ∷ xs) h = ground (arith, h x, first-update p q f xs h)

  -- The row that a select gave, after assignments that keep its clause.
  pub first-update_first :
      (p : A → Bool) (f : A → A) (xs : List A)
      → ((x : A) → p (f x) ≡ p x)
      → first p (update_first p f xs) ≡ after (λ x. true) f (first p xs)
  first-update_first p f [] h = refl
  first-update_first p f (x ∷ xs) h = ground (arith, h x, first-update_first p f xs h)

  -- A clause that rules the row out, before and after, selects what it selected.
  pub first-update_first_other :
      (p q : A → Bool) (f : A → A) (xs : List A)
      → ((x : A) → q x ≡ true → p x ≡ false)
      → ((x : A) → p (f x) ≡ p x)
      → first p (update_first q f xs) ≡ first p xs
  first-update_first_other p q f [] k h = refl
  first-update_first_other p q f (x ∷ xs) k h =
      ground (arith, h x, k x, first-update_first_other p q f xs k h)

  pub select-add :
      (p : A → Bool) (a : A) (xs : List A)
      → select p (add a xs) ≡ (if p a then add a (select p xs) else select p xs)
  select-add p a [] = ground arith
  select-add p a (x ∷ xs) = ground (arith, select-add p a xs)
