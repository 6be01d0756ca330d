-- ===== src/Accounts/Admin/Guards.antt =====
-- The guards of the actions of app/services/admin_user_service.py.
use matchmaking_backend.Prelude.{
  ℕ, ◌≡◌, refl, Bool, true, false, Option, none, some, arith, after, first-update, first_sound,
  first, ◌==◌, List, update, ◌⊎◌, inl, inr, ap, sym, ◌∙◌, ==_sound, if◌then◌else◌,
}
use matchmaking_backend.Enums.{UserRole, is_super_admin}
use matchmaking_backend.Models.{User}
use matchmaking_backend.World.{World, get_user}
use matchmaking_backend.Accounts.Admin.{find_user, change_role}

abbrev pub super_in : Option User → Bool
super_in none = false
super_in (some u) = is_super_admin u.role

abbrev with_role : ℕ → UserRole → List User → List User
with_role id role us = update (λ u. u.id == id) (λ u. record u { role = role }) us

change_role-users :
    (admin u : User) (id : ℕ) (role : UserRole) (now : ℕ) (w : World)
    → get_user id w ≡ some u
    → is_super_admin admin.role ≡ false
    → ((change_role admin id role now w).1.users ≡ w.users)
      ⊎ ((is_super_admin u.role ≡ false)
          × (is_super_admin role ≡ false)
          × (u.id ≡ id)
          × ((change_role admin id role now w).1.users ≡ with_role id role w.users))
unfolding change_role find_user
change_role-users admin u id role now w f h =
    ground (arith, first_sound (λ (x : User). x.id == id) w.users u f)

super_after :
    (id : ℕ) (role : UserRole) (o : Option User)
    → is_super_admin role ≡ false
    → ((x : User) → o ≡ some x → (x.id == id) ≡ true → is_super_admin x.role ≡ false)
    → super_in (after (λ u. u.id == id) (λ u. record u { role = role }) o) ≡ super_in o
super_after id role none new lesser = refl
super_after id role (some x) new lesser = changed (x.id == id) (lesser x refl)
  where
    changed :
        (b : Bool)
        → (b ≡ true → is_super_admin x.role ≡ false)
        → is_super_admin (if b then record x { role = role } else x).role ≡ is_super_admin x.role
    changed true h = new ∙ sym (h refl)
    changed false h = refl

lesser_row :
    (u x : User) (id other : ℕ) (us : List User)
    → first (λ y. y.id == id) us ≡ some u
    → is_super_admin u.role ≡ false
    → first (λ y. y.id == other) us ≡ some x
    → (x.id == id) ≡ true
    → is_super_admin x.role ≡ false
lesser_row u x id other us f lesser e same =
    let is_other = ==_sound x.id other (first_sound (λ (y : User). y.id == other) us x e) in
    let is_id = ==_sound x.id id same in
    let one : first (λ (y : User). y.id == other) us ≡ first (λ y. y.id == id) us =
      ap (λ (n : ℕ). first (λ (y : User). y.id == n) us) (sym is_other ∙ is_id) in
    cc

with_role_super :
    (u : User) (id other : ℕ) (role : UserRole) (us : List User)
    → first (λ x. x.id == id) us ≡ some u
    → is_super_admin u.role ≡ false
    → is_super_admin role ≡ false
    → super_in (first (λ x. x.id == other) (with_role id role us))
      ≡ super_in (first (λ x. x.id == other) us)
with_role_super u id other role us f lesser new =
    rw
      (first-update (λ (x : User). x.id == other) (λ x. x.id == id) (λ x. record x { role = role })
        us λ x. refl)
      (super_after id role (first (λ (x : User). x.id == other) us) new
        λ x e same. lesser_row u x id other us f lesser e same)

role_of_none :
    (admin : User) (id other : ℕ) (role : UserRole) (now : ℕ) (w : World)
    → get_user id w ≡ none
    → super_in (get_user other (change_role admin id role now w).1) ≡ super_in (get_user other w)
unfolding change_role find_user
role_of_none admin id other role now w f = ground arith

changed_role :
    (admin : User) (id other : ℕ) (role : UserRole) (now : ℕ) (w : World) (o : Option User)
    → get_user id w ≡ o
    → is_super_admin admin.role ≡ false
    → super_in (get_user other (change_role admin id role now w).1) ≡ super_in (get_user other w)
changed_role admin id other role now w none f h = role_of_none admin id other role now w f
changed_role admin id other role now w (some u) f h =
    elim (change_role-users admin u id role now w f h) [
      | inl same ↦ rw same refl
      | inr (lesser, new, _, written) ↦
          rw written (with_role_super u id other role w.users f lesser new)
    ]

-- A call of change_role by whoever is no SUPER_ADMIN makes no user a SUPER_ADMIN and takes the role
-- from none, whether it returns or raises.
pub change_role_by_lesser :
    (admin : User) (id other : ℕ) (role : UserRole) (now : ℕ) (w : World)
    → is_super_admin admin.role ≡ false
    → super_in (get_user other (change_role admin id role now w).1) ≡ super_in (get_user other w)
change_role_by_lesser admin id other role now w h =
    changed_role admin id other role now w (get_user id w) refl h
