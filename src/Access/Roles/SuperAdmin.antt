-- ===== src/Access/Roles/SuperAdmin.antt =====
-- The permissions of SUPER_ADMIN under `set_permissions_for_role` (app/services/permission_service.py).
use matchmaking_backend.Prelude.{
  ℕ, ◌≡◌, refl, ◌⊎◌, inl, inr, true, false, if◌then◌else◌, String, List, [], ◌∷◌, ◌==◌, arith,
  Bool-cases, contains, contains_all, delete, contains-sorted_set, contains_all-contains,
  contains_all-intro,
}
use matchmaking_backend.Errors.{ok}
use matchmaking_backend.Enums.{UserRole, role_index, is_super_admin}
use matchmaking_backend.Models.{User}
use matchmaking_backend.World.{World}
use matchmaking_backend.Access.Permissions.{all_permissions, permissions_for_role_default}
use matchmaking_backend.Access.Roles.{
  is_row_of, or_default, permissions_for_role, granted, set_permissions_for_role,
}
use matchmaking_backend.Access.Roles.Grants.{
  add_rows_self, set_permissions_granted, set_permissions_of_others,
}

-- Every permission of the registry is SUPER_ADMIN's.
abbrev pub IsFull : World → Type 0
IsFull w = contains_all all_permissions (permissions_for_role UserRole.super_admin w) ≡ true

or_default-full :
    (xs : List String)
    → contains_all all_permissions xs ≡ true
    → contains_all all_permissions (or_default UserRole.super_admin xs) ≡ true
unfolding permissions_for_role_default
or_default-full [] h = contains_all-intro all_permissions all_permissions λ t k. k
or_default-full (x ∷ xs) h = h

granted-full :
    (ps : List String) → contains_all all_permissions (granted UserRole.super_admin ps) ≡ true
granted-full ps =
    contains_all-intro all_permissions (granted UserRole.super_admin ps)
      λ t k. rw contains-sorted_set k

super_or_other :
    (role : UserRole)
    → (role ≡ UserRole.super_admin) ⊎ ((role_index role == role_index UserRole.super_admin) ≡ false)
unfolding role_index
super_or_other UserRole.super_admin = inl refl
super_or_other _ = inr refl

-- A call that raises has changed nothing.
set_permissions_refused :
    (u : User) (role : UserRole) (ps : List String) (now : ℕ) (w : World)
    → contains_all ps all_permissions ≡ false
    → (set_permissions_for_role u role ps now w).1 ≡ w
unfolding set_permissions_for_role
set_permissions_refused u role ps now w h = rw h

set_permissions_accepted :
    (u : User) (role : UserRole) (ps : List String) (now : ℕ) (w : World)
    → contains_all ps all_permissions ≡ true
    → (set_permissions_for_role u role ps now w).0 ≡ ok (granted role ps)
unfolding set_permissions_for_role
set_permissions_accepted u role ps now w h =
    let w' = record w { role_permissions = delete (is_row_of role) w.role_permissions } in
    ground (arith, add_rows_self role (granted role ps) w')

module _ (u : User) (ps : List String) (now : ℕ) (w : World) (full : IsFull w) where
  accepted-IsFull :
      (role : UserRole)
      → contains_all ps all_permissions ≡ true
      → IsFull (set_permissions_for_role u role ps now w).1
  accepted-IsFull role h = elim (super_or_other role) [
    | inl e ↦
        let accepted = set_permissions_accepted u UserRole.super_admin ps now w h in
        let reads = (set_permissions_granted u UserRole.super_admin ps now w accepted).1 in
        rw e (rw reads (or_default-full (granted UserRole.super_admin ps) (granted-full ps)))
    | inr ne ↦ rw (set_permissions_of_others u role UserRole.super_admin ps now w ne) full
  ]

  -- Whatever permissions are set for whatever role, and whether the call returns or raises,
  -- SUPER_ADMIN keeps every permission of the registry where it had them all.
  pub set_permissions-IsFull :
      (role : UserRole) → IsFull (set_permissions_for_role u role ps now w).1
  set_permissions-IsFull role = elim (Bool-cases (contains_all ps all_permissions)) [
    | inl h ↦ accepted-IsFull role h
    | inr h ↦ rw (set_permissions_refused u role ps now w h) full
  ]

-- Where setting the permissions of a role returns, every permission that it answers is in the
-- registry.
pub set_permissions_known :
    (u : User) (role : UserRole) (ps : List String) (now : ℕ) (w : World) (p : String)
    {given : List String}
    → (set_permissions_for_role u role ps now w).0 ≡ ok given
    → contains p given ≡ true
    → contains p all_permissions ≡ true
unfolding set_permissions_for_role
set_permissions_known u role ps now w p e c =
    let w' = record w { role_permissions = delete (is_row_of role) w.role_permissions } in
    ground (
      arith,
      add_rows_self role (granted role ps) w',
      contains-sorted_set p (if is_super_admin role then all_permissions else ps),
      contains_all-contains p ps all_permissions,
    )
