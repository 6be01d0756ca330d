-- ===== src/Access/Roles/Grants.antt =====
-- What is read back after `set_permissions_for_role` (app/services/permission_service.py).
use mathlib.Core.List.{append-nil, append_assoc}
use matchmaking_backend.Prelude.{
  ◌+◌, ℕ, ◌≡◌, refl, ap, ◌∙◌, false, String, List, [], ◌∷◌, ◌++◌, ◌==◌, ==_refl, arith, map, select,
  delete, contains, contains-sorted_set, ascends, sorted_set-ascends, true, if◌then◌else◌,
}
use matchmaking_backend.Errors.{ok}
use matchmaking_backend.Enums.{UserRole, role_index, is_super_admin}
use matchmaking_backend.Models.{User, RolePermission}
use matchmaking_backend.World.{World}
use matchmaking_backend.Access.Permissions.{all_permissions}
use matchmaking_backend.Access.Roles.{
  is_row_of, or_default, permissions_for_role, add_rows, granted, set_permissions_for_role,
}

abbrev of_role : UserRole → List RolePermission → List String
of_role role rows = map (λ r. r.permission) (select (is_row_of role) rows)

of_role-append :
    (role : UserRole) (xs ys : List RolePermission)
    → of_role role (xs ++ ys) ≡ of_role role xs ++ of_role role ys
of_role-append role [] ys = refl
of_role-append role (x ∷ xs) ys = ground (arith, of_role-append role xs ys)

of_role-delete_self :
    (role : UserRole) (rows : List RolePermission)
    → of_role role (delete (is_row_of role) rows) ≡ []
of_role-delete_self role [] = refl
of_role-delete_self role (x ∷ xs) = ground (arith, of_role-delete_self role xs)

of_role-delete_other :
    (role other : UserRole) (rows : List RolePermission)
    → (role_index other == role_index role) ≡ false
    → of_role other (delete (is_row_of role) rows) ≡ of_role other rows
of_role-delete_other role other [] h = refl
of_role-delete_other role other (x ∷ xs) h = ground (arith, of_role-delete_other role other xs h)

pub add_rows_self :
    (role : UserRole) (ps : List String) (w : World)
    → ((add_rows role ps w).0 ≡ ok tt)
      × (of_role role (add_rows role ps w).1.role_permissions
          ≡ of_role role w.role_permissions ++ ps)
unfolding add_rows
add_rows_self role [] w = (refl, rw append-nil)
add_rows_self role (p ∷ ps) w =
    let row : RolePermission = record { id = w.uuid4 w.drawn; role = role; permission = p } in
    let w' = record w { role_permissions = w.role_permissions ++ row ∷ []; drawn = w.drawn + 1 } in
    let kept = append_assoc (of_role role w.role_permissions) (p ∷ []) ps in
    ground (
      arith,
      add_rows_self role ps w',
      of_role-append role w.role_permissions (row ∷ []),
      ==_refl (role_index role),
      kept,
    )

add_rows_other :
    (role other : UserRole) (ps : List String) (w : World)
    → (role_index role == role_index other) ≡ false
    → of_role other (add_rows role ps w).1.role_permissions ≡ of_role other w.role_permissions
unfolding add_rows
add_rows_other role other [] w ne = refl
add_rows_other role other (p ∷ ps) w ne =
    let row : RolePermission = record { id = w.uuid4 w.drawn; role = role; permission = p } in
    let w' = record w { role_permissions = w.role_permissions ++ row ∷ []; drawn = w.drawn + 1 } in
    ground (
      arith,
      add_rows_other role other ps w' ne,
      of_role-append other w.role_permissions (row ∷ []),
      append-nil (of_role other w.role_permissions),
    )

-- The permissions that a role is to have after a call: every one of the registry for SUPER_ADMIN.
abbrev pub asked : UserRole → List String → List String
asked UserRole.super_admin ps = all_permissions
asked _ ps = ps

granted-contains :
    (role : UserRole) (ps : List String) (s : String)
    → contains s (granted role ps) ≡ contains s (asked role ps)
granted-contains UserRole.super_admin ps s = contains-sorted_set s all_permissions
granted-contains _ ps s = contains-sorted_set s ps

granted-ascends : (role : UserRole) (ps : List String) → ascends (granted role ps) ≡ true
granted-ascends role ps = sorted_set-ascends (if is_super_admin role then all_permissions else ps)

pub set_permissions_granted :
    (u : User) (role : UserRole) (ps : List String) (now : ℕ) (w : World) {given : List String}
    → (set_permissions_for_role u role ps now w).0 ≡ ok given
    → (given ≡ granted role ps)
      × (permissions_for_role role (set_permissions_for_role u role ps now w).1
          ≡ or_default role given)
unfolding set_permissions_for_role permissions_for_role
set_permissions_granted u role ps now w e =
    let w' = record w { role_permissions = delete (is_row_of role) w.role_permissions } in
    ground
      (arith, add_rows_self role (granted role ps) w', of_role-delete_self role w.role_permissions)

-- Where setting the permissions of a role returns, each text of the answer comes before the next,
-- so that it is sorted without repeats, and its members are those of the registry for SUPER_ADMIN
-- and those that were given for any other role; the role then reads as the answer, or as its
-- default permissions where the answer is empty.
pub set_permissions_reads :
    (u : User) (role : UserRole) (ps : List String) (now : ℕ) (s : String) (w : World)
    {given : List String}
    → (set_permissions_for_role u role ps now w).0 ≡ ok given
    → (ascends given ≡ true)
      × (contains s given ≡ contains s (asked role ps))
      × (permissions_for_role role (set_permissions_for_role u role ps now w).1
          ≡ or_default role given)
set_permissions_reads u role ps now s w {given} e =
    let (same, reads) = set_permissions_granted u role ps now w {given = given} e in
    (
      ap ascends same ∙ granted-ascends role ps,
      ap (contains s) same ∙ granted-contains role ps s,
      reads,
    )

-- Setting the permissions of a role, whether it returns or raises, changes those of no other role.
pub set_permissions_of_others :
    (u : User) (role other : UserRole) (ps : List String) (now : ℕ) (w : World)
    → (role_index role == role_index other) ≡ false
    → permissions_for_role other (set_permissions_for_role u role ps now w).1
      ≡ permissions_for_role other w
unfolding set_permissions_for_role permissions_for_role
set_permissions_of_others u role other ps now w ne =
    let w' = record w { role_permissions = delete (is_row_of role) w.role_permissions } in
    ground (
      arith,
      add_rows_self role (granted role ps) w',
      add_rows_other role other (granted role ps) w',
      of_role-delete_other role other w.role_permissions,
    )
