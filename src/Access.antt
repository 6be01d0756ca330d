-- ===== src/Access.antt =====
-- Who may do what: the permission registry, the roles, and the guards of the endpoints.
pub mod Permissions
pub mod Roles
pub mod Guards
