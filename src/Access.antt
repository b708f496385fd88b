-- ===== src/Access.antt =====
-- Who may do what: backend/app/rbac/permissions.py and backend/app/authz.py.
pub mod Permissions
pub mod Authorize
