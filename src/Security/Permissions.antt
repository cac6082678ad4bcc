-- ===== src/Security/Permissions.antt =====
-- What the roles may do.
use gift_hub.Prelude.{
  ℕ, String, ◌≡◌, ap, ◌⊎◌, inl, inr, Bool-cases, true, false, Option, none, some, str_eq, eq_iff,
  arith,
}
use gift_hub.Prelude.Dict.{lookup}
use gift_hub.Security.{Settings, role_permissions, is_listed_admin, has_permission, set_has}

-- What only a super administrator may do.
pub data Reserved : String → Type 0 where
  refund_orders : Reserved "orders.refund"
  manage_admins : Reserved "admins.manage"
  read_admins : Reserved "admins.read"
  update_settings : Reserved "settings.update"
  read_settings : Reserved "settings.read"
  read_payments : Reserved "payments.read"

others_without :
    (role permission : String)
    → Reserved permission
    → str_eq role "super_admin" ≡ false
    → set_has permission (lookup role role_permissions) ≡ false
unfolding role_permissions lookup
others_without role _ refund_orders n =
    ground (arith, eq_iff role "super_admin", eq_iff "super_admin" role)
others_without role _ manage_admins n =
    ground (arith, eq_iff role "super_admin", eq_iff "super_admin" role)
others_without role _ read_admins n =
    ground (arith, eq_iff role "super_admin", eq_iff "super_admin" role)
others_without role _ update_settings n =
    ground (arith, eq_iff role "super_admin", eq_iff "super_admin" role)
others_without role _ read_settings n =
    ground (arith, eq_iff role "super_admin", eq_iff "super_admin" role)
others_without role _ read_payments n =
    ground (arith, eq_iff role "super_admin", eq_iff "super_admin" role)

-- The permissions to refund orders, to read payments and settings, to change settings, and to
-- read and manage administrators belong to the listed administrators and the role "super_admin"
-- alone.
pub only_super :
    (st : Settings) (role : Option String) (user_id : ℕ) (permission : String)
    → Reserved permission
    → has_permission st role user_id permission ≡ true
    → (is_listed_admin st user_id ≡ true) ⊎ (role ≡ some "super_admin")
unfolding has_permission
only_super st none user_id permission r h = inl (ground arith)
only_super st (some role) user_id permission r h = elim (Bool-cases (str_eq role "super_admin")) [
  | inl y ↦ inr (ap some ((eq_iff role "super_admin").0 y))
  | inr n ↦ let w = others_without role permission r n in inl (ground arith)
]
