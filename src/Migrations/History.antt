-- ===== src/Migrations/History.antt =====
-- The list of the migrations, in DBInit of pkg/bastion/dbinit.go.
use sshportal.Base.{List, [], ◌∷◌, ◌++◌}
use sshportal.Migrations.{
  table, auto_migrate, recreate_index, create_role, promote_admins, fill_authorized_keys,
  clear_zero_stops, log_everything, drop_table, drop_index, delete_role, not_implemented, Migration,
  migration,
}

unfoldable pub tables_first : List Migration
tables_first =
    migration "1" (auto_migrate (table "settings" ("name" ∷ "value" ∷ []) []))
      (drop_table "settings")
    ∷ migration "2"
        (auto_migrate (
          table "ssh_keys"
            ("name" ∷ "type" ∷ "length" ∷ "fingerprint" ∷ "priv_key" ∷ "pub_key" ∷ "comment" ∷ [])
            []))
        (drop_table "ssh_keys")
    ∷ migration "3"
        (auto_migrate (
          table "hosts"
            ("name" ∷ "addr" ∷ "user" ∷ "password" ∷ "ssh_key_id" ∷ "fingerprint" ∷ "comment" ∷ [])
            ("host_host_groups" ∷ [])))
        (drop_table "hosts")
    ∷ migration "4" (auto_migrate (table "user_keys" ("key" ∷ "user_id" ∷ "comment" ∷ []) []))
        (drop_table "user_keys")
    ∷ migration "5"
        (auto_migrate (
          table "users" ("is_admin" ∷ "email" ∷ "name" ∷ "comment" ∷ "invite_token" ∷ [])
            ("user_user_groups" ∷ [])))
        (drop_table "users")
    ∷ migration "6"
        (auto_migrate (
          table "user_groups" ("name" ∷ "comment" ∷ [])
            ("user_user_groups" ∷ "user_group_acls" ∷ [])))
        (drop_table "user_groups")
    ∷ migration "7"
        (auto_migrate (
          table "host_groups" ("name" ∷ "comment" ∷ [])
            ("host_host_groups" ∷ "host_group_acls" ∷ [])))
        (drop_table "host_groups")
    ∷ migration "8"
        (auto_migrate (
          table "acls" ("host_pattern" ∷ "action" ∷ "weight" ∷ "comment" ∷ [])
            ("host_group_acls" ∷ "user_group_acls" ∷ [])))
        (drop_table "acls")
    ∷ []

unfoldable pub indexes : List Migration
indexes =
    migration "9" (recreate_index "settings" "uix_settings_name")
      (drop_index "settings" "uix_settings_name")
    ∷ migration "10" (recreate_index "ssh_keys" "uix_keys_name")
        (drop_index "ssh_keys" "uix_keys_name")
    ∷ migration "11" (recreate_index "hosts" "uix_hosts_name") (drop_index "hosts" "uix_hosts_name")
    ∷ migration "12" (recreate_index "users" "uix_users_name") (drop_index "users" "uix_users_name")
    ∷ migration "13" (recreate_index "user_groups" "uix_usergroups_name")
        (drop_index "user_groups" "uix_usergroups_name")
    ∷ migration "14" (recreate_index "host_groups" "uix_hostgroups_name")
        (drop_index "host_groups" "uix_hostgroups_name")
    ∷ []

unfoldable pub roles : List Migration
roles =
    migration "15" (auto_migrate (table "user_roles" ("name" ∷ []) ("user_user_roles" ∷ [])))
      (drop_table "user_roles")
    ∷ migration "16"
        (auto_migrate (
          table "users" ("is_admin" ∷ "email" ∷ "name" ∷ "comment" ∷ "invite_token" ∷ [])
            ("user_user_roles" ∷ "user_user_groups" ∷ [])))
        not_implemented
    ∷ migration "17" (create_role "admin") (delete_role "admin")
    ∷ migration "18" promote_admins not_implemented
    ∷ migration "19"
        (auto_migrate (
          table "users" ("email" ∷ "name" ∷ "comment" ∷ "invite_token" ∷ [])
            ("user_user_roles" ∷ "user_user_groups" ∷ [])))
        not_implemented
    ∷ migration "20" (create_role "listhosts") (delete_role "listhosts")
    ∷ []

unfoldable pub sessions_and_keys : List Migration
sessions_and_keys =
    migration "21"
      (auto_migrate (
        table "sessions"
          ("stopped_at" ∷ "status" ∷ "user_id" ∷ "host_id" ∷ "err_msg" ∷ "comment" ∷ []) []))
      (drop_table "sessions")
    ∷ migration "22"
        (auto_migrate
          (table "events" ("author_id" ∷ "domain" ∷ "action" ∷ "entity" ∷ "args" ∷ []) []))
        (drop_table "events")
    ∷ migration "23"
        (auto_migrate
          (table "user_keys" ("key" ∷ "authorized_key" ∷ "user_id" ∷ "comment" ∷ []) []))
        not_implemented
    ∷ migration "24" fill_authorized_keys not_implemented
    ∷ migration "25"
        (auto_migrate (
          table "hosts"
            ("name" ∷ "addr" ∷ "user" ∷ "password" ∷ "ssh_key_id" ∷ "host_key" ∷ "fingerprint"
              ∷ "comment" ∷ [])
            ("host_host_groups" ∷ [])))
        not_implemented
    ∷ migration "26"
        (auto_migrate (
          table "sessions"
            ("stopped_at" ∷ "status" ∷ "user_id" ∷ "host_id" ∷ "err_msg" ∷ "comment" ∷ []) []))
        not_implemented
    ∷ migration "27" clear_zero_stops not_implemented
    ∷ []

unfoldable pub host_fields : List Migration
host_fields =
    migration "28"
      (auto_migrate (
        table "hosts"
          ("name" ∷ "addr" ∷ "user" ∷ "password" ∷ "url" ∷ "ssh_key_id" ∷ "host_key" ∷ "comment"
            ∷ [])
          ("host_host_groups" ∷ [])))
      not_implemented
    ∷ migration "29"
        (auto_migrate (
          table "hosts"
            ("name" ∷ "addr" ∷ "user" ∷ "password" ∷ "url" ∷ "ssh_key_id" ∷ "host_key" ∷ "comment"
              ∷ "hop_id" ∷ [])
            ("host_host_groups" ∷ [])))
        not_implemented
    ∷ migration "30"
        (auto_migrate (
          table "hosts"
            ("name" ∷ "addr" ∷ "user" ∷ "password" ∷ "url" ∷ "ssh_key_id" ∷ "host_key" ∷ "comment"
              ∷ "logging" ∷ "hop_id" ∷ [])
            ("host_host_groups" ∷ [])))
        not_implemented
    ∷ migration "31" log_everything not_implemented
    ∷ migration "32"
        (auto_migrate (
          table "acls"
            ("host_pattern" ∷ "action" ∷ "weight" ∷ "comment" ∷ "inception" ∷ "expiration" ∷ [])
            ("host_group_acls" ∷ "user_group_acls" ∷ [])))
        not_implemented
    ∷ []

unfoldable pub migrations : List Migration
unfolding tables_first indexes roles sessions_and_keys host_fields
migrations = tables_first ++ (indexes ++ (roles ++ (sessions_and_keys ++ host_fields)))
