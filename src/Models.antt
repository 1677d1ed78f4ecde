-- ===== src/Models.antt =====
-- The rows of the database, pkg/dbmodels/dbmodels.go. A `gorm.Model` contributes its `ID`; its time
-- stamps are read by the listings alone and are left out. A time is a number of nanoseconds, a
-- nullable one an `Option`. A pointer that leads back to the row's owner (`ACL.UserGroups`,
-- `UserGroup.Users`, `Host.Hop`, ...) is the list of the ids it leads to, or left to the id column.
use sshportal.Base.{ℕ, String, Option, List}

abbrev pub Bytes : Type 0
Bytes = List ℕ

pub record Acl : Type 0 where
  pub id : ℕ
  pub host_groups : List ℕ
  pub user_groups : List ℕ
  pub host_pattern : String
  pub action : String
  pub weight : ℕ
  pub comment : String
  pub inception : Option ℕ
  pub expiration : Option ℕ

pub record UserGroup : Type 0 where
  pub id : ℕ
  pub name : String
  pub users : List ℕ
  pub acls : List Acl
  pub comment : String

pub record HostGroup : Type 0 where
  pub id : ℕ
  pub name : String
  pub hosts : List ℕ
  pub acls : List Acl
  pub comment : String

pub record UserRole : Type 0 where
  pub id : ℕ
  pub name : String

pub record UserKey : Type 0 where
  pub id : ℕ
  pub key : Bytes
  pub authorized_key : String
  pub user_id : ℕ
  pub comment : String

pub record User : Type 0 where
  pub id : ℕ
  pub roles : List UserRole
  pub email : String
  pub name : String
  pub keys : List UserKey
  pub groups : List UserGroup
  pub comment : String
  pub invite_token : String

pub record SshKey : Type 0 where
  pub id : ℕ
  pub name : String
  pub type : String
  pub length : ℕ
  pub fingerprint : String
  pub priv_key : String
  pub pub_key : String
  pub comment : String

pub record Host : Type 0 where
  pub id : ℕ
  pub name : String
  pub addr : String
  pub user : String
  pub password : String
  pub url : String
  pub ssh_key : Option SshKey
  pub ssh_key_id : ℕ
  pub host_key : Bytes
  pub groups : List HostGroup
  pub comment : String
  pub logging : String
  pub hop_id : ℕ

pub record Session : Type 0 where
  pub id : ℕ
  pub stopped_at : Option ℕ
  pub status : String
  pub user_id : ℕ
  pub host_id : ℕ
  pub err_msg : String
  pub comment : String

-- SessionStatusActive, SessionStatusClosed
abbrev pub status_active : String
status_active = "active"

abbrev pub status_closed : String
status_closed = "closed"

-- ACLActionAllow, ACLActionDeny
abbrev pub action_allow : String
action_allow = "allow"

abbrev pub action_deny : String
action_deny = "deny"

-- BastionSchemeSSH, BastionSchemeTelnet
abbrev pub scheme_ssh : String
scheme_ssh = "ssh"

abbrev pub scheme_telnet : String
scheme_telnet = "telnet"

-- the zero value that `var user dbmodels.User` declares
abbrev pub no_user : User
no_user = record {
  id = 0;
  roles = List.[];
  email = "";
  name = "";
  keys = List.[];
  groups = List.[];
  comment = "";
  invite_token = "";
}

abbrev pub no_user_key : UserKey
no_user_key = record { id = 0; key = List.[]; authorized_key = ""; user_id = 0; comment = "" }
