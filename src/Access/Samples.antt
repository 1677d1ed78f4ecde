-- ===== src/Access/Samples.antt =====
-- A user and a host for the examples.
use sshportal.Base.{Option, List, [], ◌∷◌}
use sshportal.Models.{Acl, User, Host, no_user}

-- a user and a host whose only group has the given ACLs
abbrev pub member : List Acl → User
member acls = record no_user {
  id = 1;
  groups = record { id = 1; name = "default"; users = []; acls = acls; comment = "" } ∷ [];
}

abbrev pub target : List Acl → Host
target acls = record {
  id = 1;
  name = "target";
  addr = "";
  user = "";
  password = "";
  url = "ssh://root@target";
  ssh_key = Option.none;
  ssh_key_id = 0;
  host_key = [];
  groups = record { id = 1; name = "default"; hosts = []; acls = acls; comment = "" } ∷ [];
  comment = "";
  logging = "";
  hop_id = 0;
}
