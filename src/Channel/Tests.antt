-- ===== src/Channel/Tests.antt =====
-- Examples of ChannelHandler: a host that is reached, and one behind a gate that is not.
use sshportal.Base.{
  Bool, String, ◌≡◌, refl, true, false, Option, none, some, List, [], ◌∷◌, ◌==◌, arith,
  if◌then◌else◌, ok, err, split,
}
use sshportal.Models.{Session, Bytes, Acl, Host, action_allow}
use sshportal.Access.Acls.{
  in_force, acl_map, select_action, first_action, put, scan_user_groups, scan_user_acls,
  scan_host_groups, scan_host_acls,
}
use sshportal.Access.Hook.{HookEnv, check_acls, check_hook}
use sshportal.Access.Sorting.{insertion_sort, in_order}
use sshportal.Access.Samples.{member, target}
use sshportal.Hosts
use sshportal.Hosts.{
  UrlParser, ClientConfig, scheme, hostname, username, passwd, default_port, port_or_default, port,
  dial_addr, client_config,
}
use sshportal.Strconv.{parse_uint}
use sshportal.Strconv.Printing.{decimal}
use sshportal.Auth.{AuthContext, user_type, is_healthcheck, no_message, by_pubkey}
use sshportal.Crypto.{host_decrypt}
use sshportal.Crypto.Toy.{toy}
use sshportal.Channel.{
  Env, SessionConfig, dropped, stopped, permit, required, configured, open_secrets, authorize,
  host_by_name, hop_of, walk, start_session, session_row, bastion_channel, channel_handler,
}
use sshportal.Channel.Permission.{channel_handler-Target, Target}
use sshportal.Session.Start.{Naming, Files}
use sshportal.Session.Hops.{Network}
use sshportal.Channel.Pinning.{connections-Pinned, Pinned, connections, dynamic_host_key}
use sshportal.Channel.Hops.{IsDocumented, Single, channel_handler-Single}

abbrev allow : Acl
allow = record {
  id = 1;
  host_groups = 1 ∷ [];
  user_groups = 1 ∷ [];
  host_pattern = "";
  action = action_allow;
  weight = 0;
  comment = "";
  inception = none;
  expiration = none;
}

abbrev gate : Host
gate = record (target (allow ∷ [])) { name = "gate" }

abbrev web : Host
web = record (target (allow ∷ [])) { id = 2; name = "web"; hop_id = 0 }

abbrev inner : Host
inner = record (target (allow ∷ [])) { id = 3; name = "inner"; hop_id = 1 }

abbrev nothing : Host
nothing = record (target []) { id = 0; name = "" }

abbrev one_url : UrlParser
one_url s = some (record {
  scheme = "ssh";
  hostname = "example.com";
  port = "2222";
  user = some (record { username = "bob"; password = some "marley" });
})

abbrev silent : HookEnv
silent = record {
  marshal_user = λ _. ok "{}";
  marshal_host = λ _. ok "{}";
  execute = λ _ _. record { output = err tt; deadline_exceeded = false };
}

abbrev straight : Env (Unit {0})
straight = record {
  url = one_url;
  parses = λ _. true;
  suite = toy;
  runtime = in_order;
  hook = silent;
  clock = λ n. n;
  find_host = λ name _.
      if name == "web"
      then web
      else if name == "gate"
      then gate
      else if name == "inner"
      then inner
      else nothing;
  load_user = λ _ _. some (member (allow ∷ []));
  load_host = λ _ _. some gate;
  association = λ name host _. if name == "Hop" then some gate else none;
  create_session = λ row s. some (row, s);
}

abbrev ctx : AuthContext
ctx = record {
  message = no_message;
  error = none;
  user = member [];
  input_username = "web";
  user_key = record { id = 1; key = []; authorized_key = ""; user_id = 1; comment = "" };
  config = record {
    logs_location = "./log";
    acl_check_cmd = "";
    aes_key = "";
    db_driver = "sqlite3";
    db_url = "./sshportal.db";
    bind_addr = ":2222";
    demo = false;
  };
  auth_method = by_pubkey;
  auth_success = true;
}

handler : Unit {0}
unfolding channel_handler bastion_channel start_session session_row walk hop_of host_by_name
    authorize open_secrets configured required permit host_decrypt user_type is_healthcheck
    check_acls check_hook select_action acl_map scan_user_groups scan_user_acls scan_host_groups
    scan_host_acls put in_force first_action insertion_sort client_config username passwd dial_addr
    port hostname port_or_default default_port scheme parse_uint decimal split
handler = tt

abbrev config_of : SessionConfig
config_of = record {
  addr = "example.com:2222";
  client_config = record { user = "bob"; auth = Hosts.password "marley" ∷ [] };
  logs_location = "./log";
  logging_mode = "";
}

abbrev to_inner : AuthContext
to_inner = record ctx { input_username = "inner" }

-- an Association that answers under any name, for the host behind the gate
abbrev answering : Env (Unit {0})
answering = record straight { association = λ name host _. some gate }

channel_handler-Target_example : Target answering to_inner tt (config_of ∷ config_of ∷ [])
unfolding handler
channel_handler-Target_example =
    channel_handler-Target answering to_inner tt 5 "session" true (config_of ∷ config_of ∷ [])
      (session_row (member []) inner) tt refl

abbrev web_net : Network String String String String
web_net = record {
  accept = none;
  dial = λ addr c. ok addr;
  dial_through = λ client addr. ok addr;
  handshake = λ conn addr c. ok conn;
  unmarshal = none;
  open_channel = λ client type. ok type;
}

abbrev disk : Files String
disk = record { join_path = λ a b. a; open_file = λ _. none; unmarshal = none }

abbrev web_naming : Naming
web_naming = record { user = "alice"; username = "web"; session_id = 0; time = "now" }

straight-IsDocumented : IsDocumented straight
straight-IsDocumented name host s h = ground arith

-- a host with a hop, where gorm answers as it documents
unreached_test : (channel_handler straight 5 "session" true to_inner tt).0 ≡ stopped dropped
unfolding handler
unreached_test = refl

channel_handler-Single_example :
    Single straight straight-IsDocumented ctx tt
      (channel_handler straight 5 "session" true ctx tt).0
channel_handler-Single_example =
    channel_handler-Single straight straight-IsDocumented ctx tt 4 "session" true

-- a first key, a second one, and the first again
abbrev offers : List (Bytes × Bool)
offers = (1 ∷ [], true) ∷ (2 ∷ [], true) ∷ (1 ∷ [], true) ∷ []

connections_test : (connections web offers).1 ≡ (1 ∷ []) ∷ (1 ∷ []) ∷ []
unfolding connections dynamic_host_key
connections_test = refl

connections-Pinned_example : Pinned web offers
connections-Pinned_example = connections-Pinned web offers ((λ e. cc), ((λ e. cc), ((λ e. cc), tt)))
