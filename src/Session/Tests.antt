-- ===== src/Session/Tests.antt =====
-- Tests and examples of the forwarding loop.
use sshportal.Base.{
  String, ◌<>◌, false, true, Option, not, ◌&&◌, ◌||◌, none, some, List, [], ◌∷◌, ◌++◌, map, ◌≡◌,
  refl, ◌==◌, if◌then◌else◌, ok,
}
use sshportal.Session.Pipe.{
  lch, rch, Event, copies, is_recorded, Quit, lch_copied, rch_copied, lreqs_done, rreqs_done,
  failed, quit, close_write, close, start, note, forward, hang_up, is_over, waiting, returned, run,
}
use sshportal.Session.Relay.{Request, Wires, other_side, requests_done, relay_one, relay}
use sshportal.Session.Requests.{observed, sent_to, replies, log_of, commands, relay-observed}
use sshportal.Session.Hops.{Network, piped, last_config, next_client, multi_channel_handler}
use sshportal.Session.Hops
use sshportal.Session.Start.{Naming, Files, pipe}
use sshportal.Session.Settling.{Ended}
use sshportal.Session.Interleaving.{nothing, left, right, shuffled-Ended}
use sshportal.Session.Chain.{Chained, piped-Chained}
use sshportal.Channel.{SessionConfig}
use sshportal.Session.Endings.{came, seen, run_outcome}
use sshportal.Session.Effects.{closes, is_spent, is_open, recorded_sides, run_hangs_up}

loop : Unit {0}
unfolding run note forward hang_up is_over
loop = tt

-- The client leaves first, and the host is hung up on.
abbrev client_left : List Quit
client_left = lch_copied ∷ lreqs_done ∷ []

loop_tests :
    ((run {E = String} start (map quit client_left)).1 ≡ close_write rch ∷ close rch ∷ [])
    × ((run {E = String} start (map quit (client_left ++ rreqs_done ∷ rch_copied ∷ []))).0
        ≡ returned none)
unfolding loop
loop_tests = (refl, refl)

run_outcome_example :
    ((run {E = String} start (map quit client_left)).0 ≡ (
      if came lch_copied client_left
        && came rch_copied client_left
        && came lreqs_done client_left
        && came rreqs_done client_left
      then returned none
      else waiting (seen start client_left)))
    × ((run {E = String} start (map quit client_left ++ failed "EOF" ∷ [])).0 ≡ (
        if came lch_copied client_left
          && came rch_copied client_left
          && came lreqs_done client_left
          && came rreqs_done client_left
        then returned none
        else returned (some "EOF")))
run_outcome_example = run_outcome client_left "EOF" []

run_hangs_up_example :
    ((not (closes rch (run {E = String} start (map quit client_left)).1)
        || is_spent rch (seen start client_left))
      ≡ true)
    × ((not (is_spent rch (seen start client_left) && is_open rch (seen start client_left))
          || closes rch (run {E = String} start (map quit client_left)).1)
        ≡ true)
unfolding is_over
run_hangs_up_example = run_hangs_up String rch client_left refl

recorded_sides_example :
    (is_recorded lch "everything" (copies "session" "everything") ≡ ("everything" == "input"))
    × (is_recorded rch "everything" (copies "session" "everything")
        ≡ (not ("everything" == "input") && not ("everything" == "disabled")))
    × (is_recorded lch "everything" (copies "direct-tcpip" "everything")
        ≡ not ("everything" == "disabled"))
    × (is_recorded rch "everything" (copies "direct-tcpip" "everything")
        ≡ not ("everything" == "disabled"))
recorded_sides_example = recorded_sides "everything"

-- A host refuses a shell, a client asks for one and for a command.
abbrev requests : List Request
requests =
    record { type = "shell"; want_reply = true; payload = [] }
    ∷ record { type = "exec"; want_reply = true; payload = b'l' ∷ b's' ∷ [] }
    ∷ []

abbrev host_side : Wires (Unit {0}) String
host_side = record {
  send = λ side r w. if r.type == "shell" then (false, some "no shell", w) else (true, none, w);
  reply = λ r a w. (none, w);
  log_write = λ b w. w;
}

relay-observed_example :
    (map (λ p. p.0) (replies (relay (observed host_side) lch requests (tt, [])).1.1) ≡ requests)
    × (sent_to (other_side lch) (relay (observed host_side) lch requests (tt, [])).1.1
        ≡ replies (relay (observed host_side) lch requests (tt, [])).1.1)
    × (sent_to lch (relay (observed host_side) lch requests (tt, [])).1.1 ≡ [])
    × (log_of (relay (observed host_side) lch requests (tt, [])).1.1 ≡ commands lch requests)
    × ((errors : List String) × ((relay (observed host_side) lch requests (tt, [])).0
          ≡ map failed errors ++ quit (requests_done lch) ∷ []))
relay-observed_example = relay-observed host_side lch requests tt

relay_tests :
    ((relay (observed host_side) lch requests (tt, [])).0
      ≡ failed "no shell" ∷ quit lreqs_done ∷ [])
    × (commands lch requests ≡ (b'l' ∷ b's' ∷ b'\n' ∷ []) ∷ [])
unfolding relay relay_one
relay_tests = (refl, refl)

abbrev config_at : String → SessionConfig
config_at addr = record {
  addr = addr;
  client_config = record { user = "bob"; auth = [] };
  logs_location = "./log";
  logging_mode = "";
}

-- clients and connections are the ways to them
abbrev net : Network String String String String
net = record {
  accept = none;
  dial = λ addr c. ok addr;
  dial_through = λ client addr. ok (client <> " " <> addr);
  handshake = λ conn addr c. ok conn;
  unmarshal = none;
  open_channel = λ client type. ok (client <> " " <> type);
}

piped-Chained_example :
    (client : String) × Chained net none
      (config_at "gate" ∷ config_at "web" ∷ [])
      (multi_channel_handler net "session" (config_at "gate" ∷ config_at "web" ∷ [])).1
      (some client)
    × (net.open_channel client "session" ≡ ok "gate web session")
    × (last_config (config_at "gate" ∷ config_at "web" ∷ []) ≡ some (config_at "web"))
unfolding multi_channel_handler Hops.dial_all next_client
piped-Chained_example =
    piped-Chained net "session" (config_at "gate" ∷ config_at "web" ∷ []) "gate web session"
      (config_at "web") refl

abbrev disk : Files String
disk = record { join_path = λ a b. b; open_file = λ _. some "no space"; unmarshal = none }

abbrev naming : Naming
naming = record { user = "web"; username = "alice"; session_id = 1; time = "now" }

-- the refusal of the shell comes between the ends of the copies
abbrev in_turn : List (Event String)
in_turn =
    quit lch_copied ∷ quit rch_copied ∷ quit lreqs_done ∷ failed "no shell" ∷ quit rreqs_done ∷ []

shuffled-Ended_example :
    Ended in_turn
    × ((e : Option String) × ((pipe disk naming "./log" "session" "everything" in_turn).0
          ≡ returned e))
unfolding relay relay_one
shuffled-Ended_example =
    shuffled-Ended host_side disk naming "./log" "session" "everything" requests [] tt tt
      (failed "no shell" ∷ []) (quit lch_copied ∷ quit rch_copied ∷ [])
      (quit lreqs_done ∷ quit rreqs_done ∷ [])
      (quit lch_copied ∷ quit rch_copied ∷ quit lreqs_done ∷ quit rreqs_done ∷ []) in_turn
      (left (failed "no shell") nothing) (left (quit lch_copied) (right (quit rch_copied) nothing))
      (left (quit lreqs_done) (right (quit rreqs_done) nothing))
      (left (quit lch_copied)
        (left (quit rch_copied) (right (quit lreqs_done) (right (quit rreqs_done) nothing))))
      (right (quit lch_copied) (
        right (quit rch_copied)
          (right (quit lreqs_done) (left (failed "no shell") (right (quit rreqs_done) nothing)))))
