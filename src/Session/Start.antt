-- ===== src/Session/Start.antt =====
-- How `pipe` of pkg/bastion/session.go starts, and all of it. The file system, and the decoding of the
-- data of a tunnel, are parameters.
use sshportal.Base.{ℕ, String, ◌<>◌, Option, none, some, List, ◌==◌, if◌then◌else◌}
use sshportal.Strconv.Printing.{decimal}
use sshportal.Session.Pipe.{
  Copy, copies, records, Event, Effect, Progress, returned, start, deferred, run,
}

-- what the log file is named for, and the time as time.RFC3339 formats it
pub record Naming : Type 0 where
  pub user : String
  pub username : String
  pub session_id : ℕ
  pub time : String

unfoldable pub log_name : Naming → String → String
log_name n channel_type =
    n.user
    <> "-"
    <> n.username
    <> "-"
    <> channel_type
    <> "-"
    <> decimal n.session_id
    <> "-"
    <> n.time

pub record Files (E : Type 0) : Type 0 where
  -- filepath.Join
  pub join_path : String → String → String
  -- OpenFile for writing; the error, if there is one
  pub open_file : String → Option E
  -- gossh.Unmarshal of the channel's data into logTunnelForwardData
  pub unmarshal : Option E

pub data Started (E : Type 0) : Type 0 where
  -- the error of the file or of the data; nothing is copied
  stopped : E → Started E
  -- the name of the log file, if there is one
  copying : Option String → List Copy → Started E

module _ {E : Type 0} (files : Files E) where
  abbrev with_data : String → String → Option String → Option E → Started E
  with_data channel_type mode name (some e) = stopped e
  with_data channel_type mode name none = copying name (copies channel_type mode)

  abbrev copied : String → String → Option String → Started E
  copied channel_type mode name =
      with_data channel_type mode name
        (if channel_type == "direct-tcpip" then files.unmarshal else none)

  abbrev opened : String → String → String → Option E → Started E
  opened channel_type mode name (some e) = stopped e
  opened channel_type mode name none = copied channel_type mode (some name)

  unfoldable pub pipe_start : Naming → String → String → String → Started E
  unfolding log_name records
  pipe_start n logs_location channel_type mode =
      let name = files.join_path logs_location (log_name n channel_type) in
      if records mode
      then opened channel_type mode name (files.open_file name)
      else copied channel_type mode none

  abbrev pub after_start : Started E → List (Event E) → Progress E × List Effect
  after_start (stopped e) events = (returned (some e), deferred)
  after_start (copying _ _) events = run start events

  -- the events are those of the goroutines, in the order of their arrival
  unfoldable pub pipe :
      Naming → String → String → String → List (Event E) → Progress E × List Effect
  unfolding pipe_start run
  pipe n logs_location channel_type mode events =
      after_start (pipe_start n logs_location channel_type mode) events
