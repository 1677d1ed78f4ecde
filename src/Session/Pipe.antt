-- ===== src/Session/Pipe.antt =====
-- `pipe` of pkg/bastion/session.go: what is copied and recorded, and the loop that waits for the four
-- goroutines.
use sshportal.Base.{
  String, Bool, true, false, not, ◌&&◌, ◌||◌, Option, none, some, List, [], ◌∷◌, ◌++◌, ◌==◌,
  if◌then◌else◌,
}

-- the client's channel and the remote host's
pub data Side : Type 0 where
  lch rch : Side

abbrev pub same_side : Side → Side → Bool
same_side lch lch = true
same_side rch rch = true
same_side _ _ = false

-- io.Copy of what `from` sends to the other side; `logged` if that side is wrapped by a writer of
-- the log
pub record Copy : Type 0 where
  pub from : Side
  pub logged : Bool

-- the goroutines that copy, by channel type and logging mode
unfoldable pub copies : String → String → List Copy
copies channel_type mode =
    (if channel_type == "session"
      then (if mode == "input"
          then record { from = rch; logged = false } ∷ record { from = lch; logged = true } ∷ []
          else record { from = rch; logged = true } ∷ record { from = lch; logged = false } ∷ [])
      else [])
    ++ (if channel_type == "direct-tcpip"
        then record { from = rch; logged = true } ∷ record { from = lch; logged = true } ∷ []
        else [])

-- the writer of the log is a file, and not the one that discards
unfoldable pub records : String → Bool
records mode = not (mode == "disabled")

-- what of a side ends up in the log file
unfoldable pub is_recorded : Side → String → List Copy → Bool
is_recorded side mode [] = false
is_recorded side mode (c ∷ cs) =
    (same_side side c.from && c.logged && records mode) || is_recorded side mode cs

-- the messages on `quit`
pub data Quit : Type 0 where
  lch_copied rch_copied lreqs_done rreqs_done : Quit

-- what `select` receives: an error from `errch`, or a message from `quit`
pub data Event (E : Type 0) : Type 0 where
  failed : E → Event E
  quit : Quit → Event E

pub data Effect : Type 0 where
  close_write : Side → Effect
  close : Side → Effect

pub record Flags : Type 0 where
  pub lch_eof : Bool
  pub rch_eof : Bool
  pub lch_closed : Bool
  pub rch_closed : Bool

abbrev pub start : Flags
start = record { lch_eof = false; rch_eof = false; lch_closed = false; rch_closed = false }

-- `switch q`
unfoldable pub note : Quit → Flags → Flags
note lch_copied f = record f { lch_eof = true }
note rch_copied f = record f { rch_eof = true }
note lreqs_done f = record f { lch_closed = true }
note rreqs_done f = record f { rch_closed = true }

unfoldable pub forward : Quit → List Effect
forward lch_copied = close_write rch ∷ []
forward rch_copied = close_write lch ∷ []
forward _ = []

-- the two tests behind the switch
unfoldable pub hang_up : Flags → List Effect
hang_up f =
    (if f.lch_eof && f.lch_closed && not f.rch_closed then close rch ∷ [] else [])
    ++ (if f.rch_eof && f.rch_closed && not f.lch_closed then close lch ∷ [] else [])

unfoldable pub is_over : Flags → Bool
is_over f = f.lch_eof && f.rch_eof && f.lch_closed && f.rch_closed

-- how far the loop is: still waiting, or returned, with an error or none
pub data Progress (E : Type 0) : Type 0 where
  waiting : Flags → Progress E
  returned : Option E → Progress E

-- the deferred closing of both channels
abbrev pub deferred : List Effect
deferred = close lch ∷ close rch ∷ []

-- the loop over what `select` receives from the two channels, in the order in which it does, with
-- what it does to the channels
unfoldable pub run : {E : Type 0} → Flags → List (Event E) → Progress E × List Effect
run f [] = (waiting f, [])
run f (failed e ∷ _) = (returned (some e), deferred)
run f (quit q ∷ es) =
    let f' = note q f in
    let rest = run f' es in
    let now = forward q ++ hang_up f' in
    if is_over f' then (returned none, now ++ deferred) else (rest.0, now ++ rest.1)
