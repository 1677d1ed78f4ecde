-- ===== src/Session/Relay.antt =====
-- The two goroutines of `pipe` that pass requests on, pkg/bastion/session.go. The channels, and the
-- log that takes commands, are a library's. The errors that a goroutine reports on `errch` and its
-- message on `quit` are events, in the order in which it sends them.
use sshportal.Base.{
  String, Bool, ◌&&◌, Option, none, some, List, [], ◌∷◌, ◌++◌, ◌==◌, if◌then◌else◌,
}
use sshportal.Models.{Bytes}
use sshportal.Session.Pipe.{
  Side, lch, rch, same_side, Quit, lreqs_done, rreqs_done, Event, failed, quit,
}

pub record Request : Type 0 where
  pub type : String
  pub want_reply : Bool
  pub payload : Bytes

-- SendRequest on a side, Reply, and LogWrite, whose error is printed
pub record Wires (W E : Type 0) : Type 0 where
  pub send : Side → Request → W → Bool × Option E × W
  pub reply : Request → Bool → W → Option E × W
  pub log_write : Bytes → W → W

abbrev pub other_side : Side → Side
other_side lch = rch
other_side rch = lch

abbrev pub requests_done : Side → Quit
requests_done lch = lreqs_done
requests_done rch = rreqs_done

abbrev pub reported : {E : Type 0} → Option E → List (Event E)
reported none = []
reported (some e) = failed e ∷ []

-- a command of the client goes to the log too
abbrev pub is_command : Side → Request → Bool
is_command side r = same_side side lch && r.type == "exec"

module _ {W E : Type 0} (wires : Wires W E) where
  unfoldable pub relay_one : Side → Request → W → List (Event E) × W
  relay_one side r w =
      let (answer, e, w₁) = wires.send (other_side side) r w in
      let w₂ = if is_command side r then wires.log_write (r.payload ++ b'\n' ∷ []) w₁ else w₁ in
      let (e', w₃) = wires.reply r answer w₂ in (reported e ++ reported e', w₃)

  -- `for req := range lreqs`, or `rreqs`, up to the end of the requests
  unfoldable pub relay : Side → List Request → W → List (Event E) × W
  unfolding relay_one
  relay side [] w = (quit (requests_done side) ∷ [], w)
  relay side (r ∷ rs) w =
      let (es, w') = relay_one side r w in let rest = relay side rs w' in (es ++ rest.0, rest.1)
