-- ===== src/Shell/Sessions.antt =====
-- The commands `session` and `event`.
use sshportal.Base.{
  ℕ, zero, suc, replace_first, ◌==◌, ◌+◌, ◌*◌, String, Bool, Option, none, some, true, false, List,
  [], ◌∷◌, ◌++◌, map, filter, length, eqb, ltb, leb, if◌then◌else◌, Result, ok, err,
}
use sshportal.Base
use sshportal.Strconv.Printing.{decimal}
use sshportal.Models.{Session, Host, User, status_active, status_closed}
use sshportal.Lookup.{Event, sessions_by_identifiers, events_by_identifiers}
use sshportal.Shell.Store.{Gorm, in_states, selected}
use sshportal.Shell.Actions.{
  Context, Env, ShellError, database, Reply, sessions, events, Action, ◌>>=◌, ◌>>◌, pure, query,
  try, message, require, some_args, admin,
}
use sshportal.Shell.Listing.{print_rows, latest, list_rows, wrap_text}

abbrev statuses : List String
statuses = status_active ∷ status_closed ∷ "unknown" ∷ []

-- `for len(sessions) >= limit*factor`, on fuel; `factor` starts at 1
unfoldable pub more_pages :
    {S : Type 0}
    → Gorm S
    → ℕ
    → List String
    → ℕ
    → ℕ
    → List Session
    → S
    → Result String (Option (List Session))
more_pages g limit status zero factor found s = ok none
more_pages g limit status (suc fuel) factor found s = elim (leb (limit * factor) (length found)) [
  | false ↦ ok (some found)
  | true ↦ elim (g.session_page status limit (limit * factor) s) [
    | err e ↦ err e
    | ok page ↦ more_pages g limit status fuel (suc factor) (found ++ page) s
  ]
]

unfoldable pub all_pages :
    {S : Type 0} → Gorm S → ℕ → List String → ℕ → S → Result String (Option (List Session))
unfolding more_pages
all_pages g limit status fuel s = elim (g.session_page status limit 0 s) [
  | err e ↦ err e
  | ok page ↦ more_pages g limit status fuel 1 page s
]

module _ {S : Type 0} (g : Gorm S) (env : Env) (myself : User) (c : Context) where
  unfoldable pub session_inspect : Action S Reply
  unfolding some_args require
  session_inspect = some_args c (do
    require myself admin
    rows ← query (g.sessions.find (selected g g.sessions (sessions_by_identifiers c.args)))
    pure (sessions rows))

  -- status[:1] under `active`
  abbrev wanted : List String
  wanted = if c.bool "active" then status_active ∷ [] else statuses

  found_pages : Result String (Option (List Session)) → Result ShellError (List Session)
  found_pages (ok (some l)) = ok l
  found_pages (ok none) = err (database "out of fuel")
  found_pages (err e) = err (database e)

  abbrev limit : ℕ
  limit = 60000

  -- the fuel is one round for each session, and one
  unfoldable pub shown_sessions : Action S (List Session)
  unfolding all_pages found_pages
  shown_sessions =
      if c.bool "latest" then query (λ s. latest (g.session_page wanted limit 0 s)) else (λ s. (
        found_pages (
            all_pages g limit wanted (suc (length (filter (in_states wanted) (g.sessions.rows s))))
              s),
        s,
      ))

  abbrev name_of : {R : Type 0} → (R → String) → List R → String
  name_of name [] = "n/a"
  name_of name (r ∷ _) = name r

  stop_time : Option ℕ → ℕ
  stop_time none = env.now
  stop_time (some t) = if eqb t 0 then env.now else t

  unfoldable pub session_cells : S → Session → Result String (List String)
  unfolding stop_time
  session_cells s session = ok (
      decimal session.id
      ∷ name_of (λ (u : User). u.name)
          (filter (λ (u : User). eqb u.id session.user_id) (g.users.rows s))
      ∷ name_of (λ (h : Host). h.name)
          (filter (λ (h : Host). eqb h.id session.host_id) (g.hosts.rows s))
      ∷ session.status
      ∷ env.humanize (g.sessions.created_at session s)
      ∷ replace_first "now" "1 second"
          (env.rel_time (g.sessions.created_at session s) (stop_time session.stopped_at))
      ∷ wrap_text session.err_msg 30
      ∷ session.comment
      ∷ [])

  abbrev pub session_header : List String
  session_header =
      "ID" ∷ "User" ∷ "Host" ∷ "Status" ∷ "Start" ∷ "Duration" ∷ "Error" ∷ "Comment" ∷ []

  unfoldable pub session_ls : Action S Reply
  unfolding require shown_sessions print_rows session_cells
  session_ls = do
    require myself admin
    rows ← shown_sessions
    print_rows g.sessions myself c session_header "sessions" session_cells rows

  -- an event whose arguments the JSON decoder refuses ends the command
  abbrev decoded : List Event → Result String (List Event)
  decoded [] = ok []
  decoded (e ∷ es) =
      Base.◌>>=◌ (if e.args == "" then ok e else env.decode_args e)
        (λ e'. Base.◌>>=◌ (decoded es) (λ es'. ok (e' ∷ es')))

  unfoldable pub event_inspect : Action S Reply
  unfolding some_args require
  event_inspect = some_args c (do
    require myself admin
    rows ← query (g.events.find (selected g g.events (events_by_identifiers c.args)))
    shown ← try message (decoded rows)
    pure (events shown))

  abbrev author_name : List User → String
  author_name [] = ""
  author_name (u ∷ _) = u.name

  unfoldable pub event_cells : S → Event → Result String (List String)
  event_cells s event = ok (
      decimal event.id
      ∷ author_name (filter (λ (u : User). eqb u.id event.author_id) (g.users.rows s))
      ∷ event.domain
      ∷ event.action
      ∷ event.entity
      ∷ wrap_text event.args 30
      ∷ env.humanize (g.events.created_at event s)
      ∷ [])

  abbrev pub event_header : List String
  event_header = "ID" ∷ "Author" ∷ "Domain" ∷ "Action" ∷ "Entity" ∷ "Args" ∷ "Date" ∷ []

  unfoldable pub event_ls : Action S Reply
  unfolding list_rows event_cells
  event_ls = list_rows g.events myself c admin event_header "events" event_cells
