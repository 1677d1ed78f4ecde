-- ===== src/Shell/Actions.antt =====
-- What a command of the shell is: it reads the database, may change it, and ends in a reply or an
-- error. Replies hold the values that are printed or handed to the JSON encoder.
use sshportal.Base.{
  ℕ, String, Bool, Option, List, [], ◌∷◌, length, eqb, if◌then◌else◌, Result, ok, err,
}
use sshportal.Models.{Bytes, Acl, UserGroup, HostGroup, User, UserKey, SshKey, Host, Session}
use sshportal.Lookup.{Event, Value, check_roles}
use sshportal.Crypto.{Suite, CryptoError}
use sshportal.Crypto.Keys.{Generators, KeyError, ParsedKey}
use sshportal.Hosts.{UrlParser}
use sshportal.Shell.Store.{Gorm, Backup}

-- cli.Context
pub record Context : Type 0 where
  pub args : List String
  pub string : String → String
  pub bool : String → Bool
  pub uint : String → ℕ
  pub slice : String → List String

-- what else a command reads: the libraries, and the key for secrets
pub record Env : Type 0 where
  pub suite : Suite
  pub aes_key : String
  -- what the random source returns for the initialisation vector of a secret, by the id of
  -- its row
  pub entropy : ℕ → Option Bytes
  -- url.Parse and String of its answer
  pub parse_url : String → Result String String
  pub url : UrlParser
  -- regexp.MatchString of `^([0-9]{1,3}.){3}.([0-9]{1,3})$`
  pub looks_numeric : String → Bool
  -- time.ParseInLocation with the layout "2006-01-02 15:04"
  pub parse_time : String → Result String ℕ
  -- namesgenerator.GetRandomName, and letters for a token
  pub random_name : String
  pub token : Result String String
  pub generators : Generators
  -- gossh.ParseRawPrivateKey, and ssh.ParseAuthorizedKey as Marshal, the comment and
  -- MarshalAuthorizedKey
  pub parse_private_key : String → Result String ParsedKey
  pub parse_authorized_key : String → Result String (Bytes × String × String)
  pub valid_email : String → Bool
  -- json.Unmarshal of the arguments of an event into its map
  pub decode_args : Event → Result String Event
  -- what `info` and `version` print of the process and the build
  pub info : String
  pub version : String
  -- json.Marshal of the arguments of an event
  pub marshal_args : List (String × Value) → Result String String
  pub now : ℕ
  pub lower : String → String
  pub rel_time : ℕ → ℕ → String
  pub humanize : ℕ → String
  pub format_time : ℕ → String
  -- govalidator.ValidateStruct
  pub valid_acl : Acl → Result String (Unit {0})
  pub valid_host : Host → Result String (Unit {0})
  pub valid_host_group : HostGroup → Result String (Unit {0})
  pub valid_user_group : UserGroup → Result String (Unit {0})
  pub valid_user : User → Result String (Unit {0})
  pub valid_user_key : UserKey → Result String (Unit {0})
  pub valid_ssh_key : SshKey → Result String (Unit {0})

pub data ShellError : Type 0 where
  no_permission : List String → ShellError
  database invalid message : String → ShellError
  bad_url bad_time not_generated not_imported not_read : String → ShellError
  -- a nil pointer is dereferenced
  panicked : ShellError
  no_key : KeyError → ShellError
  not_encrypted : CryptoError → ShellError
  -- the error, and the transaction is neither committed nor rolled back
  left_open : ShellError → ShellError

pub record Listing : Type 0 where
  pub header : List String
  pub caption : String
  pub cells : List (List String)

pub data Reply : Type 0 where
  help done : Reply
  created : ℕ → Reply
  all_created : List ℕ → Reply
  invited : ℕ → String → Reply
  acls : List Acl → Reply
  hosts : List Host → Reply
  host_groups : List HostGroup → Reply
  user_groups : List UserGroup → Reply
  users : List User → Reply
  user_keys : List UserKey → Reply
  ssh_keys : List SshKey → Reply
  sessions : List Session → Reply
  events : List Event → Reply
  ids : List ℕ → Reply
  listing : Listing → Reply
  backup : Backup → Reply
  line : String → Reply
  sections : List (String × List (String × String)) → Reply

abbrev pub Action : Type 0 → Type 0 → Type 0
Action S A = S → Result ShellError A × S

-- the continuation of a call that came back with a result and a state
abbrev pub next :
    {S A B : Type 0} → Result ShellError A × S → (A → Action S B) → Result ShellError B × S
next (ok a, s) f = f a s
next (err e, s) f = (err e, s)

abbrev pub as_error : {A : Type 0} → (String → ShellError) → Result String A → Result ShellError A
as_error f (ok a) = ok a
as_error f (err x) = err (f x)

-- how a transaction fails: after tx.Rollback(), or by a return without it
pub data Failure : Type 0 where
  rolled_back abandoned : ShellError → Failure

abbrev pub or_rollback : {A : Type 0} → Result String A → Result Failure A
or_rollback (ok a) = ok a
or_rollback (err x) = err (rolled_back (database x))

abbrev pub admin : List String
admin = "admin" ∷ []

abbrev pub or_abandon : {A : Type 0} → Result ShellError A → Result Failure A
or_abandon (ok a) = ok a
or_abandon (err x) = err (abandoned x)

module _ {S : Type 0} where
  infixl 5 ◌>>=◌ ◌>>◌
  abbrev pub ◌>>=◌ : {A B : Type 0} → Action S A → (A → Action S B) → Action S B
  ◌>>=◌ m f s = next (m s) f

  abbrev pub ◌>>◌ : {B : Type 0} → Action S (Unit {0}) → Action S B → Action S B
  m >> k = m >>= λ _. k

  abbrev pub pure : {A : Type 0} → A → Action S A
  pure a s = (ok a, s)

  abbrev pub fail : {A : Type 0} → ShellError → Action S A
  fail e s = (err e, s)

  -- a computation that may fail, and a query
  abbrev pub try : {A : Type 0} → (String → ShellError) → Result String A → Action S A
  try f r s = (as_error f r, s)

  abbrev pub query : {A : Type 0} → (S → Result String A) → Action S A
  query q s = (as_error database (q s), s)

  abbrev changed : {A : Type 0} → Result String (A × S) → S → Result ShellError A × S
  changed (ok p) s = (ok p.0, p.1)
  changed (err x) s = (err (database x), s)

  abbrev pub insert : {A : Type 0} → (S → Result String (A × S)) → Action S A
  insert q s = changed (q s) s

  abbrev replied : Result String S → S → Result ShellError Reply × S
  replied (ok s') s = (ok done, s')
  replied (err x) s = (err (database x), s)

  -- a command that ends in the error of a change
  abbrev pub change : (S → Result String S) → Action S Reply
  change q s = replied (q s) s

  abbrev pub guard : Bool → ShellError → Action S (Unit {0})
  guard b e s = (if b then ok tt else err e, s)

  -- the roles of the user of the connection
  unfoldable pub require : User → List String → Action S (Unit {0})
  require myself roles s =
      (elim (check_roles myself roles) [ ok _ ↦ ok tt | err names ↦ err (no_permission names) ], s)

  -- `if c.NArg() < 1`, and `if c.NArg() != 1`
  unfoldable pub some_args : Context → Action S Reply → Action S Reply
  some_args c m s = if eqb (length c.args) 0 then (ok help, s) else m s

  unfoldable pub one_arg : Context → Action S Reply → Action S Reply
  one_arg c m s = if eqb (length c.args) 1 then m s else (ok help, s)

  abbrev pub closed : Gorm S → Result Failure S → S → Result ShellError Reply × S
  closed g (ok t) s = replied (g.commit t) s
  closed g (err (rolled_back e)) s = (err e, s)
  closed g (err (abandoned e)) s = (err (left_open e), s)

  -- tx := db.Begin(), a body, and the return of tx.Commit().Error; the body has the state outside
  -- the transaction and that inside
  unfoldable pub transaction : Gorm S → (S → S → Result Failure S) → Action S Reply
  transaction g body s = closed g (body s s) s

  -- a loop over rows inside a transaction
  unfoldable pub for_each :
      {R : Type 0} → List R → (R → S → Result Failure S) → S → Result Failure S
  for_each [] body t = ok t
  for_each (r ∷ rs) body t = elim (body r t) [ ok t' ↦ for_each rs body t' | err e ↦ err e ]

  abbrev pub look : {A : Type 0} → (S → A) → Action S A
  look f s = (ok (f s), s)

  abbrev pub lift : {A : Type 0} → Result ShellError A → Action S A
  lift r s = (r, s)
