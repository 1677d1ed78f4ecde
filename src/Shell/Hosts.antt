-- ===== src/Shell/Hosts.antt =====
-- The commands `host`.
use sshportal.Base.{
  ℕ, String, Bool, true, false, not, ◌&&◌, Option, none, some, List, [], ◌∷◌, join, map, length,
  eqb, ltb, ◌==◌, split, if◌then◌else◌, Result, ok, err,
}
use sshportal.Base
use sshportal.Strconv.Printing.{decimal}
use sshportal.Models.{Host, HostGroup, User}
use sshportal.Hosts
use sshportal.Crypto.{CryptoError, host_encrypt, host_decrypt}
use sshportal.Lookup.{
  has_role, hosts_by_identifiers, host_groups_by_identifiers, ssh_keys_by_identifiers,
}
use sshportal.Shell.Store.{Gorm, selected, named_host}
use sshportal.Shell.Actions.{
  Context, Env, ShellError, message, bad_url, invalid, not_encrypted, Reply, created, hosts, Action,
  ◌>>=◌, ◌>>◌, pure, try, query, insert, change, guard, require, some_args, one_arg, admin, lift,
  look, transaction, for_each,
}
use sshportal.Shell.Fields.{parse_input_url}
use sshportal.Shell.Updates.{update_host}
use sshportal.Shell.Listing.{list_rows}

abbrev pub unless_empty : String → String → String
unless_empty v default = if v == "" then default else v

abbrev encryption : Host × Option CryptoError → Result ShellError Host
encryption (host, none) = ok host
encryption (host, some e) = err (not_encrypted e)

abbrev pub first_arg : List String → String
first_arg [] = ""
first_arg (a ∷ _) = a

abbrev readers : List String
readers = "admin" ∷ "listhosts" ∷ []

module _ {S : Type 0} (g : Gorm S) (env : Env) (myself : User) (c : Context) where
  -- the name that is made of the host part of the URL: all of an address, the first label of a name
  unfoldable pub host_name : String → String
  host_name hostname =
      if env.looks_numeric hostname then hostname else first_arg (split b'.' hostname)

  -- the row before its key, its groups and its hop are known
  unfoldable pub new_host : String → Host
  unfolding host_name
  new_host url =
      let host : Host = record {
        id = 0;
        name = "";
        addr = "";
        user = "";
        password = c.string "password";
        url = url;
        ssh_key = none;
        ssh_key_id = 0;
        host_key = [];
        groups = [];
        comment = c.string "comment";
        logging = unless_empty (c.string "logging") "everything";
        hop_id = 0;
      } in
      record host {
        name = unless_empty (c.string "name") (host_name (Hosts.hostname env.url host));
      }

  unfoldable pub find_hop_flag : Host → Action S Host
  find_hop_flag host = if c.string "hop" == "" then pure host else do
    named ← look (named_host g (c.string "hop"))
    lift (elim named [
      | none ↦ err (message "no such target")
      | some hop ↦ ok (record host { hop_id = hop.id })
    ])

  -- without a key and without a password, the key `default`
  unfoldable pub input_key : Host → String
  input_key host = if c.string "key" == "" && host.password == "" then "default" else c.string "key"

  unfoldable pub find_key_flag : Host → Action S Host
  unfolding input_key
  find_key_flag host = if input_key host == "" then pure host else do
    key ←
        query
          (g.ssh_keys.first (selected g g.ssh_keys (ssh_keys_by_identifiers (input_key host ∷ []))))
    pure (record host { ssh_key_id = key.id })

  abbrev input_groups : List String
  input_groups = elim (c.slice "group") [ [] ↦ "default" ∷ [] | x ∷ xs ↦ x ∷ xs ]

  unfoldable pub host_create : Action S Reply
  unfolding one_arg require new_host find_hop_flag find_key_flag parse_input_url
  host_create = one_arg c (do
    require myself admin
    u ← try bad_url (parse_input_url env.parse_url (first_arg c.args))
    host ← find_hop_flag (new_host u)
    try invalid (env.valid_host host)
    keyed ← find_key_flag host
    groups ←
        query
          (g.host_groups.find (selected g g.host_groups (host_groups_by_identifiers input_groups)))
    encrypted ← lift (
        encryption
          (host_encrypt env.suite (env.entropy 0) env.aes_key (record keyed { groups = groups })))
    row ← insert (g.hosts.create encrypted)
    pure (created row.id))

  -- the key is preloaded for an administrator only
  abbrev hidden : Host → Host
  hidden host = record host { ssh_key = none }

  unfoldable pub host_inspect : Action S Reply
  unfolding some_args require
  host_inspect = some_args c (do
    require myself readers
    rows ← query (g.hosts.find (selected g g.hosts (hosts_by_identifiers c.args)))
    let seen = if has_role myself "admin" then rows else map hidden rows
    pure (hosts (if c.bool "decrypt" then map (host_decrypt env.suite env.aes_key) seen else seen)))

  unfoldable pub host_rm : Action S Reply
  unfolding some_args require
  host_rm = some_args c (do
    require myself admin
    change (g.hosts.delete (selected g g.hosts (hosts_by_identifiers c.args))))

  unfoldable pub host_update : Action S Reply
  unfolding some_args require transaction for_each
  host_update = some_args c (do
    require myself admin
    rows ← query (g.hosts.find (selected g g.hosts (hosts_by_identifiers c.args)))
    guard (not (ltb 1 (length rows) && not (c.string "name" == "")))
        (message "cannot set --name when editing multiple hosts at once")
    transaction g (λ s. for_each rows (update_host g env c s)))

  -- the two cells that are queried: the name of the key and that of the hop
  key_cell : S → Host → Result String String
  key_cell s host =
      if eqb host.ssh_key_id 0
      then ok ""
      else (elim (g.ssh_keys.find (λ k. eqb k.id host.ssh_key_id) s) [
        | ok [] ↦ ok ""
        | ok (k ∷ _) ↦ ok k.name
        | err e ↦ err e
      ])

  hop_cell : S → Host → Result String String
  hop_cell s host =
      if eqb host.hop_id 0
      then ok ""
      else (elim (g.association "HopID" host s) [ ok h ↦ ok h.name | err e ↦ err e ])

  unfoldable pub host_cells : S → Host → Result String (List String)
  unfolding key_cell hop_cell
  host_cells s host = Base.◌>>=◌ (key_cell s host) (λ key. Base.◌>>=◌ (hop_cell s host) (λ hop. ok (
      decimal host.id
      ∷ host.name
      ∷ Hosts.show host
      ∷ key
      ∷ join ", " (map (λ (x : HostGroup). x.name) host.groups)
      ∷ env.humanize (g.hosts.updated_at host s)
      ∷ env.humanize (g.hosts.created_at host s)
      ∷ host.comment
      ∷ hop
      ∷ host.logging
      ∷ [])))

  abbrev pub host_header : List String
  host_header =
      "ID" ∷ "Name" ∷ "URL" ∷ "Key" ∷ "Groups" ∷ "Updated" ∷ "Created" ∷ "Comment" ∷ "Hop"
      ∷ "Logging" ∷ []

  unfoldable pub host_ls : Action S Reply
  unfolding list_rows host_cells
  host_ls = list_rows g.hosts myself c readers host_header "hosts" host_cells
