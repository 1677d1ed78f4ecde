-- ===== src/Shell/Keys.antt =====
-- The commands `key`.
use sshportal.Base.{
  ℕ, String, ◌<>◌, Option, none, some, List, [], ◌∷◌, map, filter, length, eqb, join, ◌==◌,
  if◌then◌else◌, Result, ok, err,
}
use sshportal.Strconv.Printing.{decimal}
use sshportal.Models.{Host, SshKey, User}
use sshportal.Crypto.{CryptoError, ssh_key_encrypt, ssh_key_decrypt}
use sshportal.Crypto.Keys.{KeyError, new_ssh_key, import_ssh_key}
use sshportal.Lookup.{ssh_keys_by_identifiers}
use sshportal.Shell.Store.{Gorm, selected}
use sshportal.Shell.Actions.{
  Context, Env, ShellError, no_key, invalid, not_read, not_imported, not_encrypted, panicked, Reply,
  created, ssh_keys, line, sections, Action, ◌>>=◌, ◌>>◌, pure, try, query, insert, change, require,
  some_args, one_arg, admin, lift, look,
}
use sshportal.Shell.Listing.{list_rows}
use sshportal.Shell.Hosts.{unless_empty}

-- the length, or the default for the type
unfoldable pub key_length : String → ℕ → ℕ
key_length type length =
    if eqb length 0
    then (if type == "rsa"
        then 3072
        else if type == "ecdsa"
        then 256
        else if type == "ed25519"
        then 1
        else 0)
    else length

abbrev encryption : SshKey × Option CryptoError → Result ShellError SshKey
encryption (key, none) = ok key
encryption (key, some e) = err (not_encrypted e)

-- what is read of the terminal: lines, then the error of ReadLine
unfoldable pub read_key : List String → Result String String → String → Result String String
read_key [] end value = end
read_key (l ∷ ls) end value =
    let rest = read_key ls end (value <> l <> "\n") in if l == "" then ok value else rest

module _ {S : Type 0} (g : Gorm S) (env : Env) (myself : User) (c : Context) where
  -- NewSSHKey, and the encryption that comes before the test of its error: the key is nil then
  unfoldable pub secured : Result KeyError SshKey → Result ShellError SshKey
  secured (err e) = err (if env.aes_key == "" then no_key e else panicked)
  secured (ok key) =
      if env.aes_key == ""
      then ok key
      else encryption (ssh_key_encrypt env.suite (env.entropy 0) env.aes_key key)

  unfoldable pub key_create : Action S Reply
  unfolding require secured key_length
  key_create = do
    require myself admin
    let name = unless_empty (c.string "name") env.random_name
    key ← lift (
        secured (
          new_ssh_key env.generators (c.string "type")
            (key_length (c.string "type") (c.uint "length"))))
    let named : SshKey = record key { name = name; comment = c.string "comment" }
    try invalid (env.valid_ssh_key named)
    row ← insert (g.ssh_keys.create named)
    pure (created row.id)

  -- the lines that are pasted, and how reading ends if none of them is blank
  unfoldable pub key_import : List String → String → Action S Reply
  unfolding require read_key
  key_import lines end = do
    require myself admin
    let name = unless_empty (c.string "name") env.random_name
    value ← try not_read (read_key lines (err end) "")
    key ← try not_imported (import_ssh_key env.parse_private_key value)
    let named : SshKey = record key { name = name; comment = c.string "comment" }
    try invalid (env.valid_ssh_key named)
    row ← insert (g.ssh_keys.create named)
    pure (created row.id)

  unfoldable pub key_inspect : Action S Reply
  unfolding some_args require
  key_inspect = some_args c (do
    require myself admin
    rows ← query (g.ssh_keys.find (selected g g.ssh_keys (ssh_keys_by_identifiers c.args)))
    pure (
        ssh_keys
          (if c.bool "decrypt" then map (ssh_key_decrypt env.suite env.aes_key) rows else rows)))

  unfoldable pub key_rm : Action S Reply
  unfolding some_args require
  key_rm = some_args c (do
    require myself admin
    change (g.ssh_keys.delete (selected g g.ssh_keys (ssh_keys_by_identifiers c.args))))

  -- no roles are asked for by the next two
  unfoldable pub key_setup : Action S Reply
  unfolding one_arg
  key_setup = one_arg c (do
    key ← query (g.ssh_keys.first (selected g g.ssh_keys (ssh_keys_by_identifiers c.args)))
    pure (
        line (
          "umask 077; mkdir -p .ssh; echo " <> key.pub_key
          <> " sshportal >> .ssh/authorized_keys\n")))

  -- key.Hosts, as Preload finds them
  abbrev pub linked : SshKey → S → List String
  linked key s =
      map (λ (h : Host). h.name) (filter (λ (h : Host). eqb h.ssh_key_id key.id) (g.hosts.rows s))

  unfoldable pub key_sections : SshKey → List String → List (String × List (String × String))
  key_sections key hosts =
      (
        "General",
        ("Name", key.name)
            ∷ ("Type", key.type)
            ∷ ("Length", decimal key.length)
            ∷ ("Comment", key.comment)
            ∷ [],
      )
      ∷ (
        "Relationships",
        ("Linked hosts", join ", " hosts <> " (" <> decimal (length hosts) <> ")") ∷ [],
      )
      ∷ ("Crypto", ("authorized_key format", key.pub_key) ∷ ("Private Key", key.priv_key) ∷ [])
      ∷ (
        "Help",
        ("inspect", "ssh sshportal key inspect " <> key.name)
            ∷ ("setup", "ssh user@example.com \"$(ssh sshportal key setup " <> key.name <> ")\"")
            ∷ [],
      )
      ∷ []

  unfoldable pub key_show : Action S Reply
  unfolding one_arg key_sections
  key_show = one_arg c (do
    key ← query (g.ssh_keys.first (selected g g.ssh_keys (ssh_keys_by_identifiers c.args)))
    hosts ← look (linked key)
    pure (sections (key_sections (ssh_key_decrypt env.suite env.aes_key key) hosts)))

  unfoldable pub key_cells : S → SshKey → Result String (List String)
  key_cells s key = ok (
      decimal key.id
      ∷ key.name
      ∷ key.type
      ∷ decimal key.length
      ∷ decimal (length (linked key s))
      ∷ env.humanize (g.ssh_keys.updated_at key s)
      ∷ env.humanize (g.ssh_keys.created_at key s)
      ∷ key.comment
      ∷ [])

  abbrev pub key_header : List String
  key_header = "ID" ∷ "Name" ∷ "Type" ∷ "Length" ∷ "Hosts" ∷ "Updated" ∷ "Created" ∷ "Comment" ∷ []

  unfoldable pub key_ls : Action S Reply
  unfolding list_rows key_cells
  key_ls = list_rows g.ssh_keys myself c admin key_header "keys" key_cells
