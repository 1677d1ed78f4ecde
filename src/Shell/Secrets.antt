-- ===== src/Shell/Secrets.antt =====
-- Which secrets the shell shows, and how it stores them.
use sshportal.Base.{
  String, ◌≡◌, ◌≢◌, refl, Bool, true, false, some, List, any, length, eqb, ◌==◌, arith, eq_refl,
  equals_not, ok, err,
}
use sshportal.Models.{Bytes, SshKey, User}
use sshportal.Crypto.{ssh_key_encrypt}
use sshportal.Crypto.Keys.{KeyError, new_ssh_key}
use sshportal.Crypto.RoundTrip.{ssh_key_decrypt-ssh_key_encrypt}
use sshportal.Lookup.{has_role, check_roles, ssh_keys_by_identifiers}
use sshportal.Shell.Store.{Gorm, selected}
use sshportal.Shell.Actions.{Context, Env, panicked, Reply, sections}
use sshportal.Shell.Keys.{key_show, key_sections, key_create, key_length, linked}

-- whether a reply shows a text as the value of a line
abbrev pub shows : String → Reply → Bool
shows t (sections l) = any (λ x. any (λ line. line.1 == t) x.1) l
shows t _ = false

module _ {S : Type 0} (g : Gorm S) (env : Env) (myself : User) (c : Context) (s : S) where
  shows-key_sections :
      (key : SshKey) (hosts : List String)
      → shows key.priv_key (sections (key_sections g env myself c key hosts)) ≡ true
  unfolding key_sections any
  shows-key_sections key hosts = ground (arith, eq_refl key.priv_key)

  -- `key show` shows every user of the portal, whatever the roles, the private key in clear of any key
  -- that the server has encrypted: if the cipher accepts the server's key.
  pub key_show_reveals :
      (iv : Bytes) (key : SshKey) (block : Bytes → Bytes)
      → env.suite.cipher (env.suite.bytes env.aes_key) ≡ some block
      → length iv ≡ 16
      → eqb (length c.args) 1 ≡ true
      → g.ssh_keys.first (selected g g.ssh_keys (ssh_keys_by_identifiers c.args)) s
        ≡ ok (ssh_key_encrypt env.suite (some iv) env.aes_key key).0
      → (reply : Reply) × (key_show g env myself c s ≡ (ok reply, s))
        × (shows key.priv_key reply ≡ true)
  unfolding key_show
  key_show_reveals iv key block hb hl n found =
      let stored = (ssh_key_encrypt env.suite (some iv) env.aes_key key).0 in
      let back = (ssh_key_decrypt-ssh_key_encrypt env.suite iv env.aes_key key block hb hl).0 in
      let hosts = linked g env myself c stored s in
      (
        sections (key_sections g env myself c key hosts),
        rw (n, found, back) refl,
        shows-key_sections key hosts,
      )

  -- `key create` panics for a type or a length that is not supported, or where the generation fails,
  -- if the server has a key for secrets: the key that it would encrypt is nil.
  pub key_create_panics :
      (e : KeyError)
      → has_role myself "admin" ≡ true
      → new_ssh_key env.generators
          (c.string "type")
          (key_length (c.string "type") (c.uint "length"))
        ≡ err e
      → env.aes_key ≢ ""
      → key_create g env myself c s ≡ (err panicked, s)
  unfolding key_create check_roles any
  key_create_panics e role bad aes = rw (role, bad, equals_not aes) refl
