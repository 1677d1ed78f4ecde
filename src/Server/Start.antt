-- ===== src/Server/Start.antt =====
-- What `server` of server.go has done when it serves, and when it comes to that.
use mathlib.Core.Path.{subst}
use sshportal.Base.{
  String, eq_iff, ◌≡◌, refl, sym, ap, ◌∙◌, true, false, Option, none, some, any, ◌==◌, Mem, arith,
  inl, inr, Option-cases, Result-cases, ok,
}
use sshportal.Strconv.{is_int}
use sshportal.Models.{SshKey}
use sshportal.Lookup.{ssh_keys_by_identifiers}
use sshportal.Crypto.{ssh_key_decrypt}
use sshportal.Startup.{is_active, db_init}
use sshportal.Startup.Ensure.{Apart, Established}
use sshportal.Startup.Seeding.{db_init-Established}
use sshportal.Server.Config.{ServerConfig, Driver, db_open}
use sshportal.Server.HostKey.{is_host_key, private_key_from_db}
use sshportal.Server.Run.{
  ServerError, stopped_serving, Portal, Platform, Ran, serving, closing, portal, stopped_by,
  with_options, listening, initialised, connected, server,
}

module _ {S P D : Type 0} (on : Platform S P D) (git_tag git_sha : String)
    (c : ServerConfig D) where
  -- what is behind a server that serves
  pub record Serving (srv : Portal P D) (s : S) : Type 0 where
    pub driver : Driver
    pub known : db_open c.db_driver ≡ some driver
    pub handle : S
    pub opened : on.open_db driver c.db_url ≡ some handle
    pub pinged : on.ping handle ≡ none
    pub initial : db_init on.opened on.surroundings on.migrator (on.version handle) handle ≡ ok s
    pub bound : on.listen c.bind_addr ≡ none
    pub key : SshKey
    pub stored : Mem key (on.opened.gorm.ssh_keys.rows s)
    pub selected : is_host_key on.keys on.opened.gorm.ssh_keys key ≡ true
    pub parsed :
        on.keys.parse_private_key (ssh_key_decrypt on.keys.suite c.aes_key key).priv_key
        ≡ ok srv.host_key

  abbrev OfRan : Ran S P D → Type 0
  OfRan (serving srv s end) =
      Serving srv s
      × (srv.addr ≡ c.bind_addr)
      × (srv.auth.aes_key ≡ c.aes_key)
      × (end ≡ some (stopped_serving (on.serve srv s)))
  OfRan _ = Unit

  module _ (driver : Driver) (known : db_open c.db_driver ≡ some driver) (handle : S)
      (opened : on.open_db driver c.db_url ≡ some handle) (pinged : on.ping handle ≡ none) (s : S)
      (initial : db_init on.opened on.surroundings on.migrator (on.version handle) handle ≡ ok s)
      (bound : on.listen c.bind_addr ≡ none) where
    with_options-OfRan : OfRan (with_options on git_tag git_sha c s)
    unfolding with_options private_key_from_db portal closing stopped_by
    with_options-OfRan =
        elim (Result-cases
          (on.opened.gorm.ssh_keys.first (is_host_key on.keys on.opened.gorm.ssh_keys) s)) [
            | inl (e, q) ↦ rw (q, OfRan) tt
            | inr (key, q) ↦
                elim (Result-cases (
                  on.keys.parse_private_key
                    (ssh_key_decrypt on.keys.suite c.aes_key key).priv_key)) [
                      | inl (e, k) ↦ rw (q, k, OfRan) tt
                      | inr (p, k) ↦
                          rw (q, k, OfRan)
                            (
                              record {
                                driver = driver;
                                known = known;
                                handle = handle;
                                opened = opened;
                                pinged = pinged;
                                initial = initial;
                                bound = bound;
                                key = key;
                                stored = (on.opened.gorm.ssh_keys.first_lem _ s q).0;
                                selected = (on.opened.gorm.ssh_keys.first_lem _ s q).1;
                                parsed = k;
                              },
                              refl,
                              refl,
                              refl,
                            )
                    ]
          ]

  server-OfRan : OfRan (server on git_tag git_sha c)
  unfolding server connected initialised listening stopped_by
  server-OfRan = elim (Option-cases (db_open c.db_driver)) [
    | inl q ↦ rw (q, OfRan) tt
    | inr (driver, q) ↦ elim (Option-cases (on.open_db driver c.db_url)) [
      | inl o ↦ rw (q, o, OfRan) tt
      | inr (t, o) ↦ elim (Option-cases (on.ping t)) [
        | inr (e, p) ↦ rw (q, o, p, OfRan) tt
        | inl p ↦
            elim (Result-cases (db_init on.opened on.surroundings on.migrator (on.version t) t)) [
              | inl (e, i) ↦ rw (q, o, p, i, OfRan) tt
              | inr (s, i) ↦ elim (Option-cases (on.listen c.bind_addr)) [
                | inr (e, l) ↦ rw (q, o, p, i, l, OfRan) tt
                | inl l ↦ rw (q, o, p, i, l, OfRan) (with_options-OfRan driver q t o p s i l)
              ]
            ]
      ]
    ]
  ]

  -- the condition names the key `host`, if the name is a column of it
  host_named :
      (k : SshKey)
      → (on.opened.gorm.ssh_keys.columns k).name ≡ k.name
      → is_host_key on.keys on.opened.gorm.ssh_keys k ≡ (k.name == "host")
  unfolding is_host_key ssh_keys_by_identifiers any is_int
  host_named k column = ground (arith, ap (λ t. t == "host") column)

  module _ (apart : Apart on.opened)
      (column : (k : SshKey) → (on.opened.gorm.ssh_keys.columns k).name ≡ k.name) where
    -- If `server` comes to serve, then in the database that it opened with a known driver, on a
    -- handle that answered, DBInit has succeeded: the default rows are there and no session is left
    -- active; the listener is bound to the address of the configuration; the private key is that of
    -- a key row named `host`, decrypted with the configuration's AES key, which the handlers of
    -- authentication are given too; and what is returned in the end is the error of Serve, whatever
    -- the closing of the database says. As for DBInit, Create takes away and renames no row that the
    -- seeding asks for, and the update of the sessions leaves the other tables alone.
    pub server_serves :
        (srv : Portal P D) (s : S) (end : Option ServerError)
        → server on git_tag git_sha c ≡ serving srv s end
        → (b : Serving srv s) × (b.key.name ≡ "host")
          × Established on.opened s
          × (any is_active (on.opened.gorm.sessions.rows s) ≡ false)
          × (srv.addr ≡ c.bind_addr)
          × (srv.auth.aes_key ≡ c.aes_key)
          × (end ≡ some (stopped_serving (on.serve srv s)))
    server_serves srv s end e =
        let (b, addr, aes, last) = subst OfRan e server-OfRan in
        let (rows, idle) =
          db_init-Established on.opened on.surroundings apart on.migrator (on.version b.handle)
            b.handle s b.initial in
        (
          b,
          (eq_iff b.key.name "host").0 (sym (host_named b.key (column b.key)) ∙ b.selected),
          rows,
          idle,
          addr,
          aes,
          last,
        )
