-- ===== src/Main/RoundTrip.antt =====
-- The configuration that "init-config" wrote is the one that the server starts with.
use mwixnet.Base.{
  ℕ, ◌≡◌, refl, ap, Bool-cases, inl, inr, List, ◌∷◌, length, Option, none, some, Result, ok,
  map_err, map_err-eq-ok, panic_ok, err_ok, ended, returned, failed, panicked, >>=-eq-ok,
  ok-injective, subst,
}
use mwixnet.Base.Exec.{Exec, ◌>>=◌, lift-eq-ok}
use mwixnet.Ext.{Crates}
use mwixnet.Ext.Files.{Files}
use mwixnet.Ext.Laws.{IsKey}
use mwixnet.Ext.System.{System}
use mwixnet.Config.Save.{ServerConfig, Toml, write_config, load_config}
use mwixnet.Config.RoundTrip.{FileLaws, load_config-write_config}
use mwixnet.Main.Args.{
  config_error, Args, MainError, addr_error, text_or, config_path, new_config, override_config,
  addr_or, path_or,
}
use mwixnet.Main.Prompt.{prompt, prompt_password_confirm}
use mwixnet.Main.Start.{Host, Draw, on_files, on_lines, init_config, configure}

module _ (x : Crates) (f : Files) (s : System x f) where
  -- An argument overrides a value that it gave by the same value.
  addr_or_same :
      (o : Option f.Text) (d : Result (MainError x f s) f.SocketAddr) (a : f.SocketAddr)
      → addr_or x f s o d ≡ ok a
      → addr_or x f s o (ok a) ≡ ok a
  addr_or_same none d a h = refl
  addr_or_same (some t) d a h = h

  abbrev parse_error : s.AddrError → MainError x f s
  parse_error e = addr_error e

  text_or_same :
      (o : Option f.Text) (t : f.Text) (a : f.SocketAddr)
      → map_err (λ e. parse_error e) (s.parse_addr (text_or x f s o t)) ≡ ok a
      → addr_or x f s o (ok a) ≡ ok a
  text_or_same none t a h = refl
  text_or_same (some u) t a h = h

  path_or_same : (o d : Option f.Text) → path_or x f s o (path_or x f s o d) ≡ path_or x f s o d
  path_or_same none d = refl
  path_or_same (some t) d = refl

  override_config-new_config :
      (args : Args x f s) (interval : Option ℕ) (key : x.SecretKey) (config : ServerConfig x f)
      → new_config x f s args interval key ≡ ok config
      → (override_config x f s args config ≡ ok config) × (key ≡ config.key)
  unfolding override_config new_config
  override_config-new_config args interval key config h =
      let (addr, a, h1) = >>=-eq-ok _ _ h in
      let (node, b, h2) = >>=-eq-ok _ _ h1 in
      let (owner, c, h3) = >>=-eq-ok _ _ h2 in
      (
        subst (λ config. override_config x f s args config ≡ ok config) (ok-injective _ _ h3)
            (rw
              (
                text_or_same args.bind_addr _ addr a,
                addr_or_same args.grin_node_url _ node b,
                addr_or_same args.wallet_owner_url _ owner c,
                path_or_same args.grin_node_secret_path,
                path_or_same args.wallet_owner_secret_path,
              )
              refl),
        ap (λ config. config.key) (ok-injective _ _ h3),
      )

  on_lines-eq-ok :
      {A B : Type 0} (m : Exec (List f.Text) (MainError x f s) A)
      (k : A → Exec (Host x f s) (MainError x f s) B) (host after : Host x f s) (b : B)
      → (on_lines x f s m >>= k) host ≡ (ok b, after)
      → (a : A) × ((m host.lines).0 ≡ ok a)
        × (k a (record { fs = host.fs; lines = (m host.lines).1 }) ≡ (ok b, after))
  on_lines-eq-ok m k host after b h = elim (ended (m host.lines).0) [
    | returned a e ↦ (a, e, rw e at h)
    | failed e q ↦ err_ok (ap (λ p. p.0) (rw q at h))
    | panicked q ↦ panic_ok (ap (λ p. p.0) (rw q at h))
  ]

  module _ (toml : Toml f) (L : FileLaws f toml) where
    configure-load_config :
        (args : Args x f s) (fs : f.FileSystem) (password : f.Text) (config : ServerConfig x f)
        (lines : List f.Text)
        → load_config x f toml (config_path x f s args) (s.as_bytes password) fs ≡ ok config
        → override_config x f s args config ≡ ok config
        → configure x f s toml args (record { fs = fs; lines = password ∷ lines })
          ≡ (ok config, record { fs = fs; lines = lines })
    unfolding configure prompt
    configure-load_config args fs password config lines e o = rw (e, o) refl

    -- What was written is loaded under the same password.
    configure-write_config :
        (args : Args x f s) (draw : Draw x f s) (fs : f.FileSystem) (before lines : List f.Text)
        (password : f.Text) (config : ServerConfig x f) (after : Host x f s)
        → IsKey x config.key
        → length draw.nonce ≡ 12
        → on_files x f s config_error
            (write_config x f toml
              (config_path x f s args)
              config
              (s.as_bytes password)
              draw.salt
              draw.nonce)
            (record { fs = fs; lines = before })
          ≡ (ok tt, after)
        → override_config x f s args config ≡ ok config
        → configure x f s toml args (record { fs = after.fs; lines = password ∷ lines })
          ≡ (ok config, record { fs = after.fs; lines = lines })
    configure-write_config args draw fs before lines password config after k n h o =
        configure-load_config args after.fs password config lines
          (subst
            (λ fs'.
              load_config x f toml (config_path x f s args) (s.as_bytes password) fs' ≡ ok config)
            (ap (λ p. p.1.fs) h)
            (load_config-write_config x f toml L (config_path x f s args) config
              (s.as_bytes password) draw.salt draw.nonce fs k n
              (map_err-eq-ok _ _ (ap (λ p. p.0) h))))
          o

    -- Where "init-config" ends without error, with a valid key drawn and a nonce of 12 bytes, the
    -- user has confirmed a password, and the server, when it is started later with the same
    -- arguments and that password, runs with exactly the configuration that was assembled for the
    -- new file.
    pub configure-init_config :
        (args : Args x f s) (interval : Option ℕ) (draw : Draw x f s) (host after : Host x f s)
        → IsKey x draw.key
        → length draw.nonce ≡ 12
        → init_config x f s toml args interval draw host ≡ (ok tt, after)
        → (password : f.Text) × (config : ServerConfig x f) × ((prompt_password_confirm
              {E = MainError x f s} x f s host.lines).0
            ≡ ok password)
          × (new_config x f s args interval draw.key ≡ ok config)
          × ((lines : List f.Text)
              → configure x f s toml args (record { fs = after.fs; lines = password ∷ lines })
                ≡ (ok config, record { fs = after.fs; lines = lines }))
    unfolding init_config
    configure-init_config args interval draw host after k n h =
        elim (Bool-cases (s.exists (config_path x f s args) host.fs)) [
          | inl e ↦ panic_ok (ap (λ p. p.0) (rw e at h))
          | inr e ↦
              let (config, c, h1) =
                lift-eq-ok (new_config x f s args interval draw.key) _ _ _ _ (rw e at h) in
              let (password, p, h2) = on_lines-eq-ok (prompt_password_confirm x f s) _ _ _ _ h1 in
              (
                password,
                config,
                p,
                c,
                λ lines.
                    let (o, e) = override_config-new_config args interval draw.key config c in
                    configure-write_config args draw host.fs _ lines password config after
                      (subst (IsKey x) e k) n h2 o,
              )
        ]
