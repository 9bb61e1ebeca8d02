-- ===== src/Main/Safety.antt =====
-- Which files the command line changes.
use mwixnet.Base.{◌≡◌, List, false, ◌⊎◌, some}
use mwixnet.Base.Exec.{Exec}
use mwixnet.Ext.{Crates}
use mwixnet.Ext.Files.{Files}
use mwixnet.Ext.Net.{Net}
use mwixnet.Ext.System.{System}
use mwixnet.Config.Save.{Toml}
use mwixnet.Main.Args.{Args}
use mwixnet.Main.Start.{db_root, Host, Draw, init_config}

module _ (x : Crates) (f : Files) (s : System x f) where
  module _ (n : Net x f) (toml : Toml f) (args : Args x f s) (draw : Draw x f s)
      (key : x.SecretKey) where
    abbrev with_lines : Host x f s → List f.Text → Host x f s
    with_lines host lines = record { fs = host.fs; lines = lines }

    -- The files are the same, or the server has opened the database.
    abbrev Kept : Host x f s → f.FileSystem → Type 0
    Kept host fs =
        (fs ≡ host.fs)
        ⊎ ((root : f.Text) × (args.init_config ≡ false)
            × (db_root x f s args ≡ some root)
            × (fs ≡ (s.store_new root host.fs).1))
