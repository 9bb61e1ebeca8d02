-- ===== src/Secp/Json.antt =====
-- `comsig_serde` of src/secp.rs: a commitment signature as the hexadecimal text of a request.
use mwixnet.Base.{◌≡◌, refl, append-nil, [], Result, ok, map_err, ◌>>=◌}
use mwixnet.Ext.{Crates}
use mwixnet.Ext.Files.{Files}
use mwixnet.Ext.Laws.{SerLaws}
use mwixnet.Ext.Net.{Net, FormLaws}
use mwixnet.Ext.Serde.{Value, text, SerdeError, hex, ser, as_text}
use mwixnet.Secp.{ComSignature, write_comsig, read_comsig}
use mwixnet.Secp.RoundTrip.{IsSig, read_comsig-write_comsig}

module _ (x : Crates) (f : Files) where
  -- `comsig_serde::serialize`
  unfoldable pub serialize : ComSignature x → Result (SerdeError x f) (Value f.Text)
  serialize comsig = do
    bytes ← map_err ser (x.ser_vec (write_comsig x comsig))
    ok (text (f.to_hex bytes))

  -- `comsig_serde::deserialize`
  unfoldable pub deserialize : Value f.Text → Result (SerdeError x f) (ComSignature x)
  deserialize value = do
    string ← as_text x f value
    bytes ← map_err hex (f.from_hex string)
    map_err ser (x.deserialize (ComSignature x) (read_comsig x) bytes)

  -- A commitment signature with valid keys is serialized without error, to a text that is
  -- deserialized as that signature.
  pub comsig_deserialize-serialize :
      (n : Net x f)
      → FormLaws x f n
      → (L : SerLaws x) → (c : ComSignature x) → IsSig x L c
      → (v : Value f.Text) × (serialize c ≡ ok v) × (deserialize v ≡ ok c)
  unfolding serialize deserialize
  comsig_deserialize-serialize n F L c h =
      let (b, w, r) = read_comsig-write_comsig x L c h [] in
      (
        text (f.to_hex b),
        rw (L.ser_vec_lem (write_comsig x c), w) refl,
        rw (F.hex_lem b, L.deserialize_lem _ (read_comsig x) b [] c (rw append-nil at r)) refl,
      )
