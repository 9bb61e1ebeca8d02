-- ===== src/Onion/Json.antt =====
-- src/onion.rs: an onion as the JSON object of a request. `MapAccess` is the list of the object's
-- entries, in the order in which they come; a key that is none of the three fields is
-- `field_unknown`.
use mwixnet.Base.{
  List, [], ◌∷◌, ◌++◌, map, Option, none, some, Result, ok, err, map_err, unwrap, ◌>>=◌,
}
use mwixnet.Base.Codec.{Bytes}
use mwixnet.Ext.{Crates}
use mwixnet.Ext.Files.{Files}
use mwixnet.Ext.Net.{Net}
use mwixnet.Ext.Serde.{Value, text, texts, SerdeError, unknown_field, hex, curve, as_text, as_texts}
use mwixnet.Onion.{Onion}

-- `enum Field`, and the keys that it does not have.
pub data Field : Type 0 where
  field_pubkey field_commit field_data field_unknown : Field

module _ (x : Crates) (f : Files) (n : Net x f) where
  abbrev pub Entry : Type 0
  Entry = Field × Value f.Text

  -- `Serialize for Onion`
  unfoldable pub serialize : Onion x → List Entry
  serialize o =
      (field_pubkey, text (f.to_hex (n.pubkey_serialize_vec o.ephemeral_pubkey)))
      ∷ (field_commit, text (f.to_hex (x.commit_bytes o.commit)))
      ∷ (field_data, texts (map f.to_hex o.enc_payloads))
      ∷ []

  -- The variables of `visit_map`.
  pub record Visited : Type 0 where
    pub pubkey : Option x.PublicKey
    pub commit : Option x.Commitment
    pub payloads : Option (List Bytes)

  -- The loop over the texts of `data`.
  unfoldable pub from_hexes : List f.Text → List Bytes → Result (SerdeError x f) (List Bytes)
  from_hexes [] vec = ok vec
  from_hexes (t ∷ ts) vec = do
    bytes ← map_err hex (f.from_hex t)
    from_hexes ts (vec ++ (bytes ∷ []))

  -- One round of the loop over the entries.
  unfoldable pub visit_entry : Visited → Entry → Result (SerdeError x f) Visited
  unfolding from_hexes
  visit_entry v (field_pubkey, value) = do
    val ← as_text x f value
    vec ← map_err hex (f.from_hex val)
    key ← map_err curve (n.pubkey_from_slice vec)
    ok (record { pubkey = some key; commit = v.commit; payloads = v.payloads })
  visit_entry v (field_commit, value) = do
    val ← as_text x f value
    vec ← map_err hex (f.from_hex val)
    ok (record {
      pubkey = v.pubkey;
      commit = some (n.commitment_from_vec vec);
      payloads = v.payloads;
    })
  visit_entry v (field_data, value) = do
    val ← as_texts x f value
    vec ← from_hexes val []
    ok (record { pubkey = v.pubkey; commit = v.commit; payloads = some vec })
  visit_entry v (field_unknown, value) = err unknown_field

  unfoldable pub visit_entries : List Entry → Visited → Result (SerdeError x f) Visited
  unfolding visit_entry
  visit_entries [] v = ok v
  visit_entries (e ∷ es) v = do v' ← visit_entry v e; visit_entries es v'

  -- The onion after the loop, of the three variables.
  unfoldable pub onion_of : Visited → Result (SerdeError x f) (Onion x)
  onion_of v = do
    ephemeral_pubkey ← unwrap v.pubkey
    commit ← unwrap v.commit
    enc_payloads ← unwrap v.payloads
    ok (record {
      ephemeral_pubkey = ephemeral_pubkey;
      commit = commit;
      enc_payloads = enc_payloads;
    })

  -- `Deserialize for Onion`, at an object with these entries
  unfoldable pub deserialize : List Entry → Result (SerdeError x f) (Onion x)
  unfolding visit_entries onion_of
  deserialize es = do
    v ← visit_entries es (record { pubkey = none; commit = none; payloads = none })
    onion_of v
