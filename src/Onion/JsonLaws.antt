-- ===== src/Onion/JsonLaws.antt =====
-- An onion comes back from its JSON object, and what happens where a field is missing.
use mwixnet.Base.{
  ◌≡◌, ◌⊎◌, inl, inr, refl, ap, ◌∙◌, sym, List, [], ◌∷◌, ◌++◌, map, append-nil, append_assoc,
  Option, none, some, is_some, Bool, true, false, ◌||◌, ok, panic, All, In,
}
use mwixnet.Base.Codec.{Bytes}
use mwixnet.Ext.{Crates}
use mwixnet.Ext.Files.{Files}
use mwixnet.Ext.Net.{Net, FormLaws}
use mwixnet.Onion.{Onion}
use mwixnet.Onion.Json.{
  Field, field_pubkey, field_commit, field_data, field_unknown, Entry, Visited, serialize,
  from_hexes, visit_entry, visit_entries, onion_of, deserialize,
}

unfoldable pub same_field : Field → Field → Bool
same_field field_pubkey field_pubkey = true
same_field field_commit field_commit = true
same_field field_data field_data = true
same_field _ _ = false

or_swap : (a b c : Bool) → (a || (b || c)) ≡ ((b || a) || c)
or_swap true true c = refl
or_swap true false c = refl
or_swap false true c = refl
or_swap false false c = refl

module _ (x : Crates) (f : Files) (n : Net x f) where
  -- Whether an entry has this key.
  unfoldable pub has_field : Field → List (Entry x f n) → Bool
  unfolding same_field
  has_field k [] = false
  has_field k (e ∷ es) = same_field k e.0 || has_field k es

  -- Whether the variable of the field is set.
  unfoldable is_set : Field → Visited x f n → Bool
  is_set field_pubkey v = is_some v.pubkey
  is_set field_commit v = is_some v.commit
  is_set field_data v = is_some v.payloads
  is_set field_unknown v = false

  -- A variable that is not set, or is set to this.
  abbrev Slot : {A : Type 0} → A → Option A → Type 0
  Slot a s = (s ≡ none) ⊎ (s ≡ some a)

  Slot-some : {A : Type 0} {a : A} {s : Option A} → Slot a s → is_some s ≡ true → s ≡ some a
  Slot-some {s = none} c h = absurd (cc h)
  Slot-some {s = some b} (inl c) h = absurd (cc c)
  Slot-some {s = some b} (inr c) h = c

  Slot-none : {A : Type 0} {a : A} {s : Option A} → Slot a s → is_some s ≡ false → s ≡ none
  Slot-none {s = none} c h = refl
  Slot-none {s = some b} c h = absurd (cc h)

  -- Variables that have only the onion's values.
  record Part (o : Onion x) (v : Visited x f n) : Type 0 where
    key : Slot o.ephemeral_pubkey v.pubkey
    value : Slot o.commit v.commit
    layers : Slot o.enc_payloads v.payloads

  -- The entries are read into variables with the onion's values, and set those of their keys.
  record Fills (o : Onion x) (v : Visited x f n) (es : List (Entry x f n)) : Type 0 where
    left : Visited x f n
    runs : visit_entries x f n es v ≡ ok left
    part : Part o left
    sets : (k : Field) → is_set k left ≡ (has_field k es || is_set k v)

  module _ (L : FormLaws x f n) (o : Onion x) where
    from_hexes-to_hex :
        (ps acc : List Bytes) → from_hexes x f n (map f.to_hex ps) acc ≡ ok (acc ++ ps)
    unfolding from_hexes
    from_hexes-to_hex [] acc = ap ok (sym (append-nil acc))
    from_hexes-to_hex (p ∷ ps) acc =
        rw (L.hex_lem p)
          (from_hexes-to_hex ps (acc ++ (p ∷ [])) ∙ ap ok (append_assoc acc (p ∷ []) ps))

    -- The variables after one entry of the onion's object.
    abbrev with_field : Field → Visited x f n → Visited x f n
    with_field field_pubkey v = record {
      pubkey = some o.ephemeral_pubkey;
      commit = v.commit;
      payloads = v.payloads;
    }
    with_field field_commit v = record {
      pubkey = v.pubkey;
      commit = some o.commit;
      payloads = v.payloads;
    }
    with_field field_data v = record {
      pubkey = v.pubkey;
      commit = v.commit;
      payloads = some o.enc_payloads;
    }
    with_field field_unknown v = v

    is_set-with_field :
        (k j : Field) (v : Visited x f n)
        → is_set k (with_field j v) ≡ (same_field k j || is_set k v)
    unfolding is_set same_field
    is_set-with_field field_pubkey field_pubkey v = refl
    is_set-with_field field_pubkey field_commit v = refl
    is_set-with_field field_pubkey field_data v = refl
    is_set-with_field field_pubkey field_unknown v = refl
    is_set-with_field field_commit field_pubkey v = refl
    is_set-with_field field_commit field_commit v = refl
    is_set-with_field field_commit field_data v = refl
    is_set-with_field field_commit field_unknown v = refl
    is_set-with_field field_data field_pubkey v = refl
    is_set-with_field field_data field_commit v = refl
    is_set-with_field field_data field_data v = refl
    is_set-with_field field_data field_unknown v = refl
    is_set-with_field field_unknown j v = refl

    with_field-Part : (j : Field) (v : Visited x f n) → Part o v → Part o (with_field j v)
    with_field-Part field_pubkey v p = record { key = inr refl; value = p.value; layers = p.layers }
    with_field-Part field_commit v p = record { key = p.key; value = inr refl; layers = p.layers }
    with_field-Part field_data v p = record { key = p.key; value = p.value; layers = inr refl }
    with_field-Part field_unknown v p = p

    visit-with_field :
        (v : Visited x f n) (e : Entry x f n)
        → In e (serialize x f n o)
        → visit_entry x f n v e ≡ ok (with_field e.0 v)
    unfolding serialize visit_entry
    visit-with_field v e (inl h) =
        rw
          (
            h,
            L.hex_lem (n.pubkey_serialize_vec o.ephemeral_pubkey),
            L.pubkey_lem o.ephemeral_pubkey,
          )
          refl
    visit-with_field v e (inr (inl h)) =
        rw (h, L.hex_lem (x.commit_bytes o.commit), L.commit_lem o.commit) refl
    visit-with_field v e (inr (inr (inl h))) = rw (h, from_hexes-to_hex o.enc_payloads []) refl
    visit-with_field v e (inr (inr (inr h))) = absurd h

    visit-Fills :
        (es : List (Entry x f n)) (v : Visited x f n)
        → Part o v
        → All (λ e. In e (serialize x f n o)) es
        → Fills o v es
    unfolding visit_entries has_field
    visit-Fills [] v p h = record { left = v; runs = refl; part = p; sets = λ k. refl }
    visit-Fills (e ∷ es) v p h =
        let r = visit-Fills es (with_field e.0 v) (with_field-Part e.0 v p) h.1 in
        record {
          left = r.left;
          runs = rw (visit-with_field v e h.0) r.runs;
          part = r.part;
          sets = λ k.
              r.sets k
              ∙ ap (λ b. has_field k es || b) (is_set-with_field k e.0 v)
              ∙ or_swap (has_field k es) (same_field k e.0) (is_set k v);
        }

    nothing-Part : Part o (record { pubkey = none; commit = none; payloads = none })
    nothing-Part = record { key = inl refl; value = inl refl; layers = inl refl }

    is_set_nothing :
        (k : Field) → is_set k (record { pubkey = none; commit = none; payloads = none }) ≡ false
    unfolding is_set
    is_set_nothing field_pubkey = refl
    is_set_nothing field_commit = refl
    is_set_nothing field_data = refl
    is_set_nothing field_unknown = refl

    onion_of-Part :
        (v : Visited x f n)
        → Part o v
        → is_set field_pubkey v ≡ true
        → is_set field_commit v ≡ true
        → is_set field_data v ≡ true
        → onion_of x f n v ≡ ok o
    unfolding onion_of is_set
    onion_of-Part v p s t u = rw (Slot-some p.key s, Slot-some p.value t, Slot-some p.layers u) refl

    onion_of_missing :
        (k : Field) (v : Visited x f n)
        → Part o v
        → In k (field_pubkey ∷ field_commit ∷ field_data ∷ [])
        → is_set k v ≡ false
        → onion_of x f n v ≡ panic
    unfolding onion_of is_set
    onion_of_missing field_pubkey v p i h = rw (Slot-none p.key h) refl
    onion_of_missing field_commit v p i h = elim p.key [
      | inl a ↦ rw a refl
      | inr a ↦ rw (a, Slot-none p.value h) refl
    ]
    onion_of_missing field_data v p i h = elim p.key [
      | inl a ↦ rw a refl
      | inr a ↦ elim p.value [
        | inl b ↦ rw (a, b) refl
        | inr b ↦ rw (a, b, Slot-none p.layers h) refl
      ]
    ]
    onion_of_missing field_unknown v p (inl i) h = absurd (cc i)
    onion_of_missing field_unknown v p (inr (inl i)) h = absurd (cc i)
    onion_of_missing field_unknown v p (inr (inr (inl i))) h = absurd (cc i)
    onion_of_missing field_unknown v p (inr (inr (inr i))) h = absurd i

    -- The entries of an onion's JSON object are read back as that onion in every order, and with
    -- repeated entries too, as long as each of the three fields is there.
    pub deserialize-serialize :
        (es : List (Entry x f n))
        → All (λ e. In e (serialize x f n o)) es
        → has_field field_pubkey es ≡ true
        → has_field field_commit es ≡ true
        → has_field field_data es ≡ true
        → deserialize x f n es ≡ ok o
    unfolding deserialize is_set
    deserialize-serialize es h s t u =
        let r = visit-Fills es _ nothing-Part h in
        rw r.runs (
          onion_of-Part r.left r.part (r.sets field_pubkey ∙ rw s refl)
            (r.sets field_commit ∙ rw t refl) (r.sets field_data ∙ rw u refl))

    -- A JSON object with entries of an onion, each of them valid, that lacks one of the three
    -- fields makes the deserialization panic, whatever the order of the entries.
    pub deserialize_missing :
        (es : List (Entry x f n))
        → All (λ e. In e (serialize x f n o)) es
        → (k : Field) → In k (field_pubkey ∷ field_commit ∷ field_data ∷ [])
        → has_field k es ≡ false
        → deserialize x f n es ≡ panic
    unfolding deserialize is_set
    deserialize_missing es h k i m =
        let r = visit-Fills es _ nothing-Part h in
        rw r.runs (onion_of_missing k r.left r.part i (r.sets k ∙ rw (m, is_set_nothing k) refl))
