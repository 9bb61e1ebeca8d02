-- ===== src/Ext/Serde.antt =====
-- What the visitors see of `serde`: the value of a JSON entry, the typed access to it, and the
-- errors, with those that the program wraps by `serde::de::Error::custom`.
use mwixnet.Base.{List, Result, ok, err}
use mwixnet.Ext.{Crates}
use mwixnet.Ext.Files.{Files}

-- A text, an array of texts, or a value of another type.
pub data Value (Text : Type 0) : Type 0 where
  text : Text → Value Text
  texts : List Text → Value Text
  other : Value Text

module _ (x : Crates) (f : Files) where
  pub data SerdeError : Type 0 where
    unknown_field : SerdeError
    invalid_type : SerdeError
    hex : f.HexError → SerdeError
    curve : x.SecpError → SerdeError
    ser : x.SerError → SerdeError

  -- `next_value` at `String` and at `Vec<String>`
  abbrev pub as_text : Value f.Text → Result SerdeError f.Text
  as_text (text t) = ok t
  as_text (texts ts) = err invalid_type
  as_text other = err invalid_type

  abbrev pub as_texts : Value f.Text → Result SerdeError (List f.Text)
  as_texts (text t) = err invalid_type
  as_texts (texts ts) = ok ts
  as_texts other = err invalid_type
