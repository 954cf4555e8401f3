-- ===== src/Targets/Logzio.antt =====
-- target/logzio/server.go: what is sent to logz.io for a message.
use log_shipper.Base.{
  ℕ, ◌≡◌, refl, ap, sym, ◌∙◌, String, Bool, true, false, not, ◌&&◌, eq_iff, arith, Option, none,
  some, List, [], ◌∷◌, if◌then◌else◌, str_eq, ◌>>=◌, ◌==◌,
}
use log_shipper.Base.Dict.{Dict, lookup, insert, lookup-insert, IsMap}
use log_shipper.Message.{Attributes, SourceMessage, TargetMessage}

-- A value of the JSON object: the bytes of the message, or a text.
pub data Field : Type 0 where
  bytes : List ℕ → Field
  text : String → Field

-- The layout of a point in time, `json.Marshal`, and the client of logz.io, each of which may fail.
pub record Logz (S : Type 0) : Type 0 where
  pub format : ℕ → String
  pub marshal : Dict Field → Option (List ℕ)
  pub send : List ℕ → S → Option S

stamped : (ℕ → String) → ℕ → Dict Field → Dict Field
stamped format timestamp fields =
    if timestamp == 0 then fields else insert "@timestamp" (text (format timestamp)) fields

add_meta : Dict String → Dict Field → Dict Field
add_meta [] fields = fields
add_meta ((key, value) ∷ meta) fields = add_meta meta (insert key (text value) fields)

-- `logzioMessage`, the object for a source message and its attributes.
unfoldable pub logzio_message : (ℕ → String) → SourceMessage → Attributes → Dict Field
unfolding stamped add_meta
logzio_message format m a = add_meta m.meta (
    stamped format a.timestamp
      (insert "type" (text a.attribute_type) (insert "message" (bytes m.message) [])))

-- The branch of a log message. A nil source message, nil attributes, and an error of `json.Marshal`
-- or of the client panic.
unfoldable pub ship : {S : Type 0} → Logz S → TargetMessage → S → Option S
ship logz t s = do
  m ← t.source_message
  a ← m.attributes
  out ← logz.marshal (logzio_message logz.format m a)
  logz.send out s

-- What stands under a key before the metadata is copied in.
abbrev pub own_field : (ℕ → String) → SourceMessage → Attributes → String → Option Field
own_field format m a key =
    if str_eq "@timestamp" key && not (a.timestamp == 0)
    then some (text (format a.timestamp))
    else if str_eq "type" key
    then some (text a.attribute_type)
    else if str_eq "message" key
    then some (bytes m.message)
    else none

abbrev pub meta_or : Option Field → Option String → Option Field
meta_or own none = own
meta_or own (some value) = some (text value)

lookup-add_meta :
    (key : String) (meta : Dict String) (fields : Dict Field)
    → IsMap meta
    → lookup key (add_meta meta fields) ≡ meta_or (lookup key fields) (lookup key meta)
unfolding add_meta lookup
lookup-add_meta key [] fields is_map = refl
lookup-add_meta key ((name, value) ∷ meta) fields is_map =
    lookup-add_meta key meta (insert name (text value) fields) is_map.1
    ∙ rw (lookup-insert name key (text value) fields) (
        go (str_eq name key)
          (λ e. ap (λ x. lookup x meta) (sym ((eq_iff name key).0 e)) ∙ is_map.0))
  where
    go :
        (same : Bool)
        → (same ≡ true → lookup key meta ≡ none)
        → meta_or (if same then some (text value) else lookup key fields) (lookup key meta)
          ≡ meta_or (lookup key fields) (if same then some value else lookup key meta)
    go true absent = rw (absent refl) refl
    go false absent = refl

-- The object has, under each key of the metadata, the text from there, also where the key is one of
-- the object's own; under the other keys it has the message, its type, and its time if that is not 0.
lookup-logzio_message :
    (format : ℕ → String) (m : SourceMessage) (a : Attributes) (key : String)
    → IsMap m.meta
    → lookup key (logzio_message format m a)
      ≡ meta_or (own_field format m a key) (lookup key m.meta)
unfolding logzio_message lookup
lookup-logzio_message format m a key is_map =
    lookup-add_meta key m.meta _ is_map
    ∙ ap (λ own. meta_or own (lookup key m.meta)) (own a.timestamp)
  where
    typed : Dict Field
    typed = insert "type" (text a.attribute_type) (insert "message" (bytes m.message) [])

    own :
        (timestamp : ℕ)
        → lookup key (stamped format timestamp typed) ≡ (
            if str_eq "@timestamp" key && not (timestamp == 0)
            then some (text (format timestamp))
            else if str_eq "type" key
            then some (text a.attribute_type)
            else if str_eq "message" key
            then some (bytes m.message)
            else none)
    own timestamp = ground (
      arith,
      lookup-insert "@timestamp" key (text (format timestamp)) typed,
      lookup-insert "type" key (text a.attribute_type) (insert "message" (bytes m.message) []),
      lookup-insert "message" key (bytes m.message) [],
    )
