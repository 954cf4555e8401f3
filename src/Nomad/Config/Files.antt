-- ===== src/Nomad/Config/Files.antt =====
-- The text of the sources in the metadata, printed and read.
use log_shipper.Base.{
  ◌≡◌, refl, ap, ◌∙◌, String, Bool, true, false, Option, none, some, List, [], ◌∷◌, map, arith,
  if◌then◌else◌, str_eq, bind_total,
}
use log_shipper.Base.Dict.{Dict, lookup, insert, lookup-insert}
use log_shipper.Base.Split.{split, join, AllFree, split-join, join-Free, split-NonEmpty}
use log_shipper.Nomad.Config.{SourceConfig, configure, configure_all, source_configs}

abbrev pub Entry : Type 0
Entry = String × SourceConfig

abbrev fields : Entry → List String
fields e = e.0 ∷ e.1.source_type ∷ e.1.log_delimiter ∷ []

-- `path:type:delimiter`, and these with commas between them.
abbrev print_entry : Entry → String
print_entry e = join (fields e) ":"

abbrev pub print : List Entry → String
print es = join (map print_entry es) ","

-- No field of an entry has a comma or a colon.
abbrev pub Plain : List Entry → Type 0
Plain [] = Unit
Plain (e ∷ es) = (AllFree ":" (fields e) × AllFree "," (fields e)) × Plain es

abbrev or_else : Option SourceConfig → Option SourceConfig → Option SourceConfig
or_else (some config) earlier = some config
or_else none earlier = earlier

-- The last entry for a path counts.
abbrev pub last_for : String → List Entry → Option SourceConfig
last_for path [] = none
last_for path (e ∷ es) = or_else (last_for path es) (if str_eq e.0 path then some e.1 else none)

store_all : List Entry → Dict SourceConfig → Dict SourceConfig
store_all [] configs = configs
store_all (e ∷ es) configs = store_all es (insert e.0 e.1 configs)

lookup-store_all :
    (path : String) (es : List Entry) (configs : Dict SourceConfig)
    → lookup path (store_all es configs) ≡ or_else (last_for path es) (lookup path configs)
unfolding store_all
lookup-store_all path [] configs = refl
lookup-store_all path (e ∷ es) configs =
    lookup-store_all path es (insert e.0 e.1 configs)
    ∙ ap (or_else (last_for path es)) (lookup-insert e.0 path e.1 configs)
    ∙ merge (last_for path es) (str_eq e.0 path) (lookup path configs)
  where
    merge :
        (later : Option SourceConfig) (same : Bool) (earlier : Option SourceConfig)
        → or_else later (if same then some e.1 else earlier)
          ≡ or_else (or_else later (if same then some e.1 else none)) earlier
    merge none true earlier = refl
    merge none false earlier = refl
    merge (some c) same earlier = refl

configure_all-print :
    (es : List Entry) (configs : Dict SourceConfig)
    → Plain es
    → configure_all (map print_entry es) configs ≡ some (store_all es configs)
unfolding configure_all configure store_all
configure_all-print [] configs plain = refl
configure_all-print (e ∷ es) configs plain =
    rw (split-join ":" e.0 (e.1.source_type ∷ e.1.log_delimiter ∷ []) plain.0.0)
      (configure_all-print es (insert e.0 e.1 configs) plain.1)

print-AllFree : (es : List Entry) → Plain es → AllFree "," (map print_entry es)
print-AllFree [] plain = tt
print-AllFree (e ∷ es) plain =
    (join-Free ":" "," (fields e) refl plain.0.1, print-AllFree es plain.1)

trim : (o : Option SourceConfig) → or_else o none ≡ o
trim none = refl
trim (some c) = refl

-- Entries of a path, a type and a delimiter, none of them with a comma or a colon, are read back
-- from their text `path:type:delimiter,...`: reading does not panic, and it has for each path the
-- settings of its last entry, and nothing for other paths.
pub source_configs-print :
    (e : Entry) (es : List Entry)
    → Plain (e ∷ es)
    → (configs : Dict SourceConfig) × (source_configs (print (e ∷ es)) ≡ some configs)
      × ((path : String) → lookup path configs ≡ last_for path (e ∷ es))
unfolding source_configs lookup
source_configs-print e es plain = (
  store_all (e ∷ es) [],
  rw (split-join "," (print_entry e) (map print_entry es) (print-AllFree (e ∷ es) plain))
      (configure_all-print (e ∷ es) [] plain),
  λ path. lookup-store_all path (e ∷ es) [] ∙ trim (last_for path (e ∷ es)),
)

configure_total :
    (settings : List String) (configs : Dict SourceConfig)
    → ((path : String) × (rest : List String) × (settings ≡ path ∷ rest))
    → (read : Dict SourceConfig) × (configure settings configs ≡ some read)
unfolding configure
configure_total [] configs (path, rest, e) = absurd (ground (arith, e))
configure_total (path ∷ rest) configs filled = (_, refl)

configure_all_total :
    (parts : List String) (configs : Dict SourceConfig)
    → (read : Dict SourceConfig) × (configure_all parts configs ≡ some read)
unfolding configure_all configure
configure_all_total [] configs = (configs, refl)
configure_all_total (s ∷ parts) configs =
    bind_total (configure (split s ":") configs) (configure_all parts)
      (configure_total (split s ":") configs (split-NonEmpty s ":")) (configure_all_total parts)

-- Reading does not panic on any text.
pub source_configs_total :
    (value : String) → (configs : Dict SourceConfig) × (source_configs value ≡ some configs)
unfolding source_configs
source_configs_total value = configure_all_total (split value ",") []
