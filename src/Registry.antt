-- ===== src/Registry.antt =====
-- `DemoInputRegistry` of aggregator_demo/input_registry.py, with the checked fields of
-- `DemoInputResponse` of contracts.py. The file system, SHA-256 and the parsers are parameters.
pub mod Loaded
mod Tests
use text.Mathlib.Text.{◌==◌ as str_eq}
use depotflux_demo.Prelude.{
  ℕ, Bool, true, false, not, Option, none, some, List, [], ◌∷◌, String, map, leb, if◌then◌else◌,
  Result, ok, err, guard, raise_if, ◌>>=◌, ◌>>◌,
}
use depotflux_demo.Runs.Json.{Json, string, list, dict, Items, nil, cons, Fields, get}
use depotflux_demo.Auth.{has_duplicates}

pub record Descriptor : Type 0 where
  pub reference : String
  pub sha256 : String
  pub filename : String
  pub fleet_size : ℕ

-- `DemoInputNotFoundError`, the messages of `DemoInputIntegrityError`, the `AttributeError` of a
-- manifest that is no dict, and an `OSError` of `read_bytes`.
pub data RegistryError : Type 0 where
  unknown_reference : RegistryError
  manifest_unreadable unsupported_version no_inputs_list invalid_manifest : RegistryError
  duplicate_references hash_mismatch path_escapes file_missing bytes_mismatch : RegistryError
  unparsable no_json_object : RegistryError
  no_dict os_error text_error : RegistryError

-- What becomes of `json.loads(path.read_text(encoding="utf-8"))`: a value, `OSError` or
-- `JSONDecodeError`, or another `ValueError`, such as that of bytes which are not UTF-8.
pub data Parsed (A : Type 0) : Type 0 where
  parsed_json : Json A → Parsed A
  unreadable undecodable : Parsed A

-- What the registry asks of the file system: `(root / filename).resolve()`, whether the root is
-- among its parents, `is_file`, the SHA-256 of `read_bytes`, and the JSON value of `read_text`.
pub record InputFiles (A : Type 0) : Type 1 where
  pub FilePath : Type 0
  pub resolve : String → FilePath
  pub is_below_root : FilePath → Bool
  pub is_file : FilePath → Bool
  pub digest_at : FilePath → Option String
  pub json_at : FilePath → Parsed A

module _ {A : Type 0} where
  -- `DemoInputResponse.model_validate` of each item.
  unfoldable pub validated : (Json A → Option Descriptor) → Items A → Option (List Descriptor)
  validated validate nil = some []
  validated validate (cons item items) =
      let rest = validated validate items in
      elim (validate item) [
        | none ↦ none
        | some descriptor ↦ elim rest [ none ↦ none | some others ↦ some (descriptor ∷ others) ]
      ]

  unfoldable pub is_version : Option (Json A) → Bool
  is_version (some (string s)) = str_eq s "v1"
  is_version _ = false

  unfoldable pub manifest_items : Option (Json A) → Result RegistryError (Items A)
  manifest_items (some (list items)) = ok items
  manifest_items _ = err no_inputs_list

  -- The constructor, for the manifest that was read: `none` where it could not be.
  unfoldable pub open_registry :
      (Json A → Option Descriptor) → Option (Json A) → Result RegistryError (List Descriptor)
  open_registry validate none = err manifest_unreadable
  open_registry validate (some (dict manifest)) =
      guard (is_version (get "manifest_version" manifest)) unsupported_version
      >> manifest_items (get "inputs" manifest)
      >>= λ items. elim (validated validate items) [
        | none ↦ err invalid_manifest
        | some descriptors ↦
            raise_if (has_duplicates (map (λ d. d.reference) descriptors)) duplicate_references
            >> ok descriptors
      ]
  open_registry validate (some _) = err no_dict

-- `sorted(..., key=lambda item: item.fleet_size)`, which keeps the order of equal keys.
unfoldable pub insert_by_size : Descriptor → List Descriptor → List Descriptor
insert_by_size d [] = d ∷ []
insert_by_size d (other ∷ others) =
    if leb d.fleet_size other.fleet_size
    then d ∷ other ∷ others
    else other ∷ insert_by_size d others

unfoldable pub list_inputs : List Descriptor → List Descriptor
list_inputs [] = []
list_inputs (d ∷ ds) = insert_by_size d (list_inputs ds)

unfoldable pub find_descriptor : String → List Descriptor → Option Descriptor
find_descriptor reference [] = none
find_descriptor reference (d ∷ ds) =
    if str_eq d.reference reference then some d else find_descriptor reference ds

unfoldable pub descriptor : List Descriptor → String → Result RegistryError Descriptor
descriptor entries reference = elim (find_descriptor reference entries) [
  | none ↦ err unknown_reference
  | some d ↦ ok d
]

module _ {A : Type 0} (files : InputFiles A) where
  -- `_path_for`
  unfoldable pub path_for : Descriptor → Result RegistryError files.FilePath
  path_for d =
      let path = files.resolve d.filename in
      guard (files.is_below_root path) path_escapes
      >> guard (files.is_file path) file_missing
      >> ok path

  unfoldable pub check_bytes : Descriptor → Option String → Result RegistryError Descriptor
  check_bytes d none = err os_error
  check_bytes d (some actual) = if str_eq actual d.sha256 then ok d else err bytes_mismatch

  unfoldable pub verify : List Descriptor → String → String → Result RegistryError Descriptor
  verify entries reference expected_sha256 = descriptor entries reference >>= λ d.
      guard (str_eq d.sha256 expected_sha256) hash_mismatch >> path_for d >>= λ path.
      check_bytes d (files.digest_at path)

unfoldable pub payload_at : {A : Type 0} → Parsed A → Result RegistryError (Fields A)
payload_at unreadable = err unparsable
payload_at undecodable = err text_error
payload_at (parsed_json (dict payload)) = ok payload
payload_at (parsed_json _) = err no_json_object

-- `load`. The file may change between the read of its bytes and that of its text, so the two reads
-- have a file system each.
unfoldable pub load :
    {A : Type 0}
    → InputFiles A
    → InputFiles A
    → List Descriptor
    → String
    → String
    → Result RegistryError (Fields A)
load before after entries reference expected_sha256 =
    verify before entries reference expected_sha256 >>= λ d.
    path_for after d >>= λ path. payload_at (after.json_at path)
