-- ===== src/Registry/Loaded.antt =====
-- What a loaded input is.
use text.Mathlib.Text.{◌==◌ as str_eq}
use text.Mathlib.TextEquality.{eq_iff}
use mathlib.Core.Path.{subst}
use depotflux_demo.Prelude.{
  ◌≡◌, sym, ap, ◌∙◌, ◌⊎◌, inl, inr, true, Option, none, some, List, [], ◌∷◌, String, ok, Bool-cases,
  Option-cases, Result-cases, arith,
}
use depotflux_demo.Runs.Json.{dict, Fields}
use depotflux_demo.Registry.{
  Parsed, parsed_json, unreadable, undecodable, Descriptor, InputFiles, find_descriptor, descriptor,
  path_for, check_bytes, verify, payload_at, load,
}

abbrev IsEntry : Descriptor → List Descriptor → Type 0
IsEntry d [] = ⊥
IsEntry d (other ∷ others) = (other ≡ d) ⊎ IsEntry d others

find_descriptor_lem :
    (reference : String) (entries : List Descriptor) (d : Descriptor)
    → find_descriptor reference entries ≡ some d
    → IsEntry d entries × (d.reference ≡ reference)
unfolding find_descriptor
find_descriptor_lem reference [] d e = absurd (ground (arith, e))
find_descriptor_lem reference (other ∷ others) d e =
    elim (Bool-cases (str_eq other.reference reference)) [
      | inl here ↦
          let same : other ≡ d = ground (arith, e, here) in
          (inl same, sym (ap (λ x. x.reference) same) ∙ (eq_iff other.reference reference).0 here)
      | inr elsewhere ↦
          let (member, named) =
            find_descriptor_lem reference others d (ground (arith, e, elsewhere)) in
          (inr member, named)
    ]

module _ {A : Type 0} where
  path_for_lem :
      (files : InputFiles A) (d : Descriptor) (path : files.FilePath)
      → path_for files d ≡ ok path
      → (path ≡ files.resolve d.filename)
        × (files.is_below_root (files.resolve d.filename) ≡ true)
        × (files.is_file (files.resolve d.filename) ≡ true)
  unfolding path_for
  path_for_lem files d path e = elim (Bool-cases (files.is_below_root (files.resolve d.filename))) [
    | inr outside ↦ absurd (ground (arith, e, outside))
    | inl below ↦ elim (Bool-cases (files.is_file (files.resolve d.filename))) [
      | inr missing ↦ absurd (ground (arith, e, below, missing))
      | inl there ↦ (ground (arith, e, below, there), below, there)
    ]
  ]

  check_bytes_lem :
      (files : InputFiles A) (d entry : Descriptor) (actual : Option String)
      → check_bytes files d actual ≡ ok entry
      → (entry ≡ d) × (actual ≡ some d.sha256)
  unfolding check_bytes
  check_bytes_lem files d entry none e = absurd (ground (arith, e))
  check_bytes_lem files d entry (some actual) e = elim (Bool-cases (str_eq actual d.sha256)) [
    | inr differ ↦ absurd (ground (arith, e, differ))
    | inl same ↦ (ground (arith, e, same), ap some ((eq_iff actual d.sha256).0 same))
  ]

  -- What verify has shown of the entry that it returns.
  pub record IsVerified (files : InputFiles A) (entries : List Descriptor)
      (reference expected_sha256 : String) (entry : Descriptor) : Type 0 where
    pub is_entry : IsEntry entry entries
    pub is_named : entry.reference ≡ reference
    pub same_hash : entry.sha256 ≡ expected_sha256
    pub below_root : files.is_below_root (files.resolve entry.filename) ≡ true
    pub is_file : files.is_file (files.resolve entry.filename) ≡ true
    pub bytes_match : files.digest_at (files.resolve entry.filename) ≡ some expected_sha256

  pub verify-IsVerified :
      (files : InputFiles A) (entries : List Descriptor) (reference expected_sha256 : String)
      (entry : Descriptor)
      → verify files entries reference expected_sha256 ≡ ok entry
      → IsVerified files entries reference expected_sha256 entry
  unfolding verify descriptor
  verify-IsVerified files entries reference expected entry e =
      elim (Option-cases (find_descriptor reference entries)) [
        | inl unknown ↦ absurd (ground (arith, e, unknown))
        | inr (d, known) ↦ elim (Bool-cases (str_eq d.sha256 expected)) [
          | inr differ ↦ absurd (ground (arith, e, known, differ))
          | inl same ↦ elim (Result-cases (path_for files d)) [
            | inr (error, refused) ↦ absurd (ground (arith, e, known, same, refused))
            | inl (path, found) ↦
                from_entry d path known ((eq_iff d.sha256 expected).0 same) found (
                  check_bytes_lem files d entry (files.digest_at path)
                    (ground (arith, e, known, same, found)))
          ]
        ]
      ]
    where
      from_entry :
          (d : Descriptor) (path : files.FilePath)
          → find_descriptor reference entries ≡ some d
          → d.sha256 ≡ expected
          → path_for files d ≡ ok path
          → (entry ≡ d) × (files.digest_at path ≡ some d.sha256)
          → IsVerified files entries reference expected entry
      from_entry d path known same found (is_d, digest) =
          let (member, named) = find_descriptor_lem reference entries d known in
          let (at_path, below, there) = path_for_lem files d path found in
          subst (λ x. IsVerified files entries reference expected x) (sym is_d)
            (record {
              is_entry = member;
              is_named = named;
              same_hash = same;
              below_root = below;
              is_file = there;
              bytes_match = ap files.digest_at (sym at_path) ∙ digest ∙ ap some same;
            })

  -- What a returned input has shown.
  pub record IsLoaded (before after : InputFiles A) (entries : List Descriptor)
      (reference expected_sha256 : String) (payload : Fields A) : Type 0 where
    pub entry : Descriptor
    pub verified : IsVerified before entries reference expected_sha256 entry
    pub still_below_root : after.is_below_root (after.resolve entry.filename) ≡ true
    pub parsed : after.json_at (after.resolve entry.filename) ≡ parsed_json (dict payload)

  payload_at_lem :
      (value : Parsed A) (payload : Fields A)
      → payload_at value ≡ ok payload
      → value ≡ parsed_json (dict payload)
  unfolding payload_at
  payload_at_lem unreadable payload e = absurd (ground (arith, e))
  payload_at_lem undecodable payload e = absurd (ground (arith, e))
  payload_at_lem (parsed_json value) payload e = ground (arith, e)

  -- An input is returned by load only for an entry of the registry with the reference and with the
  -- expected hash, whose file is below the root and whose bytes have this hash where they are
  -- read first; it is the JSON object of the text of the same file name where it is read again.
  pub load-IsLoaded :
      (before after : InputFiles A) (entries : List Descriptor) (reference expected_sha256 : String)
      (payload : Fields A)
      → load before after entries reference expected_sha256 ≡ ok payload
      → IsLoaded before after entries reference expected_sha256 payload
  unfolding load payload_at
  load-IsLoaded before after entries reference expected payload e =
      elim (Result-cases (verify before entries reference expected)) [
        | inr (error, refused) ↦ absurd (ground (arith, e, refused))
        | inl (entry, verified) ↦
            let shown = verify-IsVerified before entries reference expected entry verified in
            elim (Result-cases (path_for after entry)) [
              | inr (error, refused) ↦ absurd (ground (arith, e, verified, refused))
              | inl (path, found) ↦
                  let (at_path, below, there) = path_for_lem after entry path found in
                  record {
                    entry = entry;
                    verified = shown;
                    still_below_root = below;
                    parsed =
                        ap after.json_at (sym at_path)
                        ∙ payload_at_lem (after.json_at path) payload
                            (ground (arith, e, verified, found));
                  }
            ]
      ]
