-- ===== src/Bundle.antt =====
-- internal/bundle/bundle.go: VerifyReader. The archive's entries are a list, what is read of them
-- an argument; SHA-256, JSON and Ed25519 are parameters.
pub mod Holds
pub mod Read
pub mod Listed
pub mod Genuine
mod Examples
use red_lab.Prelude.{
  ℕ, suc, ◌+◌, ltb, leb, eqb, String, Bool, true, false, not, ◌&&◌, ◌||◌, Option, none, some, ◌⊎◌,
  inl, inr, List, [], ◌∷◌, ◌==◌, length, if◌then◌else◌,
}
use red_lab.Prelude.GoMap.{GoMap, get, put, get_or}
use red_lab.Prelude.Int.{ℤ, pos, ltb_ℤ}
use red_lab.GoLib.Hex.{Bytes, encode, decode}
use red_lab.GoLib.Path.{clean}
use red_lab.GoLib.Strings.{byte_size, contains, has_prefix}
use red_lab.Evidence.Manifest.{Manifest, Signature, Ed25519, ManifestError, verify_manifest}

-- An entry of the archive: `zip.File`, with what reading it gives, if it can be read.
pub record Entry : Type 0 where
  pub name : String
  pub is_directory : Bool
  pub is_symlink : Bool
  pub declared_size : ℕ
  pub content : Option Bytes

pub data BundleError : Type 0 where
  file_limit bad_archive too_many_entries directory_entry unsafe_name duplicate_entry : BundleError
  symlink_entry entry_limit unreadable total_limit bad_manifest bad_signature : BundleError
  not_signed : ManifestError → BundleError
  invalid_file_name invalid_hash missing_file hash_mismatch unsigned_entry : String → BundleError

-- maxBundleEntryBytes, maxBundleTotalBytes, maxBundleFileBytes and maxBundleEntries.
abbrev pub max_entry : ℕ
max_entry = 67108864

abbrev pub max_total : ℕ
max_total = 268435456

abbrev pub max_file : ℕ
max_file = 536870912

abbrev pub max_entries : ℕ
max_entries = 64

-- safeName
unfoldable pub safe_name : String → Option String
safe_name name =
    let cleaned = clean name in
    if name == ""
      || ltb 4096 (byte_size name)
      || contains name "\0"
      || contains name "\\"
      || contains name ":"
    then none
    else if not (cleaned == name)
        || cleaned == "."
        || cleaned == ".."
        || has_prefix cleaned "../"
        || has_prefix cleaned "/"
    then none
    else some cleaned

-- The variables of the loop over the entries.
pub record Progress : Type 0 where
  pub files : GoMap Bytes
  pub seen : GoMap Bool
  pub total : ℕ

abbrev pub start : Progress
start = record { files = []; seen = []; total = 0 }

-- The body of the loop behind ReadAll.
unfoldable pub keep_content : Progress → String → Bytes → BundleError ⊎ Progress
keep_content p name content =
    if ltb max_entry (length content)
    then inl entry_limit
    else if ltb max_total (p.total + length content)
    then inl total_limit
    else inr (record {
      files = put p.files name content;
      seen = put p.seen name true;
      total = p.total + length content;
    })

-- The body of the loop.
unfoldable pub read_entry : ℕ → Progress → Entry → BundleError ⊎ Progress
read_entry index p e =
    if leb max_entries index
    then inl too_many_entries
    else if e.is_directory
    then inl directory_entry
    else elim (safe_name e.name) [
      | none ↦ inl unsafe_name
      | some name ↦
          if get_or p.seen name false
          then inl duplicate_entry
          else if e.is_symlink
          then inl symlink_entry
          else if ltb max_entry e.declared_size
          then inl entry_limit
          else elim e.content [ none ↦ inl unreadable | some content ↦ keep_content p name content ]
    ]

unfoldable pub read_entries : ℕ → Progress → List Entry → BundleError ⊎ Progress
read_entries index p [] = inr p
read_entries index p (e ∷ entries) = elim (read_entry index p e) [
  | inl error ↦ inl error
  | inr q ↦ read_entries (suc index) q entries
]

abbrev pub is_own : String → Bool
is_own name = name == "manifest.json" || name == "manifest.sig"

abbrev pub is_canonical : String → Bool
is_canonical name = elim (safe_name name) [ none ↦ false | some canonical ↦ canonical == name ]

abbrev pub is_hash : String → Bool
is_hash expected =
    eqb (byte_size expected) 64 && elim (decode expected) [ none ↦ false | some bytes ↦ true ]

module _ (sha256 : Bytes → Bytes) where
  -- The body of the loop over the manifest's files: an error, or none.
  unfoldable pub check_file : GoMap Bytes → String → String → Option BundleError
  check_file files name expected =
      if not (is_canonical name) || is_own name
      then some (invalid_file_name name)
      else if not (is_hash expected)
      then some (invalid_hash name)
      else elim (get files name) [
        | none ↦ some (missing_file name)
        | some content ↦
            if not (encode (sha256 content) == expected) then some (hash_mismatch name) else none
      ]

  -- The loop, with the map `allowed` that it fills.
  unfoldable pub check_files : GoMap Bytes → GoMap Bool → GoMap String → BundleError ⊎ GoMap Bool
  check_files files allowed [] = inr allowed
  check_files files allowed ((name, expected) ∷ rest) = elim (check_file files name expected) [
    | some error ↦ inl error
    | none ↦ check_files files (put allowed name true) rest
  ]

-- The loop over the files: an entry that is not allowed, if there is one.
unfoldable pub find_unsigned : GoMap Bool → GoMap Bytes → Option BundleError
find_unsigned allowed [] = none
find_unsigned allowed ((name, content) ∷ files) =
    let rest = find_unsigned allowed files in
    if get_or allowed name false then rest else some (unsigned_entry name)

abbrev pub own_files : GoMap Bool
own_files = ("manifest.json", true) ∷ ("manifest.sig", true) ∷ []

module _ (sha256 : Bytes → Bytes) (ed25519 : Ed25519) (parse_manifest : Bytes → Option Manifest)
    (parse_signature : Bytes → Option Signature) where
  -- From the signature's test on.
  unfoldable pub verify_signed : GoMap Bytes → Manifest → Signature → BundleError ⊎ Manifest
  verify_signed files manifest signature = elim (verify_manifest ed25519 manifest signature) [
    | some error ↦ inl (not_signed error)
    | none ↦ elim (check_files sha256 files own_files manifest.files) [
      | inl error ↦ inl error
      | inr allowed ↦ elim (find_unsigned allowed files) [
        | some error ↦ inl error
        | none ↦ inr manifest
      ]
    ]
  ]

  -- From the manifest's JSON on.
  unfoldable pub verify_files : GoMap Bytes → BundleError ⊎ Manifest
  verify_files files = elim (parse_manifest (get_or files "manifest.json" [])) [
    | none ↦ inl bad_manifest
    | some manifest ↦ elim (parse_signature (get_or files "manifest.sig" [])) [
      | none ↦ inl bad_signature
      | some signature ↦ verify_signed files manifest signature
    ]
  ]

  -- VerifyReader, on the entries that the archive has, if it is one.
  unfoldable pub verify_reader : ℤ → Option (List Entry) → BundleError ⊎ Manifest
  verify_reader size archive =
      if ltb_ℤ size (pos 0) || ltb_ℤ (pos max_file) size then inl file_limit else elim archive [
        | none ↦ inl bad_archive
        | some entries ↦ elim (read_entries 0 start entries) [
          | inl error ↦ inl error
          | inr p ↦ verify_files p.files
        ]
      ]
