-- ===== src/Bundle/Genuine.antt =====
-- What an accepted bundle is: its manifest is signed, and the manifest vouches for every entry.
use red_lab.Prelude.{
  String, Bool, true, false, ◌||◌, Option, none, some, ◌⊎◌, inl, inr, List, [], ◌∷◌, eq_iff, All,
  ◌≡◌, refl, sym, ap, ◌∙◌, arith, Option-cases,
}
use red_lab.Prelude.GoMap.{GoMap, get, get_or}
use red_lab.Prelude.Int.{ℤ, pos, ltb_ℤ}
use red_lab.GoLib.Hex.{Bytes, encode}
use red_lab.Evidence.Manifest.{Manifest, Signature, Ed25519, ManifestError, verify_manifest}
use red_lab.Bundle.{
  Entry, BundleError, Progress, start, read_entries, is_own, check_files, find_unsigned, own_files,
  verify_signed, verify_files, verify_reader, not_signed, bad_manifest, bad_signature, file_limit,
  max_file,
}
use red_lab.Bundle.Holds.{Holds, Holds-inl, Holds-inr, Holds-if, holds_inr}
use red_lab.Bundle.Read.{start-IsSeen, IsIn, ReadAll, read_entries-ReadAll}
use red_lab.Bundle.Listed.{Checked, find_unsigned-none, check_file-hash, check_files-Checked}

-- The entry is the manifest or its signature, or the manifest names its hash.
abbrev pub IsVouched : (Bytes → Bytes) → Manifest → Entry → Type 0
IsVouched sha256 manifest e =
    (is_own e.name ≡ true)
    ⊎ ((content : Bytes) × (e.content ≡ some content)
        × (get manifest.files e.name ≡ some (encode (sha256 content))))

pub record IsGenuine (sha256 : Bytes → Bytes) (ed25519 : Ed25519) (entries : List Entry)
    (manifest : Manifest) : Type 0 where
  pub signature : Signature
  pub signed : verify_manifest ed25519 manifest signature ≡ none
  pub vouched : All (IsVouched sha256 manifest) entries

own_file : (name : String) → get_or own_files name false ≡ true → is_own name ≡ true
unfolding get
own_file name h = ground (
  arith,
  eq_iff name "manifest.json",
  eq_iff "manifest.json" name,
  eq_iff name "manifest.sig",
  eq_iff "manifest.sig" name,
)

module _ (sha256 : Bytes → Bytes) where
  entry-IsVouched :
      (files : GoMap Bytes) (manifest : Manifest) (allowed : GoMap Bool)
      → Checked sha256 files own_files manifest.files allowed
      → find_unsigned allowed files ≡ none
      → (e : Entry) → IsIn files e
      → IsVouched sha256 manifest e
  entry-IsVouched files manifest allowed checked signed e (content, read, is) =
      elim (checked.added e.name (find_unsigned-none allowed files e.name content signed is)) [
        | inl own ↦ inl (own_file e.name own)
        | inr (expected, named) ↦ inr (
          content,
          read,
          named
              ∙ ap {B = Option String} (λ h. some h)
                  (sym (
                    check_file-hash sha256 files e.name expected content
                      (checked.passed e.name expected named) is)),
        )
      ]

  entries-IsVouched :
      (files : GoMap Bytes) (manifest : Manifest) (entries : List Entry)
      → ((e : Entry) → IsIn files e → IsVouched sha256 manifest e)
      → All (IsIn files) entries
      → All (IsVouched sha256 manifest) entries
  entries-IsVouched files manifest [] one every = tt
  entries-IsVouched files manifest (e ∷ entries) one (first, every) =
      (one e first, entries-IsVouched files manifest entries one every)

module _ (sha256 : Bytes → Bytes) (ed25519 : Ed25519) (parse_manifest : Bytes → Option Manifest)
    (parse_signature : Bytes → Option Signature) where
  verify_signed-IsGenuine :
      (files : GoMap Bytes) (manifest : Manifest) (s : Signature) (entries : List Entry)
      → All (IsIn files) entries
      → Holds
          (IsGenuine sha256 ed25519 entries)
          (verify_signed sha256 ed25519 parse_manifest parse_signature files manifest s)
  unfolding verify_signed
  verify_signed-IsGenuine files manifest s entries every =
      signature_tested (verify_manifest ed25519 manifest s) refl
    where
      all_tested :
          (allowed : GoMap Bool) (o : Option BundleError)
          → verify_manifest ed25519 manifest s ≡ none
          → Checked sha256 files own_files manifest.files allowed
          → find_unsigned allowed files ≡ o
          → Holds
              (IsGenuine sha256 ed25519 entries)
              (elim o [ none ↦ inr manifest | some error ↦ inl error ])
      all_tested allowed (some error) good checked e =
          Holds-inl (IsGenuine sha256 ed25519 entries) error
      all_tested allowed none good checked e =
          Holds-inr (IsGenuine sha256 ed25519 entries) manifest (record {
            signature = s;
            signed = good;
            vouched =
                entries-IsVouched sha256 files manifest entries
                  (entry-IsVouched sha256 files manifest allowed checked e) every;
          })

      files_tested :
          (o : BundleError ⊎ GoMap Bool)
          → verify_manifest ed25519 manifest s ≡ none
          → Holds (Checked sha256 files own_files manifest.files) o
          → Holds (IsGenuine sha256 ed25519 entries) (elim o [
            | inl error ↦ inl error
            | inr allowed ↦ elim (find_unsigned allowed files) [
              | none ↦ inr manifest
              | some error ↦ inl error
            ]
          ])
      files_tested (inl error) good checked = Holds-inl (IsGenuine sha256 ed25519 entries) error
      files_tested (inr allowed) good checked =
          all_tested allowed (find_unsigned allowed files) good
            (holds_inr (Checked sha256 files own_files manifest.files) (inr allowed) allowed refl
              checked)
            refl

      signature_tested :
          (o : Option ManifestError)
          → verify_manifest ed25519 manifest s ≡ o
          → Holds (IsGenuine sha256 ed25519 entries) (elim o [
            | some error ↦ inl (not_signed error)
            | none ↦ elim (check_files sha256 files own_files manifest.files) [
              | inl error ↦ inl error
              | inr allowed ↦ elim (find_unsigned allowed files) [
                | none ↦ inr manifest
                | some error ↦ inl error
              ]
            ]
          ])
      signature_tested (some error) e =
          Holds-inl (IsGenuine sha256 ed25519 entries) (not_signed error)
      signature_tested none e =
          files_tested (check_files sha256 files own_files manifest.files) e
            (check_files-Checked sha256 files own_files manifest.files)

  verify_files-IsGenuine :
      (files : GoMap Bytes) (entries : List Entry)
      → All (IsIn files) entries
      → Holds
          (IsGenuine sha256 ed25519 entries)
          (verify_files sha256 ed25519 parse_manifest parse_signature files)
  unfolding verify_files
  verify_files-IsGenuine files entries every =
      elim (Option-cases (parse_manifest (get_or files "manifest.json" []))) [
        | inl e ↦ rw (e, verify_files) (Holds-inl (IsGenuine sha256 ed25519 entries) bad_manifest)
        | inr (manifest, e) ↦
            rw (e, verify_files)
              (elim (Option-cases (parse_signature (get_or files "manifest.sig" []))) [
                | inl f ↦ rw f (Holds-inl (IsGenuine sha256 ed25519 entries) bad_signature)
                | inr (s, f) ↦ rw f (verify_signed-IsGenuine files manifest s entries every)
              ])
      ]

  verify_reader-Holds :
      (size : ℤ) (entries : List Entry)
      → Holds
          (IsGenuine sha256 ed25519 entries)
          (verify_reader sha256 ed25519 parse_manifest parse_signature size (some entries))
  unfolding verify_reader
  verify_reader-Holds size entries =
      Holds-if (IsGenuine sha256 ed25519 entries) (ltb_ℤ size (pos 0) || ltb_ℤ (pos max_file) size)
        file_limit _
        (λ small.
          read (read_entries 0 start entries) (read_entries-ReadAll 0 start entries start-IsSeen))
    where
      read :
          (o : BundleError ⊎ Progress)
          → Holds (ReadAll start entries) o
          → Holds (IsGenuine sha256 ed25519 entries) (elim o [
            | inl error ↦ inl error
            | inr p ↦ verify_files sha256 ed25519 parse_manifest parse_signature p.files
          ])
      read (inl error) h = Holds-inl (IsGenuine sha256 ed25519 entries) error
      read (inr p) h =
          verify_files-IsGenuine p.files entries
            (holds_inr (ReadAll start entries) (inr p) p refl h).every

  -- In a bundle that is accepted, whatever JSON the manifest and its signature are read from, the
  -- manifest that is returned carries a valid signature, and each entry of the archive is the manifest,
  -- its signature, or content whose hash the manifest names.
  pub verify_reader-IsGenuine :
      (size : ℤ) (entries : List Entry) (manifest : Manifest)
      → verify_reader sha256 ed25519 parse_manifest parse_signature size (some entries)
        ≡ inr manifest
      → IsGenuine sha256 ed25519 entries manifest
  verify_reader-IsGenuine size entries manifest h =
      holds_inr (IsGenuine sha256 ed25519 entries) _ manifest h (verify_reader-Holds size entries)
