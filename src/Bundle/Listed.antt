-- ===== src/Bundle/Listed.antt =====
-- The loop over the manifest's files: each that passes has the hash that the manifest names.
use red_lab.Prelude.{
  String, Bool, true, false, not, ◌||◌, Option, none, some, ◌⊎◌, inl, inr, [], ◌∷◌, ◌==◌, eq_iff,
  ◌≡◌, refl, sym, ◌∙◌, arith, Bool-cases, some_injective, none_not_some, if◌then◌else◌,
}
use red_lab.Prelude.GoMap.{GoMap, get, put, get_or, get_or-put}
use red_lab.GoLib.Hex.{Bytes, encode}
use red_lab.Bundle.{
  BundleError, is_own, is_canonical, is_hash, invalid_file_name, invalid_hash, hash_mismatch,
  check_file, check_files, find_unsigned,
}
use red_lab.Bundle.Holds.{Holds, Holds-inl, Holds-inr, Holds-map}

-- Every file of the map is allowed.
pub find_unsigned-none :
    (allowed : GoMap Bool) (files : GoMap Bytes) (name : String) (content : Bytes)
    → find_unsigned allowed files ≡ none
    → get files name ≡ some content
    → get_or allowed name false ≡ true
unfolding find_unsigned get
find_unsigned-none allowed [] name content n h = elim (none_not_some h) [ ]
find_unsigned-none allowed ((k, c) ∷ files) name content n h =
    elim (Bool-cases (get_or allowed k false)) [
      | inr e ↦ elim (none_not_some (sym (rw e at n))) [ ]
      | inl e ↦ elim (Bool-cases (k == name)) [
        | inl f ↦ rw (← (eq_iff k name).0 f) e
        | inr f ↦ find_unsigned-none allowed files name content (rw e at n) (rw f at h)
      ]
    ]

module _ (sha256 : Bytes → Bytes) where
  if_none :
      (b : Bool) (error : BundleError) (x : Option BundleError)
      → (if b then some error else x) ≡ none
      → (b ≡ false) × (x ≡ none)
  if_none true error x h = elim (none_not_some (sym h)) [ ]
  if_none false error x h = (refl, h)

  -- A file that passes has the hash that the manifest names.
  pub check_file-hash :
      (files : GoMap Bytes) (name expected : String) (content : Bytes)
      → check_file sha256 files name expected ≡ none
      → get files name ≡ some content
      → encode (sha256 content) ≡ expected
  unfolding check_file
  check_file-hash files name expected content h g =
      let named =
        (if_none (not (is_canonical name) || is_own name) (invalid_file_name name) _ h).1 in
      let hashed = (if_none (not (is_hash expected)) (invalid_hash name) _ named).1 in
      let same =
        (if_none (not (encode (sha256 content) == expected)) (hash_mismatch name) none
          (rw g at hashed)).0 in
      (eq_iff (encode (sha256 content)) expected).0 (double_not _ same)
    where
      double_not : (b : Bool) → not b ≡ false → b ≡ true
      double_not b h = ground arith

  -- What the loop over the manifest's files leaves: all of them passed, and only they were added.
  pub record Checked (files : GoMap Bytes) (allowed : GoMap Bool) (listed : GoMap String)
      (final : GoMap Bool) : Type 0 where
    pub passed :
        (name expected : String)
        → get listed name ≡ some expected
        → check_file sha256 files name expected ≡ none
    pub added :
        (name : String)
        → get_or final name false ≡ true
        → (get_or allowed name false ≡ true)
          ⊎ ((expected : String) × (get listed name ≡ some expected))

  Checked-cons :
      (files : GoMap Bytes) (allowed : GoMap Bool) (k e : String) (listed : GoMap String)
      → check_file sha256 files k e ≡ none
      → (final : GoMap Bool) → Checked files (put allowed k true) listed final
      → Checked files allowed ((k, e) ∷ listed) final
  unfolding get
  Checked-cons files allowed k e listed first final rest = record {
    passed = λ name expected h. elim (Bool-cases (k == name)) [
      | inl f ↦ rw (← (eq_iff k name).0 f, ← some_injective (rw f at h)) first
      | inr f ↦ rest.passed name expected (rw f at h)
    ];
    added = λ name h. elim (Bool-cases (k == name)) [
      | inl f ↦ inr (e, rw f refl)
      | inr f ↦ elim (rest.added name h) [
        | inl was ↦ inl (sym (get_or-put allowed k name true false ∙ rw f refl) ∙ was)
        | inr (expected, g) ↦ inr (expected, rw f g)
      ]
    ];
  }

  pub check_files-Checked :
      (files : GoMap Bytes) (allowed : GoMap Bool) (listed : GoMap String)
      → Holds (Checked files allowed listed) (check_files sha256 files allowed listed)
  unfolding check_files get
  check_files-Checked files allowed [] =
      Holds-inr (Checked files allowed []) allowed
        (record { passed = λ name expected h. elim (none_not_some h) [ ]; added = λ name h. inl h })
  check_files-Checked files allowed ((k, e) ∷ listed) =
      step (check_file sha256 files k e) refl
        (check_files-Checked files (put allowed k true) listed)
    where
      step :
          (o : Option BundleError)
          → check_file sha256 files k e ≡ o
          → Holds
              (Checked files (put allowed k true) listed)
              (check_files sha256 files (put allowed k true) listed)
          → Holds (Checked files allowed ((k, e) ∷ listed)) (elim o [
            | some error ↦ inl error
            | none ↦ check_files sha256 files (put allowed k true) listed
          ])
      step (some error) f rest = Holds-inl (Checked files allowed ((k, e) ∷ listed)) error
      step none f rest =
          Holds-map (Checked files (put allowed k true) listed)
            (Checked files allowed ((k, e) ∷ listed)) _ (Checked-cons files allowed k e listed f)
            rest
