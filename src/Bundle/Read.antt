-- ===== src/Bundle/Read.antt =====
-- The loop over the entries: every entry that it reads has its content in the files.
use red_lab.Prelude.{
  ℕ, suc, ◌+◌, ltb, leb, String, Bool, true, false, Option, none, some, ◌⊎◌, inl, inr, List, [],
  ◌∷◌, ◌==◌, eq_iff, length, All, ◌≡◌, refl, sym, ap, ◌∙◌, arith, none_not_some, if◌then◌else◌,
}
use red_lab.Prelude.GoMap.{GoMap, get, put, get_or, get-put, get-put_self, get_or-put}
use red_lab.GoLib.Path.{clean}
use red_lab.GoLib.Hex.{Bytes}
use red_lab.Bundle.{
  Entry, BundleError, Progress, start, safe_name, keep_content, read_entry, read_entries, max_total,
  max_entries, max_entry, entry_limit, total_limit, too_many_entries, directory_entry, unsafe_name,
  duplicate_entry, symlink_entry, unreadable,
}
use red_lab.Bundle.Holds.{Holds, Holds-inl, Holds-inr, Holds-if, Holds-map, holds_inr}

-- An entry was read: its name was new, and its content is in the files.
record Kept (p : Progress) (name : String) (given : Option Bytes) (q : Progress) : Type 0 where
  content : Bytes
  read : given ≡ some content
  new : get_or p.seen name false ≡ false
  files : q.files ≡ put p.files name content
  seen : q.seen ≡ put p.seen name true

safe_name-same : (name canonical : String) → safe_name name ≡ some canonical → canonical ≡ name
unfolding safe_name
safe_name-same name canonical h = ground (arith, eq_iff (clean name) name)

keep_content-Kept :
    (p : Progress) (name : String) (content : Bytes)
    → get_or p.seen name false ≡ false
    → Holds (Kept p name (some content)) (keep_content p name content)
unfolding keep_content
keep_content-Kept p name content new =
    Holds-if (Kept p name (some content)) (ltb max_entry (length content)) entry_limit _ (λ short.
      Holds-if (Kept p name (some content)) (ltb max_total (p.total + length content)) total_limit _
        (λ room.
          Holds-inr (Kept p name (some content)) _
            (record { content = content; read = refl; new = new; files = refl; seen = refl })))

read-Kept :
    (p : Progress) (name : String) (given : Option Bytes)
    → get_or p.seen name false ≡ false
    → Holds
        (Kept p name given)
        (elim given [ none ↦ inl unreadable | some content ↦ keep_content p name content ])
read-Kept p name none new = Holds-inl (Kept p name none) unreadable
read-Kept p name (some content) new = keep_content-Kept p name content new

-- An entry was read under its canonical name.
abbrev KeptAs : Progress → Entry → Progress → Type 0
KeptAs p e q = (name : String) × (safe_name e.name ≡ some name) × Kept p name e.content q

read_entry-KeptAs :
    (index : ℕ) (p : Progress) (e : Entry) → Holds (KeptAs p e) (read_entry index p e)
unfolding read_entry
read_entry-KeptAs index p e =
    Holds-if (KeptAs p e) (leb max_entries index) too_many_entries _ (λ few.
      Holds-if (KeptAs p e) e.is_directory directory_entry _
        (λ file. named (safe_name e.name) refl))
  where
    kept_as :
        (name : String) (o : BundleError ⊎ Progress)
        → safe_name e.name ≡ some name
        → Holds (Kept p name e.content) o
        → Holds (KeptAs p e) o
    kept_as name (inl error) f h = Holds-inl (KeptAs p e) error
    kept_as name (inr q) f h = unfold Holds in (name, f, h)

    named :
        (o : Option String)
        → safe_name e.name ≡ o
        → Holds (KeptAs p e) (elim o [
          | none ↦ inl unsafe_name
          | some name ↦
              if get_or p.seen name false
              then inl duplicate_entry
              else if e.is_symlink
              then inl symlink_entry
              else if ltb max_entry e.declared_size
              then inl entry_limit
              else elim e.content [
                | none ↦ inl unreadable
                | some content ↦ keep_content p name content
              ]
        ])
    named none f = Holds-inl (KeptAs p e) unsafe_name
    named (some name) f = Holds-if (KeptAs p e) (get_or p.seen name false) duplicate_entry _ (λ new.
        Holds-if (KeptAs p e) e.is_symlink symlink_entry _ (λ link.
          Holds-if (KeptAs p e) (ltb max_entry e.declared_size) entry_limit _
            (λ short. kept_as name _ f (read-Kept p name e.content new))))

-- The names of the files were seen.
unfoldable pub IsSeen : Progress → Type 0
IsSeen p =
    (name : String) (content : Bytes)
    → get p.files name ≡ some content
    → get_or p.seen name false ≡ true

pub start-IsSeen : IsSeen start
unfolding IsSeen get
start-IsSeen name content h = elim (none_not_some h) [ ]

Kept-IsSeen :
    (p q : Progress) (name : String) (given : Option Bytes)
    → Kept p name given q
    → IsSeen p
    → IsSeen q
unfolding IsSeen
Kept-IsSeen p q name given kept is k content h =
    ap (λ m. get_or m k false) kept.seen
    ∙ get_or-put p.seen name k true false
    ∙ either (name == k) refl
  where
    either : (b : Bool) → (name == k) ≡ b → (if b then true else get_or p.seen k false) ≡ true
    either true e = refl
    either false e = is k content (
        sym (ap (λ b. if b then some kept.content else get p.files k) e)
        ∙ sym (get-put p.files name k kept.content)
        ∙ ap (λ m. get m k) (sym kept.files)
        ∙ h)

-- The files that were there stay.
Kept-get :
    (p q : Progress) (name : String) (given : Option Bytes) (k : String) (content : Bytes)
    → Kept p name given q
    → IsSeen p
    → get p.files k ≡ some content
    → get q.files k ≡ some content
unfolding IsSeen
Kept-get p q name given k content kept is h =
    ap (λ m. get m k) kept.files ∙ get-put p.files name k kept.content ∙ either (name == k) refl
  where
    never : false ≡ true → ⊥
    never e = cc

    either :
        (b : Bool)
        → (name == k) ≡ b
        → (if b then some kept.content else get p.files k) ≡ some content
    either true e =
        elim (never (
          sym kept.new
          ∙ ap (λ n. get_or p.seen n false) ((eq_iff name k).0 e)
          ∙ is k content h)) [ ]
    either false e = h

-- What is known of the entries that were read: each has its content in the files.
abbrev pub IsIn : GoMap Bytes → Entry → Type 0
IsIn files e = (content : Bytes) × (e.content ≡ some content) × (get files e.name ≡ some content)

pub record ReadAll (p : Progress) (entries : List Entry) (q : Progress) : Type 0 where
  pub stays :
      (k : String) (content : Bytes) → get p.files k ≡ some content → get q.files k ≡ some content
  pub every : All (IsIn q.files) entries

Kept-IsIn :
    (p q : Progress) (e : Entry) (name : String)
    → safe_name e.name ≡ some name
    → (kept : Kept p name e.content q) → get q.files e.name ≡ some kept.content
Kept-IsIn p q e name same kept =
    ap (λ n. get q.files n) (sym (safe_name-same e.name name same))
    ∙ ap (λ m. get m name) kept.files
    ∙ get-put_self p.files name kept.content

ReadAll-cons :
    (p q : Progress) (e : Entry) (entries : List Entry) (name : String)
    → safe_name e.name ≡ some name
    → Kept p name e.content q
    → IsSeen p
    → (r : Progress) → ReadAll q entries r
    → ReadAll p (e ∷ entries) r
ReadAll-cons p q e entries name same kept is r rest = record {
  stays = λ k content h. rest.stays k content (Kept-get p q name e.content k content kept is h);
  every = (
    (kept.content, kept.read, rest.stays e.name kept.content (Kept-IsIn p q e name same kept)),
    rest.every,
  );
}

pub read_entries-ReadAll :
    (index : ℕ) (p : Progress) (entries : List Entry)
    → IsSeen p
    → Holds (ReadAll p entries) (read_entries index p entries)
unfolding read_entries
read_entries-ReadAll index p [] is =
    Holds-inr (ReadAll p []) p (record { stays = λ k content h. h; every = tt })
read_entries-ReadAll index p (e ∷ entries) is =
    step (read_entry index p e) (read_entry-KeptAs index p e)
      (λ q seen. read_entries-ReadAll (suc index) q entries seen)
  where
    step :
        (o : BundleError ⊎ Progress)
        → Holds (KeptAs p e) o
        → ((q : Progress)
            → IsSeen q
            → Holds (ReadAll q entries) (read_entries (suc index) q entries))
        → Holds
            (ReadAll p (e ∷ entries))
            (elim o [ inl error ↦ inl error | inr q ↦ read_entries (suc index) q entries ])
    step (inl error) kept later = Holds-inl (ReadAll p (e ∷ entries)) error
    step (inr q) kept later =
        let (name, same, k) = holds_inr (KeptAs p e) (inr q) q refl kept in
        Holds-map (ReadAll q entries) (ReadAll p (e ∷ entries)) _
          (ReadAll-cons p q e entries name same k is)
          (later q (Kept-IsSeen p q name e.content k is))
