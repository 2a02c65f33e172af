-- ===== src/Bundle/Examples.antt =====
-- The theorem on bundles at a small one, with a small signature scheme, digest and JSON.
use red_lab.Prelude.{ℕ, String, true, false, Option, some, inr, List, [], ◌∷◌, ◌≡◌, refl, length}
use red_lab.Prelude.Int.{pos}
use red_lab.GoLib.Hex.{Bytes}
use red_lab.Evidence.Manifest.{Manifest, Signature, Ed25519, verify_manifest, verify_decoded}
use red_lab.GoLib.Hex.{decode, digit, encode, value}
use red_lab.GoLib.Strings.{byte_size, contains, has_prefix, join}
use red_lab.GoLib.Path.{clean, render, is_rooted, clean_stack, split, push, absolute}
use red_lab.Prelude.GoMap.{get, put}
use red_lab.Bundle.{
  Entry, verify_reader, read_entries, read_entry, safe_name, keep_content, verify_files, check_file,
  check_files, find_unsigned, verify_signed,
}
use red_lab.Bundle.Genuine.{IsGenuine, verify_reader-IsGenuine}

abbrev thirty_two : Bytes
thirty_two =
    0 ∷ 0 ∷ 0 ∷ 0 ∷ 0 ∷ 0 ∷ 0 ∷ 0 ∷ 0 ∷ 0 ∷ 0 ∷ 0 ∷ 0 ∷ 0 ∷ 0 ∷ 0 ∷ 0 ∷ 0 ∷ 0 ∷ 0 ∷ 0 ∷ 0 ∷ 0 ∷ 0
    ∷ 0 ∷ 0 ∷ 0 ∷ 0 ∷ 0 ∷ 0 ∷ 0 ∷ 0 ∷ []

abbrev zero_digest : Bytes → Bytes
zero_digest content = thirty_two

-- Every signature of the right size is valid.
abbrev lenient : Ed25519
lenient = record {
  PrivateKey = ℕ;
  public = λ k. thirty_two;
  sign = λ k message. thirty_two;
  valid = λ key message signature. true;
  marshal = λ m. some (1 ∷ []);
}

abbrev one_file : Manifest
one_file = record {
  event_id = "event";
  scenario_id = "broken-httpd";
  team_id = "red";
  session_id = "session-1";
  scenario_digest = "";
  files = ("a", "0000000000000000000000000000000000000000000000000000000000000000") ∷ [];
  chain_head = "";
}

abbrev any_signature : Signature
any_signature = record {
  public_key = "0000000000000000000000000000000000000000000000000000000000000000";
  signature =
      "00000000000000000000000000000000000000000000000000000000000000000000000000000000000000000000000000000000000000000000000000000000";
}

abbrev entry_of : String → Bytes → Entry
entry_of name content = record {
  name = name;
  is_directory = false;
  is_symlink = false;
  declared_size = length content;
  content = some content;
}

abbrev archive : List Entry
archive =
    entry_of "a" (7 ∷ [])
    ∷ entry_of "manifest.json" (1 ∷ [])
    ∷ entry_of "manifest.sig" (2 ∷ [])
    ∷ []

abbrev read_manifest : Bytes → Option Manifest
read_manifest content = some one_file

abbrev read_signature : Bytes → Option Signature
read_signature content = some any_signature

accepted :
    verify_reader zero_digest lenient read_manifest read_signature (pos 100) (some archive)
    ≡ inr one_file
unfolding verify_reader read_entries read_entry safe_name byte_size contains has_prefix clean render
    is_rooted clean_stack split push join get keep_content put verify_files check_file check_files
    find_unsigned verify_signed verify_decoded verify_manifest decode digit encode value absolute
accepted = refl

verify_reader-IsGenuine_example : IsGenuine zero_digest lenient archive one_file
verify_reader-IsGenuine_example =
    verify_reader-IsGenuine zero_digest lenient read_manifest read_signature (pos 100) archive
      one_file accepted
