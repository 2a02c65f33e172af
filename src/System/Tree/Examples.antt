-- ===== src/System/Tree/Examples.antt =====
-- Files that are moved and users that are added on a small machine.
use red_lab.Prelude.{true, false, ◌≡◌, refl, none, some}
use red_lab.Prelude.GoMap.{get, put, remove_where}
use red_lab.GoLib.Strings.{join, has_prefix, trim_prefix}
use red_lab.GoLib.Path.{
  absolute, clean, render, is_rooted, clean_stack, split, push, base, dir, dir_part, join_path,
  trim_slashes,
}
use red_lab.System.{ok}
use red_lab.System.Paths.{normalize_path, check_root}
use red_lab.System.Permissions.{can_read, can_write, permission, user_permission, member}
use red_lab.System.Files.{subtree_prefix, with_path, ensure_from, ensure_parents}
use red_lab.System.Tree.{copy_recursive, copy_target, copy_found, copy_to, copy_files}
use red_lab.System.Tree.Moves.{copy_recursive_lost}
use red_lab.Samples.{host, owned_file}

note_path : normalize_path "/note" "/" ≡ ok "/note"
unfolding normalize_path check_root has_prefix clean render is_rooted absolute join clean_stack
    split push
note_path = refl

below_path : normalize_path "/note/x" "/" ≡ ok "/note/x"
unfolding normalize_path check_root has_prefix clean render is_rooted absolute join clean_stack
    split push
below_path = refl

found_note : get host.files "/note" ≡ some (owned_file "/note" "trainee" "mine")
unfolding get
found_note = refl

moved_below : (copy_recursive host "/note" "/note/x" "root" true false).1 ≡ none
unfolding copy_recursive with_path normalize_path check_root has_prefix clean render is_rooted
    absolute join clean_stack split push get copy_found can_read permission user_permission base dir
    dir_part join_path trim_slashes trim_prefix put remove_where ensure_from ensure_parents
    can_write member copy_to copy_files
moved_below = refl

inside : has_prefix (copy_target host "/note" "/note/x") (subtree_prefix "/note") ≡ true
unfolding has_prefix get subtree_prefix
inside = refl

copy_recursive_lost_example :
    let files = (copy_recursive host "/note" "/note/x" "root" true false).0.files in
    (get files "/note" ≡ none) × (get files (copy_target host "/note" "/note/x") ≡ none)
copy_recursive_lost_example =
    copy_recursive_lost host "/note" "/note/x" "root" false "/note" "/note/x"
      (owned_file "/note" "trainee" "mine") note_path below_path found_note refl inside moved_below
