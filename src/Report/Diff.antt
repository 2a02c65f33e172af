-- ===== src/Report/Diff.antt =====
-- internal/report/diff.go: what is different between two machines, as lists and as a text. Slices
-- that both machines take from one document are compared by their elements.
pub mod Names
pub mod Alike
pub mod Agrees
use Prim.Native.String.{◌++◌ as ◌+++◌}
use native.Mathlib.Decide.{ℕ_discrete}
use red_lab.Prelude.{
  ℕ, String, Bool, true, false, not, ◌&&◌, Option, none, some, List, [], ◌∷◌, ◌++◌, ◌==◌,
  if◌then◌else◌,
}
use red_lab.Prelude.GoMap.{GoMap, get, put, keys}
use red_lab.Prelude.Int.{ℤ, eqb_ℤ, ℤ-discrete}
use red_lab.GoLib.Sort.{sort}
use red_lab.GoLib.Strings.{byte_size, join}
use red_lab.Evidence.{String-discrete}
use red_lab.System.{File, User, Service, FirewallZone, Package, Machine}

pub record FileSummary : Type 0 where
  pub path : String
  pub owner : String
  pub group : String
  pub mode : ℕ
  pub selinux_type : String
  pub directory : Bool
  pub size : ℕ

pub record FileChange : Type 0 where
  pub path : String
  pub change : String
  pub before : Option FileSummary
  pub after : Option FileSummary
  pub content_changed : Bool

pub record ServiceSummary : Type 0 where
  pub name : String
  pub enabled : Bool
  pub state : String

pub record ServiceChange : Type 0 where
  pub name : String
  pub change : String
  pub before : Option ServiceSummary
  pub after : Option ServiceSummary

pub record UserSummary : Type 0 where
  pub name : String
  pub uid : ℤ
  pub gid : ℤ
  pub groups : List String
  pub shell : String

pub record UserChange : Type 0 where
  pub name : String
  pub change : String
  pub before : Option UserSummary
  pub after : Option UserSummary

-- The slices of a zone; those made from its maps are nil, `none`, only for a zone that is missing.
pub record ZoneValues : Type 0 where
  pub interfaces : List String
  pub services : Option (List String)
  pub ports : Option (List String)

pub record FirewallChange : Type 0 where
  pub zone : String
  pub before : ZoneValues
  pub after : ZoneValues

pub record PackageChange : Type 0 where
  pub name : String
  pub change : String
  pub before : String
  pub after : String

pub record StateDiff : Type 0 where
  pub files : List FileChange
  pub services : List ServiceChange
  pub users : List UserChange
  pub firewall : List FirewallChange
  pub packages : List PackageChange

-- reflect.DeepEqual
abbrev pub deep_equal {ℓ} : {A : Type ℓ} → Discrete A → A → A → Bool
deep_equal decide a b = elim (decide a b) [ yes e ↦ true | no d ↦ false ]

pub File-discrete : Discrete File
File-discrete = hlevel (ℕ_discrete, String-discrete)

pub Service-discrete : Discrete Service
Service-discrete = hlevel String-discrete

pub Names-discrete : Discrete (List String)
Names-discrete = hlevel String-discrete

pub ZoneValues-discrete : Discrete ZoneValues
ZoneValues-discrete = hlevel String-discrete

unfoldable pub change_type : Bool → Bool → String
change_type before after =
    if not before then "added" else if not after then "removed" else "modified"

abbrev pub is_some {ℓ} : {A : Type ℓ} → Option A → Bool
is_some none = false
is_some (some a) = true

abbrev pub summarize_file : File → FileSummary
summarize_file file = record {
  path = file.path;
  owner = file.owner;
  group = file.group;
  mode = file.mode;
  selinux_type = file.selinux_type;
  directory = file.directory;
  size = byte_size file.content;
}

abbrev pub summarize_user : User → UserSummary
summarize_user user = record {
  name = user.name;
  uid = user.uid;
  gid = user.gid;
  groups = sort user.groups;
  shell = user.shell;
}

abbrev pub summarize_service : Service → ServiceSummary
summarize_service service = record {
  name = service.name;
  enabled = service.enabled;
  state = service.state;
}

unfoldable pub same_strings : List String → List String → Bool
same_strings a b = deep_equal Names-discrete (sort a) (sort b)

unfoldable pub user_equal : User → User → Bool
user_equal a b =
    a.name == b.name
    && eqb_ℤ a.uid b.uid
    && eqb_ℤ a.gid b.gid
    && a.shell == b.shell
    && same_strings a.groups b.groups

unfoldable pub enabled_keys : GoMap Bool → List String
enabled_keys [] = []
enabled_keys ((key, enabled) ∷ values) =
    let rest = enabled_keys values in if enabled then key ∷ rest else rest

-- mapKeys
unfoldable pub map_keys : GoMap Bool → List String
map_keys values = sort (enabled_keys values)

unfoldable pub zone_values : Option FirewallZone → ZoneValues
zone_values none = record { interfaces = []; services = none; ports = none }
zone_values (some zone) = record {
  interfaces = sort zone.interfaces;
  services = some (map_keys zone.services);
  ports = some (map_keys zone.ports);
}

-- The map `seen` of sortedUnion.
unfoldable pub seen_names : GoMap Bool → List String → GoMap Bool
seen_names seen [] = seen
seen_names seen (value ∷ values) = seen_names (put seen value true) values

unfoldable pub sorted_union : List String → List String → List String
sorted_union left right = sort (keys (seen_names [] (left ++ right)))

-- The tests of the five loops, by which a name is left out.
abbrev pub both {ℓ} : {V : Type ℓ} → (V → V → Bool) → Option V → Option V → Bool
both same none b = false
both same (some a) none = false
both same (some a) (some b) = same a b

unfoldable pub same_zone : Option FirewallZone → Option FirewallZone → Bool
same_zone a b = deep_equal ZoneValues-discrete (zone_values a) (zone_values b)

abbrev pub same_version : Package → Package → Bool
same_version a b = a.version == b.version

-- The items that the loops append.
unfoldable pub file_change : String → Option File → Option File → FileChange
file_change name before after = record {
  path = name;
  change = change_type (is_some before) (is_some after);
  before = elim before [ none ↦ none | some f ↦ some (summarize_file f) ];
  after = elim after [ none ↦ none | some f ↦ some (summarize_file f) ];
  content_changed = both (λ f g. not (f.content == g.content)) before after;
}

unfoldable pub service_change : String → Option Service → Option Service → ServiceChange
service_change name before after = record {
  name = name;
  change = change_type (is_some before) (is_some after);
  before = elim before [ none ↦ none | some s ↦ some (summarize_service s) ];
  after = elim after [ none ↦ none | some s ↦ some (summarize_service s) ];
}

unfoldable pub user_change : String → Option User → Option User → UserChange
user_change name before after = record {
  name = name;
  change = change_type (is_some before) (is_some after);
  before = elim before [ none ↦ none | some u ↦ some (summarize_user u) ];
  after = elim after [ none ↦ none | some u ↦ some (summarize_user u) ];
}

unfoldable pub firewall_change : String → Option FirewallZone → Option FirewallZone → FirewallChange
firewall_change name before after = record {
  zone = name;
  before = zone_values before;
  after = zone_values after;
}

unfoldable pub package_change : String → Option Package → Option Package → PackageChange
package_change name before after = record {
  name = name;
  change = change_type (is_some before) (is_some after);
  before = elim before [ none ↦ "" | some p ↦ p.version ];
  after = elim after [ none ↦ "" | some p ↦ p.version ];
}

module _ {V C : Type 0} (same : Option V → Option V → Bool)
    (item : String → Option V → Option V → C) (before after : GoMap V) where
  -- A loop over the names.
  unfoldable pub changes : List String → List C
  changes [] = []
  changes (name ∷ names) =
      let rest = changes names in
      if same (get before name) (get after name)
      then rest
      else item name (get before name) (get after name) ∷ rest

  -- The loop over the names of both maps.
  unfoldable pub changes_of : List C
  changes_of = changes (sorted_union (keys before) (keys after))

-- Diff: a machine that is missing has no differences.
unfoldable pub diff_machines : Machine → Machine → StateDiff
diff_machines b a = record {
  files = changes_of (both (deep_equal File-discrete)) file_change b.files a.files;
  services = changes_of (both (deep_equal Service-discrete)) service_change b.services a.services;
  users = changes_of (both user_equal) user_change b.users a.users;
  firewall = changes_of same_zone firewall_change b.network.zones a.network.zones;
  packages = changes_of (both same_version) package_change b.packages a.packages;
}

unfoldable pub diff : Option Machine → Option Machine → StateDiff
diff (some b) (some a) = diff_machines b a
diff _ _ = record { files = []; services = []; users = []; firewall = []; packages = [] }

abbrev pub is_nil {ℓ} : {A : Type ℓ} → List A → Bool
is_nil [] = true
is_nil (a ∷ list) = false

-- Empty
unfoldable pub is_empty : StateDiff → Bool
is_empty d =
    is_nil d.files && is_nil d.services && is_nil d.users && is_nil d.firewall && is_nil d.packages

-- A line for every item.
unfoldable pub lines {ℓ} : {A : Type ℓ} → (A → String) → List A → String
lines line [] = ""
lines line (a ∷ list) = line a +++ "\n" +++ lines line list

abbrev pub names_of : Option (List String) → String
names_of none = ""
names_of (some names) = join "," names

unfoldable pub patch : StateDiff → String
patch d =
    "--- redlab/virtual-state-before\n+++ redlab/virtual-state-after\n"
    +++ lines
        (λ f.
          "file "
          +++ f.change
          +++ " "
          +++ f.path
          +++ (if f.content_changed then " content-changed" else ""))
        d.files
    +++ lines (λ s. "service " +++ s.change +++ " " +++ s.name) d.services
    +++ lines (λ u. "user " +++ u.change +++ " " +++ u.name) d.users
    +++ lines
        (λ z.
          "firewall modified zone="
          +++ z.zone
          +++ " services="
          +++ names_of z.after.services
          +++ " ports="
          +++ names_of z.after.ports)
        d.firewall
    +++ lines (λ p. "package " +++ p.change +++ " " +++ p.name) d.packages
