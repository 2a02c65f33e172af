-- ===== src/Commands/Registry/Kept.antt =====
-- What any command keeps that a user runs who is not root.
use mathlib.Core.Path.{subst}
use red_lab.Prelude.{
  String, false, ◌≡◌, refl, sym, Option, none, some, List, [], ◌∷◌, ◌==◌, All, Bool-cases, inl, inr,
  some_injective, none_not_some,
}
use red_lab.Prelude.GoMap.{GoMap, get}
use red_lab.System.Sudo.{sudo_allowed}
use red_lab.System.Guarded.{IsKept, IsKept-refl, OwnedByRoot}
use red_lab.Runtime.{CommandResult}
use red_lab.Commands.{Library, Context, Handler, Reader, reads}
use red_lab.Commands.Shell.{Entry, run_export, run_unset}
use red_lab.Commands.Registry.{readers, changers, run_unknown, run_plain, run_sudo, run_core}
use red_lab.Commands.Registry.Guarded.{
  Keeps, export_all-IsKept, unset_all-IsKept, run_cd-Keeps, run_tee-Keeps, run_mkdir-Keeps,
  run_touch-Keeps, run_chmod-Keeps, run_chown-Keeps, run_copy-Keeps, run_move-Keeps,
}
use red_lab.Commands.Registry.Removal.{run_rm-Keeps, run_rmdir-Keeps}
use red_lab.Commands.Registry.Refused.{
  IsKept-if, run_usermod-Keeps, run_useradd-Keeps, run_systemctl-Keeps, run_logger-Keeps,
  run_firewall-Keeps, run_setenforce-Keeps, run_kill-Keeps, run_killall-Keeps,
}

-- Both of two facts.
infixr 20 ◌also◌
abbrev ◌also◌ : {A B : Type 0} → A → B → A × B
a also b = (a, b)

module _ (library : Library) (catalog : List Entry) where
  -- A table of handlers that keep what is root's.
  abbrev AllKeep : GoMap Handler → Type 0
  AllKeep table = All (λ entry. Keeps entry.1) table

  AllKeep-get :
      (table : GoMap Handler) (name : String) (h : Handler)
      → AllKeep table
      → get table name ≡ some h
      → Keeps h
  unfolding get
  AllKeep-get [] name h all found = absurd (none_not_some found)
  AllKeep-get ((key, g) ∷ table) name h all found = elim (Bool-cases (key == name)) [
    | inl e ↦ subst Keeps (some_injective (rw e at found)) all.0
    | inr e ↦ AllKeep-get table name h all.1 (rw e at found)
  ]

  changers-AllKeep : AllKeep (changers library catalog)
  unfolding changers run_export run_unset
  changers-AllKeep =
      run_cd-Keeps library
      also (λ c args stdin common owned. export_all-IsKept c args)
      also (λ c args stdin common owned. unset_all-IsKept c args)
      also run_tee-Keeps library
      also run_mkdir-Keeps library
      also run_touch-Keeps library
      also run_rm-Keeps library
      also run_chmod-Keeps library
      also run_chown-Keeps library
      also run_copy-Keeps library
      also run_move-Keeps library
      also run_rmdir-Keeps library
      also run_usermod-Keeps library
      also run_useradd-Keeps library
      also run_systemctl-Keeps library
      also run_logger-Keeps
      also run_firewall-Keeps library
      also run_setenforce-Keeps library
      also run_kill-Keeps library
      also run_killall-Keeps library
      also run_killall-Keeps library
      also tt

  run_plain-IsKept :
      (name : String) (c : Context) (args : List String) (stdin : String)
      → (c.1.user == "root") ≡ false
      → OwnedByRoot c.0.processes
      → IsKept c.0 (run_plain library catalog name c args stdin).0.0
  unfolding run_plain
  run_plain-IsKept name c args stdin common owned = by_reader (get (readers library catalog) name) (
      by_changer (get (changers library catalog) name)
        (AllKeep-get (changers library catalog) name))
    where
      changed : Option Handler → Context × CommandResult
      changed o = elim o [ some h ↦ h c args stdin | none ↦ (c, run_unknown library catalog name) ]

      by_changer :
          (o : Option Handler)
          → ((h : Handler) → AllKeep (changers library catalog) → o ≡ some h → Keeps h)
          → IsKept c.0 (changed o).0.0
      by_changer none k = IsKept-refl c.0
      by_changer (some h) k = k h changers-AllKeep refl c args stdin common owned

      by_reader :
          (o : Option Reader)
          → IsKept c.0 (changed (get (changers library catalog) name)).0.0
          → IsKept c.0
              (elim o as (λ _. Context × CommandResult) [
                | some r ↦ reads r c args stdin
                | none ↦ changed (get (changers library catalog) name)
              ]).0.0
      by_reader none h = h
      by_reader (some r) h = IsKept-refl c.0

  module _ (lab : Handler) where
    run_sudo_refused :
        (c : Context) (args : List String) (stdin : String)
        → (c.1.user == "root") ≡ false
        → ((command : String) → sudo_allowed c.0 c.1.user command ≡ false)
        → (run_sudo library catalog lab c args stdin).0 ≡ c
    unfolding run_sudo
    run_sudo_refused c [] stdin common denied = refl
    run_sudo_refused c (name ∷ args) stdin common denied = rw (common, denied name) refl

    -- Where root owns the processes, a user who is not root and whom the rules of sudo allow nothing
    -- keeps the users, the rules, the services, the network, SELinux and the packages as they are,
    -- whatever command is run, with whatever arguments and input, but for `lab`.
    pub run_core-IsKept :
        (name : String) (c : Context) (args : List String) (stdin : String)
        → (c.1.user == "root") ≡ false
        → ((command : String) → sudo_allowed c.0 c.1.user command ≡ false)
        → OwnedByRoot c.0.processes
        → (name == "lab") ≡ false
        → IsKept c.0 (run_core library catalog lab name c args stdin).0.0
    unfolding run_core
    run_core-IsKept name c args stdin common denied owned other = rw other (
        IsKept-if (name == "sudo") _ (run_plain library catalog name c args stdin)
          (subst (λ d. IsKept c.0 d.0) (sym (run_sudo_refused c args stdin common denied))
            (IsKept-refl c.0))
          (run_plain-IsKept name c args stdin common owned))
