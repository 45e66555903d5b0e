-- ===== src/Agent/Install/Consented.antt =====
-- A library is installed only with consent.
use wizard_w.Prelude.{
  ◌≡◌, refl, none, some, String, List, [], ◌∷◌, true, false, arith, contains, string_eq,
}
use wizard_w.Config.{Settings}
use wizard_w.Permissions.{PermissionState}
use wizard_w.Agent.State.{RunState}
use wizard_w.Agent.Permit.{Parked, permit}
use wizard_w.Agent.Install.{
  Runtime, install, none_missing, permit_install, install_subject, insert_name, sorted_names,
}

insert_name-contains :
    (m name : String) (names : List String)
    → contains m (insert_name name names) ≡ contains m (name ∷ names)
unfolding insert_name
insert_name-contains m name [] = refl
insert_name-contains m name (other ∷ names) = ground (arith, insert_name-contains m name names)

sorted_names-contains :
    (m : String) (names : List String) → contains m (sorted_names names) ≡ contains m names
unfolding sorted_names
sorted_names-contains m [] = refl
sorted_names-contains m (name ∷ names) =
    ground (arith, insert_name-contains m name (sorted_names names), sorted_names-contains m names)

-- pip is called only for the very modules that are missing, where the settings allow installs, outside
-- the container, and after the gate on `library_install` passed for the subject that is made of these
-- modules: their names in order, which are all of them and no others. Code that lacks a module and may
-- install runs only after that gate, too; and outside the container only if pip ended without an error.
pub pip_needs_consent :
    (s : Settings) (runtime : Runtime) (parked : Parked) (run : RunState) (p : PermissionState)
    → let gate = permit s parked run p "library_install" (install_subject runtime.missing) in
      let out = permit_install s runtime parked run p in
      ((modules : List String)
        → out.pip_for ≡ some modules
        → (modules ≡ runtime.missing)
          × (none_missing runtime.missing ≡ false)
          × (s.sandbox_allow_runtime_pip ≡ true)
          × (runtime.docker ≡ false)
          × (gate.0 ≡ true))
      × ((m : String) → contains m (sorted_names runtime.missing) ≡ contains m runtime.missing)
      × (out.allowed ≡ true
          → none_missing runtime.missing ≡ false
          → s.sandbox_allow_runtime_pip ≡ true
          → (gate.0 ≡ true) × (runtime.docker ≡ false → runtime.pip_error ≡ none))
unfolding permit_install install
pip_needs_consent s runtime parked run p =
    (λ modules. ground arith, λ m. sorted_names-contains m runtime.missing, ground arith)
