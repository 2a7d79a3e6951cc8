-- ===== src/Store/Obsidian/Repairs.antt =====
-- The repairs, from their action to the end of their saga.
use mozgoslav.Prelude.{◌≡◌, refl, String, Bool, true, false, Option, none, some, List, [], ◌∷◌}
use mozgoslav.Store.Dictation.{Reply, data_of, thrown}
use mozgoslav.Store.Obsidian.Report.{VaultDiagnosticsReport, map_gql_diagnostics_id}
use mozgoslav.Store.Obsidian.{
  State, Payload, reduce, reduce_all, reapply_bootstrap, reinstall_plugins, fetch_diagnostics,
  reapply_bootstrap_saga, reinstall_plugins_saga, diagnostics_saga, report_or_failed,
}

-- a repair went through
abbrev pub is_clean : Reply (List String) → Bool
is_clean (data_of []) = true
is_clean (data_of (_ ∷ _)) = false
is_clean (thrown e) = false

-- whether the diagnostics load after a repair
abbrev pub loads_after : Reply (List String) → Bool → Bool
loads_after reply before = elim (is_clean reply) [ true ↦ true | false ↦ before ]

-- Both repairs end their own flag, whatever the backend answers, keep the report until a new one is
-- there, and start the diagnostics exactly if the repair went through.
pub repairs_end :
    (s : State) (reply : Reply (List String))
    → let applied = reduce_all (reduce s reapply_bootstrap) (reapply_bootstrap_saga reply) in
      let installed = reduce_all (reduce s reinstall_plugins) (reinstall_plugins_saga reply) in
      (applied.is_reapplying_bootstrap ≡ false)
      × (installed.is_reinstalling_plugins ≡ false)
      × (applied.is_diagnostics_loading ≡ loads_after reply s.is_diagnostics_loading)
      × (installed.is_diagnostics_loading ≡ loads_after reply s.is_diagnostics_loading)
      × (applied.diagnostics ≡ s.diagnostics)
      × (installed.diagnostics ≡ s.diagnostics)
unfolding reduce reduce_all reapply_bootstrap_saga reinstall_plugins_saga
repairs_end s (data_of []) = (refl, refl, refl, refl, refl, refl)
repairs_end s (data_of (m ∷ rest)) = (refl, refl, refl, refl, refl, refl)
repairs_end s (thrown e) = (refl, refl, refl, refl, refl, refl)

reported :
    (s : State) (o : Option VaultDiagnosticsReport)
    → (reduce s (report_or_failed o)).is_diagnostics_loading ≡ false
unfolding reduce
reported s none = refl
reported s (some r) = refl

-- the diagnostics stop loading at every answer
answered_payload :
    (s : State) (o : Option VaultDiagnosticsReport) (errors : List String)
    → let p : Payload = record { report = o; errors = errors } in
      (reduce s (diagnostics_saga (data_of p))).is_diagnostics_loading ≡ false
unfolding reduce diagnostics_saga
answered_payload s o [] = reported s o
answered_payload s o (m ∷ rest) = refl

-- Fetching the diagnostics ends their loading, whatever the backend answers, and a report that
-- comes without errors is stored as it was sent.
pub diagnostics_end :
    (s : State) (reply : Reply Payload) (r : VaultDiagnosticsReport)
    → let p : Payload = record { report = some r; errors = [] } in
      ((reduce (reduce s fetch_diagnostics) (diagnostics_saga reply)).is_diagnostics_loading
        ≡ false)
      × ((reduce s (diagnostics_saga (data_of p))).diagnostics ≡ some r)
unfolding reduce diagnostics_saga
diagnostics_end s (data_of p) r = (
  answered_payload (reduce s fetch_diagnostics) p.report p.errors,
  rw (map_gql_diagnostics_id r) refl,
)
diagnostics_end s (thrown e) r = (refl, rw (map_gql_diagnostics_id r) refl)
