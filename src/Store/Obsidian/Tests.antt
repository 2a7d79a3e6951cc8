-- ===== src/Store/Obsidian/Tests.antt =====
-- The slice at concrete answers.
use mozgoslav.Prelude.{◌≡◌, refl, true, some, none, []}
use mozgoslav.Store.Dictation.{data_of}
use mozgoslav.Store.Obsidian.{
  Payload, initial, reduce, reduce_all, reapply_bootstrap, reapply_bootstrap_saga, diagnostics_saga,
}

repaired :
    let after =
      reduce_all (reduce initial reapply_bootstrap) (reapply_bootstrap_saga (data_of [])) in
    after.is_diagnostics_loading ≡ true
unfolding reduce reduce_all reapply_bootstrap_saga
repaired = refl

abbrev empty : Payload
empty = record { report = none; errors = [] }

no_report :
    (reduce initial (diagnostics_saga (data_of empty))).diagnostics_error
    ≡ some "empty diagnostics payload"
unfolding reduce diagnostics_saga
no_report = refl
