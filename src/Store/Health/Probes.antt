-- ===== src/Store/Health/Probes.antt =====
-- Probes that run at once.
use mozgoslav.Prelude.{◌≡◌, refl, String, Option, some, [], ◌∷◌}
use mozgoslav.Store.Dictation.{Reply, thrown}
use mozgoslav.Store.Health.{State, down, reduce, probe_saga, requested, answered, step, run}

-- A probe that starts earlier and is answered later takes the place of a newer result: whatever
-- the newer probe found, the slice ends with the earlier time and, if the request failed, with
-- the backend down.
pub stale_probe_wins :
    (s : State) (early late e : String) (reply : Reply (Option String))
    → let begun =
        step (step (record { store = s; probes = [] }) (requested early)) (requested late) in
      (run begun (answered 1 reply ∷ answered 0 (thrown e) ∷ [])).store
      ≡ record { status = down; last_checked_at = some early }
unfolding step run reduce probe_saga
stale_probe_wins s early late e reply = refl
