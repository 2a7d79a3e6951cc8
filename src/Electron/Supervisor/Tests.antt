-- ===== src/Electron/Supervisor/Tests.antt =====
-- The supervisor at concrete services.
use mozgoslav.Prelude.{
  ℕ, ◌+◌, ◌≤◌, ◌≡◌, refl, String, true, false, none, some, List, [], ◌∷◌, All, get_elem?,
}
use mozgoslav.Electron.Supervisor.{
  on_failure, Spec, Managed, World, new, register_all, register, Event, call_start_all, timer,
  settle, fulfilled, rejected, run, step, start_all, stop_all, starting_in_order, shut_down, resume,
  start_next, call_start, start_settled, publish_states, tick, handle_unhealthy, resume_restart,
}
use mozgoslav.Electron.Supervisor.Zombies.{
  await_exit, kill_stubborn, Sweep, sigterm, sigkill, cleanup_zombies, clean_port,
  cleanup_zombies_bounds,
}
use mozgoslav.Electron.Supervisor.Bounds.{IsWithin}
use mozgoslav.Electron.Supervisor.Owed.{calls_of}
use mozgoslav.Electron.Supervisor.Restarts.{start_all_calls, allowed, starts-le-allowed}
use mozgoslav.Electron.Supervisor.Down.{stop_all_stays_down, start_all_outlives_stop_all}

abbrev service : String → Spec
service name = record {
  name = name;
  port = some 5050;
  has_health_check = true;
  restart_policy = on_failure;
  health_interval_ms = some 5000;
  max_restarts = some 1;
}

abbrev both : List Spec
both = service "backend" ∷ service "searxng" ∷ []

-- both start; then the first fails two checks and is given up
abbrev failing : List Event
failing =
    call_start_all
    ∷ settle 0 (fulfilled true)
    ∷ settle 0 (fulfilled true)
    ∷ settle 0 (fulfilled true)
    ∷ timer 0
    ∷ settle 0 (fulfilled false)
    ∷ settle 0 (fulfilled true)
    ∷ settle 0 (fulfilled true)
    ∷ settle 0 (fulfilled true)
    ∷ timer 0
    ∷ settle 0 (rejected "down")
    ∷ []

failing_gives_up :
    let w = run (register_all both new) failing in
    (w.start_calls ≡ 0 ∷ 1 ∷ 0 ∷ []) × (w.stop_calls ≡ 0 ∷ [])
unfolding run step register_all register new start_all resume start_next call_start start_settled
    publish_states tick handle_unhealthy resume_restart
failing_gives_up = (refl, refl)

-- the first service after that: given up, with one restart
abbrev given_up : Managed
given_up = record {
  spec = service "backend";
  restart_count = 1;
  health_timer = true;
  stopped = true;
  last_error = none;
  pid = none;
  running = false;
}

failing_leaves : get_elem? (run (register_all both new) failing).services 0 ≡ some given_up
unfolding run step register_all register new start_all resume start_next call_start start_settled
    publish_states tick handle_unhealthy resume_restart
failing_leaves = refl

starts-le-allowed_example :
    (calls_of 0 (run (register_all both new) failing).start_calls
      ≤ start_all_calls failing + allowed given_up)
    × IsWithin given_up
starts-le-allowed_example = starts-le-allowed both failing 0 given_up failing_leaves

abbrev up : Managed
up = record {
  spec = service "backend";
  restart_count = 0;
  health_timer = true;
  stopped = false;
  last_error = none;
  pid = none;
  running = true;
}

abbrev pair : World
pair = record {
  services = up ∷ up ∷ [];
  global_stopped = false;
  has_callback = true;
  tasks = [];
  start_calls = 1 ∷ 0 ∷ [];
  stop_calls = [];
  published = [];
}

abbrev later : List Event
later = timer 0 ∷ timer 1 ∷ settle 0 (fulfilled true) ∷ []

stop_all_stays_down_example :
    ((stop_all pair).stop_calls ≡ 0 ∷ 1 ∷ [])
    × ((run (stop_all pair) later).start_calls ≡ 1 ∷ 0 ∷ [])
    × All (λ m. m.stopped ≡ true) (run (stop_all pair) later).services
stop_all_stays_down_example =
    stop_all_stays_down pair later tt ((λ e. cc), ((λ e. cc), ((λ e. cc), tt)))

abbrev half_started : World
half_started = record pair { tasks = starting_in_order 0 ∷ []; start_calls = 0 ∷ [] }

start_all_outlives_stop_all_example :
    let w = step (stop_all half_started) (settle 0 (fulfilled true)) in
    (w.start_calls ≡ 1 ∷ 0 ∷ [])
    × (w.global_stopped ≡ true)
    × (get_elem? w.services 1 ≡ some (record (shut_down up) { stopped = false }))
start_all_outlives_stop_all_example =
    start_all_outlives_stop_all half_started 0 0 up (fulfilled true) refl refl

abbrev fresh : Sweep
fresh = record { probes = 0; slept_ms = 0; signals = [] }

-- a process that ignores SIGTERM
abbrev stubborn : ℕ → List ℕ
stubborn n = 77 ∷ []

stubborn_killed : (clean_port stubborn fresh).signals ≡ (sigkill, 77 ∷ []) ∷ (sigterm, 77 ∷ []) ∷ []
unfolding clean_port kill_stubborn await_exit
stubborn_killed = refl

cleanup_zombies_bounds_example :
    let s = cleanup_zombies stubborn (5050 ∷ 8080 ∷ []) fresh in
    (s.probes ≤ 64) × (s.slept_ms ≤ 6400)
cleanup_zombies_bounds_example = cleanup_zombies_bounds stubborn (5050 ∷ 8080 ∷ []) fresh
