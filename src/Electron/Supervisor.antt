-- ===== src/Electron/Supervisor.antt =====
-- frontend/electron/utils/serviceSupervisor.ts: `ServiceSupervisor`. An `async` method runs to its
-- next `await` in one step. What awaits is a task; a step of the world is a call from outside, a
-- tick of a health timer, or the settling of one awaited promise, in any order. The services'
-- functions are the world's answers: the outcome with which a task settles.
pub mod Zombies
pub mod Bounds
pub mod Owed
pub mod Restarts
pub mod Down
mod Tests
use mozgoslav.Prelude.{
  ℕ, zero, suc, ◌+◌, String, Bool, true, false, not, ◌&&◌, ◌||◌, Option, none, some, List, [], ◌∷◌,
  ◌++◌, map, leb, eqb, if◌then◌else◌, get_elem?, set, erase_at, length,
}

-- `RestartPolicy`
pub data RestartPolicy : Type 0 where
  always on_failure never : RestartPolicy

-- `ServiceSpec`, with a flag for the optional `healthCheck`
pub record Spec : Type 0 where
  pub name : String
  pub port : Option ℕ
  pub has_health_check : Bool
  pub restart_policy : RestartPolicy
  pub health_interval_ms : Option ℕ
  pub max_restarts : Option ℕ

-- `ManagedService`; the timer is there or not
pub record Managed : Type 0 where
  pub spec : Spec
  pub restart_count : ℕ
  pub health_timer : Bool
  pub stopped : Bool
  pub last_error : Option String
  pub pid : Option ℕ
  pub running : Bool

pub data ShownState : Type 0 where
  running stopped starting failed : ShownState

-- `ServiceStateSnapshot`
pub record Snapshot : Type 0 where
  pub name : String
  pub state : ShownState
  pub pid : Option ℕ
  pub port : Option ℕ
  pub restart_count : ℕ
  pub last_error : Option String

-- What awaits: `startAll` on `cleanupZombies` and on the start of service `i`, a health tick on its
-- check, `handleUnhealthy` on `stopFn`, on the pause and on the new start, `stopAll` on all stops.
pub data Task : Type 0 where
  cleaning : Task
  starting_in_order : (i : ℕ) → Task
  checking : (i : ℕ) → Task
  stopping_unhealthy : (i : ℕ) → Task
  sleeping : (i : ℕ) → Task
  restarting : (i : ℕ) → Task
  settling : Task

-- The fields of the class, the tasks, and what the class has done to its environment: calls of
-- `startFn` and `stopFn` and published snapshots, the latest first.
pub record World : Type 0 where
  pub services : List Managed
  pub global_stopped : Bool
  pub has_callback : Bool
  pub tasks : List Task
  pub start_calls : List ℕ
  pub stop_calls : List ℕ
  pub published : List (List Snapshot)

-- `setPublishCallback`
unfoldable pub set_publish_callback : World → World
set_publish_callback w = record w { has_callback = true }

-- `register`
unfoldable pub register : Spec → World → World
register spec w = record w {
  services =
      w.services
      ++ record {
        spec = spec;
        restart_count = 0;
        health_timer = false;
        stopped = false;
        last_error = none;
        pid = none;
        running = false;
      }
        ∷ [];
}

-- `new ServiceSupervisor()`
unfoldable pub new : World
new = record {
  services = [];
  global_stopped = false;
  has_callback = false;
  tasks = [];
  start_calls = [];
  stop_calls = [];
  published = [];
}

-- several calls of `register`
unfoldable pub register_all : List Spec → World → World
register_all [] w = w
register_all (spec ∷ specs) w = register_all specs (register spec w)

unfoldable pub snapshot : Managed → Snapshot
snapshot m = record {
  name = m.spec.name;
  state =
      if m.stopped
      then ShownState.stopped
      else if m.running
      then ShownState.running
      else ShownState.starting;
  pid = m.pid;
  port = m.spec.port;
  restart_count = m.restart_count;
  last_error = m.last_error;
}

-- `getServiceStates`
unfoldable pub get_service_states : World → List Snapshot
get_service_states w = map snapshot w.services

unfoldable pub publish_states : World → World
publish_states w =
    if w.has_callback then record w { published = get_service_states w ∷ w.published } else w

-- code that names the service `i`; there is no such service beyond the end of the array
abbrev pub with_service : World → ℕ → (Managed → World) → World
with_service w i k = elim (get_elem? w.services i) [ none ↦ w | some m ↦ k m ]

abbrev pub put_service : World → ℕ → Managed → World
put_service w i m = record w { services = set w.services i m }

abbrev pub spawn : Task → World → World
spawn t w = record w { tasks = w.tasks ++ t ∷ [] }

-- how an awaited promise settles; a health check is passed by `fulfilled true` alone
pub data Outcome : Type 0 where
  fulfilled : Bool → Outcome
  rejected : (message : String) → Outcome

-- `startService` up to its `await`: the call of `startFn`, awaited as the task says
unfoldable pub call_start : Task → ℕ → World → World
call_start t i w = spawn t (record w { start_calls = i ∷ w.start_calls })

abbrev is_truthy : Option ℕ → Bool
is_truthy none = false
is_truthy (some n) = not (eqb n 0)

abbrev started : Managed → Outcome → Managed
started m (fulfilled _) = record m { running = true; last_error = none }
started m (rejected message) = record m { running = false; last_error = some message }

-- `spec.healthCheck && spec.healthIntervalMs`; `scheduleHealthLoop` replaces an old timer
abbrev schedule_health_loop : Managed → Managed
schedule_health_loop m =
    if m.spec.has_health_check && is_truthy m.spec.health_interval_ms
    then record m { health_timer = true }
    else m

-- `startService` after its `await`: the states are published before the timer is set
unfoldable pub start_settled : ℕ → Outcome → World → World
start_settled i o w = with_service w i λ m.
    put_service (publish_states (put_service w i (started m o))) i
      (schedule_health_loop (started m o))

-- the loop of `startAll`, at the service `i`
unfoldable pub start_next : ℕ → World → World
start_next i w =
    with_service w i
      λ m. call_start (starting_in_order i) i (put_service w i (record m { stopped = false }))

-- `startAll` up to its first `await`
unfoldable pub start_all : World → World
start_all w = spawn cleaning (record w { global_stopped = false })

abbrev shut_down : Managed → Managed
shut_down m = record m { stopped = true; running = false; health_timer = false }

abbrev pub indices_from {ℓ} : {A : Type ℓ} → ℕ → List A → List ℕ
indices_from i [] = []
indices_from i (x ∷ xs) = i ∷ indices_from (suc i) xs

-- `stopAll` up to its `await`: `stopFn` is called in the order of the reversed array, so the latest
-- call is that of the first service
unfoldable pub stop_all : World → World
stop_all w = spawn settling (record w {
  global_stopped = true;
  services = map shut_down w.services;
  stop_calls = indices_from 0 w.services ++ w.stop_calls;
})

-- the `setInterval` callback up to its `await`
unfoldable pub tick : ℕ → World → World
tick i w = with_service w i λ m.
    if not m.health_timer
    then w
    else if m.stopped || w.global_stopped
    then put_service w i (record m { health_timer = false })
    else spawn (checking i) w

abbrev pub max_restarts_of : Spec → ℕ
max_restarts_of spec = elim spec.max_restarts [ none ↦ 5 | some n ↦ n ]

abbrev is_never : RestartPolicy → Bool
is_never never = true
is_never _ = false

abbrev is_on_failure : RestartPolicy → Bool
is_on_failure on_failure = true
is_on_failure _ = false

-- `handleUnhealthy` up to its first `await`, the call of `stopFn`
unfoldable pub handle_unhealthy : ℕ → World → World
handle_unhealthy i w = with_service w i λ m.
    if m.stopped || w.global_stopped
    then w
    else if is_never m.spec.restart_policy
    then publish_states (put_service w i (record m { running = false }))
    else if is_on_failure m.spec.restart_policy && leb (max_restarts_of m.spec) m.restart_count
    then publish_states (put_service w i (record m { stopped = true; running = false }))
    else (let w' =
          publish_states
            (put_service w i (record m { restart_count = m.restart_count + 1; running = false })) in
        spawn (stopping_unhealthy i) (record w' { stop_calls = i ∷ w'.stop_calls }))

-- `handleUnhealthy` after the pause
unfoldable pub resume_restart : ℕ → World → World
resume_restart i w =
    with_service w i
      λ m. if not m.stopped && not w.global_stopped then call_start (restarting i) i w else w

-- the code behind an `await`
unfoldable pub resume : Task → Outcome → World → World
resume cleaning o w = start_next 0 w
resume (starting_in_order i) o w = start_next (suc i) (start_settled i o w)
resume (checking i) (fulfilled true) w = w
resume (checking i) _ w = handle_unhealthy i w
resume (stopping_unhealthy i) o w = spawn (sleeping i) w
resume (sleeping i) o w = resume_restart i w
resume (restarting i) o w = start_settled i o w
resume settling o w = publish_states w

pub data Event : Type 0 where
  call_start_all call_stop_all : Event
  timer : (i : ℕ) → Event
  settle : (k : ℕ) (outcome : Outcome) → Event

-- one step: a call, a tick, or the `k`-th task settles
unfoldable pub step : World → Event → World
step w call_start_all = start_all w
step w call_stop_all = stop_all w
step w (timer i) = tick i w
step w (settle k o) = elim (get_elem? w.tasks k) [
  | none ↦ w
  | some t ↦ resume t o (record w { tasks = erase_at w.tasks k })
]

unfoldable pub run : World → List Event → World
run w [] = w
run w (e ∷ events) = run (step w e) events
