-- ===== src/Electron/Supervisor/Down.antt =====
-- `stopAll`: what stays down, and what a start under way does to it.
use mozgoslav.Prelude.{
  ℕ, suc, ◌≡◌, refl, ◌∙◌, ap, ◌≢◌, true, false, not, ◌&&◌, ◌||◌, inl, inr, some, List, [], ◌∷◌,
  ◌++◌, arith, if_cases, Option-cases, get_elem?, set, erase_at, All, All-get, All-set, All-append,
  All-map, All-everywhere, All-erase_at, get_elem?-append_left, get_elem?-set_ne,
  get_elem?-set_self, get_elem?-map,
}
use mozgoslav.Electron.Supervisor.{
  Managed, World, publish_states, with_service, put_service, spawn, Outcome, fulfilled, rejected,
  started, schedule_health_loop, start_settled, start_next, call_start, shut_down, stop_all, tick,
  handle_unhealthy, resume_restart, Task, resume, Event, step, run, cleaning, starting_in_order,
  checking, stopping_unhealthy, sleeping, restarting, settling, call_start_all, call_stop_all,
  timer, settle, indices_from,
}

-- no call of `startAll` is under way
abbrev pub IsNoStartAll : Task → Type 0
IsNoStartAll cleaning = ⊥
IsNoStartAll (starting_in_order _) = ⊥
IsNoStartAll _ = Unit

-- Everything is stopped and nothing will start it; `log` is the list of the calls of `startFn`.
pub record IsDown (log : List ℕ) (w : World) : Type 0 where
  pub shut : w.global_stopped ≡ true
  pub stopped : All (λ m. m.stopped ≡ true) w.services
  pub no_start : All IsNoStartAll w.tasks
  pub same_log : w.start_calls ≡ log

module _ (log : List ℕ) where
  publish_states-IsDown : (w : World) → IsDown log w → IsDown log (publish_states w)
  unfolding publish_states
  publish_states-IsDown w d =
      if_cases (IsDown log) w.has_callback
        (λ _. record {
          shut = d.shut;
          stopped = d.stopped;
          no_start = d.no_start;
          same_log = d.same_log;
        })
        (λ _. d)

  spawn-IsDown : (t : Task) (w : World) → IsNoStartAll t → IsDown log w → IsDown log (spawn t w)
  spawn-IsDown t w h d = record {
    shut = d.shut;
    stopped = d.stopped;
    no_start = All-append IsNoStartAll w.tasks (t ∷ []) d.no_start (h, tt);
    same_log = d.same_log;
  }

  put_service-IsDown :
      (w : World) (i : ℕ) (m : Managed)
      → m.stopped ≡ true
      → IsDown log w
      → IsDown log (put_service w i m)
  put_service-IsDown w i m h d = record {
    shut = d.shut;
    stopped = All-set (λ (m : Managed). m.stopped ≡ true) w.services i m d.stopped h;
    no_start = d.no_start;
    same_log = d.same_log;
  }

  with_service-IsDown :
      (w : World) (i : ℕ) (k : Managed → World)
      → IsDown log w
      → ((m : Managed) → m.stopped ≡ true → IsDown log (k m))
      → IsDown log (with_service w i k)
  with_service-IsDown w i k d f = elim (Option-cases (get_elem? w.services i)) [
    | inl e ↦ rw (e, with_service) d
    | inr (m, e) ↦
        rw (e, with_service)
          (f m (All-get (λ (m : Managed). m.stopped ≡ true) w.services i m d.stopped e))
  ]

  start_settled-IsDown :
      (i : ℕ) (o : Outcome) (w : World) → IsDown log w → IsDown log (start_settled i o w)
  unfolding start_settled
  start_settled-IsDown i o w d = with_service-IsDown w i _ d λ m h.
      put_service-IsDown (publish_states (put_service w i (started m o))) i
        (schedule_health_loop (started m o)) (ground arith)
        (publish_states-IsDown (put_service w i (started m o))
          (put_service-IsDown w i (started m o) (ground arith) d))

  tick-IsDown : (i : ℕ) (w : World) → IsDown log w → IsDown log (tick i w)
  unfolding tick
  tick-IsDown i w d = with_service-IsDown w i _ d λ m h.
      if_cases (IsDown log) (not m.health_timer) (λ _. d)
        λ _.
          if_cases (IsDown log) (m.stopped || w.global_stopped)
            (λ _. put_service-IsDown w i (record m { health_timer = false }) h d)
            (λ up. absurd (ground arith))

  handle_unhealthy-IsDown : (i : ℕ) (w : World) → IsDown log w → IsDown log (handle_unhealthy i w)
  unfolding handle_unhealthy
  handle_unhealthy-IsDown i w d = with_service-IsDown w i _ d λ m h.
      if_cases (IsDown log) (m.stopped || w.global_stopped) (λ _. d) (λ up. absurd (ground arith))

  resume_restart-IsDown : (i : ℕ) (w : World) → IsDown log w → IsDown log (resume_restart i w)
  unfolding resume_restart
  resume_restart-IsDown i w d = with_service-IsDown w i _ d λ m h.
      if_cases (IsDown log) (not m.stopped && not w.global_stopped) (λ up. absurd (ground arith))
        (λ _. d)

  resume-IsDown :
      (t : Task) (o : Outcome) (w : World)
      → IsNoStartAll t
      → IsDown log w
      → IsDown log (resume t o w)
  unfolding resume
  resume-IsDown cleaning o w h d = elim h [ ]
  resume-IsDown (starting_in_order i) o w h d = elim h [ ]
  resume-IsDown (checking i) (fulfilled true) w h d = d
  resume-IsDown (checking i) (fulfilled false) w h d = handle_unhealthy-IsDown i w d
  resume-IsDown (checking i) (rejected e) w h d = handle_unhealthy-IsDown i w d
  resume-IsDown (stopping_unhealthy i) o w h d = spawn-IsDown (sleeping i) w tt d
  resume-IsDown (sleeping i) o w h d = resume_restart-IsDown i w d
  resume-IsDown (restarting i) o w h d = start_settled-IsDown i o w d
  resume-IsDown settling o w h d = publish_states-IsDown w d

  stop_all-IsDown :
      (w : World) → All IsNoStartAll w.tasks → w.start_calls ≡ log → IsDown log (stop_all w)
  unfolding stop_all
  stop_all-IsDown w h e = record {
    shut = refl;
    stopped =
        All-map (λ (m : Managed). m.stopped ≡ true) shut_down w.services
          (All-everywhere (λ m. refl) w.services);
    no_start = All-append IsNoStartAll w.tasks (settling ∷ []) h (tt, tt);
    same_log = e;
  }

  step-IsDown : (w : World) (e : Event) → e ≢ call_start_all → IsDown log w → IsDown log (step w e)
  unfolding step
  step-IsDown w call_start_all h d = absurd (h refl)
  step-IsDown w call_stop_all h d = stop_all-IsDown w d.no_start d.same_log
  step-IsDown w (timer i) h d = tick-IsDown i w d
  step-IsDown w (settle k o) h d = elim (Option-cases (get_elem? w.tasks k)) [
    | inl e ↦ rw (e, step) d
    | inr (t, e) ↦
        rw (e, step)
          (resume-IsDown t o (record w { tasks = erase_at w.tasks k })
            (All-get IsNoStartAll w.tasks k t d.no_start e)
            (record {
              shut = d.shut;
              stopped = d.stopped;
              no_start = All-erase_at IsNoStartAll w.tasks k d.no_start;
              same_log = d.same_log;
            }))
  ]

  run-IsDown :
      (w : World) (events : List Event)
      → All (λ e. e ≢ call_start_all) events
      → IsDown log w
      → IsDown log (run w events)
  unfolding run
  run-IsDown w [] h d = d
  run-IsDown w (e ∷ events) h d = run-IsDown (step w e) events h.1 (step-IsDown w e h.0 d)

-- `stopAll` calls the `stopFn` of every service, the last registered first. If no `startAll` is
-- under way, then until the next one no `startFn` is called and every service stays stopped,
-- however the timers, health checks and restarts under way go on.
pub stop_all_stays_down :
    (w : World) (events : List Event)
    → All IsNoStartAll w.tasks
    → All (λ e. e ≢ call_start_all) events
    → let w' = stop_all w in
      (w'.stop_calls ≡ indices_from 0 w.services ++ w.stop_calls)
      × ((run w' events).start_calls ≡ w.start_calls)
      × All (λ m. m.stopped ≡ true) (run w' events).services
stop_all_stays_down w events h k =
    let d : IsDown w.start_calls (run (stop_all w) events) =
      run-IsDown w.start_calls (stop_all w) events k (stop_all-IsDown w.start_calls w h refl) in
    (unfold stop_all in refl, d.same_log, d.stopped)

start_next_lem :
    (i : ℕ) (w : World) (m : Managed)
    → get_elem? w.services i ≡ some m
    → let w' = start_next i w in
      (w'.start_calls ≡ i ∷ w.start_calls)
      × (w'.global_stopped ≡ w.global_stopped)
      × (get_elem? w'.services i ≡ some (record m { stopped = false }))
unfolding start_next call_start
start_next_lem i w m e =
    rw (e, with_service)
      (refl, refl, get_elem?-set_self w.services i (record m { stopped = false }) m e)

publish_states-same :
    (w : World)
    → let w' = publish_states w in
      (w'.start_calls ≡ w.start_calls)
      × (w'.global_stopped ≡ w.global_stopped)
      × (w'.services ≡ w.services)
unfolding publish_states
publish_states-same w = ground arith

start_settled-other :
    (i : ℕ) (o : Outcome) (w : World)
    → let w' = start_settled i o w in
      (w'.start_calls ≡ w.start_calls)
      × (w'.global_stopped ≡ w.global_stopped)
      × ((j : ℕ) → i ≢ j → get_elem? w'.services j ≡ get_elem? w.services j)
unfolding start_settled
start_settled-other i o w = elim (Option-cases (get_elem? w.services i)) [
  | inl e ↦ rw (e, with_service) (refl, refl, λ j h. refl)
  | inr (m, e) ↦
      let (calls, global, services) = publish_states-same (put_service w i (started m o)) in
      rw (e, with_service)
        (
          calls,
          global,
          λ j h. rw services (
              get_elem?-set_ne (set w.services i (started m o)) i j
                (schedule_health_loop (started m o)) h
              ∙ get_elem?-set_ne w.services i j (started m o) h),
        )
]

-- A `startAll` that is under way is not stopped: if `stopAll` is called while it awaits the start
-- of service `i`, then, however that start ends, it calls the `startFn` of the next service, which
-- is marked as not stopped again while the supervisor as a whole is stopped.
pub start_all_outlives_stop_all :
    (w : World) (k i : ℕ) (m : Managed) (o : Outcome)
    → get_elem? w.tasks k ≡ some (starting_in_order i)
    → get_elem? w.services (suc i) ≡ some m
    → let w' = step (stop_all w) (settle k o) in
      (w'.start_calls ≡ suc i ∷ w.start_calls)
      × (w'.global_stopped ≡ true)
      × (get_elem? w'.services (suc i) ≡ some (record (shut_down m) { stopped = false }))
unfolding step resume stop_all
start_all_outlives_stop_all w k i m o e f =
    let held = get_elem?-append_left w.tasks (settling ∷ []) k (starting_in_order i) e in
    let u : World = record (stop_all w) { tasks = erase_at (stop_all w).tasks k } in
    let (calls, global, others) = start_settled-other i o u in
    let next : get_elem? (start_settled i o u).services (suc i) ≡ some (shut_down m) =
      others (suc i) (omega arith) ∙ get_elem?-map shut_down w.services (suc i) m f in
    let (calls', global', here) = start_next_lem (suc i) (start_settled i o u) (shut_down m) next in
    rw (held, step) (calls' ∙ ap (λ l. suc i ∷ l) calls, global' ∙ global, here)
