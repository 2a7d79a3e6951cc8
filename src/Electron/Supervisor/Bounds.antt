-- ===== src/Electron/Supervisor/Bounds.antt =====
-- The restart policies over every run.
use mozgoslav.Prelude.{
  if_cases, leb, erase_at, ℕ, suc, ◌+◌, ◌≤◌, ◌≡◌, true, false, not, ◌&&◌, ◌||◌, inl, inr, List, [],
  ◌∷◌, arith, Option-cases, get_elem?, All, All-get, All-set, All-append, All-map, All-imp,
}
use mozgoslav.Electron.Supervisor.{
  register_all, on_failure, never, Spec, Managed, World, register, new, publish_states,
  with_service, put_service, Outcome, fulfilled, rejected, started, schedule_health_loop,
  start_settled, start_next, start_all, call_start, shut_down, stop_all, tick, max_restarts_of,
  handle_unhealthy, resume_restart, Task, resume, Event, step, run, cleaning, starting_in_order,
  checking, stopping_unhealthy, sleeping, restarting, settling, call_start_all, call_stop_all,
  timer, settle, is_never, is_on_failure,
}

-- A service is within its policy: one that is never restarted has no restarts, one restarted on
-- failure at most its maximum. The health timer needs a check and an interval.
pub record IsWithin (m : Managed) : Type 0 where
  pub never_restarted : m.spec.restart_policy ≡ never → m.restart_count ≡ 0
  pub capped : m.spec.restart_policy ≡ on_failure → m.restart_count ≤ max_restarts_of m.spec
  pub timed : m.health_timer ≡ true → m.spec.has_health_check ≡ true

abbrev pub AreWithin : World → Type 0
AreWithin w = All IsWithin w.services

publish_states-AreWithin : (w : World) → AreWithin w → AreWithin (publish_states w)
unfolding publish_states
publish_states-AreWithin w h = if_cases AreWithin w.has_callback (λ _. h) (λ _. h)

-- a handler of one service keeps the bound if it does for the service that is there
with_service-AreWithin :
    (w : World) (i : ℕ) (k : Managed → World)
    → AreWithin w
    → ((m : Managed) → IsWithin m → AreWithin (k m))
    → AreWithin (with_service w i k)
with_service-AreWithin w i k h f = elim (Option-cases (get_elem? w.services i)) [
  | inl e ↦ rw (e, with_service) h
  | inr (m, e) ↦ rw (e, with_service) (f m (All-get IsWithin w.services i m h e))
]

put_service-AreWithin :
    (w : World) (i : ℕ) (m : Managed) → AreWithin w → IsWithin m → AreWithin (put_service w i m)
put_service-AreWithin w i m h v = All-set IsWithin w.services i m h v

started-IsWithin : (m : Managed) (o : Outcome) → IsWithin m → IsWithin (started m o)
started-IsWithin m o v = ground arith

schedule-IsWithin : (m : Managed) → IsWithin m → IsWithin (schedule_health_loop m)
schedule-IsWithin m v = ground arith

start_settled-AreWithin :
    (i : ℕ) (o : Outcome) (w : World) → AreWithin w → AreWithin (start_settled i o w)
unfolding start_settled
start_settled-AreWithin i o w h = with_service-AreWithin w i _ h λ m v.
    let v' : IsWithin (started m o) = started-IsWithin m o v in
    put_service-AreWithin (publish_states (put_service w i (started m o))) i _
      (publish_states-AreWithin (put_service w i (started m o)) (put_service-AreWithin w i _ h v'))
      (schedule-IsWithin (started m o) v')

start_next-AreWithin : (i : ℕ) (w : World) → AreWithin w → AreWithin (start_next i w)
unfolding start_next call_start
start_next-AreWithin i w h =
    with_service-AreWithin w i _ h
      λ m v. put_service-AreWithin w i (record m { stopped = false }) h (ground arith)

stop_all-AreWithin : (w : World) → AreWithin w → AreWithin (stop_all w)
unfolding stop_all
stop_all-AreWithin w h =
    All-map IsWithin shut_down w.services (All-imp IsWithin _ w.services (λ m v. ground arith) h)

tick-AreWithin : (i : ℕ) (w : World) → AreWithin w → AreWithin (tick i w)
unfolding tick
tick-AreWithin i w h = with_service-AreWithin w i _ h λ m v.
    if_cases AreWithin (not m.health_timer) (λ _. h)
      λ _.
        if_cases AreWithin (m.stopped || w.global_stopped)
          (λ _. put_service-AreWithin w i (record m { health_timer = false }) h (ground arith))
          (λ _. h)

-- a change of one service, published
publish_put-AreWithin :
    (w : World) (i : ℕ) (m : Managed)
    → AreWithin w
    → IsWithin m
    → AreWithin (publish_states (put_service w i m))
publish_put-AreWithin w i m h v =
    publish_states-AreWithin (put_service w i m) (put_service-AreWithin w i m h v)

handle_unhealthy-AreWithin : (i : ℕ) (w : World) → AreWithin w → AreWithin (handle_unhealthy i w)
unfolding handle_unhealthy
handle_unhealthy-AreWithin i w h = with_service-AreWithin w i _ h λ m v.
    if_cases AreWithin (m.stopped || w.global_stopped) (λ _. h)
      λ _.
        if_cases AreWithin (is_never m.spec.restart_policy)
          (λ _. publish_put-AreWithin w i (record m { running = false }) h (ground arith))
          λ other.
            if_cases AreWithin
              (is_on_failure m.spec.restart_policy && leb (max_restarts_of m.spec) m.restart_count)
              (λ _.
                publish_put-AreWithin w i (record m { stopped = true; running = false }) h
                  (ground arith))
              λ room.
                publish_put-AreWithin w i
                  (record m { restart_count = m.restart_count + 1; running = false }) h
                  (ground arith)

resume_restart-AreWithin : (i : ℕ) (w : World) → AreWithin w → AreWithin (resume_restart i w)
unfolding resume_restart call_start
resume_restart-AreWithin i w h =
    with_service-AreWithin w i _ h
      λ m v. if_cases AreWithin (not m.stopped && not w.global_stopped) (λ _. h) (λ _. h)

resume-AreWithin : (t : Task) (o : Outcome) (w : World) → AreWithin w → AreWithin (resume t o w)
unfolding resume
resume-AreWithin cleaning o w h = start_next-AreWithin 0 w h
resume-AreWithin (starting_in_order i) o w h =
    start_next-AreWithin (suc i) (start_settled i o w) (start_settled-AreWithin i o w h)
resume-AreWithin (checking i) (fulfilled true) w h = h
resume-AreWithin (checking i) (fulfilled false) w h = handle_unhealthy-AreWithin i w h
resume-AreWithin (checking i) (rejected e) w h = handle_unhealthy-AreWithin i w h
resume-AreWithin (stopping_unhealthy i) o w h = h
resume-AreWithin (sleeping i) o w h = resume_restart-AreWithin i w h
resume-AreWithin (restarting i) o w h = start_settled-AreWithin i o w h
resume-AreWithin settling o w h = publish_states-AreWithin w h

step-AreWithin : (w : World) (e : Event) → AreWithin w → AreWithin (step w e)
unfolding step start_all
step-AreWithin w call_start_all h = h
step-AreWithin w call_stop_all h = stop_all-AreWithin w h
step-AreWithin w (timer i) h = tick-AreWithin i w h
step-AreWithin w (settle k o) h = elim (Option-cases (get_elem? w.tasks k)) [
  | inl e ↦ rw (e, step) h
  | inr (t, e) ↦ rw (e, step) (resume-AreWithin t o (record w { tasks = erase_at w.tasks k }) h)
]

run-AreWithin : (w : World) (events : List Event) → AreWithin w → AreWithin (run w events)
unfolding run
run-AreWithin w [] h = h
run-AreWithin w (e ∷ events) h = run-AreWithin (step w e) events (step-AreWithin w e h)

register-AreWithin : (spec : Spec) (w : World) → AreWithin w → AreWithin (register spec w)
unfolding register
register-AreWithin spec w h = All-append IsWithin w.services _ h (ground arith)

register_all-AreWithin :
    (specs : List Spec) (w : World) → AreWithin w → AreWithin (register_all specs w)
unfolding register_all
register_all-AreWithin [] w h = h
register_all-AreWithin (spec ∷ specs) w h =
    register_all-AreWithin specs (register spec w) (register-AreWithin spec w h)

-- Whatever services are registered and however the calls, timers and promises interleave, every
-- service keeps to its policy: never restarted under `never`, at most its maximum of restarts under
-- `on-failure`, and a health timer only if it has a health check.
pub run-IsWithin :
    (specs : List Spec) (events : List Event)
    → All IsWithin (run (register_all specs new) events).services
unfolding new
run-IsWithin specs events =
    run-AreWithin (register_all specs new) events (register_all-AreWithin specs new tt)
