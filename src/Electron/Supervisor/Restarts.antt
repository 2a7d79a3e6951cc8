-- ===== src/Electron/Supervisor/Restarts.antt =====
-- How often the start function of a service is called.
use mozgoslav.Prelude.{
  if_cases, ltb, eqb, leb, erase_at, set, ℕ, suc, ◌+◌, ◌≤◌, ◌≡◌, refl, true, false, not, ◌&&◌, ◌||◌,
  some, inl, inr, List, [], ◌∷◌, arith, Option-cases, get_elem?, All-get, if◌then◌else◌,
  get_elem?-set_self,
}
use mozgoslav.Electron.Supervisor.{
  register_all, RestartPolicy, always, on_failure, never, Spec, Managed, World, register, new,
  publish_states, put_service, Outcome, fulfilled, rejected, started, schedule_health_loop,
  start_settled, start_next, start_all, call_start, stop_all, tick, max_restarts_of,
  handle_unhealthy, resume_restart, Task, resume, Event, step, run, cleaning, starting_in_order,
  checking, stopping_unhealthy, sleeping, restarting, settling, call_start_all, call_stop_all,
  timer, settle, is_never, is_on_failure,
}
use mozgoslav.Electron.Supervisor.Bounds.{IsWithin, run-IsWithin}
use mozgoslav.Electron.Supervisor.Owed.{
  calls_of, restarts, owes, owed-push, owed-erase_at, restarts-set, restarts-get,
  restarts-shut_down, IsPaid, publish_states-IsPaid, with_service-IsPaid, put_service-IsPaid,
  put_same-IsPaid, publish_states-services,
}

start_settled-IsPaid :
    (i n x j : ℕ) (o : Outcome) (w : World) → IsPaid i n x w → IsPaid i n x (start_settled j o w)
unfolding start_settled
start_settled-IsPaid i n x j o w h =
    with_service-IsPaid i n x x j w _ h
      (λ m e.
        let up : Managed = started m o in
        let w' : World = publish_states (put_service w j up) in
        let there : get_elem? w'.services j ≡ some up =
          rw (publish_states-services (put_service w j up))
            (get_elem?-set_self w.services j up m e) in
        put_same-IsPaid i n x j w' up (schedule_health_loop up) there (ground arith) (
          publish_states-IsPaid i n x (put_service w j up)
            (put_same-IsPaid i n x j w m up e (ground arith) h)))
      (omega arith)

-- a start that is owed is made
start_next-IsPaid :
    (i n j : ℕ) (w : World)
    → IsPaid i n ((if eqb j i then 1 else 0) + (if ltb j i then 1 else 0)) w
    → IsPaid i n 0 (start_next j w)
unfolding start_next call_start
start_next-IsPaid i n j w h =
    with_service-IsPaid i n 0 _ j w _ h
      (λ m e.
        let same : restarts i (set w.services j (record m { stopped = false }))
            ≡ restarts i w.services + (if eqb j i then 0 else 0) =
          restarts-set i j 0 w.services m (record m { stopped = false }) e (omega arith) in
        record { paid = ground (arith, h.paid, same, owed-push i w.tasks (starting_in_order j)) })
      (omega arith)

stop_all-IsPaid : (i n : ℕ) (w : World) → IsPaid i n 0 w → IsPaid i n 0 (stop_all w)
unfolding stop_all
stop_all-IsPaid i n w h = record {
  paid = omega (arith, h.paid, restarts-shut_down i w.services, owed-push i w.tasks settling);
}

tick-IsPaid : (i n j : ℕ) (w : World) → IsPaid i n 0 w → IsPaid i n 0 (tick j w)
unfolding tick
tick-IsPaid i n j w h =
    with_service-IsPaid i n 0 0 j w _ h
      (λ m e.
        if_cases (IsPaid i n 0) (not m.health_timer) (λ _. h)
          λ _.
            if_cases (IsPaid i n 0) (m.stopped || w.global_stopped)
              (λ _. put_same-IsPaid i n 0 j w m (record m { health_timer = false }) e refl h)
              (λ _. record { paid = omega (arith, h.paid, owed-push i w.tasks (checking j)) }))
      (omega arith)

-- the restart that is owed from here on is counted here
handle_unhealthy-IsPaid :
    (i n j : ℕ) (w : World) → IsPaid i n 0 w → IsPaid i n 0 (handle_unhealthy j w)
unfolding handle_unhealthy
handle_unhealthy-IsPaid i n j w h =
    with_service-IsPaid i n 0 0 j w _ h
      (λ m e.
        if_cases (IsPaid i n 0) (m.stopped || w.global_stopped) (λ _. h)
          λ _.
            if_cases (IsPaid i n 0) (is_never m.spec.restart_policy)
              (λ _.
                publish_states-IsPaid i n 0 _
                  (put_same-IsPaid i n 0 j w m (record m { running = false }) e refl h))
              λ _.
                if_cases (IsPaid i n 0)
                  (is_on_failure m.spec.restart_policy
                    && leb (max_restarts_of m.spec) m.restart_count)
                  (λ _. publish_states-IsPaid i n 0 _ (
                    put_same-IsPaid i n 0 j w m (record m { stopped = true; running = false }) e
                      refl h))
                  (λ _.
                    let more : Managed = record m {
                      restart_count = m.restart_count + 1;
                      running = false;
                    } in
                    let w' : World = publish_states (put_service w j more) in
                    let v : IsPaid i n (0 + (if eqb j i then 1 else 0)) w' =
                      publish_states-IsPaid i n _ (put_service w j more)
                        (put_service-IsPaid i n 0 j 1 w m more e refl h) in
                    record {
                      paid = omega (arith, v.paid, owed-push i w'.tasks (stopping_unhealthy j));
                    }))
      (omega arith)

resume_restart-IsPaid :
    (i n j : ℕ) (w : World)
    → IsPaid i n (if eqb j i then 1 else 0) w
    → IsPaid i n 0 (resume_restart j w)
unfolding resume_restart call_start
resume_restart-IsPaid i n j w h =
    with_service-IsPaid i n 0 _ j w _ h
      (λ m e.
        if_cases (IsPaid i n 0) (not m.stopped && not w.global_stopped)
          (λ _. record { paid = omega (arith, h.paid, owed-push i w.tasks (restarting j)) })
          (λ _. record { paid = omega (arith, h.paid) }))
      (omega arith)

resume-IsPaid :
    (i n : ℕ) (t : Task) (o : Outcome) (w : World)
    → IsPaid i n (owes i t) w
    → IsPaid i n 0 (resume t o w)
unfolding resume
resume-IsPaid i n cleaning o w h =
    start_next-IsPaid i n 0 w (record { paid = ground (arith, h.paid) })
resume-IsPaid i n (starting_in_order j) o w h =
    start_next-IsPaid i n (suc j) (start_settled j o w)
      (start_settled-IsPaid i n _ j o w (record { paid = ground (arith, h.paid) }))
resume-IsPaid i n (checking j) (fulfilled true) w h = h
resume-IsPaid i n (checking j) (fulfilled false) w h = handle_unhealthy-IsPaid i n j w h
resume-IsPaid i n (checking j) (rejected e) w h = handle_unhealthy-IsPaid i n j w h
resume-IsPaid i n (stopping_unhealthy j) o w h = record {
  paid = omega (arith, h.paid, owed-push i w.tasks (sleeping j));
}
resume-IsPaid i n (sleeping j) o w h = resume_restart-IsPaid i n j w h
resume-IsPaid i n (restarting j) o w h = start_settled-IsPaid i n 0 j o w h
resume-IsPaid i n settling o w h = publish_states-IsPaid i n 0 w h

abbrev starts_all : Event → ℕ
starts_all call_start_all = 1
starts_all _ = 0

-- how often a list of events calls `startAll`
abbrev pub start_all_calls : List Event → ℕ
start_all_calls [] = 0
start_all_calls (e ∷ events) = starts_all e + start_all_calls events

step-IsPaid :
    (i n : ℕ) (w : World) (e : Event) → IsPaid i n 0 w → IsPaid i (n + starts_all e) 0 (step w e)
unfolding step start_all
step-IsPaid i n w call_start_all h = record {
  paid = omega (arith, h.paid, owed-push i w.tasks cleaning);
}
step-IsPaid i n w call_stop_all h = record { paid = omega (arith, (stop_all-IsPaid i n w h).paid) }
step-IsPaid i n w (timer j) h = record { paid = omega (arith, (tick-IsPaid i n j w h).paid) }
step-IsPaid i n w (settle k o) h = elim (Option-cases (get_elem? w.tasks k)) [
  | inl e ↦ rw (e, step) (record { paid = omega (arith, h.paid) })
  | inr (t, e) ↦
      let v : IsPaid i n (owes i t) (record w { tasks = erase_at w.tasks k }) = record {
        paid = omega (arith, h.paid, owed-erase_at i w.tasks k t e);
      } in
      rw (e, step)
        (record {
          paid =
              omega
                (arith, (resume-IsPaid i n t o (record w { tasks = erase_at w.tasks k }) v).paid);
        })
]

run-IsPaid :
    (i n : ℕ) (w : World) (events : List Event)
    → IsPaid i n 0 w
    → IsPaid i (n + start_all_calls events) 0 (run w events)
unfolding run
run-IsPaid i n w [] h = record { paid = omega (arith, h.paid) }
run-IsPaid i n w (e ∷ events) h =
    let v : IsPaid i (n + starts_all e + start_all_calls events) 0 (run (step w e) events) =
      run-IsPaid i (n + starts_all e) (step w e) events (step-IsPaid i n w e h) in
    record { paid = omega (arith, v.paid) }

register_all-IsPaid :
    (i : ℕ) (specs : List Spec) (w : World)
    → w.start_calls ≡ []
    → w.tasks ≡ []
    → IsPaid i 0 0 (register_all specs w)
unfolding register_all register
register_all-IsPaid i [] w s t = record { paid = rw (s, t) (omega arith) }
register_all-IsPaid i (spec ∷ specs) w s t = register_all-IsPaid i specs (register spec w) s t

-- how many restarts the policy of a service allows; `always` allows those that are counted and shown
abbrev pub allowed : Managed → ℕ
allowed m = elim m.spec.restart_policy [
  | never ↦ 0
  | on_failure ↦ max_restarts_of m.spec
  | always ↦ m.restart_count
]

restart_count-le-allowed :
    (m : Managed) (p : RestartPolicy)
    → m.spec.restart_policy ≡ p
    → IsWithin m
    → m.restart_count ≤ allowed m
restart_count-le-allowed m never e v = rw e (omega (arith, v.never_restarted e))
restart_count-le-allowed m on_failure e v = rw e (v.capped e)
restart_count-le-allowed m always e v = rw e (omega arith)

-- Whatever services are registered and however the calls, timers and promises interleave, the start
-- function of a service is called at most once for each `startAll` and once for each restart that
-- its policy allows: none under `never`, its maximum under `on-failure`, and as many as the restart
-- count shows under `always`. Its restart count and its health timer keep to its policy as well.
pub starts-le-allowed :
    (specs : List Spec) (events : List Event) (i : ℕ) (m : Managed)
    → get_elem? (run (register_all specs new) events).services i ≡ some m
    → (calls_of i (run (register_all specs new) events).start_calls
        ≤ start_all_calls events + allowed m)
      × IsWithin m
unfolding new
starts-le-allowed specs events i m e =
    let w : World = run (register_all specs new) events in
    let v : IsWithin m = All-get IsWithin w.services i m (run-IsWithin specs events) e in
    let p : IsPaid i (0 + start_all_calls events) 0 w =
      run-IsPaid i 0 (register_all specs new) events (register_all-IsPaid i specs new refl refl) in
    (
      omega (
        arith,
        p.paid,
        restarts-get i w.services m e,
        restart_count-le-allowed m m.spec.restart_policy refl v,
      ),
      v,
    )
