-- ===== src/Electron/Supervisor/Owed.antt =====
-- The starts that are made and owed against the calls and restarts that pay for them.
use mozgoslav.Prelude.{
  if_cases, ltb, eqb, erase_at, set, ℕ, zero, suc, ◌+◌, ◌≤◌, ◌≡◌, refl, some, inl, inr, List, [],
  ◌∷◌, ◌++◌, map, arith, Option-cases, get_elem?, if◌then◌else◌,
}
use mozgoslav.Electron.Supervisor.{
  Managed, World, publish_states, with_service, put_service, shut_down, Task, cleaning,
  starting_in_order, checking, stopping_unhealthy, sleeping, restarting, settling,
}

-- how often `i` stands in a list of calls
abbrev pub calls_of : ℕ → List ℕ → ℕ
calls_of i [] = 0
calls_of i (j ∷ calls) = (if eqb j i then 1 else 0) + calls_of i calls

-- the restarts that service `i` has counted
abbrev pub restarts : ℕ → List Managed → ℕ
restarts i [] = 0
restarts zero (m ∷ services) = m.restart_count
restarts (suc i) (m ∷ services) = restarts i services

-- whether a task leads to a start of service `i`
abbrev pub owes : ℕ → Task → ℕ
owes i cleaning = 1
owes i (starting_in_order j) = if ltb j i then 1 else 0
owes i (checking j) = 0
owes i (stopping_unhealthy j) = if eqb j i then 1 else 0
owes i (sleeping j) = if eqb j i then 1 else 0
owes i (restarting j) = 0
owes i settling = 0

abbrev pub owed : ℕ → List Task → ℕ
owed i [] = 0
owed i (t ∷ tasks) = owes i t + owed i tasks

pub owed-push :
    (i : ℕ) (tasks : List Task) (t : Task) → owed i (tasks ++ t ∷ []) ≡ owed i tasks + owes i t
owed-push i [] t = omega arith
owed-push i (u ∷ tasks) t = omega (arith, owed-push i tasks t)

pub owed-erase_at :
    (i : ℕ) (tasks : List Task) (k : ℕ) (t : Task)
    → get_elem? tasks k ≡ some t
    → owed i (erase_at tasks k) + owes i t ≡ owed i tasks
owed-erase_at i [] k t e = cc
owed-erase_at i (u ∷ tasks) zero t e = ground arith
owed-erase_at i (u ∷ tasks) (suc k) t e = omega (arith, owed-erase_at i tasks k t e)

pub restarts-set :
    (i j d : ℕ) (services : List Managed) (old m : Managed)
    → get_elem? services j ≡ some old
    → m.restart_count ≡ old.restart_count + d
    → restarts i (set services j m) ≡ restarts i services + (if eqb j i then d else 0)
restarts-set i j d [] old m e h = cc
restarts-set zero zero d (x ∷ services) old m e h = ground arith
restarts-set zero (suc j) d (x ∷ services) old m e h = ground arith
restarts-set (suc i) zero d (x ∷ services) old m e h = ground arith
restarts-set (suc i) (suc j) d (x ∷ services) old m e h =
    ground (arith, restarts-set i j d services old m e h)

pub restarts-get :
    (i : ℕ) (services : List Managed) (m : Managed)
    → get_elem? services i ≡ some m
    → restarts i services ≡ m.restart_count
restarts-get i [] m e = cc
restarts-get zero (x ∷ services) m e = ground arith
restarts-get (suc i) (x ∷ services) m e = restarts-get i services m e

pub restarts-shut_down :
    (i : ℕ) (services : List Managed) → restarts i (map shut_down services) ≡ restarts i services
restarts-shut_down i [] = refl
restarts-shut_down zero (m ∷ services) = refl
restarts-shut_down (suc i) (m ∷ services) = restarts-shut_down i services

-- The starts of service `i` that were made and those that are owed, with `x` of a task that runs, are
-- paid for by `n` calls of `startAll` and by the counted restarts.
pub record IsPaid (i n x : ℕ) (w : World) : Type 0 where
  pub paid : calls_of i w.start_calls + owed i w.tasks + x ≤ n + restarts i w.services

pub publish_states-IsPaid :
    (i n x : ℕ) (w : World) → IsPaid i n x w → IsPaid i n x (publish_states w)
unfolding publish_states
publish_states-IsPaid i n x w h =
    if_cases (IsPaid i n x) w.has_callback (λ _. record { paid = h.paid }) (λ _. h)

pub with_service-IsPaid :
    (i n x y j : ℕ) (w : World) (k : Managed → World)
    → IsPaid i n y w
    → ((m : Managed) → get_elem? w.services j ≡ some m → IsPaid i n x (k m))
    → x ≤ y
    → IsPaid i n x (with_service w j k)
with_service-IsPaid i n x y j w k h f le = elim (Option-cases (get_elem? w.services j)) [
  | inl e ↦ rw (e, with_service) (record { paid = omega (arith, h.paid, le) })
  | inr (m, e) ↦ rw (e, with_service) (f m e)
]

-- a service is replaced by one that has counted `d` restarts more
pub put_service-IsPaid :
    (i n x j d : ℕ) (w : World) (old m : Managed)
    → get_elem? w.services j ≡ some old
    → m.restart_count ≡ old.restart_count + d
    → IsPaid i n x w
    → IsPaid i n (x + (if eqb j i then d else 0)) (put_service w j m)
put_service-IsPaid i n x j d w old m e h v = record {
  paid = omega (arith, v.paid, restarts-set i j d w.services old m e h);
}

pub put_same-IsPaid :
    (i n x j : ℕ) (w : World) (old m : Managed)
    → get_elem? w.services j ≡ some old
    → m.restart_count ≡ old.restart_count
    → IsPaid i n x w
    → IsPaid i n x (put_service w j m)
put_same-IsPaid i n x j w old m e h v =
    let same : m.restart_count ≡ old.restart_count + 0 = omega (arith, h) in
    record { paid = ground (arith, v.paid, restarts-set i j 0 w.services old m e same) }

pub publish_states-services : (w : World) → (publish_states w).services ≡ w.services
unfolding publish_states
publish_states-services w =
    if_cases (λ (v : World). v.services ≡ w.services) w.has_callback (λ _. refl) (λ _. refl)
