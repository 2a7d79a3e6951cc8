-- ===== src/Electron/Supervisor/Zombies.antt =====
-- `cleanupZombies`: the processes that hold a service's port. The answers of `findPidsOnPort` are a
-- parameter, the n-th answer under n; time is counted in the milliseconds slept.
use mozgoslav.Prelude.{
  ℕ, zero, suc, ◌+◌, ◌-◌, ◌*◌, ◌≤◌, ◌≡◌, refl, ◌∙◌, ap, ◌≢◌, ◌⊎◌, inl, inr, Bool, true, false, none,
  some, List, [], ◌∷◌, arith, if◌then◌else◌, length,
}
use mozgoslav.Electron.Supervisor.{Managed}

pub data Signal : Type 0 where
  sigterm sigkill : Signal

-- the calls of `findPidsOnPort` so far, the time slept, and the signals sent, the latest first
pub record Sweep : Type 0 where
  pub probes : ℕ
  pub slept_ms : ℕ
  pub signals : List (Signal × List ℕ)

-- `this.services.flatMap(...)`
unfoldable pub ports_to_clean : List Managed → List ℕ
ports_to_clean [] = []
ports_to_clean (m ∷ services) = elim m.spec.port [
  | none ↦ ports_to_clean services
  | some port ↦ port ∷ ports_to_clean services
]

abbrev is_empty : List ℕ → Bool
is_empty [] = true
is_empty (_ ∷ _) = false

is_empty-cases : (l : List ℕ) → ((is_empty l ≡ true) × (l ≡ [])) ⊎ ((is_empty l ≡ false) × (l ≢ []))
is_empty-cases [] = inl (refl, refl)
is_empty-cases (x ∷ l) = inr (refl, λ e. cc)

abbrev asked : Sweep → Sweep
asked s = record s { probes = s.probes + 1 }

abbrev paused : ℕ → Sweep → Sweep
paused ms s = record s { slept_ms = s.slept_ms + ms }

-- `killPids`: a process that is gone is passed over
abbrev sent : Signal → List ℕ → Sweep → Sweep
sent signal pids s = record s { signals = (signal, pids) ∷ s.signals }

module _ (find_pids : ℕ → List ℕ) where
  -- the polls of the inner loop, `rounds` of them left
  unfoldable pub await_exit : ℕ → Sweep → Sweep
  await_exit zero s = s
  await_exit (suc rounds) s =
      let rest = await_exit rounds (asked (paused 100 s)) in
      if is_empty (find_pids s.probes) then asked (paused 100 s) else rest

  -- the last probe, and the signal for those that are still there
  unfoldable pub kill_stubborn : Sweep → Sweep
  kill_stubborn s =
      let stubborn = find_pids s.probes in
      if is_empty stubborn then asked s else paused 200 (sent sigkill stubborn (asked s))

  -- the body of the loop over the ports
  unfoldable pub clean_port : Sweep → Sweep
  clean_port s =
      let pids = find_pids s.probes in
      if is_empty pids then asked s else kill_stubborn (await_exit 30 (sent sigterm pids (asked s)))

  unfoldable pub cleanup_zombies : List ℕ → Sweep → Sweep
  cleanup_zombies [] s = s
  cleanup_zombies (port ∷ ports) s = cleanup_zombies ports (clean_port s)

  await_exit_bounds :
      (rounds : ℕ) (s : Sweep)
      → let s' = await_exit rounds s in
        (s'.probes ≤ s.probes + rounds)
        × (s'.slept_ms ≤ s.slept_ms + 100 * rounds)
        × (s'.signals ≡ s.signals)
  unfolding await_exit
  await_exit_bounds zero s = (omega arith, omega arith, refl)
  await_exit_bounds (suc rounds) s = ground (arith, await_exit_bounds rounds (asked (paused 100 s)))

  clean_port_bounds :
      (s : Sweep)
      → let s' = clean_port s in (s'.probes ≤ s.probes + 32) × (s'.slept_ms ≤ s.slept_ms + 3200)
  unfolding clean_port kill_stubborn
  clean_port_bounds s =
      ground (arith, await_exit_bounds 30 (sent sigterm (find_pids s.probes) (asked s)))

  -- Whatever processes come and go, the sweep ends: for each port it looks at most 32 times and
  -- waits at most 3.2 seconds.
  pub cleanup_zombies_bounds :
      (ports : List ℕ) (s : Sweep)
      → let s' = cleanup_zombies ports s in
        (s'.probes ≤ s.probes + 32 * length ports)
        × (s'.slept_ms ≤ s.slept_ms + 3200 * length ports)
  unfolding cleanup_zombies
  cleanup_zombies_bounds [] s = (omega arith, omega arith)
  cleanup_zombies_bounds (port ∷ ports) s =
      omega (arith, clean_port_bounds s, cleanup_zombies_bounds ports (clean_port s))

  kill_stubborn_lem :
      (u : Sweep)
      → let u' = kill_stubborn u in
        let last = find_pids (u'.probes - 1) in
        ((last ≡ []) × (u'.signals ≡ u.signals))
        ⊎ ((last ≢ []) × (u'.signals ≡ (sigkill, last) ∷ u.signals))
  unfolding kill_stubborn
  kill_stubborn_lem u =
      let same : u.probes + 1 - 1 ≡ u.probes = omega arith in
      elim (is_empty-cases (find_pids u.probes)) [
        | inl (e, free) ↦ rw (e, kill_stubborn) (inl (rw same free, refl))
        | inr (e, held) ↦ rw (e, kill_stubborn) (inr (rw same held, rw same refl))
      ]

  -- What a port's turn does. A free port gets no signal. An occupied one gets SIGTERM for the
  -- processes seen first; then it was seen free at the last look, or SIGKILL went to all that were
  -- seen there at the last look.
  pub clean_port_signals :
      (s : Sweep)
      → let s' = clean_port s in
        let first = find_pids s.probes in
        let last = find_pids (s'.probes - 1) in
        ((first ≡ []) × (s'.signals ≡ s.signals))
        ⊎ ((first ≢ []) × (last ≡ []) × (s'.signals ≡ (sigterm, first) ∷ s.signals))
        ⊎ ((first ≢ [])
            × (last ≢ [])
            × (s'.signals ≡ (sigkill, last) ∷ (sigterm, first) ∷ s.signals))
  unfolding clean_port
  clean_port_signals s =
      let pids = find_pids s.probes in
      let u = await_exit 30 (sent sigterm pids (asked s)) in
      let kept : u.signals ≡ (sigterm, pids) ∷ s.signals =
        (await_exit_bounds 30 (sent sigterm pids (asked s))).2 in
      elim (is_empty-cases pids) [
        | inl (e, free) ↦ rw (e, clean_port) (inl (free, refl))
        | inr (e, held) ↦
            rw (e, clean_port)
              (elim (kill_stubborn_lem u) [
                | inl (gone, same) ↦ inr (inl (held, gone, same ∙ kept))
                | inr (there, more) ↦ inr (
                    inr (
                      held,
                      there,
                      more ∙ ap (λ l. (sigkill, find_pids ((kill_stubborn u).probes - 1)) ∷ l) kept,
                    ))
              ])
      ]
