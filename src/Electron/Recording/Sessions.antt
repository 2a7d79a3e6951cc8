-- ===== src/Electron/Recording/Sessions.antt =====
-- How often a session is stopped, and what a failed stop leaves.
use mozgoslav.Prelude.{
  ℕ, suc, ◌+◌, ◌≤◌, ◌≡◌, refl, sym, ap, ◌∙◌, Bool-cases, String, true, false, ◌&&◌, Option, none,
  some, List, [], ◌∷◌, ◌++◌, ◌==◌, if◌then◌else◌, arith, eq_iff, eq_refl, get_elem?, erase_at,
  length, get_elem?-push, erase_at-push, lookup, erase, lookup-insert, lookup-erase, lookup-empty,
  Option-cases, inl, inr, if_cases,
}
use mozgoslav.Electron.Recording.{
  Session, server_error, not_found, Call, start_file_capture, stop_file_capture, Task, stopping,
  Bridge, new, start, stop, strip_text, stop_match, Request, respond, open_session, handle_start,
  handle_stop, handle_other, handle, Outcome, fulfilled, rejected, resume, Event, call_start,
  call_stop, request, settle, step, run,
}

abbrev pub starts : String → List Call → ℕ
starts id [] = 0
starts id (start_file_capture _ sid _ ∷ calls) =
    if sid == id then suc (starts id calls) else starts id calls
starts id (_ ∷ calls) = starts id calls

abbrev pub stops : String → List Call → ℕ
stops id [] = 0
stops id (stop_file_capture sid ∷ calls) =
    if sid == id then suc (stops id calls) else stops id calls
stops id (_ ∷ calls) = stops id calls

abbrev listed : Option Session → ℕ
listed none = 0
listed (some _) = 1

-- a listed session has a start that no stop has answered
abbrev IsCounted : String → Bridge → Type 0
IsCounted id b = stops id b.calls + listed (lookup id b.sessions) ≤ starts id b.calls

open_session-IsCounted :
    (i id : String) (now : ℕ) (path : String) (stream : Option String) (b : Bridge)
    → IsCounted i b
    → IsCounted i (open_session id now path stream b)
unfolding open_session
open_session-IsCounted i id now path stream b h = ground (
  arith,
  eq_iff id i,
  lookup-insert id i (record { id = id; output_path = path; started_at = now }) b.sessions,
)

handle_start-IsCounted :
    (i id : String) (now : ℕ) (r : Request) (b : Bridge)
    → IsCounted i b
    → IsCounted i (handle_start id now r b)
unfolding handle_start
handle_start-IsCounted i id now r b h = elim (Option-cases r.output_path) [
  | inl e ↦ rw (e, handle_start) h
  | inr (path, e) ↦
      rw (e, handle_start)
        (if_cases (IsCounted i) (path == "") (λ f. h)
          (λ f. open_session-IsCounted i id now path r.stream_session_id b h))
]

handle_stop-IsCounted :
    (i id : String) (b : Bridge) → IsCounted i b → IsCounted i (handle_stop id b)
unfolding handle_stop
handle_stop-IsCounted i id b h = elim (Option-cases (lookup id b.sessions)) [
  | inl e ↦ rw (e, handle_stop) h
  | inr (session, e) ↦
      rw (e, handle_stop) (ground (arith, eq_iff id i, lookup-erase id i b.sessions))
]

handle_other-IsCounted :
    (i : String) (r : Request) (b : Bridge) → IsCounted i b → IsCounted i (handle_other r b)
unfolding handle_other
handle_other-IsCounted i r b h = elim (Option-cases (stop_match r.url)) [
  | inl e ↦ rw (e, handle_other) h
  | inr (id, e) ↦
      rw (e, handle_other)
        (if_cases (IsCounted i) r.post (λ f. handle_stop-IsCounted i id b h) (λ f. h))
]

handle-IsCounted :
    (i id : String) (now : ℕ) (r : Request) (b : Bridge)
    → IsCounted i b
    → IsCounted i (handle id now r b)
unfolding handle
handle-IsCounted i id now r b h =
    if_cases (IsCounted i) (r.url == "") (λ e. h)
      (λ e.
        if_cases (IsCounted i) (r.post && r.url == "/_internal/record/start")
          (λ f. handle_start-IsCounted i id now r b h) (λ f. handle_other-IsCounted i r b h))

resume-IsCounted :
    (i : String) (t : Task) (o : Outcome) (b : Bridge) → IsCounted i b → IsCounted i (resume t o b)
unfolding resume
resume-IsCounted i (Task.starting id) (fulfilled _ _) b h = h
resume-IsCounted i (stopping id) (fulfilled path ms) b h = h
resume-IsCounted i (Task.starting id) rejected b h = h
resume-IsCounted i (stopping id) rejected b h = h

step-IsCounted : (i : String) (b : Bridge) (e : Event) → IsCounted i b → IsCounted i (step b e)
unfolding step start stop
step-IsCounted i b call_start h = h
step-IsCounted i b call_stop h = ground (arith, lookup-empty {V = Session} i)
step-IsCounted i b (request id now r) h = handle-IsCounted i id now r b h
step-IsCounted i b (settle k o) h = elim (Option-cases (get_elem? b.tasks k)) [
  | inl e ↦ rw (e, step) h
  | inr (t, e) ↦ rw (e, step) (resume-IsCounted i t o (record b { tasks = erase_at b.tasks k }) h)
]

run_from-IsCounted :
    (i : String) (b : Bridge) (events : List Event) → IsCounted i b → IsCounted i (run b events)
unfolding run
run_from-IsCounted i b [] h = h
run_from-IsCounted i b (e ∷ events) h =
    run_from-IsCounted i (step b e) events (step-IsCounted i b e h)

-- Whatever requests come in which order, and whatever the helper answers, no session is stopped at
-- the helper more often than it was started.
pub stops-le-starts :
    (id : String) (events : List Event)
    → let b = run new events in stops id b.calls ≤ starts id b.calls
unfolding new
stops-le-starts id events =
    let h : IsCounted id (run new events) =
      run_from-IsCounted id new events (ground (arith, lookup-empty {V = Session} id)) in
    omega (arith, h)

other_url :
    (url u id : String) → stop_match u ≡ none → stop_match url ≡ some id → (url == u) ≡ false
other_url url u id n m = elim (Bool-cases (url == u)) [
  | inl f ↦
      let same : url ≡ u = ground (arith, eq_iff url u) in
      absurd (none-ne-some (sym n ∙ (ap stop_match (sym same) ∙ m)))
  | inr f ↦ f
]
  where
    none-ne-some : ¬ (◌≡◌ {A = Option String} none (some id))
    none-ne-some e = cc

stop_route :
    (id : String) (r : Request) (b : Bridge)
    → r.post ≡ true
    → stop_match r.url ≡ some id
    → handle_other r b ≡ handle_stop id b
unfolding handle_other
stop_route id r b p m = rw (m, handle_other) (ground arith)

-- a stop request comes to its handler
handle_lem :
    (id other_id : String) (now : ℕ) (r : Request) (b : Bridge)
    → r.post ≡ true
    → stop_match r.url ≡ some id
    → handle other_id now r b ≡ handle_stop id b
unfolding handle
handle_lem id other_id now r b p m =
    rw (other_url r.url "" id (unfold stop_match strip_text in refl) m) (
      rw (other_url r.url "/_internal/record/start" id (unfold stop_match strip_text in refl) m)
        (ground (arith, stop_route id r b p m)))

stop_found :
    (id : String) (session : Session) (b : Bridge)
    → lookup id b.sessions ≡ some session
    → handle_stop id b ≡ record b {
      sessions = erase id b.sessions;
      tasks = b.tasks ++ stopping id ∷ [];
      calls = stop_file_capture id ∷ b.calls;
    }
unfolding handle_stop
stop_found id session b e = rw (e, handle_stop) refl

stop_missing :
    (id : String) (b : Bridge)
    → lookup id b.sessions ≡ none
    → handle_stop id b ≡ respond not_found b
unfolding handle_stop
stop_missing id b e = ground arith

-- the latest task settles
step_last :
    (b : Bridge) (t : Task) (o : Outcome)
    → step (record b { tasks = b.tasks ++ t ∷ [] }) (settle (length b.tasks) o) ≡ resume t o b
unfolding step
step_last b t o = rw (get_elem?-push b.tasks t, step) (rw (erase_at-push b.tasks t) refl)

-- A stop that fails at the helper is final: the request is answered with a server error, and the
-- session is gone, so that a second stop of it is answered with "not found".
pub failed_stop_is_final :
    (b : Bridge) (session : Session) (id other_id : String) (now : ℕ) (r : Request)
    → lookup id b.sessions ≡ some session
    → r.post ≡ true
    → stop_match r.url ≡ some id
    → let stop_request = request other_id now r in
      let b' = run b (stop_request ∷ settle (length b.tasks) rejected ∷ stop_request ∷ []) in
      b'.responses ≡ not_found ∷ server_error ∷ b.responses
unfolding run step resume
failed_stop_is_final b session id other_id now r e p m =
    let asked : Bridge = record b {
      sessions = erase id b.sessions;
      calls = stop_file_capture id ∷ b.calls;
    } in
    let gone : lookup id (erase id b.sessions) ≡ none =
      ground (arith, lookup-erase id id b.sessions, eq_refl id) in
    rw (handle_lem id other_id now r b p m, stop_found id session b e)
      (rw (step_last asked (stopping id) rejected) (
        rw (handle_lem id other_id now r (respond server_error asked) p m)
          (rw (stop_missing id (respond server_error asked) gone) refl)))
