-- ===== src/Electron/Helper/Requests.antt =====
-- What becomes of the requests to the helper over a run.
use mozgoslav.Prelude.{
  ℕ, ◌≡◌, refl, ◌∙◌, String, true, Option, none, some, List, [], ◌∷◌, ◌++◌, arith, eqb, is_some,
  All, All-imp, Bool-cases, Option-cases, inl, inr, lookup,
}
use mathlib.Core.List.{reverse}
use mozgoslav.Prelude.JsText.{trim, is_empty}
use mozgoslav.Electron.Helper.{
  Reply, Message, Client, new, start, write_error, reject_all_pending, process_gone_event,
  handle_message, handle_line, drain, take_text, handle_stdout, Event, call_start, call_send,
  call_stop, stdout_data, stdin_error, child_gone, step, run,
}
use mozgoslav.Electron.Helper.Later.{
  is_covered, IsAccounted, IsLater, IsLater-refl, IsLater-trans, lookup-reject_entries,
  start-IsLater, later-IsAccounted, send-IsAccounted, send-IsLater, write_error-IsLater,
  reject_all-IsLater, dispatch-IsLater, dispatch-sent, stop-IsLater, stop-IsAccounted,
}

module _ {R : Type 0} (parse : List ℕ → Option (Message R)) where
  -- a line of output settles and passes on, and sends nothing
  record IsRead (c c' : Client R) : Type 0 where
    later : IsLater c c'
    same_sent : c'.sent ≡ c.sent

  IsRead-refl : (c : Client R) (buffer : List ℕ) → IsRead c (record c { buffer = buffer })
  IsRead-refl c buffer = record {
    later = record { kept = λ i r e. e; covered = λ i e. e };
    same_sent = refl;
  }

  IsRead-trans : (a b c : Client R) → IsRead a b → IsRead b c → IsRead a c
  IsRead-trans a b c h k = record {
    later = IsLater-trans a b c h.later k.later;
    same_sent = k.same_sent ∙ h.same_sent;
  }

  handle_line-IsRead : (line : List ℕ) (c : Client R) → IsRead c (handle_line parse line c)
  unfolding handle_line handle_message
  handle_line-IsRead line c = elim (Bool-cases (is_empty (trim line))) [
    | inl e ↦ rw (e, handle_line) (IsRead-refl c c.buffer)
    | inr e ↦
        rw (e, handle_line)
          (elim (Option-cases (parse (trim line))) [
            | inl f ↦ rw (f, handle_message) (IsRead-refl c c.buffer)
            | inr (m, f) ↦
                rw (f, handle_message)
                  (record { later = dispatch-IsLater m c; same_sent = dispatch-sent m c })
          ])
  ]

  drain-IsRead : (cur text : List ℕ) (c : Client R) → IsRead c (drain parse cur text c)
  unfolding drain
  drain-IsRead cur [] c = IsRead-refl c (reverse cur)
  drain-IsRead cur (u ∷ text) c = elim (Bool-cases (eqb u 10)) [
    | inl e ↦
        let b : Client R = record c { buffer = text } in
        let d : Client R = handle_line parse (reverse cur) b in
        rw (e, drain)
          (IsRead-trans c d (drain parse [] text d)
            (IsRead-trans c b d (IsRead-refl c text) (handle_line-IsRead (reverse cur) b))
            (drain-IsRead [] text d))
    | inr e ↦ rw (e, drain) (drain-IsRead (u ∷ cur) text c)
  ]

module _ {R : Type 0} (decode : List ℕ → List ℕ) (parse : List ℕ → Option (Message R)) where
  step-IsLater : (c : Client R) (e : Event) → IsLater c (step decode parse c e)
  unfolding step handle_stdout take_text process_gone_event
  step-IsLater c call_start = start-IsLater c
  step-IsLater c (call_send id method writable) = send-IsLater id method writable c
  step-IsLater c (call_stop id writable) = stop-IsLater id writable c
  step-IsLater c (stdout_data chunk) = (drain-IsRead parse [] (c.buffer ++ decode chunk) c).later
  step-IsLater c (stdin_error id) = write_error-IsLater id c
  step-IsLater c (child_gone child) =
      let l : IsLater (record c { process = none }) (process_gone_event c) = reject_all-IsLater _ in
      record { kept = l.kept; covered = l.covered }

  step-IsAccounted :
      (c : Client R) (e : Event) → IsAccounted c → IsAccounted (step decode parse c e)
  unfolding step handle_stdout take_text process_gone_event start write_error reject_all_pending
  step-IsAccounted c call_start h = later-IsAccounted c _ (start-IsLater c) (ground arith) h
  step-IsAccounted c (call_send id method writable) h = send-IsAccounted id method writable c h
  step-IsAccounted c (call_stop id writable) h = stop-IsAccounted id writable c h
  step-IsAccounted c (stdout_data chunk) h =
      let r : IsRead parse c (drain parse [] (c.buffer ++ decode chunk) c) =
        drain-IsRead parse [] (c.buffer ++ decode chunk) c in
      later-IsAccounted c _ r.later r.same_sent h
  step-IsAccounted c (stdin_error id) h = later-IsAccounted c _ (write_error-IsLater id c) refl h
  step-IsAccounted c (child_gone child) h =
      later-IsAccounted c (process_gone_event c) (step-IsLater c (child_gone child)) refl h

  run_from-IsAccounted :
      (c : Client R) (events : List Event) → IsAccounted c → IsAccounted (run decode parse c events)
  unfolding run
  run_from-IsAccounted c [] h = h
  run_from-IsAccounted c (e ∷ events) h =
      run_from-IsAccounted (step decode parse c e) events (step-IsAccounted c e h)

  run_from-IsLater : (c : Client R) (events : List Event) → IsLater c (run decode parse c events)
  unfolding run
  run_from-IsLater c [] = IsLater-refl c
  run_from-IsLater c (e ∷ events) =
      IsLater-trans c (step decode parse c e) (run decode parse (step decode parse c e) events)
        (step-IsLater c e) (run_from-IsLater (step decode parse c e) events)

  -- A settled promise stays as it settled, whatever happens afterwards.
  pub run_keeps_settled :
      (c : Client R) (events : List Event) (id : String) (r : Reply R)
      → lookup id c.settled ≡ some r
      → lookup id (run decode parse c events).settled ≡ some r
  run_keeps_settled c events id r e = (run_from-IsLater c events).kept id r e

  gone-settled :
      (c : Client R) (id : String)
      → is_covered c id ≡ true
      → is_some (lookup id (process_gone_event c).settled) ≡ true
  unfolding process_gone_event reject_all_pending
  gone-settled c id e = ground (arith, lookup-reject_entries id c.pending c.settled)

  -- No request hangs: whatever was sent, answered, failed or stopped before in any order, once a child
  -- is gone every request that was written to the helper has settled and none is pending.
  pub gone_settles_every :
      (events : List Event) (child : ℕ)
      → let c = step decode parse (run decode parse new events) (child_gone child) in
        All (λ id. is_some (lookup id c.settled) ≡ true) c.sent × (c.pending ≡ [])
  unfolding step new process_gone_event reject_all_pending
  gone_settles_every events child =
      let c : Client R = run decode parse new events in
      let h : IsAccounted c = run_from-IsAccounted new events tt in
      (All-imp (λ id. is_covered c id ≡ true) _ c.sent (gone-settled c) h, refl)
