-- ===== src/Electron/Helper/Answers.antt =====
-- What an answer of the helper does, and what a child that ends late does.
use mozgoslav.Prelude.{
  ℕ, suc, ◌≡◌, refl, ◌≢◌, String, Bool, true, false, Option, none, some, List, [], ◌∷◌, ◌==◌, arith,
  eq_iff, eq_refl, Bool-cases, inl, inr, is_some, Dict, lookup, insert, lookup-insert, lookup-erase,
}
use mozgoslav.Electron.Helper.{
  process_gone, not_running, not_writable, reply_of, Reply, rejected, Message, Client, is_event,
  settle, start, send, stop, reject_entries, reject_all_pending, process_gone_event, dispatch,
  call_start, call_send, call_stop, child_gone, step, run,
}
use mozgoslav.Electron.Helper.Later.{reject_entries_keeps}

module _ {R : Type 0} where
  -- An answer to an open request that has not settled settles it as the helper says, closes it, and
  -- touches no other request and passes no event on.
  pub dispatch_answers :
      (m : Message R) (c : Client R) (id other : String)
      → m.id ≡ some id
      → is_event (some id) ≡ false
      → is_some (lookup id c.pending) ≡ true
      → lookup id c.settled ≡ none
      → other ≢ id
      → let c' = dispatch m c in
        (lookup id c'.settled ≡ some (reply_of m))
        × (lookup id c'.pending ≡ none)
        × (lookup other c'.settled ≡ lookup other c.settled)
        × (lookup other c'.pending ≡ lookup other c.pending)
        × (c'.emitted ≡ c.emitted)
  unfolding dispatch
  dispatch_answers m c id other e not_event listed unsettled n =
      let named : is_event m.id ≡ false = rw e not_event in
      rw (named, dispatch)
        (rw (e, listed, unsettled)
          (
            ground (arith, lookup-insert id id (reply_of m) c.settled, eq_refl id),
            ground (arith, lookup-erase id id c.pending, eq_refl id),
            ground (arith, lookup-insert id other (reply_of m) c.settled, eq_iff id other),
            ground (arith, lookup-erase id other c.pending, eq_iff id other),
            refl,
          ))

  settled-stop :
      (id stop_id : String) (writable : Bool) (c : Client R)
      → id ≢ stop_id
      → lookup id c.settled ≡ none
      → lookup id (stop stop_id writable c).settled ≡ none
  unfolding stop send
  settled-stop id stop_id writable c n e = ground (
    arith,
    eq_iff stop_id id,
    lookup-insert stop_id id (rejected not_running) c.settled,
    lookup-insert stop_id id (rejected not_writable) c.settled,
  )

  process-stop :
      (stop_id : String) (writable : Bool) (c : Client R) (old : ℕ)
      → c.process ≡ some old
      → ((stop stop_id writable c).process ≡ none) × ((stop stop_id writable c).spawned ≡ c.spawned)
  unfolding stop send
  process-stop stop_id writable c old e = ground arith

  -- a request to a child that is started for it
  send-start :
      (id method : String) (c : Client R)
      → c.process ≡ none
      → send id method true (start c) ≡ record c {
        process = some c.spawned;
        spawned = suc c.spawned;
        pending = insert id method c.pending;
        sent = id ∷ c.sent;
      }
  unfolding send start
  send-start id method c e = ground arith

  reject_entries-pending :
      (id : String) (entries : Dict String) (settled : Dict (Reply R))
      → is_some (lookup id entries) ≡ true
      → lookup id settled ≡ none
      → lookup id (reject_entries entries settled) ≡ some (rejected process_gone)
  unfolding reject_entries lookup
  reject_entries-pending id [] settled h e = cc
  reject_entries-pending id ((k, method) ∷ entries) settled h e = elim (Bool-cases (k == id)) [
    | inl f ↦
        reject_entries_keeps id (rejected process_gone) entries
          (settle k (rejected process_gone) settled)
          (ground (arith, lookup-insert k id (rejected process_gone) settled, eq_iff k id))
    | inr f ↦
        reject_entries-pending id entries (settle k (rejected process_gone) settled) (ground arith)
          (ground (arith, lookup-insert k id (rejected process_gone) settled))
  ]

module _ {R : Type 0} (decode : List ℕ → List ℕ) (parse : List ℕ → Option (Message R)) where
  -- The end of a stopped child is taken for the end of the child that was started after it: the
  -- client then has no process, and a request that was written to the new child is rejected.
  pub late_end_drops_new_child :
      (c : Client R) (old : ℕ) (stop_id id method : String) (writable : Bool)
      → c.process ≡ some old
      → lookup id c.settled ≡ none
      → id ≢ stop_id
      → let started =
          run decode parse c
            (call_stop stop_id writable ∷ call_start ∷ call_send id method true ∷ []) in
        let ended = step decode parse started (child_gone old) in
        (started.process ≡ some c.spawned)
        × (is_some (lookup id started.pending) ≡ true)
        × (ended.process ≡ none)
        × (lookup id ended.settled ≡ some (rejected process_gone))
  unfolding run step stop start send process_gone_event reject_all_pending
  late_end_drops_new_child c old stop_id id method writable e unsettled n =
      let d : Client R = stop stop_id writable c in
      let (gone, spawned) = process-stop stop_id writable c old e in
      let open_now : is_some (lookup id (insert id method d.pending)) ≡ true =
        ground (arith, lookup-insert id id method d.pending, eq_refl id) in
      rw (send-start id method d gone, spawned)
        (
          refl,
          open_now,
          refl,
          reject_entries-pending id (insert id method d.pending) d.settled open_now
              (settled-stop id stop_id writable c n unsettled),
        )
