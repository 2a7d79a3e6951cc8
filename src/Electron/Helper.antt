-- ===== src/Electron/Helper.antt =====
-- frontend/electron/dictation/NativeHelperClient.ts: requests to the native helper and its answers, one
-- JSON text to a line. A text is the list of its UTF-16 code units, a chunk the list of its bytes, and
-- Node's `chunk.toString("utf8")` a parameter, as `JSON.parse` is; the ids that `randomUUID` makes come
-- with the events.
pub mod Lines
pub mod Later
pub mod Answers
pub mod Requests
mod Tests
use mozgoslav.Prelude.{
  ℕ, suc, String, Bool, true, false, not, ◌||◌, Option, none, some, List, [], ◌∷◌, ◌++◌, ◌==◌,
  if◌then◌else◌, is_some, or_else, eqb, Dict, lookup, insert, erase,
}
use mozgoslav.Prelude.Text.{codes}
use mozgoslav.Prelude.JsText.{trim, strip_prefix, is_empty}
use mathlib.Core.List.{reverse}

-- why a request is rejected
pub data Failure : Type 0 where
  not_running not_writable write_failed process_gone : Failure
  helper_error : (code : ℕ) (message : String) → Failure

-- how the promise of a request settles
pub data Reply (R : Type 0) : Type 0 where
  resolved : R → Reply R
  rejected : Failure → Reply R

-- `HelperMessage`; `event` and `params` are those of `result`, where `params` is truthy
pub record Message (R : Type 0) : Type 0 where
  pub id : Option String
  pub result : R
  pub event : Option String
  pub params : Option R
  pub error : Option (ℕ × String)

-- The fields of the class and what became of the requests. `process` is the child's number, `pending`
-- gives the method of each open request, `settled` how a promise settled, first `resolve` or `reject`
-- only, as promises do. `spawned` counts the children, `sent` and `emitted` are the latest first.
pub record Client (R : Type 0) : Type 0 where
  pub process : Option ℕ
  pub buffer : List ℕ
  pub pending : Dict String
  pub settled : Dict (Reply R)
  pub spawned : ℕ
  pub sent : List String
  pub emitted : List (String × R)

unfoldable pub new : {R : Type 0} → Client R
new = record {
  process = none;
  buffer = [];
  pending = [];
  settled = [];
  spawned = 0;
  sent = [];
  emitted = [];
}

-- the texts that name an event of the helper
abbrev is_known : String → Bool
is_known name = name == "audio" || name == "hotkey" || name == "dumpHotkey" || name == "askCorpus"

-- `message.id?.startsWith("event.")`
abbrev pub is_event : Option String → Bool
is_event none = false
is_event (some id) = is_some (strip_prefix (codes "event.") (codes id))

-- `message.id ?? ""`
abbrev pub id_or_empty : Option String → String
id_or_empty none = ""
id_or_empty (some id) = id

module _ {R : Type 0} where
  -- a call of `resolve` or `reject`
  abbrev pub settle : String → Reply R → Dict (Reply R) → Dict (Reply R)
  settle id r settled = if is_some (lookup id settled) then settled else insert id r settled

  abbrev reject : String → Failure → Client R → Client R
  reject id reason c = record c { settled = settle id (rejected reason) c.settled }

  -- `start`
  unfoldable pub start : Client R → Client R
  start c =
      if is_some c.process
      then c
      else record c { process = some c.spawned; spawned = suc c.spawned }

  -- `send`, with the id it makes; `writable` is the state of the child's `stdin`
  unfoldable pub send : String → String → Bool → Client R → Client R
  send id method writable c =
      if not (is_some c.process)
      then reject id not_running c
      else if not writable
      then reject id not_writable c
      else record c { pending = insert id method c.pending; sent = id ∷ c.sent }

  -- the callback of `stdin.write`, called with an error
  unfoldable pub write_error : String → Client R → Client R
  write_error id c = record c {
    pending = erase id c.pending;
    settled = settle id (rejected write_failed) c.settled;
  }

  -- `stop`
  unfoldable pub stop : String → Bool → Client R → Client R
  stop id writable c =
      if is_some c.process then record (send id "shutdown" writable c) { process = none } else c

  -- the loop of `rejectAllPending`
  unfoldable pub reject_entries : Dict String → Dict (Reply R) → Dict (Reply R)
  reject_entries [] settled = settled
  reject_entries ((id, method) ∷ entries) settled =
      reject_entries entries (settle id (rejected process_gone) settled)

  -- `rejectAllPending`
  unfoldable pub reject_all_pending : Client R → Client R
  reject_all_pending c = record c { pending = []; settled = reject_entries c.pending c.settled }

  -- the `error` and `exit` events of a child, whichever child it is
  unfoldable pub process_gone_event : Client R → Client R
  process_gone_event c = reject_all_pending (record c { process = none })

  abbrev emit_event : Option String → Option R → List (String × R) → List (String × R)
  emit_event (some name) (some params) emitted =
      if is_known name then (name, params) ∷ emitted else emitted
  emit_event _ _ emitted = emitted

  abbrev pub reply_of : Message R → Reply R
  reply_of m = elim m.error [ none ↦ resolved m.result | some e ↦ rejected (helper_error e.0 e.1) ]

  -- `handleMessage` behind `JSON.parse`
  unfoldable pub dispatch : Message R → Client R → Client R
  dispatch m c =
      if is_event m.id
      then record c { emitted = emit_event m.event m.params c.emitted }
      else if is_some (lookup (id_or_empty m.id) c.pending)
      then record c {
        pending = erase (id_or_empty m.id) c.pending;
        settled = settle (id_or_empty m.id) (reply_of m) c.settled;
      }
      else c

module _ {R : Type 0} (parse : List ℕ → Option (Message R)) where
  -- `handleMessage`
  unfoldable pub handle_message : List ℕ → Client R → Client R
  handle_message line c = elim (parse line) [ none ↦ c | some m ↦ dispatch m c ]

  -- the body of the loop of `handleStdout`: a line is trimmed, an empty one passed over
  unfoldable pub handle_line : List ℕ → Client R → Client R
  handle_line line c = if is_empty (trim line) then c else handle_message (trim line) c

  -- The loop of `handleStdout`, which walks to the next line break: `cur` holds, in reverse, what it
  -- has passed of the line.
  unfoldable pub drain : List ℕ → List ℕ → Client R → Client R
  drain cur [] c = record c { buffer = reverse cur }
  drain cur (u ∷ rest) c = elim (eqb u 10) [
    | true ↦ drain [] rest (handle_line (reverse cur) (record c { buffer = rest }))
    | false ↦ drain (u ∷ cur) rest c
  ]

  -- `handleStdout` behind the decoding
  unfoldable pub take_text : List ℕ → Client R → Client R
  take_text text c = drain [] (c.buffer ++ text) c

-- `decode` is `chunk.toString("utf8")`
module _ {R : Type 0} (decode : List ℕ → List ℕ) (parse : List ℕ → Option (Message R)) where
  -- `handleStdout`
  unfoldable pub handle_stdout : List ℕ → Client R → Client R
  handle_stdout chunk c = take_text parse (decode chunk) c

-- what happens: calls of the class, data of a child, errors of its pipe, and its end
pub data Event : Type 0 where
  call_start : Event
  call_send : (id method : String) (writable : Bool) → Event
  call_stop : (id : String) (writable : Bool) → Event
  stdout_data : (chunk : List ℕ) → Event
  stdin_error : (id : String) → Event
  child_gone : (child : ℕ) → Event

module _ {R : Type 0} (decode : List ℕ → List ℕ) (parse : List ℕ → Option (Message R)) where
  unfoldable pub step : Client R → Event → Client R
  step c call_start = start c
  step c (call_send id method writable) = send id method writable c
  step c (call_stop id writable) = stop id writable c
  step c (stdout_data chunk) = handle_stdout decode parse chunk c
  step c (stdin_error id) = write_error id c
  step c (child_gone child) = process_gone_event c

  unfoldable pub run : Client R → List Event → Client R
  run c [] = c
  run c (e ∷ events) = run (step c e) events
