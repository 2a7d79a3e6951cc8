-- ===== src/Store/Notes/Marks.antt =====
-- The marks of the requests that run on notes.
use mozgoslav.Prelude.{
  ◌≡◌, refl, sym, subst, String, none, some, ◌==◌, if◌then◌else◌, lookup, insert, erase,
  lookup-insert, lookup-erase, lookup-set_and_erase,
}
use mozgoslav.Store.Dictation.{Reply, data_of, thrown}
use mozgoslav.Store.Notes.{
  ProcessedNote, State, reduce, delete_note, export_note, delete_note_saga, export_note_saga,
  select_note_by_id,
}

-- A deletion of a note, from its action to the end of its saga: the mark of the note is off, the marks
-- of other notes are as they were, and the note is gone exactly if the request went through.
pub delete_note_ends :
    (s : State) (id j : String) (reply : Reply (Unit {0}))
    → let after = reduce (reduce s (delete_note id)) (delete_note_saga id reply) in
      (lookup j after.deleting_ids ≡ (if id == j then none else lookup j s.deleting_ids))
      × (select_note_by_id j after ≡ elim reply [
        | data_of _ ↦ if id == j then none else select_note_by_id j s
        | thrown _ ↦ select_note_by_id j s
      ])
unfolding reduce delete_note_saga select_note_by_id
delete_note_ends s id j (data_of _) =
    (lookup-set_and_erase id j tt s.deleting_ids, lookup-erase id j s.by_id)
delete_note_ends s id j (thrown e) = (lookup-set_and_erase id j tt s.deleting_ids, refl)

-- An export of a note that is answered with the note that was asked for: the mark of the note is
-- off, the marks of other notes are as they were, the answer replaces the whole note under the id,
-- and every other note is as it was.
pub export_note_ends :
    (s : State) (id j : String) (n : ProcessedNote)
    → n.id ≡ id
    → let after = reduce (reduce s (export_note id)) (export_note_saga id (data_of (some n))) in
      (lookup j after.exporting_ids ≡ (if id == j then none else lookup j s.exporting_ids))
      × (select_note_by_id j after ≡ (if id == j then some n else select_note_by_id j s))
unfolding reduce export_note_saga select_note_by_id
export_note_ends s id j n e = (
  subst
      (λ k.
        lookup j (erase k (insert id tt s.exporting_ids))
        ≡ (if id == j then none else lookup j s.exporting_ids))
      (sym e) (lookup-set_and_erase id j tt s.exporting_ids),
  subst (λ k. lookup j (insert k n s.by_id) ≡ (if id == j then some n else lookup j s.by_id))
      (sym e) (lookup-insert id j n s.by_id),
)
