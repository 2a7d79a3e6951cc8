-- ===== src/Store/Backups/Ends.antt =====
-- How the requests of the slice end.
use mozgoslav.Prelude.{◌≡◌, refl, String, Bool, true, false, Option, List, [], ◌∷◌}
use mozgoslav.Store.Dictation.{Reply, data_of, thrown}
use mozgoslav.Store.Backups.{
  BackupFile, State, reduce, reduce_all, create_backup, create_saga, Payload,
}

-- the backup was made
abbrev pub is_made : Reply Payload → Bool
is_made (data_of p) = elim p.errors [ [] ↦ true | _ ∷ _ ↦ false ]
is_made (thrown e) = false

-- the list is being loaded, when the backup was made or it was before
abbrev pub loads : Bool → Bool → Bool
loads true before = true
loads false before = before

payload_ends :
    (s : State) (o : Option BackupFile) (errors : List String)
    → let p : Payload = record { backup = o; errors = errors } in
      let after = reduce_all (reduce s create_backup) (create_saga (data_of p)) in
      (after.is_creating ≡ false)
      × (after.is_loading ≡ loads (is_made (data_of p)) s.is_loading)
      × (after.items ≡ s.items)
unfolding reduce reduce_all create_saga
payload_ends s o [] = (refl, refl, refl)
payload_ends s o (m ∷ rest) = (refl, refl, refl)

-- A backup ends its flag, whatever the backend answers; the list is loaded again exactly if the
-- backup was made, and shows what it showed until then.
pub create_ends :
    (s : State) (reply : Reply Payload)
    → let after = reduce_all (reduce s create_backup) (create_saga reply) in
      (after.is_creating ≡ false)
      × (after.is_loading ≡ loads (is_made reply) s.is_loading)
      × (after.items ≡ s.items)
unfolding reduce reduce_all create_saga
create_ends s (data_of p) = payload_ends s p.backup p.errors
create_ends s (thrown e) = (refl, refl, refl)
