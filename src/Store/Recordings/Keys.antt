-- ===== src/Store/Recordings/Keys.antt =====
-- The keys of the slice's dictionaries.
use mozgoslav.Prelude.{
  ◌≡◌, refl, String, none, List, [], ◌∷◌, lookup, lookup-erase, Unique, insert-Unique, erase-Unique,
  Keyed, Keyed-empty, Keyed-erase, index_by-Keyed, index_by-Unique, find_by, find_by-values,
  if◌then◌else◌, ◌==◌,
}
use mozgoslav.Store.Recordings.{
  State, Action, recording_id, initial, reduce, reduce_all, select_all_recordings,
  select_recording_by_id, load_recordings, load_recordings_success, load_recordings_failure,
  load_recordings_unavailable, delete_recording, delete_recording_success, delete_recording_failure,
  upload_recordings_requested, upload_recordings_success, upload_recordings_failure,
  import_recordings_requested, import_recordings_success, import_recordings_failure,
  live_transcript_subscribe, live_transcript_unsubscribe, live_transcript_partial,
  live_transcript_cleared, other,
}

-- recordings stand under their ids, and no key is listed twice
pub record IsValid (s : State) : Type 0 where
  pub keyed : Keyed recording_id s.recordings
  pub unique : Unique s.recordings
  pub deleting : Unique s.deleting_ids
  pub live : Unique s.live_partials

pub initial-IsValid : IsValid initial
unfolding initial
initial-IsValid = record { keyed = Keyed-empty recording_id; unique = tt; deleting = tt; live = tt }

-- the same dictionaries beside other flags
same-IsValid :
    (s t : State)
    → t.recordings ≡ s.recordings
    → t.deleting_ids ≡ s.deleting_ids
    → t.live_partials ≡ s.live_partials
    → IsValid s
    → IsValid t
same-IsValid s t e f g v = record {
  keyed = rw e v.keyed;
  unique = rw e v.unique;
  deleting = rw f v.deleting;
  live = rw g v.live;
}

reduce-IsValid : (s : State) (a : Action) → IsValid s → IsValid (reduce s a)
unfolding reduce
reduce-IsValid s load_recordings v = same-IsValid s _ refl refl refl v
reduce-IsValid s (load_recordings_success list) v = record {
  keyed = index_by-Keyed recording_id [] list (Keyed-empty recording_id);
  unique = index_by-Unique recording_id [] list tt;
  deleting = v.deleting;
  live = v.live;
}
reduce-IsValid s (load_recordings_failure e) v = same-IsValid s _ refl refl refl v
reduce-IsValid s load_recordings_unavailable v = record {
  keyed = Keyed-empty recording_id;
  unique = tt;
  deleting = v.deleting;
  live = v.live;
}
reduce-IsValid s (delete_recording id) v = record {
  keyed = v.keyed;
  unique = v.unique;
  deleting = insert-Unique id tt s.deleting_ids v.deleting;
  live = v.live;
}
reduce-IsValid s (delete_recording_success id) v = record {
  keyed = Keyed-erase recording_id id s.recordings v.keyed;
  unique = erase-Unique id s.recordings v.unique;
  deleting = erase-Unique id s.deleting_ids v.deleting;
  live = v.live;
}
reduce-IsValid s (delete_recording_failure id e) v = record {
  keyed = v.keyed;
  unique = v.unique;
  deleting = erase-Unique id s.deleting_ids v.deleting;
  live = v.live;
}
reduce-IsValid s (upload_recordings_requested paths) v = same-IsValid s _ refl refl refl v
reduce-IsValid s (import_recordings_requested paths) v = same-IsValid s _ refl refl refl v
reduce-IsValid s (upload_recordings_success count) v = same-IsValid s _ refl refl refl v
reduce-IsValid s (import_recordings_success count) v = same-IsValid s _ refl refl refl v
reduce-IsValid s (upload_recordings_failure e) v = same-IsValid s _ refl refl refl v
reduce-IsValid s (import_recordings_failure e) v = same-IsValid s _ refl refl refl v
reduce-IsValid s (live_transcript_partial id text at) v = record {
  keyed = v.keyed;
  unique = v.unique;
  deleting = v.deleting;
  live = insert-Unique id (record { text = text; observed_at = at }) s.live_partials v.live;
}
reduce-IsValid s (live_transcript_cleared id) v = record {
  keyed = v.keyed;
  unique = v.unique;
  deleting = v.deleting;
  live = erase-Unique id s.live_partials v.live;
}
reduce-IsValid s (live_transcript_subscribe id) v = v
reduce-IsValid s (live_transcript_unsubscribe id) v = v
reduce-IsValid s other v = v

reduce_all-IsValid : (s : State) (acts : List Action) → IsValid s → IsValid (reduce_all s acts)
unfolding reduce_all
reduce_all-IsValid s [] v = v
reduce_all-IsValid s (a ∷ acts) v = reduce_all-IsValid (reduce s a) acts (reduce-IsValid s a v)

-- After any actions the list of all recordings and the look-up by id agree: searching the list for
-- an id finds what the selector by id returns, and nothing when that returns nothing.
pub select_all-by_id :
    (id : String) (acts : List Action)
    → find_by recording_id id (select_all_recordings (reduce_all initial acts))
      ≡ select_recording_by_id id (reduce_all initial acts)
unfolding select_all_recordings select_recording_by_id
select_all-by_id id acts =
    let v : IsValid (reduce_all initial acts) = reduce_all-IsValid initial acts initial-IsValid in
    find_by-values recording_id id (reduce_all initial acts).recordings v.unique v.keyed

-- A deletion that succeeds takes out its recording and its mark and leaves every other recording and
-- every other mark.
pub deleted_lookup :
    (s : State) (gone id : String)
    → let after = reduce s (delete_recording_success gone) in
      (lookup id after.recordings ≡ (if gone == id then none else lookup id s.recordings))
      × (lookup id after.deleting_ids ≡ (if gone == id then none else lookup id s.deleting_ids))
unfolding reduce
deleted_lookup s gone id = (lookup-erase gone id s.recordings, lookup-erase gone id s.deleting_ids)
