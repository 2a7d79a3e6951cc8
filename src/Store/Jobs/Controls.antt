-- ===== src/Store/Jobs/Controls.antt =====
-- The buttons of a job, from their request to the slice.
use mozgoslav.Prelude.{
  ◌≡◌, refl, ◌∙◌, String, Option, none, some, List, [], ◌∷◌, lookup, lookup-insert, lookup-erase,
  insert, erase, arith, eq_iff, ◌==◌, if◌then◌else◌,
}
use mozgoslav.Store.Dictation.{Reply, data_of, thrown}
use mozgoslav.Store.Jobs.{State, Job, Action, paused, reduce, pause_succeeded, upsert_job}
use mozgoslav.Store.Jobs.Sagas.{GqlJob, Payload, pause_saga, resume_saga, retry_saga, map_gql_job}

-- what a pause of a job leaves under its id
abbrev pub IsAnswered : Reply (List String) → String → Job → State → Type 0
IsAnswered (data_of []) id j s =
    (lookup id s.by_id ≡ some (record j { status = paused })) × (lookup id s.errors ≡ none)
IsAnswered (data_of (message ∷ _)) id j s =
    (lookup id s.by_id ≡ some j) × (lookup id s.errors ≡ some message)
IsAnswered (thrown e) id j s = (lookup id s.by_id ≡ some j) × (lookup id s.errors ≡ some e)

pause_succeeded_found :
    (s : State) (id : String) (j : Job)
    → lookup id s.by_id ≡ some j
    → pause_succeeded s id ≡ record s {
      by_id = insert id (record j { status = paused }) s.by_id;
      errors = erase id s.errors;
    }
unfolding pause_succeeded
pause_succeeded_found s id j h = rw (pause_succeeded, h) refl

-- A pause of a job of the slice, whatever the backend answers: the job is paused and its error is
-- gone if the answer has no errors, and otherwise the job is as it was and the first error, or
-- that of the request, stands under its id.
pub pause_ends :
    (s : State) (id : String) (j : Job) (reply : Reply (List String))
    → lookup id s.by_id ≡ some j
    → IsAnswered reply id j (reduce s (pause_saga id reply))
unfolding reduce pause_saga
pause_ends s id j (data_of []) h =
    rw (reduce, pause_succeeded_found s id j h)
      (
        lookup-insert id id (record j { status = paused }) s.by_id ∙ ground (arith, eq_iff id id),
        lookup-erase id id s.errors ∙ ground (arith, eq_iff id id),
      )
pause_ends s id j (data_of (message ∷ rest)) h =
    (h, lookup-insert id id message s.errors ∙ ground (arith, eq_iff id id))
pause_ends s id j (thrown e) h = (h, lookup-insert id id e s.errors ∙ ground (arith, eq_iff id id))

-- the action of a saga, if it puts one
abbrev pub applied : Option Action → State → State
applied none s = s
applied (some a) s = reduce s a

-- A resumption or a retry that fails leaves no trace: the slice is as it was, and the error of the
-- job is not set.
pub refused_is_silent :
    (s : State) (id message e : String) (p : Payload) (rest : List String)
    → p.errors ≡ message ∷ rest
    → (applied (resume_saga id (data_of p)) s ≡ s)
      × (applied (resume_saga id (thrown e)) s ≡ s)
      × (applied (retry_saga id (data_of p)) s ≡ s)
      × (applied (retry_saga id (thrown e)) s ≡ s)
unfolding reduce resume_saga retry_saga
refused_is_silent s id message e p rest h = (rw h refl, refl, rw h refl, refl)

-- A resumption, and a retry, that are answered with the job and no errors store what the backend
-- says of the job, and touch no other job.
pub resumed_is_stored :
    (s : State) (id k : String) (j : GqlJob)
    → let p : Payload = record { job = some j; errors = [] } in
      let stored = if j.id == k then some (map_gql_job j).core else lookup k s.by_id in
      (lookup k (applied (resume_saga id (data_of p)) s).by_id ≡ stored)
      × (lookup k (applied (retry_saga id (data_of p)) s).by_id ≡ stored)
unfolding reduce resume_saga retry_saga upsert_job map_gql_job
resumed_is_stored s id k j = (
  lookup-insert j.id k (map_gql_job j).core s.by_id,
  lookup-insert j.id k (map_gql_job j).core s.by_id,
)
