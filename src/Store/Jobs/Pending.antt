-- ===== src/Store/Jobs/Pending.antt =====
-- How a job update reconciles the pending uploads with the jobs of the backend.
use mozgoslav.Prelude.{
  ◌≡◌, refl, ◌≢◌, String, false, Option, none, some, List, [], ◌∷◌, ◌==◌, arith, eq_iff, eq_refl,
  if◌then◌else◌, Dict, lookup, insert, erase, lookup-insert, lookup-erase, Unique,
}
use mozgoslav.Store.Jobs.{
  Stage, JobWithStages, PendingJob, State, is_for, drop_pending, upsert_job, add_pending,
  resolve_pending, job_updated, pending_created, pending_resolved, reduce, set_stages,
}
use mozgoslav.Store.Jobs.Keys.{IsValid, add_pending-IsValid, resolve_pending-IsValid}

-- what an update for a recording leaves of a pending upload
abbrev pub survivor : String → Option PendingJob → Option PendingJob
survivor rid none = none
survivor rid (some p) = if is_for rid p.recording_id then none else some p

lookup-drop_pending :
    (rid t : String) (entries next : Dict PendingJob)
    → Unique entries
    → lookup t (drop_pending rid entries next) ≡ elim (lookup t entries) [
      | none ↦ lookup t next
      | some p ↦ if is_for rid p.recording_id then none else lookup t next
    ]
unfolding drop_pending lookup
lookup-drop_pending rid t [] next u = refl
lookup-drop_pending rid t ((k, p) ∷ entries) next u = ground (
  arith,
  lookup-drop_pending rid t entries next u.1,
  lookup-drop_pending rid t entries (erase k next) u.1,
  lookup-erase k t next,
  eq_iff k t,
)

lookup-set_stages :
    (id k : String) (stages : Option (List Stage)) (m : Dict (List Stage))
    → lookup k (set_stages id stages m)
      ≡ elim stages [ none ↦ lookup k m | some l ↦ if id == k then some l else lookup k m ]
lookup-set_stages id k none m = refl
lookup-set_stages id k (some l) m = lookup-insert id k l m

-- An update of a job stores it under its id, removes exactly the pending uploads of its recording,
-- and touches no other job and no other upload; stages change only if the update carries them.
pub upsert_job_lem :
    (s : State) (j : JobWithStages) (k : String)
    → IsValid s
    → let s' = upsert_job s j in
      (lookup k s'.by_id ≡ (if j.core.id == k then some j.core else lookup k s.by_id))
      × (lookup k s'.pending ≡ survivor j.core.recording_id (lookup k s.pending))
      × (lookup k s'.stages_by_job_id ≡ elim j.stages [
        | none ↦ lookup k s.stages_by_job_id
        | some l ↦ if j.core.id == k then some l else lookup k s.stages_by_job_id
      ])
unfolding upsert_job
upsert_job_lem s j k v = (
  lookup-insert j.core.id k j.core s.by_id,
  ground (arith, lookup-drop_pending j.core.recording_id k s.pending s.pending v.pending_unique),
  lookup-set_stages j.core.id k j.stages s.stages_by_job_id,
)

created_resolved :
    (s : State) (p : PendingJob) (rid t : String)
    → lookup t (resolve_pending (add_pending s p) p.temp_id (some rid)).pending
      ≡ (if p.temp_id == t then some (record p { recording_id = some rid }) else lookup t s.pending)
unfolding add_pending resolve_pending
created_resolved s p rid t =
    let stored : lookup p.temp_id (insert p.temp_id p s.pending) ≡ some p =
      ground (arith, lookup-insert p.temp_id p.temp_id p s.pending, eq_refl p.temp_id) in
    rw (stored, resolve_pending)
      (ground (
        arith,
        lookup-insert p.temp_id t (record p { recording_id = some rid })
            (insert p.temp_id p s.pending),
        lookup-insert p.temp_id t p s.pending,
      ))

-- An upload is created, resolved to a recording, and reconciled: once a job update for that
-- recording comes, whatever other uploads and jobs there are, the upload is gone, and an upload
-- under another temporary id that waits for another recording, or for none yet, is as it was.
pub upload_reconciled :
    (s : State) (p : PendingJob) (rid : String) (j : JobWithStages) (t : String) (q : PendingJob)
    → IsValid s
    → rid ≢ ""
    → j.core.recording_id ≡ rid
    → t ≢ p.temp_id
    → lookup t s.pending ≡ some q
    → is_for rid q.recording_id ≡ false
    → let s₁ = reduce s (pending_created p) in
      let s₂ = reduce s₁ (pending_resolved p.temp_id (some rid)) in
      let s₃ = reduce s₂ (job_updated j) in
      (lookup p.temp_id s₂.pending ≡ some (record p { recording_id = some rid }))
      × (lookup p.temp_id s₃.pending ≡ none)
      × (lookup t s₃.pending ≡ some q)
unfolding reduce
upload_reconciled s p rid j t q v ne e other held unrelated =
    let s₂ : State = resolve_pending (add_pending s p) p.temp_id (some rid) in
    let v₂ : IsValid s₂ =
      resolve_pending-IsValid (add_pending s p) p.temp_id (some rid) (add_pending-IsValid s p v) in
    (
      ground (arith, created_resolved s p rid p.temp_id, eq_refl p.temp_id),
      ground (
        arith,
        (upsert_job_lem s₂ j p.temp_id v₂).1,
        created_resolved s p rid p.temp_id,
        eq_refl p.temp_id,
        eq_iff rid "",
        eq_refl rid,
      ),
      ground (arith, (upsert_job_lem s₂ j t v₂).1, created_resolved s p rid t, eq_iff p.temp_id t),
    )
