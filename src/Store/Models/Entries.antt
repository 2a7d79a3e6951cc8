-- ===== src/Store/Models/Entries.antt =====
-- The entries of the list of downloads: their ids, a completed and a started download.
use mozgoslav.Prelude.{
  ◌≡◌, refl, ◌≢◌, is_some, String, true, false, not, none, some, List, [], ◌∷◌, ◌==◌, arith, eq_iff,
  eq_refl, filter, any, All, All-append, All-imp, if_cases, Option-cases, inl, inr, Dict, lookup,
  lookup-insert, lookup-erase,
}
use mozgoslav.Store.Models.{
  ActiveDownload, State, index_downloads, merge_list, is_over, is_kept, optimistic, start_list,
  advance, forget_download, Action, load_active_downloads_success, download_model_started,
  model_download_progress, model_download_completed, load_models, load_models_success,
  load_models_failure, load_active_downloads, load_active_downloads_failure,
  download_model_requested, download_model_request_failed, cancel_download_requested,
  cancel_download_success, cancel_download_failure, open_drawer, close_drawer, set_highlighted,
  clear_highlighted, other, reduce,
}
use mozgoslav.Store.Models.Downloads.{
  find_download, Distinct, find_download-push, any-find_download, Distinct-map, Distinct-filter,
  Distinct-push, merge_download_id, advance_id,
}

-- a polled list has no id twice
abbrev pub IsPolled : {Entry : Type 0} → Action Entry → Type 0
IsPolled (load_active_downloads_success incoming) = Distinct incoming
IsPolled _ = Unit

start_list-Distinct :
    (c id : String) (list : List ActiveDownload) → Distinct list → Distinct (start_list c id list)
unfolding start_list
start_list-Distinct c id list u =
    let kept = filter (is_kept c) list in
    let v : Distinct kept = Distinct-filter (is_kept c) list u in
    elim (Option-cases (find_download id kept)) [
      | inl e ↦ rw (any-find_download id kept, e) (Distinct-push kept (optimistic c id) e v)
      | inr (d, e) ↦ rw (any-find_download id kept, e) v
    ]

module _ {Entry : Type 0} (entry_id : Entry → String) where
  -- If the polled lists have no id twice, neither has the list of active downloads after any action.
  pub reduce-Distinct :
      (s : State Entry) (a : Action Entry)
      → IsPolled a
      → Distinct s.active_download_list
      → Distinct (reduce entry_id s a).active_download_list
  unfolding reduce merge_list
  reduce-Distinct s (load_active_downloads_success incoming) h u =
      Distinct-map _ incoming
        (λ next.
          merge_download_id (lookup next.id (index_downloads [] s.active_download_list)) next)
        h
  reduce-Distinct s (download_model_started c id) h u =
      start_list-Distinct c id s.active_download_list u
  reduce-Distinct s (model_download_progress id p) h u =
      Distinct-map (advance id p) s.active_download_list (advance_id id p) u
  reduce-Distinct s (model_download_completed id) h u = Distinct-filter _ s.active_download_list u
  reduce-Distinct s load_models h u = u
  reduce-Distinct s (load_models_success _) h u = u
  reduce-Distinct s load_models_failure h u = u
  reduce-Distinct s load_active_downloads h u = u
  reduce-Distinct s load_active_downloads_failure h u = u
  reduce-Distinct s (download_model_requested _) h u = u
  reduce-Distinct s download_model_request_failed h u = u
  reduce-Distinct s (cancel_download_requested _) h u = u
  reduce-Distinct s cancel_download_success h u = u
  reduce-Distinct s cancel_download_failure h u = u
  reduce-Distinct s open_drawer h u = u
  reduce-Distinct s close_drawer h u = u
  reduce-Distinct s (set_highlighted _) h u = u
  reduce-Distinct s clear_highlighted h u = u
  reduce-Distinct s other h u = u

-- what the state says of a download
pub record IsForgotten {Entry : Type 0} (id : String) (s : State Entry) : Type 0 where
  pub unlisted : find_download id s.active_download_list ≡ none
  pub no_progress : lookup id s.download_progress ≡ none
  pub no_model : All (λ (e : String × String). e.1 ≢ id) s.active_downloads

without_id :
    (id : String) (list : List ActiveDownload)
    → find_download id (filter (λ (d : ActiveDownload). not (d.id == id)) list) ≡ none
without_id id [] = refl
without_id id (d ∷ list) = ground (arith, without_id id list)

others-without_id :
    (id i : String) (list : List ActiveDownload)
    → i ≢ id
    → find_download i (filter (λ (d : ActiveDownload). not (d.id == id)) list)
      ≡ find_download i list
others-without_id id i [] n = refl
others-without_id id i (d ∷ list) n =
    ground (arith, eq_iff d.id i, eq_iff d.id id, others-without_id id i list n)

forget_download-All :
    (id : String) (m : Dict String) → All (λ (e : String × String). e.1 ≢ id) (forget_download id m)
forget_download-All id [] = tt
forget_download-All id (e ∷ m) = ground (arith, eq_iff e.1 id, forget_download-All id m)

module _ {Entry : Type 0} (entry_id : Entry → String) where
  -- A completed download leaves no trace: it is not listed, has no progress, and no model points to
  -- it; the entry and the progress of every other download stay as they were.
  pub completed-IsForgotten :
      (s : State Entry) (id i : String)
      → i ≢ id
      → let s' = reduce entry_id s (model_download_completed id) in
        IsForgotten id s'
        × (find_download i s'.active_download_list ≡ find_download i s.active_download_list)
        × (lookup i s'.download_progress ≡ lookup i s.download_progress)
  unfolding reduce
  completed-IsForgotten s id i n = (
    record {
      unlisted = without_id id s.active_download_list;
      no_progress = ground (arith, lookup-erase id id s.download_progress, eq_refl id);
      no_model = forget_download-All id s.active_downloads;
    },
    others-without_id id i s.active_download_list n,
    ground (arith, lookup-erase id i s.download_progress, eq_iff id i),
  )

start_list-finds :
    (c id : String) (list : List ActiveDownload)
    → is_some (find_download id (start_list c id list)) ≡ true
unfolding start_list
start_list-finds c id list = ground (
  arith,
  any-find_download id (filter (is_kept c) list),
  eq_refl id,
  find_download-push id (filter (is_kept c) list) (optimistic c id),
)

All-is_kept :
    (c : String) (list : List ActiveDownload)
    → All (λ (d : ActiveDownload). is_kept c d ≡ true) (filter (is_kept c) list)
All-is_kept c [] = tt
All-is_kept c (d ∷ list) = ground (arith, All-is_kept c list)

start_list-All :
    (c id : String) (list : List ActiveDownload)
    → All (λ (d : ActiveDownload). is_kept c d ≡ true) (start_list c id list)
unfolding start_list
start_list-All c id list =
    let kept = filter (is_kept c) list in
    let h : All (λ (d : ActiveDownload). is_kept c d ≡ true) kept = All-is_kept c list in
    if_cases (All (λ (d : ActiveDownload). is_kept c d ≡ true))
      (any (λ (d : ActiveDownload). d.id == id) kept) (λ a. h)
      (λ a.
        All-append (λ (d : ActiveDownload). is_kept c d ≡ true) kept (optimistic c id ∷ []) h
          (ground arith, tt))

module _ {Entry : Type 0} (entry_id : Entry → String) where
  -- A started download is listed, is the one its model points to, and shows in the open drawer; no
  -- failed, cancelled or completed download of the same model is listed beside it.
  pub started_is_listed :
      (s : State Entry) (c id : String)
      → let s' = reduce entry_id s (download_model_started c id) in
        (is_some (find_download id s'.active_download_list) ≡ true)
        × (lookup c s'.active_downloads ≡ some id)
        × (s'.is_downloads_drawer_open ≡ true)
        × (s'.requesting_download_id ≡ none)
        × All
            (λ (d : ActiveDownload). d.catalogue_id ≡ c → is_over d.state ≡ false)
            s'.active_download_list
  unfolding reduce
  started_is_listed s c id = (
    start_list-finds c id s.active_download_list,
    ground (arith, lookup-insert c c id s.active_downloads, eq_refl c),
    refl,
    refl,
    All-imp _ _ (start_list c id s.active_download_list)
        (λ d k e. ground (arith, eq_iff d.catalogue_id c))
        (start_list-All c id s.active_download_list),
  )
