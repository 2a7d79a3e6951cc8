-- ===== src/Store/Models/Progress.antt =====
-- The byte counts of the listed downloads.
use mozgoslav.Prelude.{
  ◌≤◌, ◌≡◌, refl, ◌∙◌, sym, ap, String, Bool, true, false, Option, none, some, List, [], map, ◌==◌,
  arith, eq_iff, filter, any, Bool-cases, inl, inr, lookup,
}
use mathlib.Core.Option.{some-injective}
use mozgoslav.Store.Models.{
  ActiveDownload, DownloadProgress, State, index_downloads, merge_download, merge_list, is_over,
  is_kept, optimistic, start_list, advance, Action, load_active_downloads_success,
  download_model_started, model_download_progress, model_download_completed, load_models,
  load_models_success, load_models_failure, load_active_downloads, load_active_downloads_failure,
  download_model_requested, download_model_request_failed, cancel_download_requested,
  cancel_download_success, cancel_download_failure, open_drawer, close_drawer, set_highlighted,
  clear_highlighted, other, reduce,
}
use mozgoslav.Store.Models.Downloads.{
  find_download, Distinct, mapped, kept_if, find_download_id, find_download-map,
  find_download-filter, find_download-push, lookup-index_downloads, merge_download_id, advance_id,
}

start_list_keeps :
    (c id i : String) (list : List ActiveDownload) (d : ActiveDownload)
    → Distinct list
    → find_download i list ≡ some d
    → is_kept c d ≡ true
    → find_download i (start_list c id list) ≡ some d
unfolding start_list
start_list_keeps c id i list d u e k =
    let kept = filter (is_kept c) list in
    let f : find_download i kept ≡ some d =
      rw (find_download-filter (is_kept c) i list u, e, k) refl in
    elim (Bool-cases (any (λ (d : ActiveDownload). d.id == id) kept)) [
      | inl a ↦ rw a f
      | inr a ↦ rw (a, find_download-push i kept (optimistic c id), f) refl
    ]

-- a start reuses no id of a download that is over
abbrev pub IsFresh : {Entry : Type 0} → State Entry → Action Entry → Type 0
IsFresh s (download_model_started c id) =
    (d : ActiveDownload)
    → find_download id s.active_download_list ≡ some d
    → is_over d.state ≡ false
IsFresh s _ = Unit

same_bytes :
    (o : Option ActiveDownload) (d d' : ActiveDownload)
    → o ≡ some d
    → o ≡ some d'
    → d.bytes_received ≤ d'.bytes_received
same_bytes o d d' e e' = ground arith

merge_bytes :
    (prev next d' : ActiveDownload)
    → merge_download (some prev) next ≡ d'
    → prev.bytes_received ≤ d'.bytes_received
merge_bytes prev next d' e = ground arith

advance_bytes :
    (id : String) (p : DownloadProgress) (d d' : ActiveDownload)
    → advance id p d ≡ d'
    → d.bytes_received ≤ d'.bytes_received
advance_bytes id p d d' e = ground arith

-- an entry of a mapped list comes from an entry of the list
mapped-some :
    (f : ActiveDownload → ActiveDownload) (o : Option ActiveDownload) (d' : ActiveDownload)
    → mapped f o ≡ some d'
    → (d : ActiveDownload) × (o ≡ some d) × (f d ≡ d')
mapped-some f none d' e = cc
mapped-some f (some d) d' e = (d, refl, cc)

polled_bytes :
    (i : String) (old incoming : List ActiveDownload) (d d' : ActiveDownload)
    → Distinct old
    → find_download i old ≡ some d
    → find_download i (merge_list old incoming) ≡ some d'
    → d.bytes_received ≤ d'.bytes_received
unfolding merge_list
polled_bytes i old incoming d d' u e e' =
    let f : ActiveDownload → ActiveDownload =
      λ next. merge_download (lookup next.id (index_downloads [] old)) next in
    let (next, e₁, e₂) = mapped-some f (find_download i incoming) d' (
      rw⁻¹
        (find_download-map f i incoming
          (λ next. merge_download_id (lookup next.id (index_downloads [] old)) next))
        e') in
    let e₃ : lookup next.id (index_downloads [] old) ≡ some d =
      lookup-index_downloads next.id old u ∙ rw (find_download_id i incoming next e₁) e in
    merge_bytes d next d' (ap (λ o. merge_download o next) (sym e₃) ∙ e₂)

advanced_bytes :
    (id i : String) (p : DownloadProgress) (old : List ActiveDownload) (d d' : ActiveDownload)
    → find_download i old ≡ some d
    → find_download i (map (advance id p) old) ≡ some d'
    → d.bytes_received ≤ d'.bytes_received
advanced_bytes id i p old d d' e e' = advance_bytes id p d d' (
    some-injective (advance id p d) d'
      (sym (find_download-map (advance id p) i old (advance_id id p) ∙ rw e refl) ∙ e'))

filtered_bytes :
    (p : ActiveDownload → Bool) (i : String) (old : List ActiveDownload) (d d' : ActiveDownload)
    → Distinct old
    → find_download i old ≡ some d
    → find_download i (filter p old) ≡ some d'
    → d.bytes_received ≤ d'.bytes_received
filtered_bytes p i old d d' u e e' =
    let e₁ : kept_if p (some d) ≡ some d' =
      ap (kept_if p) (sym e) ∙ (sym (find_download-filter p i old u) ∙ e') in
    ground arith

-- an entry that was dropped is listed again only as the new one
dropped_is_new :
    (c id i : String) (old : List ActiveDownload) (d' : ActiveDownload)
    → find_download i (filter (is_kept c) old) ≡ none
    → find_download i (start_list c id old) ≡ some d'
    → id ≡ i
unfolding start_list
dropped_is_new c id i old d' n e' =
    ground (arith, eq_iff id i, find_download-push i (filter (is_kept c) old) (optimistic c id))

started_bytes :
    (c id i : String) (old : List ActiveDownload) (d d' : ActiveDownload)
    → Distinct old
    → ((x : ActiveDownload) → find_download id old ≡ some x → is_over x.state ≡ false)
    → find_download i old ≡ some d
    → find_download i (start_list c id old) ≡ some d'
    → d.bytes_received ≤ d'.bytes_received
started_bytes c id i old d d' u h e e' = elim (Bool-cases (is_kept c d)) [
  | inl k ↦ same_bytes _ d d' (start_list_keeps c id i old d u e k) e'
  | inr k ↦
      let n : find_download i (filter (is_kept c) old) ≡ none =
        find_download-filter (is_kept c) i old u ∙ (ap (kept_if (is_kept c)) e ∙ rw k refl) in
      let same : id ≡ i = dropped_is_new c id i old d' n e' in
      let live : is_over d.state ≡ false = h d (rw same e) in absurd (ground arith)
]

module _ {Entry : Type 0} (entry_id : Entry → String) where
  -- The bytes received of a listed download never go down, whichever source reports: if an entry is
  -- still listed after an action, it has at least the bytes it had, the list having no id twice and a
  -- start reusing no id of a download that is over.
  pub reduce_bytes :
      (s : State Entry) (a : Action Entry) (id : String) (d d' : ActiveDownload)
      → Distinct s.active_download_list
      → IsFresh s a
      → find_download id s.active_download_list ≡ some d
      → find_download id (reduce entry_id s a).active_download_list ≡ some d'
      → d.bytes_received ≤ d'.bytes_received
  unfolding reduce
  reduce_bytes s (load_active_downloads_success incoming) i d d' u h e e' =
      polled_bytes i s.active_download_list incoming d d' u e e'
  reduce_bytes s (download_model_started c id) i d d' u h e e' =
      started_bytes c id i s.active_download_list d d' u h e e'
  reduce_bytes s (model_download_progress id p) i d d' u h e e' =
      advanced_bytes id i p s.active_download_list d d' e e'
  reduce_bytes s (model_download_completed id) i d d' u h e e' =
      filtered_bytes _ i s.active_download_list d d' u e e'
  reduce_bytes s load_models i d d' u h e e' = same_bytes _ d d' e e'
  reduce_bytes s (load_models_success _) i d d' u h e e' = same_bytes _ d d' e e'
  reduce_bytes s load_models_failure i d d' u h e e' = same_bytes _ d d' e e'
  reduce_bytes s load_active_downloads i d d' u h e e' = same_bytes _ d d' e e'
  reduce_bytes s load_active_downloads_failure i d d' u h e e' = same_bytes _ d d' e e'
  reduce_bytes s (download_model_requested _) i d d' u h e e' = same_bytes _ d d' e e'
  reduce_bytes s download_model_request_failed i d d' u h e e' = same_bytes _ d d' e e'
  reduce_bytes s (cancel_download_requested _) i d d' u h e e' = same_bytes _ d d' e e'
  reduce_bytes s cancel_download_success i d d' u h e e' = same_bytes _ d d' e e'
  reduce_bytes s cancel_download_failure i d d' u h e e' = same_bytes _ d d' e e'
  reduce_bytes s open_drawer i d d' u h e e' = same_bytes _ d d' e e'
  reduce_bytes s close_drawer i d d' u h e e' = same_bytes _ d d' e e'
  reduce_bytes s (set_highlighted _) i d d' u h e e' = same_bytes _ d d' e e'
  reduce_bytes s clear_highlighted i d d' u h e e' = same_bytes _ d d' e e'
  reduce_bytes s other i d d' u h e e' = same_bytes _ d d' e e'
