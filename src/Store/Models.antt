-- ===== src/Store/Models.antt =====
-- frontend/src/store/slices/models: the slice of the model catalogue and its downloads. The list of
-- active downloads is fed by two sources, a polled list and a stream of progress events. Byte counts
-- and speeds are natural numbers.
pub mod Downloads
pub mod Progress
pub mod Entries
mod Tests
use mozgoslav.Prelude.{
  ℕ, String, Bool, true, false, not, ◌&&◌, ◌||◌, Option, none, some, List, [], ◌∷◌, ◌++◌, map, ◌==◌,
  if◌then◌else◌, or_else, leb, filter, any, Dict, lookup, insert, erase,
}

-- `DownloadState`
pub data DownloadState : Type 0 where
  cancelled completed downloading failed finalizing queued : DownloadState

-- `ModelDownloadProgress`
pub record DownloadProgress : Type 0 where
  pub bytes_read : ℕ
  pub total_bytes : Option ℕ
  pub phase : DownloadState
  pub speed_bytes_per_second : Option ℕ
  pub error : Option String

-- `ActiveDownload`
pub record ActiveDownload : Type 0 where
  pub id : String
  pub catalogue_id : String
  pub state : DownloadState
  pub bytes_received : ℕ
  pub total_bytes : Option ℕ
  pub speed_bytes_per_second : Option ℕ
  pub error_message : Option String
  pub started_at : Option String

-- `ModelsState`; the type of an entry of the catalogue is generated from the backend's schema
pub record State (Entry : Type 0) : Type 0 where
  pub by_id : Dict Entry
  pub is_loading : Bool
  pub is_loading_active_downloads : Bool
  pub requesting_download_id : Option String
  pub cancelling_download_id : Option String
  pub active_downloads : Dict String
  pub active_download_list : List ActiveDownload
  pub download_progress : Dict DownloadProgress
  pub is_downloads_drawer_open : Bool
  pub highlighted_download_id : Option String

unfoldable pub initial : {Entry : Type 0} → State Entry
initial = record {
  by_id = [];
  is_loading = false;
  is_loading_active_downloads = false;
  requesting_download_id = none;
  cancelling_download_id = none;
  active_downloads = [];
  active_download_list = [];
  download_progress = [];
  is_downloads_drawer_open = false;
  highlighted_download_id = none;
}

-- `Math.max`
abbrev pub greater : ℕ → ℕ → ℕ
greater a b = if leb a b then b else a

-- `new Map(list.map((d) => [d.id, d]))`, into `acc`
unfoldable pub index_downloads : Dict ActiveDownload → List ActiveDownload → Dict ActiveDownload
index_downloads acc [] = acc
index_downloads acc (d ∷ list) = index_downloads (insert d.id d acc) list

-- what a polled download becomes when it was listed before
abbrev pub merge_download : Option ActiveDownload → ActiveDownload → ActiveDownload
merge_download none next = next
merge_download (some prev) next = record next {
  bytes_received = greater prev.bytes_received next.bytes_received;
  total_bytes = or_else next.total_bytes prev.total_bytes;
  speed_bytes_per_second = or_else prev.speed_bytes_per_second next.speed_bytes_per_second;
}

unfoldable pub merge_list : List ActiveDownload → List ActiveDownload → List ActiveDownload
merge_list old incoming =
    map (λ next. merge_download (lookup next.id (index_downloads [] old)) next) incoming

abbrev pub is_over : DownloadState → Bool
is_over failed = true
is_over cancelled = true
is_over completed = true
is_over _ = false

-- `withoutPriorTerminal`: what `DOWNLOAD_MODEL_STARTED` keeps of the list
abbrev pub is_kept : String → ActiveDownload → Bool
is_kept catalogue d = not (d.catalogue_id == catalogue) || not (is_over d.state)

abbrev pub optimistic : String → String → ActiveDownload
optimistic catalogue id = record {
  id = id;
  catalogue_id = catalogue;
  state = queued;
  bytes_received = 0;
  total_bytes = none;
  speed_bytes_per_second = none;
  error_message = none;
  started_at = none;
}

unfoldable pub start_list : String → String → List ActiveDownload → List ActiveDownload
start_list catalogue id list =
    let kept = filter (is_kept catalogue) list in
    if any (λ (d : ActiveDownload). d.id == id) kept
    then kept
    else kept ++ optimistic catalogue id ∷ []

-- one entry of the list under a progress event
abbrev pub advance : String → DownloadProgress → ActiveDownload → ActiveDownload
advance id p d =
    if d.id == id
    then record d {
      state = p.phase;
      bytes_received = greater d.bytes_received p.bytes_read;
      total_bytes = or_else p.total_bytes d.total_bytes;
      speed_bytes_per_second = or_else p.speed_bytes_per_second d.speed_bytes_per_second;
      error_message = or_else p.error d.error_message;
    }
    else d

-- `Object.fromEntries(Object.entries(m).filter(([, dId]) => dId !== id))`
abbrev pub forget_download : String → Dict String → Dict String
forget_download id m = filter (λ (e : String × String). not (e.1 == id)) m

-- the actions that the reducer handles; `other` is any other one
pub data Action (Entry : Type 0) : Type 0 where
  load_models : Action Entry
  load_models_success : List Entry → Action Entry
  load_models_failure : Action Entry
  load_active_downloads : Action Entry
  load_active_downloads_success : List ActiveDownload → Action Entry
  load_active_downloads_failure : Action Entry
  download_model_requested : (id : String) → Action Entry
  download_model_started : (catalogue_id download_id : String) → Action Entry
  download_model_request_failed : Action Entry
  cancel_download_requested : (id : String) → Action Entry
  cancel_download_success cancel_download_failure : Action Entry
  model_download_progress : (download_id : String) → DownloadProgress → Action Entry
  model_download_completed : (download_id : String) → Action Entry
  open_drawer close_drawer : Action Entry
  set_highlighted : (id : String) → Action Entry
  clear_highlighted : Action Entry
  other : Action Entry

module _ {Entry : Type 0} (entry_id : Entry → String) where
  -- the `reduce` of `LOAD_MODELS_SUCCESS`
  unfoldable pub index_models : Dict Entry → List Entry → Dict Entry
  index_models acc [] = acc
  index_models acc (m ∷ models) = index_models (insert (entry_id m) m acc) models

  -- `modelsReducer`
  unfoldable pub reduce : State Entry → Action Entry → State Entry
  reduce s load_models = record s { is_loading = true }
  reduce s (load_models_success models) = record s {
    is_loading = false;
    by_id = index_models [] models;
  }
  reduce s load_models_failure = record s { is_loading = false }
  reduce s load_active_downloads = record s { is_loading_active_downloads = true }
  reduce s (load_active_downloads_success incoming) = record s {
    is_loading_active_downloads = false;
    active_download_list = merge_list s.active_download_list incoming;
  }
  reduce s load_active_downloads_failure = record s { is_loading_active_downloads = false }
  reduce s (download_model_requested id) = record s { requesting_download_id = some id }
  reduce s (download_model_started catalogue id) = record s {
    requesting_download_id = none;
    active_downloads = insert catalogue id s.active_downloads;
    active_download_list = start_list catalogue id s.active_download_list;
    is_downloads_drawer_open = true;
  }
  reduce s download_model_request_failed = record s { requesting_download_id = none }
  reduce s (cancel_download_requested id) = record s { cancelling_download_id = some id }
  reduce s cancel_download_success = record s { cancelling_download_id = none }
  reduce s cancel_download_failure = record s { cancelling_download_id = none }
  reduce s (model_download_progress id p) = record s {
    download_progress = insert id p s.download_progress;
    active_download_list = map (advance id p) s.active_download_list;
  }
  reduce s (model_download_completed id) = record s {
    download_progress = erase id s.download_progress;
    active_downloads = forget_download id s.active_downloads;
    active_download_list = filter (λ (d : ActiveDownload). not (d.id == id)) s.active_download_list;
  }
  reduce s open_drawer = record s { is_downloads_drawer_open = true }
  reduce s close_drawer = record s {
    is_downloads_drawer_open = false;
    highlighted_download_id = none;
  }
  reduce s (set_highlighted id) = record s { highlighted_download_id = some id }
  reduce s clear_highlighted = record s { highlighted_download_id = none }
  reduce s other = s

  unfoldable pub run : State Entry → List (Action Entry) → State Entry
  run s [] = s
  run s (a ∷ acts) = run (reduce s a) acts
