-- ===== src/Store/Models/Downloads.antt =====
-- The list of active downloads as a map by id: finding, filtering, merging.
use mozgoslav.Prelude.{
  ◌≡◌, refl, ap, String, Bool, true, false, Option, none, some, List, [], ◌∷◌, ◌++◌, map, ◌==◌,
  arith, eq_iff, if◌then◌else◌, or_else, is_some, filter, any, Dict, lookup, insert, lookup-insert,
  lookup-empty,
}
use mozgoslav.Store.Models.{
  ActiveDownload, index_downloads, merge_download, advance, DownloadProgress,
}

-- the first entry with an id
abbrev pub find_download : String → List ActiveDownload → Option ActiveDownload
find_download id [] = none
find_download id (d ∷ list) = if d.id == id then some d else find_download id list

-- no id is listed twice
abbrev pub Distinct : List ActiveDownload → Type 0
Distinct [] = Unit
Distinct (d ∷ list) = (find_download d.id list ≡ none) × Distinct list

abbrev pub mapped :
    (ActiveDownload → ActiveDownload) → Option ActiveDownload → Option ActiveDownload
mapped f none = none
mapped f (some d) = some (f d)

abbrev pub kept_if : (ActiveDownload → Bool) → Option ActiveDownload → Option ActiveDownload
kept_if p none = none
kept_if p (some d) = if p d then some d else none

pub find_download_id :
    (id : String) (list : List ActiveDownload) (d : ActiveDownload)
    → find_download id list ≡ some d
    → d.id ≡ id
find_download_id id [] d e = cc
find_download_id id (x ∷ list) d e = ground (arith, eq_iff x.id id, find_download_id id list d)

map_head :
    (f : ActiveDownload → ActiveDownload) (d : ActiveDownload) (b c : Bool)
    (new old : Option ActiveDownload)
    → b ≡ c
    → new ≡ mapped f old
    → (if b then some (f d) else new) ≡ mapped f (if c then some d else old)
map_head f d true true new old e h = refl
map_head f d true false new old e h = cc
map_head f d false true new old e h = cc
map_head f d false false new old e h = h

pub find_download-map :
    (f : ActiveDownload → ActiveDownload) (id : String) (list : List ActiveDownload)
    → ((d : ActiveDownload) → (f d).id ≡ d.id)
    → find_download id (map f list) ≡ mapped f (find_download id list)
find_download-map f id [] h = refl
find_download-map f id (d ∷ list) h =
    map_head f d ((f d).id == id) (d.id == id) (find_download id (map f list))
      (find_download id list) (ap (λ i. i == id) (h d)) (find_download-map f id list h)

pub find_download-filter-none :
    (p : ActiveDownload → Bool) (id : String) (list : List ActiveDownload)
    → find_download id list ≡ none
    → find_download id (filter p list) ≡ none
find_download-filter-none p id [] e = refl
find_download-filter-none p id (d ∷ list) e = ground (arith, find_download-filter-none p id list)

pub find_download-filter :
    (p : ActiveDownload → Bool) (id : String) (list : List ActiveDownload)
    → Distinct list
    → find_download id (filter p list) ≡ kept_if p (find_download id list)
find_download-filter p id [] h = refl
find_download-filter p id (d ∷ list) h = ground (
  arith,
  eq_iff d.id id,
  find_download-filter p id list h.1,
  find_download-filter-none p d.id list h.0,
)

pub find_download-push :
    (id : String) (list : List ActiveDownload) (d : ActiveDownload)
    → find_download id (list ++ d ∷ [])
      ≡ or_else (find_download id list) (if d.id == id then some d else none)
find_download-push id [] d = refl
find_download-push id (x ∷ list) d = ground (arith, find_download-push id list d)

pub any-find_download :
    (id : String) (list : List ActiveDownload)
    → any (λ (d : ActiveDownload). d.id == id) list ≡ is_some (find_download id list)
any-find_download id [] = refl
any-find_download id (d ∷ list) = ground (arith, any-find_download id list)

pub Distinct-map :
    (f : ActiveDownload → ActiveDownload) (list : List ActiveDownload)
    → ((d : ActiveDownload) → (f d).id ≡ d.id)
    → Distinct list
    → Distinct (map f list)
Distinct-map f [] h u = tt
Distinct-map f (d ∷ list) h u =
    (rw (h d, find_download-map f d.id list h, u.0) refl, Distinct-map f list h u.1)

pub Distinct-filter :
    (p : ActiveDownload → Bool) (list : List ActiveDownload)
    → Distinct list
    → Distinct (filter p list)
Distinct-filter p [] u = tt
Distinct-filter p (d ∷ list) u =
    ground (arith, find_download-filter-none p d.id list u.0, Distinct-filter p list u.1)

pub Distinct-push :
    (list : List ActiveDownload) (d : ActiveDownload)
    → find_download d.id list ≡ none
    → Distinct list
    → Distinct (list ++ d ∷ [])
Distinct-push [] d e u = (refl, tt)
Distinct-push (x ∷ list) d e u = ground (
  arith,
  eq_iff x.id d.id,
  eq_iff d.id x.id,
  find_download-push x.id list d,
  Distinct-push list d,
)

lookup-index_into :
    (id : String) (acc : Dict ActiveDownload) (list : List ActiveDownload)
    → Distinct list
    → lookup id (index_downloads acc list) ≡ or_else (find_download id list) (lookup id acc)
unfolding index_downloads
lookup-index_into id acc [] u = refl
lookup-index_into id acc (d ∷ list) u =
    rw (lookup-index_into id (insert d.id d acc) list u.1)
      (ground (arith, lookup-insert d.id id d acc, eq_iff d.id id))

pub lookup-index_downloads :
    (id : String) (list : List ActiveDownload)
    → Distinct list
    → lookup id (index_downloads [] list) ≡ find_download id list
lookup-index_downloads id list u =
    rw (lookup-index_into id [] list u) (ground (arith, lookup-empty {V = ActiveDownload} id))

pub merge_download_id :
    (o : Option ActiveDownload) (next : ActiveDownload) → (merge_download o next).id ≡ next.id
merge_download_id none next = refl
merge_download_id (some prev) next = refl

pub advance_id :
    (id : String) (p : DownloadProgress) (d : ActiveDownload) → (advance id p d).id ≡ d.id
advance_id id p d = ground arith
