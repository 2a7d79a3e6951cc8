-- ===== src/Store/Models/Tests.antt =====
-- The downloads of the models at concrete actions.
use mozgoslav.Prelude.{ℕ, ◌≤◌, ◌≡◌, refl, String, [], ◌∷◌, lookup, insert, arith}
use mozgoslav.Store.Models.{
  ActiveDownload, State, downloading, failed, initial, merge_list, index_downloads, start_list,
  optimistic, Action, load_active_downloads_success, download_model_started, reduce,
}
use mozgoslav.Store.Models.Downloads.{Distinct}
use mozgoslav.Store.Models.Progress.{reduce_bytes}
use mozgoslav.Store.Models.Entries.{reduce-Distinct}

-- an entry of the catalogue by its id alone
abbrev itself : String → String
itself id = id

abbrev other_id : String
other_id = "b"

abbrev at_bytes : String → ℕ → ActiveDownload
at_bytes id n = record (optimistic "m" id) { state = downloading; bytes_received = n }

abbrev listed : State String
listed = record initial { active_download_list = at_bytes "a" 50 ∷ at_bytes "b" 7 ∷ [] }

abbrev polled : Action String
polled = load_active_downloads_success (at_bytes "b" 3 ∷ at_bytes "c" 1 ∷ [])

listed-Distinct : Distinct listed.active_download_list
listed-Distinct = (ground arith, (refl, tt))

-- a stale poll neither lowers the count nor keeps what it does not list
stale_poll :
    (reduce itself listed polled).active_download_list ≡ at_bytes "b" 7 ∷ at_bytes "c" 1 ∷ []
unfolding reduce merge_list index_downloads lookup insert
stale_poll = refl

-- a failed download is replaced by the new one of its model
abbrev retried : State String
retried = record initial { active_download_list = record (at_bytes "a" 50) { state = failed } ∷ [] }

retry :
    (reduce itself retried (download_model_started "m" "z")).active_download_list
    ≡ optimistic "m" "z" ∷ []
unfolding reduce start_list
retry = refl

reduce-Distinct_example : Distinct (reduce itself listed polled).active_download_list
reduce-Distinct_example =
    reduce-Distinct itself listed polled (ground arith, (refl, tt)) listed-Distinct

abbrev ahead : Action String
ahead = load_active_downloads_success (at_bytes "b" 9 ∷ [])

reduce_bytes_example : (at_bytes "b" 7).bytes_received ≤ (at_bytes "b" 9).bytes_received
reduce_bytes_example =
    reduce_bytes itself listed ahead "b" (at_bytes "b" 7) (at_bytes "b" 9) listed-Distinct tt
      (ground arith) (unfold reduce merge_list index_downloads lookup insert in refl)
