-- ===== src/Electron/RepoRoot/Tests.antt =====
-- The search on a small disk.
use mozgoslav.Prelude.{
  ℕ, ◌≡◌, ◌≢◌, refl, sym, inl, inr, Bool-cases, String, true, some, [], ◌∷◌, ◌==◌, arith, eq_iff,
  if◌then◌else◌, All,
}
use Prim.Native.String.{◌++◌ as ◌<>◌}
use mozgoslav.Electron.RepoRoot.{
  Host, named, bad_json, found, contains, is_candidate_repo_root, walk, walk_up, search_seeds,
  search_ancestors, read_verdict, name_verdict,
}
use mozgoslav.Electron.RepoRoot.Walk.{Climbs, walk_up-IsClosed}
use mozgoslav.Electron.RepoRoot.Search.{first_root, all_ancestors, search_is_first_root}

abbrev parent : String → String
parent p = if p == "/r/frontend" then "/r" else "/"

abbrev depth : String → ℕ
depth p = if p == "/r/frontend" then 2 else if p == "/" then 0 else 1

abbrev disk : Host
disk = record {
  resolve = λ p. p;
  dirname = parent;
  join = λ a b. a <> "/" <> b;
  parse = λ text. if text == "{name}" then named (some "mozgoslav") else bad_json;
  fs = record {
    file_exists = λ p. p == "/r/frontend/package.json";
    directory_exists = λ p. p == "/r/python-sidecar";
    read_file = λ p. some "{name}";
  };
}

disk-Climbs : Climbs disk depth
disk-Climbs p = elim (Bool-cases (p == "/r/frontend")) [
  | inl e ↦ inr (rw e (omega arith))
  | inr e ↦ elim (Bool-cases (p == "/")) [
    | inl f ↦ inl (rw e (sym ((eq_iff p "/").0 f)))
    | inr f ↦ inr (rw (e, f) (omega arith))
  ]
]

not_empty : ◌≢◌ {A = String} "/r/frontend" ""
not_empty e = ground (arith, eq_iff "/r/frontend" "")

walk_up-IsClosed_example :
    (contains "/r/frontend" (walk_up disk 4 "/r/frontend") ≡ true)
    × All
        (λ p. contains (disk.dirname p) (walk_up disk 4 "/r/frontend") ≡ true)
        (walk_up disk 4 "/r/frontend")
walk_up-IsClosed_example =
    walk_up-IsClosed disk depth disk-Climbs 4 "/r/frontend" not_empty (omega arith)

finds_root : search_seeds disk 4 [] ("/r/frontend" ∷ []) ≡ found "/r"
unfolding search_seeds walk_up walk search_ancestors is_candidate_repo_root read_verdict
    name_verdict
finds_root = refl

search_is_first_root_example :
    search_seeds disk 4 [] ("/r/frontend" ∷ "/" ∷ [])
    ≡ first_root disk (all_ancestors disk 4 ("/r/frontend" ∷ "/" ∷ []))
search_is_first_root_example = search_is_first_root disk 4 ("/r/frontend" ∷ "/" ∷ [])
