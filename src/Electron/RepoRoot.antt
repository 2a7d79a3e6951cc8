-- ===== src/Electron/RepoRoot.antt =====
-- frontend/electron/utils/repoRoot.ts: the search for the root of the repository. The functions of
-- `node:path`, the file system and `JSON.parse` are parameters.
pub mod Walk
pub mod Search
mod Tests
use mozgoslav.Prelude.{
  ℕ, zero, suc, String, Bool, true, false, not, ◌||◌, Option, none, some, List, [], ◌∷◌, ◌++◌, ◌==◌,
  if◌then◌else◌, filter,
}

-- `RepoRootFs`; a text that cannot be read is an exception
pub record Fs : Type 0 where
  pub file_exists : String → Bool
  pub directory_exists : String → Bool
  pub read_file : String → Option String

-- what `JSON.parse` makes of a text: an exception, a value without properties that cannot be asked
-- for one (`null`), or a value with or without a name that is a text
pub data Parsed : Type 0 where
  bad_json null_value : Parsed
  named : Option String → Parsed

-- a candidate is the root, is not, or makes the test throw
pub data Verdict : Type 0 where
  is_root not_root threw : Verdict

-- what `resolveRepoRoot` ends with
pub data Result : Type 0 where
  found : String → Result
  absent crashed : Result

abbrev pub contains : String → List String → Bool
contains x [] = false
contains x (y ∷ ys) = (y == x) || contains x ys

-- what the search asks of the host: `path.resolve`, `path.dirname`, `path.join`, `JSON.parse` and
-- the file system
pub record Host : Type 0 where
  pub resolve : String → String
  pub dirname : String → String
  pub join : String → String → String
  pub parse : String → Parsed
  pub fs : Fs

-- `parsed.name === FRONTEND_PACKAGE_NAME`, outside the `try`
unfoldable pub name_verdict : Parsed → Verdict
name_verdict bad_json = not_root
name_verdict null_value = threw
name_verdict (named none) = not_root
name_verdict (named (some name)) = if name == "mozgoslav" then is_root else not_root

-- the inner loop: it returns, or goes on with the candidates that it has seen
pub data Outcome : Type 0 where
  returned : Result → Outcome
  going : (seen : List String) → Outcome

abbrev pub judged : String → Verdict → Outcome → Outcome
judged candidate is_root rest = returned (found candidate)
judged candidate not_root rest = rest
judged candidate threw rest = returned crashed

module _ (h : Host) where
  -- the `try` block
  unfoldable pub read_verdict : Option String → Verdict
  unfolding name_verdict
  read_verdict none = not_root
  read_verdict (some text) = name_verdict (h.parse text)

  -- `isCandidateRepoRoot`
  unfoldable pub is_candidate_repo_root : String → Verdict
  unfolding read_verdict
  is_candidate_repo_root candidate =
      if h.fs.directory_exists (h.join candidate "python-sidecar")
      then if h.fs.file_exists (h.join (h.join candidate "frontend") "package.json")
        then read_verdict (h.fs.read_file (h.join (h.join candidate "frontend") "package.json"))
        else not_root
      else not_root

  -- the `while` loop of `walkUp`
  unfoldable pub walk : ℕ → String → String → List String
  walk zero previous current = []
  walk (suc fuel) previous current =
      let rest = walk fuel current (h.dirname current) in
      if current == previous then [] else current ∷ rest

  unfoldable pub walk_up : ℕ → String → List String
  unfolding walk
  walk_up fuel start = walk fuel "" (h.resolve start)

  unfoldable pub search_ancestors : List String → List String → Outcome
  unfolding is_candidate_repo_root
  search_ancestors seen [] = going seen
  search_ancestors seen (candidate ∷ ancestors) =
      let again = search_ancestors seen ancestors in
      let next = search_ancestors (candidate ∷ seen) ancestors in
      if contains candidate seen
      then again
      else judged candidate (is_candidate_repo_root candidate) next

  -- the outer loop
  unfoldable pub search_seeds : ℕ → List String → List String → Result
  unfolding walk_up search_ancestors
  search_seeds fuel seen [] = absent
  search_seeds fuel seen (seed ∷ seeds) = elim (search_ancestors seen (walk_up fuel seed)) [
    | returned r ↦ r
    | going after ↦ search_seeds fuel after seeds
  ]

  -- `[inputs.dirname, inputs.cwd].filter((seed) => seed && seed.length > 0)`
  abbrev pub seeds_of : String → String → List String
  seeds_of dir cwd = filter (λ seed. not (seed == "")) (dir ∷ cwd ∷ [])

  -- the override of the environment
  unfoldable pub override_of : Option String → Option String
  override_of none = none
  override_of (some path) =
      if path == ""
      then none
      else if h.fs.directory_exists path
      then some (h.resolve path)
      else none

  -- `resolveRepoRoot`
  unfoldable pub resolve_repo_root : ℕ → Option String → String → String → Result
  unfolding override_of search_seeds
  resolve_repo_root fuel override dir cwd = elim (override_of override) [
    | some root ↦ found root
    | none ↦ search_seeds fuel [] (seeds_of dir cwd)
  ]
