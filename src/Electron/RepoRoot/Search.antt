-- ===== src/Electron/RepoRoot/Search.antt =====
-- The search with its set of seen folders against the search without.
use mozgoslav.Prelude.{
  ℕ, ◌≡◌, refl, sym, subst, ◌∙◌, String, true, List, [], ◌∷◌, ◌++◌, ◌==◌, arith, eq_iff, if_cases,
  inl, inr, Bool-cases,
}
use mozgoslav.Electron.RepoRoot.{
  Host, Verdict, is_root, not_root, threw, Result, found, absent, crashed, Outcome, returned, going,
  judged, contains, is_candidate_repo_root, walk_up, search_ancestors, search_seeds,
}

module _ (h : Host) where
  abbrev first_of : String → Verdict → Result → Result
  first_of candidate is_root rest = found candidate
  first_of candidate not_root rest = rest
  first_of candidate threw rest = crashed

  -- the first folder of a list that is the root, or whose test throws
  abbrev pub first_root : List String → Result
  first_root [] = absent
  first_root (p ∷ ps) = first_of p (is_candidate_repo_root h p) (first_root ps)

  abbrev pub all_ancestors : ℕ → List String → List String
  all_ancestors fuel [] = []
  all_ancestors fuel (seed ∷ seeds) = walk_up h fuel seed ++ all_ancestors fuel seeds

  -- every folder that was seen is not the root
  abbrev Rejected : List String → Type 0
  Rejected seen = (p : String) → contains p seen ≡ true → is_candidate_repo_root h p ≡ not_root

  Rejected-push :
      (p : String) (seen : List String)
      → is_candidate_repo_root h p ≡ not_root
      → Rejected seen
      → Rejected (p ∷ seen)
  Rejected-push p seen e r q c = elim (Bool-cases (p == q)) [
    | inl same ↦ subst (λ x. is_candidate_repo_root h x ≡ not_root) ((eq_iff p q).0 same) e
    | inr other ↦ r q (ground arith)
  ]

  -- a loop that returns has the result of the plain search; one that goes on has found nothing
  abbrev Agrees : List String → List String → Outcome → Type 0
  Agrees list rest (returned r) = first_root (list ++ rest) ≡ r
  Agrees list rest (going seen) = (first_root (list ++ rest) ≡ first_root rest) × Rejected seen

  judged-Agrees :
      (p : String) (list rest : List String) (v : Verdict) (o : Outcome)
      → is_candidate_repo_root h p ≡ v
      → (v ≡ not_root → Agrees list rest o)
      → Agrees (p ∷ list) rest (judged p v o)
  judged-Agrees p list rest is_root o e f = rw e refl
  judged-Agrees p list rest threw o e f = rw e refl
  judged-Agrees p list rest not_root (returned r) e f = rw e (f refl)
  judged-Agrees p list rest not_root (going seen) e f = (rw e (f refl).0, (f refl).1)

  skipped-Agrees :
      (p : String) (list rest : List String) (o : Outcome)
      → is_candidate_repo_root h p ≡ not_root
      → Agrees list rest o
      → Agrees (p ∷ list) rest o
  skipped-Agrees p list rest (returned r) e f = rw e f
  skipped-Agrees p list rest (going seen) e f = (rw e f.0, f.1)

  search_ancestors-Agrees :
      (seen list rest : List String)
      → Rejected seen
      → Agrees list rest (search_ancestors h seen list)
  unfolding search_ancestors
  search_ancestors-Agrees seen [] rest r = (refl, r)
  search_ancestors-Agrees seen (p ∷ list) rest r =
      if_cases (λ (o : Outcome). Agrees (p ∷ list) rest o) (contains p seen)
        (λ e. skipped-Agrees p list rest _ (r p e) (search_ancestors-Agrees seen list rest r))
        (λ _.
          judged-Agrees p list rest (is_candidate_repo_root h p) _ refl
            (λ v. search_ancestors-Agrees (p ∷ seen) list rest (Rejected-push p seen v r)))

  search_seeds_from :
      (fuel : ℕ) (seen seeds : List String)
      → Rejected seen
      → search_seeds h fuel seen seeds ≡ first_root (all_ancestors fuel seeds)
  unfolding search_seeds
  search_seeds_from fuel seen [] r = refl
  search_seeds_from fuel seen (seed ∷ seeds) r =
      go (λ after. search_seeds_from fuel after seeds)
        (search_ancestors h seen (walk_up h fuel seed))
        (search_ancestors-Agrees seen (walk_up h fuel seed) (all_ancestors fuel seeds) r)
    where
      go :
          ((after : List String)
            → Rejected after
            → search_seeds h fuel after seeds ≡ first_root (all_ancestors fuel seeds))
          → (o : Outcome) → Agrees (walk_up h fuel seed) (all_ancestors fuel seeds) o
          → elim o [ returned r ↦ r | going after ↦ search_seeds h fuel after seeds ]
            ≡ first_root (all_ancestors fuel (seed ∷ seeds))
      go onward (returned result) f = sym f
      go onward (going after) f = onward after f.1 ∙ sym f.0

  -- The set of folders that were seen changes nothing: the search returns the first root among the
  -- ancestors of the program's folder and then those of the working directory.
  pub search_is_first_root :
      (fuel : ℕ) (seeds : List String)
      → search_seeds h fuel [] seeds ≡ first_root (all_ancestors fuel seeds)
  search_is_first_root fuel seeds = search_seeds_from fuel [] seeds (λ p e. absurd (cc))

  IsFoundIn : String → List String → Type 0
  IsFoundIn p list = (is_candidate_repo_root h p ≡ is_root) × (contains p list ≡ true)

  first_of-found :
      (q p : String) (list : List String) (v : Verdict) (rest : Result)
      → is_candidate_repo_root h q ≡ v
      → first_of q v rest ≡ found p
      → (rest ≡ found p → IsFoundIn p list)
      → IsFoundIn p (q ∷ list)
  unfolding IsFoundIn
  first_of-found q p list is_root rest e f r =
      let same : q ≡ p = cc in
      (subst (λ x. is_candidate_repo_root h x ≡ is_root) same e, ground (arith, eq_iff q p, same))
  first_of-found q p list not_root rest e f r = ((r f).0, ground (arith, (r f).1))
  first_of-found q p list threw rest e f r = absurd (cc)

  first_root-found :
      (list : List String) (p : String) → first_root list ≡ found p → IsFoundIn p list
  first_root-found [] p e = absurd (cc)
  first_root-found (q ∷ list) p e =
      first_of-found q p list (is_candidate_repo_root h q) (first_root list) refl e
        (first_root-found list p)

  -- A folder that the search finds passes the test for the root and is an ancestor of one of the
  -- folders that the search starts from.
  pub found-is_root :
      (fuel : ℕ) (seeds : List String) (p : String)
      → search_seeds h fuel [] seeds ≡ found p
      → (is_candidate_repo_root h p ≡ is_root) × (contains p (all_ancestors fuel seeds) ≡ true)
  unfolding IsFoundIn
  found-is_root fuel seeds p e =
      first_root-found (all_ancestors fuel seeds) p (sym (search_is_first_root fuel seeds) ∙ e)
