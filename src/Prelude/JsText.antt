-- ===== src/Prelude/JsText.antt =====
-- `String.prototype.trim`, `split` and `startsWith` on lists of code units.
use mozgoslav.Prelude.{
  ℕ, Bool, true, false, ◌&&◌, ◌||◌, Option, none, some, List, [], ◌∷◌, eqb, leb, if◌then◌else◌,
}
use mathlib.Core.List.{reverse}

-- white space and line terminators of ECMAScript
unfoldable pub is_space : ℕ → Bool
is_space c =
    (leb 9 c && leb c 13)
    || eqb c 32
    || eqb c 0xa0
    || eqb c 0x1680
    || (leb 0x2000 c && leb c 0x200a)
    || eqb c 0x2028
    || eqb c 0x2029
    || eqb c 0x202f
    || eqb c 0x205f
    || eqb c 0x3000
    || eqb c 0xfeff

unfoldable pub trim_start : List ℕ → List ℕ
trim_start [] = []
trim_start (c ∷ s) = let rest = trim_start s in if is_space c then rest else c ∷ s

unfoldable pub trim : List ℕ → List ℕ
unfolding trim_start
trim s = reverse (trim_start (reverse (trim_start s)))

abbrev pub is_empty : List ℕ → Bool
is_empty [] = true
is_empty (_ ∷ _) = false

-- `!s.trim().length`
unfoldable pub is_blank : List ℕ → Bool
unfolding trim
is_blank s = is_empty (trim s)

-- `s.split("\n\n")`: `cur` holds, in reverse, what has been read of the current part
unfoldable pub split_blank : List ℕ → List ℕ → List (List ℕ)
split_blank cur [] = reverse cur ∷ []
split_blank cur (c ∷ []) = reverse (c ∷ cur) ∷ []
split_blank cur (c ∷ d ∷ s) =
    let closed = reverse cur ∷ split_blank [] s in
    let longer = split_blank (c ∷ cur) (d ∷ s) in if eqb c 10 && eqb d 10 then closed else longer

unfoldable pub split_from : List ℕ → List ℕ → List (List ℕ)
split_from cur [] = reverse cur ∷ []
split_from cur (c ∷ s) =
    let closed = reverse cur ∷ split_from [] s in
    let longer = split_from (c ∷ cur) s in if eqb c 10 then closed else longer

-- `s.split("\n")`
unfoldable pub split_lines : List ℕ → List (List ℕ)
unfolding split_from
split_lines s = split_from [] s

-- `s.startsWith(p)` with `s.slice(p.length)`
unfoldable pub strip_prefix : List ℕ → List ℕ → Option (List ℕ)
strip_prefix [] s = some s
strip_prefix (p ∷ ps) [] = none
strip_prefix (p ∷ ps) (c ∷ s) = if eqb p c then strip_prefix ps s else none

abbrev pub eq_text : List ℕ → List ℕ → Bool
eq_text [] [] = true
eq_text (a ∷ s) (b ∷ t) = eqb a b && eq_text s t
eq_text _ _ = false
