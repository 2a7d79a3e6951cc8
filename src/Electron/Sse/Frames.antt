-- ===== src/Electron/Sse/Frames.antt =====
-- What the parser finds in chunks of whole frames, and in a frame that a chunk boundary cuts.
use mathlib.Core.List.{reverse, reverse-cons, append_assoc, append-nil}
use mozgoslav.Prelude.{
  ℕ, ◌≡◌, refl, ◌∙◌, sym, ap, ◌≢◌, false, Option, none, some, List, [], ◌∷◌, ◌++◌, arith, eqb, All,
}
use mozgoslav.Prelude.Text.{codes}
use mozgoslav.Electron.Sse.{
  empty_frame, read_line, read_lines, block_text, block_texts, partial_texts,
}
use mozgoslav.Prelude.JsText.{
  is_space, trim_start, trim, is_empty, is_blank, split_blank, split_from, split_lines,
  strip_prefix,
}

-- a payload that the format can carry: no line break, no white space at either end, not empty
pub record IsPayload (p : List ℕ) : Type 0 where
  pub one_line : All (λ c. eqb c 10 ≡ false) p
  pub trimmed : trim p ≡ p
  pub non_empty : p ≢ []

-- a whole frame of a partial text, in the form that the parser reads
abbrev pub frame_block : List ℕ → List ℕ
frame_block p = codes "event: partial" ++ 10 ∷ (codes "data: " ++ p)

abbrev pub format : List (List ℕ) → List ℕ
format [] = []
format (p ∷ ps) = frame_block p ++ (10 ∷ 10 ∷ format ps)

push_all : List ℕ → List ℕ → List ℕ
push_all [] cur = cur
push_all (c ∷ x) cur = push_all x (c ∷ cur)

reverse-push_all : (x cur : List ℕ) → reverse (push_all x cur) ≡ reverse cur ++ x
unfolding push_all
reverse-push_all [] cur = sym (append-nil (reverse cur))
reverse-push_all (c ∷ x) cur = rw (reverse-push_all x (c ∷ cur)) (simp (reverse-cons, append_assoc))

split_blank-append :
    (x cur rest : List ℕ)
    → All (λ c. eqb c 10 ≡ false) x
    → split_blank cur (x ++ (10 ∷ 10 ∷ rest)) ≡ reverse (push_all x cur) ∷ split_blank [] rest
unfolding split_blank push_all
split_blank-append [] cur rest h = refl
split_blank-append (c ∷ []) cur rest h = rw h.0
split_blank-append (c ∷ d ∷ x) cur rest h = rw h.0 (split_blank-append (d ∷ x) (c ∷ cur) rest h.1)

split_from_line :
    (x cur : List ℕ)
    → All (λ c. eqb c 10 ≡ false) x
    → split_from cur x ≡ reverse (push_all x cur) ∷ []
unfolding split_from push_all
split_from_line [] cur h = refl
split_from_line (c ∷ x) cur h = rw h.0 (split_from_line x (c ∷ cur) h.1)

is_empty-trim_start :
    (t : List ℕ) (c : ℕ) → is_space c ≡ false → is_empty (trim_start (t ++ c ∷ [])) ≡ false
unfolding trim_start
is_empty-trim_start [] c h = rw h
is_empty-trim_start (d ∷ t) c h = ground (arith, is_empty-trim_start t c h)

is_empty-append : (s : List ℕ) (c : ℕ) → is_empty (s ++ c ∷ []) ≡ false
is_empty-append [] c = refl
is_empty-append (d ∷ s) c = refl

is_empty-reverse : (s : List ℕ) → is_empty s ≡ false → is_empty (reverse s) ≡ false
is_empty-reverse [] h = cc
is_empty-reverse (c ∷ s) h = rw reverse-cons (is_empty-append (reverse s) c)

-- a text that begins with a visible character is not blank
is_blank-cons : (c : ℕ) (s : List ℕ) → is_space c ≡ false → is_blank (c ∷ s) ≡ false
unfolding is_blank
is_blank-cons c s h =
    rw (h, trim_start)
      (rw reverse-cons
        (is_empty-reverse (trim_start (reverse s ++ c ∷ [])) (is_empty-trim_start (reverse s) c h)))

split_lines-frame_block :
    (p : List ℕ)
    → IsPayload p
    → split_lines (frame_block p) ≡ codes "event: partial" ∷ (codes "data: " ++ p) ∷ []
unfolding split_lines
split_lines-frame_block p v =
    ap (λ l. codes "event: partial" ∷ l)
      (split_from_line p (reverse (codes "data: ")) v.one_line
        ∙ ap (λ x. x ∷ []) (reverse-push_all p (reverse (codes "data: "))))

trim-space : (p : List ℕ) → trim (32 ∷ p) ≡ trim p
unfolding trim is_space
trim-space p = refl

read_event :
    read_line empty_frame (codes "event: partial")
    ≡ record { event = codes "partial"; payload = [] }
unfolding read_line strip_prefix trim is_space
read_event = refl

read_data :
    (p : List ℕ)
    → read_line (record { event = codes "partial"; payload = [] }) (codes "data: " ++ p)
      ≡ record { event = codes "partial"; payload = trim (32 ∷ p) }
unfolding read_line strip_prefix
read_data p = refl

frame_of :
    (p : List ℕ)
    → IsPayload p
    → read_lines empty_frame (split_lines (frame_block p))
      ≡ record { event = codes "partial"; payload = p }
unfolding read_lines
frame_of p v =
    rw (split_lines-frame_block p v, read_event) (read_data p ∙ rw (trim-space p, v.trimmed))

frame_block-visible : (p : List ℕ) → is_blank (frame_block p) ≡ false
frame_block-visible p = is_blank-cons 101 _ (unfold is_space in refl)

split_frame :
    (p rest : List ℕ)
    → IsPayload p
    → split_blank [] (frame_block p ++ (10 ∷ 10 ∷ rest)) ≡ frame_block p ∷ split_blank [] rest
unfolding split_blank
split_frame [] rest v = absurd (v.non_empty refl)
split_frame (c ∷ p) rest v =
    split_blank-append (c ∷ p) (reverse (codes "event: partial" ++ 10 ∷ codes "data: ")) rest
      v.one_line
    ∙ ap (λ b. b ∷ split_blank [] rest)
        (reverse-push_all (c ∷ p) (reverse (codes "event: partial" ++ 10 ∷ codes "data: ")))

split_data_block :
    (p rest : List ℕ)
    → IsPayload p
    → split_blank [] (codes "data: " ++ (p ++ (10 ∷ 10 ∷ rest)))
      ≡ (codes "data: " ++ p) ∷ split_blank [] rest
unfolding split_blank
split_data_block [] rest v = absurd (v.non_empty refl)
split_data_block (c ∷ p) rest v =
    split_blank-append (c ∷ p) (reverse (codes "data: ")) rest v.one_line
    ∙ ap (λ b. b ∷ split_blank [] rest) (reverse-push_all (c ∷ p) (reverse (codes "data: ")))

split_data :
    (p : List ℕ) → IsPayload p → split_lines (codes "data: " ++ p) ≡ (codes "data: " ++ p) ∷ []
unfolding split_lines
split_data p v =
    split_from_line p (reverse (codes "data: ")) v.one_line
    ∙ ap (λ x. x ∷ []) (reverse-push_all p (reverse (codes "data: ")))

module _ (parse_text : List ℕ → Option (List ℕ)) where
  block_text-frame_block :
      (p : List ℕ) → IsPayload p → block_text parse_text (frame_block p) ≡ parse_text p
  unfolding block_text
  block_text-frame_block [] v = absurd (v.non_empty refl)
  block_text-frame_block (c ∷ p) v =
      rw (frame_of (c ∷ p) v, frame_block-visible (c ∷ p), block_text) refl

  -- what the payloads parse to, in order, those that `JSON.parse` refuses left out
  abbrev pub parsed : List (List ℕ) → List (List ℕ)
  parsed [] = []
  parsed (p ∷ ps) = elim (parse_text p) [ none ↦ parsed ps | some text ↦ text ∷ parsed ps ]

  partial_texts-nil : partial_texts parse_text [] ≡ []
  unfolding partial_texts block_texts split_blank block_text is_blank
  partial_texts-nil = refl

  -- A chunk of whole frames gives the text of every frame, in order.
  pub partial_texts-format :
      (ps : List (List ℕ)) → All IsPayload ps → partial_texts parse_text (format ps) ≡ parsed ps
  unfolding partial_texts block_texts
  partial_texts-format [] h = partial_texts-nil
  partial_texts-format (p ∷ ps) h =
      rw (split_frame p (format ps) h.0) (
        rw (block_text-frame_block p h.0, block_texts)
          (ground (arith, partial_texts-format ps h.1)))

  event_line_alone : partial_texts parse_text (codes "event: partial" ++ 10 ∷ []) ≡ []
  unfolding partial_texts block_texts split_blank block_text is_blank read_lines read_line
      split_lines strip_prefix is_space
  event_line_alone = refl

  data_block : (p : List ℕ) → IsPayload p → block_text parse_text (codes "data: " ++ p) ≡ none
  unfolding block_text read_lines read_line strip_prefix
  data_block p v = rw (split_data p v, is_blank-cons 100 _ (unfold is_space in refl), block_text)

  data_line_alone :
      (p : List ℕ)
      → IsPayload p
      → partial_texts parse_text (codes "data: " ++ (p ++ (10 ∷ 10 ∷ []))) ≡ []
  unfolding partial_texts block_texts
  data_line_alone p v =
      rw (split_data_block p [] v) (rw (data_block p v, block_texts) partial_texts-nil)

  -- A frame that a chunk boundary cuts between its two lines is lost: neither chunk gives a text,
  -- since the parser keeps nothing from one chunk to the next.
  pub cut_frame_lost :
      (p : List ℕ)
      → IsPayload p
      → (partial_texts parse_text (codes "event: partial" ++ 10 ∷ []) ≡ [])
        × (partial_texts parse_text (codes "data: " ++ (p ++ (10 ∷ 10 ∷ []))) ≡ [])
  cut_frame_lost p v = (event_line_alone, data_line_alone p v)
