-- ===== src/Electron/Helper/Lines.antt =====
-- The line buffer of `handleStdout`, and the chunks of the helper's output.
use mathlib.Core.List.{reverse, reverse-cons, append_assoc, append-nil}
use mozgoslav.Prelude.{
  ℕ, ◌≡◌, refl, ◌∙◌, sym, ap, true, false, Option, List, [], ◌∷◌, ◌++◌, arith, eqb, All, All-append,
  map, Bool-cases, Option-cases, inl, inr,
}
use mozgoslav.Prelude.JsText.{trim, is_empty}
use mozgoslav.Electron.Helper.{
  Message, Client, dispatch, handle_message, handle_line, drain, take_text, handle_stdout,
}

-- no line break
abbrev pub IsPartial : List ℕ → Type 0
IsPartial text = All (λ u. eqb u 10 ≡ false) text

IsPartial-reverse : (text : List ℕ) → IsPartial text → IsPartial (reverse text)
IsPartial-reverse [] h = tt
IsPartial-reverse (u ∷ text) h = rw reverse-cons (
    All-append (λ u. eqb u 10 ≡ false) (reverse text) (u ∷ []) (IsPartial-reverse text h.1)
      (h.0, tt))

-- chunks, one behind another
abbrev pub joined : List (List ℕ) → List ℕ
joined [] = []
joined (chunk ∷ chunks) = chunk ++ joined chunks

module _ {R : Type 0} where
  dispatch-buffer :
      (m : Message R) (c : Client R) (text : List ℕ)
      → dispatch m (record c { buffer = text }) ≡ record (dispatch m c) { buffer = text }
  unfolding dispatch
  dispatch-buffer m c text = ground arith

module _ {R : Type 0} (parse : List ℕ → Option (Message R)) where
  handle_message-buffer :
      (line : List ℕ) (c : Client R) (text : List ℕ)
      → handle_message parse line (record c { buffer = text })
        ≡ record (handle_message parse line c) { buffer = text }
  unfolding handle_message
  handle_message-buffer line c text = elim (Option-cases (parse line)) [
    | inl e ↦ rw (e, handle_message) refl
    | inr (m, e) ↦ rw (e, handle_message) (dispatch-buffer m c text)
  ]

  -- a line is handled without a look at the buffer
  handle_line-buffer :
      (line : List ℕ) (c : Client R) (text : List ℕ)
      → handle_line parse line (record c { buffer = text })
        ≡ record (handle_line parse line c) { buffer = text }
  unfolding handle_line
  handle_line-buffer line c text = elim (Bool-cases (is_empty (trim line))) [
    | inl e ↦ rw (e, handle_line) refl
    | inr e ↦ rw (e, handle_line) (handle_message-buffer (trim line) c text)
  ]

  drain_step :
      (u : ℕ) (cur text : List ℕ) (c : Client R)
      → eqb u 10 ≡ false
      → drain parse cur (u ∷ text) c ≡ drain parse (u ∷ cur) text c
  unfolding drain
  drain_step u cur text c e = rw (e, drain) refl

  drain_break :
      (u : ℕ) (cur text : List ℕ) (c : Client R)
      → eqb u 10 ≡ true
      → drain parse cur (u ∷ text) c
        ≡ drain parse [] text (handle_line parse (reverse cur) (record c { buffer = text }))
  unfolding drain
  drain_break u cur text c e = rw (e, drain) refl

  drain-buffer :
      (cur text : List ℕ) (c : Client R) (old : List ℕ)
      → drain parse cur text (record c { buffer = old }) ≡ drain parse cur text c
  unfolding drain
  drain-buffer cur [] c old = refl
  drain-buffer cur (u ∷ text) c old = elim (Bool-cases (eqb u 10)) [
    | inl e ↦
        drain_break u cur text (record c { buffer = old }) e ∙ sym (drain_break u cur text c e)
    | inr e ↦
        drain_step u cur text (record c { buffer = old }) e
        ∙ (drain-buffer (u ∷ cur) text c old ∙ sym (drain_step u cur text c e))
  ]

  -- the buffer that a line break leaves is read next, so it may as well be another
  drain_break-buffer :
      (u : ℕ) (cur text : List ℕ) (c : Client R)
      → eqb u 10 ≡ true
      → drain parse cur (u ∷ text) c ≡ drain parse [] text (handle_line parse (reverse cur) c)
  drain_break-buffer u cur text c e =
      drain_break u cur text c e
      ∙ (ap (drain parse [] text) (handle_line-buffer (reverse cur) c text)
          ∙ drain-buffer [] text (handle_line parse (reverse cur) c) text)

  -- what was passed without a break may as well be read again
  drain-reverse :
      (cur text : List ℕ) (c : Client R)
      → IsPartial cur
      → drain parse [] (reverse cur ++ text) c ≡ drain parse cur text c
  drain-reverse [] text c h = refl
  drain-reverse (u ∷ cur) text c h =
      rw (reverse-cons, append_assoc)
        (drain-reverse cur (u ∷ text) c h.1 ∙ drain_step u cur text c h.0)

  -- reading a text is reading its parts in turn
  drain-append :
      (cur a b : List ℕ) (c : Client R)
      → IsPartial cur
      → drain parse cur (a ++ b) c ≡ take_text parse b (drain parse cur a c)
  unfolding take_text drain
  drain-append cur [] b c h =
      sym (drain-buffer [] (reverse cur ++ b) c (reverse cur) ∙ drain-reverse cur b c h)
  drain-append cur (u ∷ a) b c h = elim (Bool-cases (eqb u 10)) [
    | inl e ↦
        drain_break-buffer u cur (a ++ b) c e
        ∙ (drain-append [] a b (handle_line parse (reverse cur) c) tt
            ∙ ap (take_text parse b) (sym (drain_break-buffer u cur a c e)))
    | inr e ↦
        drain_step u cur (a ++ b) c e
        ∙ (drain-append (u ∷ cur) a b c (e, h)
            ∙ ap (take_text parse b) (sym (drain_step u cur a c e)))
  ]

  -- the buffer never keeps a line break
  drain-IsPartial :
      (cur text : List ℕ) (c : Client R) → IsPartial cur → IsPartial (drain parse cur text c).buffer
  unfolding drain
  drain-IsPartial cur [] c h = IsPartial-reverse cur h
  drain-IsPartial cur (u ∷ text) c h = elim (Bool-cases (eqb u 10)) [
    | inl e ↦
        rw (drain_break u cur text c e) (
          drain-IsPartial [] text (handle_line parse (reverse cur) (record c { buffer = text })) tt)
    | inr e ↦ rw (drain_step u cur text c e) (drain-IsPartial (u ∷ cur) text c (e, h))
  ]

  -- texts, read one after another
  abbrev take_texts : List (List ℕ) → Client R → Client R
  take_texts [] c = c
  take_texts (text ∷ texts) c = take_texts texts (take_text parse text c)

  take_text-append :
      (a b : List ℕ) (c : Client R)
      → take_text parse (a ++ b) c ≡ take_text parse b (take_text parse a c)
  unfolding take_text
  take_text-append a b c =
      ap (λ text. drain parse [] text c) (sym (append_assoc c.buffer a b))
      ∙ drain-append [] (c.buffer ++ a) b c tt

  -- an unfinished line is only kept
  drain-unfinished :
      (cur text : List ℕ) (c : Client R)
      → IsPartial text
      → drain parse cur text c ≡ record c { buffer = reverse cur ++ text }
  unfolding drain
  drain-unfinished cur [] c h = rw append-nil refl
  drain-unfinished cur (u ∷ text) c h =
      drain_step u cur text c h.0
      ∙ (drain-unfinished (u ∷ cur) text c h.1
          ∙ ap (λ kept. record c { buffer = kept }) (rw (reverse-cons, append_assoc) refl))

  take_text-nil : (c : Client R) → IsPartial c.buffer → take_text parse [] c ≡ c
  unfolding take_text
  take_text-nil c h =
      ap (λ text. drain parse [] text c) (append-nil c.buffer) ∙ drain-unfinished [] c.buffer c h

  take_text-IsPartial : (chunk : List ℕ) (c : Client R) → IsPartial (take_text parse chunk c).buffer
  unfolding take_text
  take_text-IsPartial chunk c = drain-IsPartial [] (c.buffer ++ chunk) c tt

  take_texts-joined :
      (texts : List (List ℕ)) (c : Client R)
      → IsPartial c.buffer
      → (take_texts texts c ≡ take_text parse (joined texts) c)
        × IsPartial (take_texts texts c).buffer
  take_texts-joined [] c h = (sym (take_text-nil c h), h)
  take_texts-joined (text ∷ texts) c h =
      let (e, p) = take_texts-joined texts (take_text parse text c) (take_text-IsPartial text c) in
      (e ∙ sym (take_text-append text (joined texts) c), p)

module _ {R : Type 0} (decode : List ℕ → List ℕ) (parse : List ℕ → Option (Message R)) where
  -- the chunks of one output, one after another
  abbrev pub feed : List (List ℕ) → Client R → Client R
  feed [] c = c
  feed (chunk ∷ chunks) c = feed chunks (handle_stdout decode parse chunk c)

  feed-texts :
      (chunks : List (List ℕ)) (c : Client R)
      → feed chunks c ≡ take_texts parse (map decode chunks) c
  unfolding handle_stdout
  feed-texts [] c = refl
  feed-texts (chunk ∷ chunks) c = feed-texts chunks (take_text parse (decode chunk) c)

  -- If the helper's output is cut between characters, so that its chunks decode to what they decode to
  -- together, the client ends as if it had come in one: the same requests are settled, the same
  -- events passed on, and the same unfinished line is kept.
  pub feed-joined :
      (chunks : List (List ℕ)) (c : Client R)
      → decode (joined chunks) ≡ joined (map decode chunks)
      → IsPartial c.buffer
      → (feed chunks c ≡ handle_stdout decode parse (joined chunks) c)
        × IsPartial (feed chunks c).buffer
  unfolding handle_stdout
  feed-joined chunks c whole h =
      let (e, p) = take_texts-joined parse (map decode chunks) c h in
      rw (feed-texts chunks c, whole) (e, p)
