-- ===== src/Electron/Sse.antt =====
-- `parseSseChunk` of frontend/electron/dictation/DictationOrchestrator.ts and `parseDumpSseChunk` of
-- DumpModeOrchestrator.ts, which are the same parser of server-sent events. A text is the list of its
-- UTF-16 code units; `JSON.parse` is a parameter.
pub mod Frames
mod Tests
use mozgoslav.Prelude.{
  ℕ, Bool, true, false, not, ◌&&◌, ◌||◌, Option, none, some, List, [], ◌∷◌, ◌++◌, eqb, leb,
  if◌then◌else◌,
}
use mozgoslav.Prelude.Text.{codes}
use mozgoslav.Prelude.JsText.{trim, split_blank, split_lines, strip_prefix, eq_text, is_blank}

-- the variables `event` and `data` of the loop over the lines of a block
pub record Frame : Type 0 where
  pub event : List ℕ
  pub payload : List ℕ

abbrev pub empty_frame : Frame
empty_frame = record { event = codes "message"; payload = [] }

-- the body of the loop over the lines
unfoldable pub read_line : Frame → List ℕ → Frame
read_line f line = elim (strip_prefix (codes "event:") line) [
  | some rest ↦ record f { event = trim rest }
  | none ↦ elim (strip_prefix (codes "data:") line) [
    | some rest ↦ record f { payload = f.payload ++ trim rest }
    | none ↦ f
  ]
]

unfoldable pub read_lines : Frame → List (List ℕ) → Frame
read_lines f [] = f
read_lines f (line ∷ lines) = read_lines (read_line f line) lines

module _ (parse_text : List ℕ → Option (List ℕ)) where
  -- the partial text that a block carries; `parse_text` is `JSON.parse(data).text`, none if it throws
  unfoldable pub block_text : List ℕ → Option (List ℕ)
  block_text block =
      let f = read_lines empty_frame (split_lines block) in
      if is_blank block
      then none
      else if eq_text f.event (codes "partial") && not (eq_text f.payload [])
      then parse_text f.payload
      else none

  unfoldable pub block_texts : List (List ℕ) → List (List ℕ)
  block_texts [] = []
  block_texts (block ∷ blocks) = elim (block_text block) [
    | none ↦ block_texts blocks
    | some text ↦ text ∷ block_texts blocks
  ]

  -- the partial texts of one chunk, in order
  unfoldable pub partial_texts : List ℕ → List (List ℕ)
  partial_texts raw = block_texts (split_blank [] raw)
