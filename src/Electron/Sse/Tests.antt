-- ===== src/Electron/Sse/Tests.antt =====
-- The event parser at concrete chunks.
use mozgoslav.Prelude.{ℕ, ◌≡◌, refl, Option, some, List, [], ◌∷◌, ◌++◌}
use mozgoslav.Prelude.Text.{codes}
use mozgoslav.Electron.Sse.{partial_texts, block_texts, block_text, read_lines, read_line}
use mozgoslav.Prelude.JsText.{split_blank, split_lines, trim, is_blank, is_space, strip_prefix}
use mozgoslav.Electron.Sse.Frames.{IsPayload, format, partial_texts-format}

-- a stand-in for `JSON.parse(data).text`
abbrev whole : List ℕ → Option (List ℕ)
whole p = some p

abbrev hi : List ℕ
hi = codes "hi"

abbrev yo : List ℕ
yo = codes "y o"

hi-IsPayload : IsPayload hi
unfolding trim is_space
hi-IsPayload = record { one_line = (refl, (refl, tt)); trimmed = refl; non_empty = λ e. cc }

yo-IsPayload : IsPayload yo
unfolding trim is_space
yo-IsPayload = record { one_line = (refl, (refl, (refl, tt))); trimmed = refl; non_empty = λ e. cc }

-- other events and comments are passed over; the data lines of one frame are joined
mixed :
    partial_texts whole (
      codes "event: final"
      ++ 10
        ∷ (codes "data: x"
            ++ (10
                ∷ 10
                ∷ (codes "event: partial"
                    ++ 10 ∷ (codes "data: a" ++ 10 ∷ (codes "data:b " ++ (10 ∷ 10 ∷ [])))))))
    ≡ codes "ab" ∷ []
unfolding partial_texts block_texts split_blank block_text is_blank read_lines read_line split_lines
    strip_prefix is_space trim
mixed = refl

partial_texts-format_example : partial_texts whole (format (hi ∷ yo ∷ [])) ≡ hi ∷ yo ∷ []
partial_texts-format_example =
    partial_texts-format whole (hi ∷ yo ∷ []) (hi-IsPayload, (yo-IsPayload, tt))
