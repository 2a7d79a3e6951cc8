-- ===== src/Store/Hotkeys/Sequence.antt =====
-- The sequence number of the hotkey's events.
use mozgoslav.Prelude.{
  ◌≡◌, ℕ, zero, suc, ◌+◌, Bool, ◌||◌, List, [], ◌∷◌, ◌==◌, arith, if◌then◌else◌,
}
use mozgoslav.Store.Feed.{Phase, Event, run}
use mozgoslav.Store.Feed.Accepted.{accepted, fold, run-accepted}
use mozgoslav.Store.Hotkeys.{State, Sent, reduce, consume}

-- a frame that is a press or a release
abbrev pub is_counted : Sent → Bool
is_counted f = (f.kind == "press") || (f.kind == "release")

-- how many of the frames are presses or releases
abbrev pub counted : List Sent → ℕ
counted [] = zero
counted (f ∷ frames) = if is_counted f then suc (counted frames) else counted frames

consume-sequence :
    (s : State) (f : Sent)
    → (consume s f).sequence ≡ (if is_counted f then suc s.sequence else s.sequence)
unfolding consume reduce
consume-sequence s f = ground arith

fold-sequence :
    (s : State) (frames : List Sent)
    → (fold consume s frames).sequence ≡ s.sequence + counted frames
fold-sequence s [] = omega arith
fold-sequence s (f ∷ frames) =
    ground (arith, fold-sequence (consume s f) frames, consume-sequence s f)

-- Whatever happens to the subscription, the sequence number counts the presses and releases that
-- arrived while a consumer ran; frames of another kind, and frames at other times, count nothing.
pub sequence_counts :
    (s : State) (p : Phase) (events : List (Event Sent))
    → (run consume (record { store = s; phase = p }) events).store.sequence
      ≡ s.sequence + counted (accepted p events)
sequence_counts s p events =
    rw (run-accepted consume s p events) (fold-sequence s (accepted p events))
