-- ===== src/Store/Feed/Accepted.antt =====
-- Which frames a feed takes.
use mozgoslav.Prelude.{◌≡◌, refl, sym, subst, true, false, List, [], ◌∷◌}
use mozgoslav.Store.Feed.{
  Phase, off, listening, Event, subscribed, unsubscribed, channel_ended, received, World,
  end_consumer, step, run,
}

-- the frames that arrive while a consumer runs
abbrev pub accepted {ℓ} : {F : Type ℓ} → Phase → List (Event F) → List F
accepted p [] = []
accepted p (subscribed ∷ events) = accepted (listening true) events
accepted p (unsubscribed ∷ events) = accepted off events
accepted p (channel_ended ∷ events) = accepted (end_consumer p) events
accepted (listening true) (received f ∷ events) = f ∷ accepted (listening true) events
accepted (listening false) (received f ∷ events) = accepted (listening false) events
accepted off (received f ∷ events) = accepted off events

module _ {ℓ} {F S : Type ℓ} (consume : S → F → S) where
  abbrev pub fold : S → List F → S
  fold s [] = s
  fold s (f ∷ frames) = fold (consume s f) frames

  -- A feed stores exactly the frames that arrive while its consumer runs, in their order.
  pub run-accepted :
      (s : S) (p : Phase) (events : List (Event F))
      → (run consume (record { store = s; phase = p }) events).store ≡ fold s (accepted p events)
  unfolding run step
  run-accepted s p [] = refl
  run-accepted s p (subscribed ∷ events) = run-accepted s (listening true) events
  run-accepted s p (unsubscribed ∷ events) = run-accepted s off events
  run-accepted s p (channel_ended ∷ events) = run-accepted s (end_consumer p) events
  run-accepted s (listening true) (received f ∷ events) =
      run-accepted (consume s f) (listening true) events
  run-accepted s (listening false) (received f ∷ events) = run-accepted s (listening false) events
  run-accepted s off (received f ∷ events) = run-accepted s off events

  -- What every frame keeps, the feed keeps.
  pub run-keeps :
      (P : S → Type ℓ)
      → ((s : S) (f : F) → P s → P (consume s f))
      → (w : World S) (events : List (Event F)) → P w.store
      → P (run consume w events).store
  run-keeps P keep w events h =
      subst P (sym (run-accepted w.store w.phase events))
        (folded w.store (accepted w.phase events) h)
    where
      folded : (s : S) (frames : List F) → P s → P (fold s frames)
      folded s [] k = k
      folded s (f ∷ frames) k = folded (consume s f) frames (keep s f k)
