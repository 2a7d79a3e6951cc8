-- ===== src/Store/Dictation/Order.antt =====
-- What a trace of actions must hold, in order, before a dictation shows as stopped.
use mozgoslav.Prelude.{
  subst, ◌≡◌, refl, ◌⊎◌, inl, inr, String, Bool, true, false, Option, List, [], ◌∷◌, arith,
}
use mozgoslav.Store.Dictation.{
  Status, idle, starting, active, stopping, stopped, Action, start_requested, started,
  stop_requested, dictation_stopped, reduce, run,
}

-- the four actions of a completed dictation
pub data Milestone : Type 0 where
  asked begun ended delivered : Milestone

abbrev pub Reaches : Milestone → Action → Type 0
Reaches asked (start_requested _ _) = Unit
Reaches begun (started _) = Unit
Reaches ended stop_requested = Unit
Reaches delivered (dictation_stopped _) = Unit
Reaches _ _ = ⊥

-- the milestones occur among the actions in this order, with anything between
abbrev pub InOrder : List Milestone → List Action → Type 0
InOrder [] acts = Unit
InOrder (m ∷ ms) [] = ⊥
InOrder (m ∷ ms) (a ∷ acts) = (Reaches m a × InOrder ms acts) ⊎ InOrder (m ∷ ms) acts

InOrder-tail :
    (m : Milestone) (ms : List Milestone) (acts : List Action)
    → InOrder (m ∷ ms) acts
    → InOrder ms acts
InOrder-tail m [] acts h = tt
InOrder-tail m (n ∷ ms) [] h = h
InOrder-tail m (n ∷ ms) (a ∷ acts) (inl (_, h)) = inr h
InOrder-tail m (n ∷ ms) (a ∷ acts) (inr h) = inr (InOrder-tail m (n ∷ ms) acts h)

abbrev after_ended : List Milestone
after_ended = delivered ∷ []

abbrev after_begun : List Milestone
after_begun = ended ∷ after_ended

abbrev after_asked : List Milestone
after_asked = begun ∷ after_begun

abbrev pub all_milestones : List Milestone
all_milestones = asked ∷ begun ∷ ended ∷ delivered ∷ []

-- what a status still has to see
abbrev missing : Status → List Milestone
missing (starting _ _) = after_asked
missing (active _ _ _) = after_begun
missing (stopping _ _) = after_ended
missing (stopped _ _) = []
missing _ = all_milestones

InOrder-begun : (acts : List Action) → InOrder all_milestones acts → InOrder after_asked acts
InOrder-begun acts h = InOrder-tail asked after_asked acts h

InOrder-ended : (acts : List Action) → InOrder all_milestones acts → InOrder after_begun acts
InOrder-ended acts h = InOrder-tail begun after_begun acts (InOrder-begun acts h)

missing-weaken :
    (s : Status) (acts : List Action) → InOrder all_milestones acts → InOrder (missing s) acts
missing-weaken (starting _ _) acts h = InOrder-begun acts h
missing-weaken (active _ _ _) acts h = InOrder-ended acts h
missing-weaken (stopping _ _) acts h = InOrder-tail ended after_ended acts (InOrder-ended acts h)
missing-weaken (stopped _ _) acts h = tt
missing-weaken _ acts h = h

InOrder-skip :
    (ms : List Milestone) (a : Action) (acts : List Action)
    → InOrder ms acts
    → InOrder ms (a ∷ acts)
InOrder-skip [] a acts h = tt
InOrder-skip (m ∷ ms) a acts h = inr h

abbrev advances : Status → Action → Bool
advances idle (start_requested _ _) = true
advances (starting _ _) (started _) = true
advances (active _ _ _) stop_requested = true
advances (stopping _ _) (dictation_stopped _) = true
advances _ _ = false

missing-reduce_other :
    (s : Status) (a : Action)
    → advances s a ≡ false
    → (missing (reduce s a) ≡ missing s) ⊎ (missing (reduce s a) ≡ all_milestones)
unfolding reduce
missing-reduce_other s a e = ground arith

missing-reduce_keep :
    (s : Status) (a : Action) (acts : List Action)
    → advances s a ≡ false
    → InOrder (missing (reduce s a)) acts
    → InOrder (missing s) (a ∷ acts)
missing-reduce_keep s a acts e h =
    InOrder-skip (missing s) a acts (elim (missing-reduce_other s a e) [
      | inl same ↦ subst (λ ms. InOrder ms acts) same h
      | inr restart ↦ missing-weaken s acts (subst (λ ms. InOrder ms acts) restart h)
    ])

-- one step of the reducer meets at most the next milestone
missing-reduce :
    (s : Status) (a : Action) (acts : List Action)
    → InOrder (missing (reduce s a)) acts
    → InOrder (missing s) (a ∷ acts)
unfolding reduce
missing-reduce idle (start_requested _ _) acts h = inl (tt, h)
missing-reduce (starting _ _) (started _) acts h = inl (tt, h)
missing-reduce (active _ _ _) stop_requested acts h = inl (tt, h)
missing-reduce (stopping _ _) (dictation_stopped _) acts h = inl (tt, h)
missing-reduce s a acts h = missing-reduce_keep s a acts refl h

run-missing :
    (s : Status) (acts : List Action) {text : Option String} {persist : Bool}
    → run s acts ≡ stopped text persist
    → InOrder (missing s) acts
unfolding run
run-missing s [] e = rw e tt
run-missing s (a ∷ acts) e = missing-reduce s a acts (run-missing (reduce s a) acts e)

-- Whatever the actions, a dictation that began idle shows as stopped only if a start request, the
-- session's start, a stop request and the final text came, in this order.
pub run-InOrder :
    (acts : List Action) (text : Option String) (persist : Bool)
    → run idle acts ≡ stopped text persist
    → InOrder all_milestones acts
run-InOrder acts text persist e = run-missing idle acts e
