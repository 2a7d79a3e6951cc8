-- ===== src/Store/Onboarding/Probe.antt =====
-- The three probes of the slice: a loop that asks, stores the answer and sleeps, under a saga that
-- waits for its stop, under `takeLatest`.
use mozgoslav.Prelude.{Bool, false, none, some, List, [], ◌∷◌}
use mozgoslav.Store.Dictation.{Reply, data_of, thrown}
use mozgoslav.Store.Onboarding.{
  Vault, AudioCapabilities, State, Action, llm_health_updated, obsidian_detection_updated,
  audio_capabilities_updated, reduce,
}

-- what a turn of each loop puts
abbrev pub llm_turn : Reply Bool → Action
llm_turn (data_of available) = llm_health_updated available
llm_turn (thrown _) = llm_health_updated false

abbrev pub obsidian_turn : Reply (List Vault) → Action
obsidian_turn (data_of detected) = obsidian_detection_updated detected
obsidian_turn (thrown _) = obsidian_detection_updated []

abbrev pub audio_turn : Reply AudioCapabilities → Action
audio_turn (data_of capabilities) = audio_capabilities_updated (some capabilities)
audio_turn (thrown _) = audio_capabilities_updated none

-- Where the loop is: none runs, its request runs, or it waits for the next turn.
pub data Loop : Type 0 where
  off asking sleeping : Loop

pub record World : Type 0 where
  pub store : State
  pub loop : Loop

-- What happens: the start and the stop of the probe, the answer to its request, the end of its
-- delay.
pub data Event (A : Type 0) : Type 0 where
  started stopped woken : Event A
  answered : Reply A → Event A

-- the answer of a request that still runs
abbrev pub turn : {A : Type 0} → (Reply A → Action) → Loop → Reply A → World → World
turn put asking reply w = record { store = reduce w.store (put reply); loop = sleeping }
turn put sleeping reply w = w
turn put off reply w = w

abbrev pub wake : Loop → Loop
wake sleeping = asking
wake asking = asking
wake off = off

unfoldable pub step : {A : Type 0} → (Reply A → Action) → World → Event A → World
step put w started = record w { loop = asking }
step put w stopped = record w { loop = off }
step put w woken = record w { loop = wake w.loop }
step put w (answered reply) = turn put w.loop reply w

unfoldable pub run : {A : Type 0} → (Reply A → Action) → World → List (Event A) → World
run put w [] = w
run put w (e ∷ events) = run put (step put w e) events
