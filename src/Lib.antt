-- ===== src/Lib.antt =====
-- Mozgoslav is a desktop program that records speech, transcribes it and keeps the notes. Its
-- TypeScript part is an Electron main process (frontend/electron) and a React renderer with a Redux
-- store (frontend/src); the C# backend, the Python and search sidecars and the native helper are other
-- processes. This library models the parts of the TypeScript code that decide something.
--
-- Electron, the main process:
--   Electron/Supervisor   frontend/electron/utils/serviceSupervisor.ts: the class ServiceSupervisor, which
--                         starts, watches, restarts and stops the other processes. World is its fields and
--                         what awaits; step is one call, timer tick or settled promise. Zombies is
--                         cleanupZombies, run against arbitrary answers of the port look-up.
--   Electron/Dump         frontend/electron/dictation/DumpModeOrchestrator.ts: the class
--                         DumpModeOrchestrator. World holds its fields, the awaiting calls and a log of
--                         what was done to the helper, the backend, the overlay and the hotkeys.
--   Electron/Dictation    frontend/electron/dictation/DictationOrchestrator.ts: push to talk, in the same
--                         form: the session with the backend, the capture, the audio, the typed transcript,
--                         and the calls of injectText from outside a session.
--   Electron/Helper       frontend/electron/dictation/NativeHelperClient.ts: the requests to the native
--                         helper, its answers line by line, and the end of its process. Requests are
--                         named by their ids; a promise keeps the first call of resolve or reject. The
--                         decoding of a chunk's bytes is a parameter.
--   Electron/Hotkey       frontend/electron/dictation/HotkeyMonitor.ts: mouse and keyboard events as presses
--                         and releases.
--   Electron/Recording    frontend/electron/recording/RecordingBridge.ts: the sessions of the HTTP bridge by
--                         which the backend records to a file.
--   Electron/Sse          parseSseChunk of DictationOrchestrator.ts and parseDumpSseChunk of
--                         DumpModeOrchestrator.ts, on texts as lists of code units.
--   Electron/RepoRoot     frontend/electron/utils/repoRoot.ts: the search for the root of the repository.
--                         Host is what it asks of node:path, JSON.parse and the disk. walkUp runs on fuel;
--                         the length of the path and two more is enough.
--   Electron/Overlay      frontend/electron/dictation/OverlayWindow.ts: where the overlay stands, and when
--                         it is shown and hidden.
--   Electron/Sounds       frontend/electron/dictation/PhaseSoundPlayer.ts: the sounds at changes of phase.
-- Store, the slices of frontend/src/store/slices:
--   Store/Dictation       dictation/: dictationReducer and the start, stop and cancel sagas.
--   Store/Jobs            jobs/: the mutations, jobsReducer and the selectors. An object used as a map is
--                         a dictionary in insertion order (Prelude/Records). Sagas: the mapping of jobs
--                         and the pause, resume and retry sagas; Stream: the subscription, as a machine.
--   Store/Models          models/: modelsReducer, the downloads of the speech and language models. An entry
--                         of the catalogue, whose type is generated, is a parameter with its id.
--   Store/Recordings      recording/: recordingReducer, the mapping of recordings, the request sagas, and the
--                         live transcripts, whose sagas and consumers are a list in the World.
--   Store/Profiles        profiles/: profilesReducer with its dictionary and order, the mapping of profiles
--                         to the backend's types and back, and the sagas.
--   Store/Settings        settings/: settingsReducer, the mappings of the settings, and the sagas.
--   Store/Monitoring      monitoring/: monitoringReducer and the subscription saga, as a machine with two
--                         waits and a count of its channels.
--   Store/Sync            sync/: syncReducer, the request sagas, and the event streams, one for each start.
--   Store/Rag             rag/: ragReducer and the question saga under takeLatest.
--   Store/Notes           notes/: notesReducer and the sagas.
--   Store/Routines        routines/: routinesReducer and the sagas.
--   Store/Onboarding      onboarding/: onboardingReducer, the probes as machines, and the steps of the page
--                         frontend/src/features/Onboarding with the button that walks through them, unless
--                         missing models disable it.
--   Store/Ask             ask/: askReducer and the question saga.
--   Store/Prompts         prompts/: promptsReducer and the sagas.
--   Store/Obsidian        obsidian/: the report of the diagnostics with its mapping, obsidianReducer and the
--                         sagas.
--   Store/ObsidianWizard  obsidianWizard/: its reducer, and the saga under takeLatest.
--   Store/Feed            the subscription that hotkeys/ and audioDevices/ share: which frames arrive.
--   Store/Hotkeys         hotkeys/: hotkeysReducer and the consumer of the hotkey's events.
--   Store/AudioDevices    audioDevices/: its reducer and consumer, with the counter of the saga's module.
--   Store/Health          health/: healthReducer and the probes, several of which can run at once.
--   Store/Backups         backups/: backupsReducer and the sagas.
--   Store/WebSearch       webSearch/ and systemActions/: their reducers and sagas.
--   Store/Ui              ui/: uiReducer, and the saga that looks up a note to be opened.
-- A saga's request is answered by an argument (Reply: data, or the message of the exception), and what
-- the saga puts afterwards is its result.
-- Components, of frontend/src/components:
--   Components/GroupTree  GroupedList/tree.ts: items grouped by their paths into a sorted tree. The map of
--                         a node's children is a list of entries, whose keys the tree that is shown does
--                         not keep; localeCompare is a parameter.
-- Prelude holds the shared Boolean tests, the lemmas on lists, the dictionaries (Records, Indexes, Entries) and the
-- methods of JavaScript strings that the code calls (JsText).
--
-- An async method is cut at its awaits: what runs between two of them is one step, and the awaited
-- promises settle in any order and with any outcome. What the other processes and Electron answer are
-- arguments of the steps. The loops of the code run over lists, or a fixed number of rounds (the thirty
-- polls of cleanupZombies); only walkUp needs fuel. JSON.parse and node:path are parameters,
-- and so are the random ids and times that the code makes, as arguments of the steps.
--
-- Not modelled: logging, the text of notifications, the transport of HTTP and GraphQL requests, the
-- rendering, the generated GraphQL types, and the other languages of the repository.
pub mod Prelude
pub mod Store
pub mod Electron
pub mod Components
