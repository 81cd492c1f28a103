-- ===== src/Lib.antt =====
-- A model of the playback of OCAP2 Web: the part of the user interface (ui/src) that replays a recorded
-- mission. A recording is a manifest (ui/src/data/types.ts) and, for streamed recordings, chunks of
-- entity positions. The engine is the coordinator: it fills the entity manager and the event manager
-- from the manifest, asks the chunk manager for chunks, advances the frame with the animation frames of
-- the browser, and computes the snapshots and the event log that are shown. The marker manager draws the
-- briefing markers of a frame through the renderer.
--
-- The modules and the code:
--   Base: lists, integers, maps in insertion order (the JavaScript Map), tests and case splits
--   Types: ui/src/data/types.ts, ui/src/utils/coordinates.ts, ui/src/playback/types.ts
--   Search, Search/Correct: the binary search for the last element at or before a frame, the loop of
--     getCounterStateAtFrame
--   Sort: the stable sort by frame (Array.prototype.sort)
--   Counter: ui/src/playback/events/counterEvent.ts and buildCounterState of
--     ui/src/playback/engine.ts; Counter/Latest has its theorems
--   Entities: ui/src/playback/entities; Entities/Manager: ui/src/playback/entityManager.ts
--   Events: ui/src/playback/events, ui/src/playback/eventManager.ts and createGameEvent of the engine;
--     Events/Index (the index by frame), Events/Active (the log), Events/Scores with
--     Events/Scores/Kill and Events/Scores/Stray (kills and deaths)
--   Markers: ui/src/playback/markerManager.ts; Markers/Labels (the records, the layer and the popup
--     text of a marker), Markers/Position (findPositionIndex), Markers/Parse
--     (parseMarkerPosition, lerpMarkerPosition), Markers/Keyframe with
--     Markers/Keyframe/Loop, Markers/Visible, Markers/Total, Markers/Settled,
--     Markers/Handles, Markers/Counts
--   Chunks: ui/src/data/chunkManager.ts; Chunks/Keys, Chunks/Evict, Chunks/Invariant, Chunks/Lru,
--     Chunks/InFlight, Chunks/Single, Chunks/Tracked, Chunks/Requests
--   Engine: ui/src/playback/engine.ts; Engine/Snapshots (computeSnapshots), Engine/Commands (the calls
--     that reach an engine), Engine/Ticks, Engine/Frozen, Engine/Armed, Engine/Invariant,
--     Engine/Pace, Engine/Total, Engine/Playback
--   Shortcuts: ui/src/pages/recording-playback/shortcuts.ts; Shortcuts/Bound (findFirst),
--     Shortcuts/Step (stepBack, stepForward), Shortcuts/Kills (the seeks to a kill and their cache),
--     Shortcuts/Handlers (the keys and the registration)
--   Decoders: ui/src/data/decoders; Decoders/Messages (the records of generated/ocap.pb.ts),
--     Decoders/Protobuf (protobufDecoder.ts) with Decoders/Protobuf/Chunk, Decoders/Protobuf/Stored
--     and Decoders/Protobuf/Positions, and Decoders/Json (jsonDecoder.ts) with Decoders/Json/Manifest
--     and Decoders/Json/Expand
--   Loaders: ui/src/data/loaders/loaderRegistry.ts
--   Time: ui/src/playback/time.ts; Time/Clock (the clock read back), Time/Samples (the system time)
--   Bridge: ui/src/pages/recording-playback/useRenderBridge.ts, which draws the engine's snapshots
--     through ui/src/renderers/renderer.interface.ts; Bridge/Drawing (the map), Bridge/InStep,
--     Bridge/Draw, Bridge/Lines, Bridge/Prune, Bridge/Shown
--   Timeline: the pointer's handlers of
--     ui/src/pages/recording-playback/components/TimelineScrubber.tsx and the edits of the focus range
--     of ui/src/pages/recording-playback/RecordingPlayback.tsx; Timeline/Drag
--
-- Conventions. Frames and ids are natural numbers, and integers where the code uses -1. A function that
-- can throw returns an Option; null and undefined results are an Option as well. Names are those of the
-- code in snake case. A signal of SolidJS is a field of the engine's record. Objects that several
-- structures share (an event in the list and in the index, a unit that a kill changes) are stored once
-- and reached by their place or id.
--
-- Asynchronous code. A promise of the chunk manager is a number; what waits for it is a list of
-- continuations, and a run is a list of events (a call, an answer of the network, a failure, a
-- continuation that runs), so that every interleaving is a list. The API client is
-- not modelled: an answer is an event with any chunk.
--
-- Parameters. The markers take the operations on doubles that the interpolation uses as a record
-- Arithmetic. The renderer of a marker manager is the list of its calls, with a number for each handle;
-- that of an engine is the list of views it was given, and that of the bridge is the map that the
-- interface promises. The decoders take the generated wire code, JSON.parse and the runtime's
-- conversions of values to texts and of texts to numbers; the clocks take the parse of a date.
--
-- Fuel. The loop of findFirst has one round more than there are elements, and the digits of a number are
-- at most as many as the number. The loop of findPositionIndex has two rounds more than there are keyframes, and the binary
-- search one round more than there are elements. The counter's theorems take at most 2 ^ 31 events,
-- where the shift of lo + hi is the half of the sum. The eviction loop recurs on the access order, and
-- `none` is the run that never ends.
--
-- Times are whole milliseconds and speeds are whole numbers; the accumulated time is kept multiplied by
-- the speed, so that the interval of a frame divided by the speed stays exact. With a capture delay of 0
-- the code divides by 0; the model has no value there.
--
-- Animation frames. The browser's list of requested callbacks is a part of the engine's state: a request
-- puts a callback behind the others and gives the next number as its handle, a cancellation takes out the
-- callback of its handle, and a callback leaves the list before it runs. A tick is the run of the oldest
-- callback; at a time when none is requested nothing happens.
--
-- Casts. A value of a JSON file that is not of the type to which the decoder casts it is outside of the
-- model. A cast of the protobuf decoder that lets any number or text through has its own constructor.
--
-- Not modelled: the requests to the server, the renderers behind their interface, the generated wire code,
-- the pages but for the shortcuts, the render bridge and the timeline's pointer, and the
-- translations.
pub mod Base
pub mod Types
pub mod Search
pub mod Sort
pub mod Counter
pub mod Entities
pub mod Events
pub mod Markers
pub mod Chunks
pub mod Engine
pub mod Shortcuts
pub mod Decoders
pub mod Loaders
pub mod Time
pub mod Bridge
pub mod Timeline
