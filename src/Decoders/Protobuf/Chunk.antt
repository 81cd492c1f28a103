-- ===== src/Decoders/Protobuf/Chunk.antt =====
-- What `decodeChunk` of ui/src/data/decoders/protobufDecoder.ts builds, as the playback reads it.
use mathlib.Core.Option
use ocap2_web.Base.{
  ℕ, zero, suc, ◌+◌, ◌-◌, ◌≡◌, refl, sym, ap, ◌∙◌, Option, none, some, List, [], ◌∷◌, ◌++◌, arith,
  ◌==◌, ==→eq, keep, get_elem?, if◌then◌else◌, Bool-cases, inl, inr,
}
use ocap2_web.Base.Int.{sub_ℕ}
use ocap2_web.Base.Map
use ocap2_web.Base.Map.{Map, get-put}
use ocap2_web.Search.Correct.{last?}
use ocap2_web.Types.{EntityState}
use ocap2_web.Entities.{or_else}
use ocap2_web.Engine.Snapshots.{chunk_state}
use ocap2_web.Decoders.Messages.{PbEntityState, PbFrame, PbChunk}
use ocap2_web.Decoders.Protobuf.{
  States, holes, set_at, set_at_ℤ, array_or_new, store_state, store_entities, store_frames,
  convert_entity_state, convert_chunk,
}

abbrev pub Slots : Type 0
Slots = List (Option EntityState)

-- The element of an array, undefined in a hole and outside.
abbrev slot : Slots → ℕ → Option EntityState
slot xs i = or_else (get_elem? xs i) none

abbrev slot_of : ℕ → Option Slots → Option EntityState
slot_of i none = none
slot_of i (some xs) = slot xs i

abbrev read_state : States → ℕ → ℕ → Option EntityState
read_state m id i = slot_of i (Map.get id m)

slot-holes : (n i : ℕ) → slot (holes n) i ≡ none
unfolding holes
slot-holes zero i = refl
slot-holes (suc n) zero = refl
slot-holes (suc n) (suc i) = slot-holes n i

slot-set_at :
    (j : ℕ) (v : EntityState) (xs : Slots) (i : ℕ)
    → slot (set_at j v xs) i ≡ (if j == i then some v else slot xs i)
unfolding set_at
slot-set_at zero v [] zero = refl
slot-set_at zero v [] (suc i) = ground arith
slot-set_at zero v (x ∷ xs) zero = refl
slot-set_at zero v (x ∷ xs) (suc i) = ground arith
slot-set_at (suc j) v [] zero = ground arith
slot-set_at (suc j) v [] (suc i) = ground (arith, slot-set_at j v [] i)
slot-set_at (suc j) v (x ∷ xs) zero = ground arith
slot-set_at (suc j) v (x ∷ xs) (suc i) = ground (arith, slot-set_at j v xs i)

-- The frame number `f` is the one of the index.
slot-set_at_ℤ :
    (f start : ℕ) (v : EntityState) (xs : Slots) (i : ℕ)
    → slot (set_at_ℤ (sub_ℕ f start) v xs) i ≡ (if f == start + i then some v else slot xs i)
slot-set_at_ℤ f start v xs i = ground (arith, slot-set_at (f - start) v xs i)

slot-array_or_new : (n i : ℕ) (o : Option Slots) → slot (array_or_new n o) i ≡ slot_of i o
slot-array_or_new n i none = slot-holes n i
slot-array_or_new n i (some xs) = refl

read_state-put :
    (k : ℕ) (xs : Slots) (m : States) (id i : ℕ)
    → read_state (Map.put k xs m) id i ≡ (if k == id then slot xs i else read_state m id i)
read_state-put k xs m id i = elim (Bool-cases (k == id)) [
  | inl e ↦ ap (slot_of i) (get-put k id xs m) ∙ rw e refl
  | inr e ↦ ap (slot_of i) (get-put k id xs m) ∙ rw e refl
]

-- What the write of one state puts into the array of its entity.
slot-written :
    (start count f : ℕ) (v : EntityState) (o : Option Slots) (i : ℕ)
    → slot (set_at_ℤ (sub_ℕ f start) v (array_or_new count o)) i
      ≡ (if f == start + i then some v else slot_of i o)
slot-written start count f v o i =
    slot-set_at_ℤ f start v (array_or_new count o) i
    ∙ ap (λ d. if f == start + i then some v else d) (slot-array_or_new count i o)

-- One state is written, and all else is read as before.
read_state-store_state :
    (start count f : ℕ) (raw : PbEntityState) (m : States) (id i : ℕ)
    → read_state (store_state count (sub_ℕ f start) raw m) id i ≡ (
        if raw.entity_id == id
        then (if f == start + i then some (convert_entity_state raw) else read_state m id i)
        else read_state m id i)
unfolding store_state
read_state-store_state start count f raw m id i =
    read_state-put raw.entity_id
      (set_at_ℤ (sub_ℕ f start) (convert_entity_state raw)
        (array_or_new count (Map.get raw.entity_id m)))
      m id i
    ∙ (elim (Bool-cases (raw.entity_id == id)) [
      | inr e ↦ rw e refl
      | inl e ↦ rw e (
          slot-written start count f (convert_entity_state raw) (Map.get raw.entity_id m) i
          ∙ ap (λ k. if f == start + i then some (convert_entity_state raw) else read_state m k i)
              (==→eq raw.entity_id id e))
    ])

-- The state of the last message of a list, or a default.
latest : List PbEntityState → Option EntityState → Option EntityState
latest [] d = d
latest (r ∷ rs) d = latest rs (some (convert_entity_state r))

abbrev pub of_entity : ℕ → List PbEntityState → List PbEntityState
of_entity id raws = keep (λ r. r.entity_id == id) raws

read_state-store_entities :
    (start count f : ℕ) (raws : List PbEntityState) (m : States) (id i : ℕ)
    → read_state (store_entities count (sub_ℕ f start) raws m) id i ≡ (
        if f == start + i
        then latest (of_entity id raws) (read_state m id i)
        else read_state m id i)
unfolding store_entities latest
read_state-store_entities start count f [] m id i = ground arith
read_state-store_entities start count f (raw ∷ raws) m id i =
    read_state-store_entities start count f raws (store_state count (sub_ℕ f start) raw m) id i
    ∙ (elim (Bool-cases (raw.entity_id == id)) [
      | inl e ↦ rw (read_state-store_state start count f raw m id i, e) (ground arith)
      | inr e ↦ rw (read_state-store_state start count f raw m id i, e) (ground arith)
    ])

-- The messages that hold the state of an entity at a frame, in their order.
abbrev pub written : ℕ → ℕ → List PbFrame → List PbEntityState
written id frame [] = []
written id frame (f ∷ fs) =
    if f.frame_num == frame
    then of_entity id f.entities ++ written id frame fs
    else written id frame fs

latest-append :
    (xs ys : List PbEntityState) (d : Option EntityState)
    → latest (xs ++ ys) d ≡ latest ys (latest xs d)
unfolding latest
latest-append [] ys d = refl
latest-append (x ∷ xs) ys d = latest-append xs ys (some (convert_entity_state x))

read_state-store_frames :
    (start count : ℕ) (fs : List PbFrame) (m : States) (id i : ℕ)
    → read_state (store_frames start count fs m) id i
      ≡ latest (written id (start + i) fs) (read_state m id i)
unfolding store_frames latest
read_state-store_frames start count [] m id i = refl
read_state-store_frames start count (f ∷ fs) m id i =
    read_state-store_frames start count fs
      (store_entities count (sub_ℕ f.frame_num start) f.entities m) id i
    ∙ ap (latest (written id (start + i) fs))
        (read_state-store_entities start count f.frame_num f.entities m id i)
    ∙ (elim (Bool-cases (f.frame_num == start + i)) [
      | inr e ↦ rw e refl
      | inl e ↦ rw e (sym (latest-append (of_entity id f.entities) (written id (start + i) fs) _))
    ])

latest-last? :
    (rs : List PbEntityState) → latest rs none ≡ Option.map convert_entity_state (last? rs)
unfolding latest
latest-last? [] = refl
latest-last? (r ∷ rs) = latest_some rs r
  where
    latest_some :
        (rs : List PbEntityState) (r : PbEntityState)
        → latest rs (some (convert_entity_state r))
          ≡ Option.map convert_entity_state (last? (r ∷ rs))
    latest_some [] r = refl
    latest_some (q ∷ rs) r = latest_some rs q

-- A chunk round trip. What the playback reads of a decoded chunk for an entity, at an index within the
-- chunk, is the conversion of the last state that the message holds for this entity at the frame
-- `start + index`, and nothing if the message holds none; whatever the order of the frames, repeated
-- frames, frames before the start and entities that come and go.
pub chunk_state-convert_chunk :
    (c : PbChunk) (id i : ℕ)
    → chunk_state (some (convert_chunk c)) id i
      ≡ Option.map convert_entity_state (last? (written id (c.start_frame + i) c.frames))
unfolding convert_chunk Map.get
chunk_state-convert_chunk c id i =
    as_read (convert_chunk c).entities
    ∙ read_state-store_frames c.start_frame c.frame_count c.frames [] id i
    ∙ latest-last? (written id (c.start_frame + i) c.frames)
  where
    as_read : (m : States) → chunk_state (some (record { entities = m })) id i ≡ read_state m id i
    as_read m =
        elim (Map.get id m)
          as (λ o.
            (elim o [ none ↦ none | some xs ↦ or_else (get_elem? xs i) none ]) ≡ slot_of i o) [
              | none ↦ refl
              | some xs ↦ refl
            ]
