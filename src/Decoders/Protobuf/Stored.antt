-- ===== src/Decoders/Protobuf/Stored.antt =====
-- The sizes of the arrays that `decodeChunk` of ui/src/data/decoders/protobufDecoder.ts builds.
use ocap2_web.Base.{
  ℕ, zero, suc, ◌+◌, ◌-◌, ◌≤◌, ◌<◌, ◌≡◌, refl, sym, ap, ◌∙◌, Option, some, List, [], ◌∷◌, arith,
  All, length, Bool-cases, inl, inr, some_inj, ◌==◌, le→leb, Option-cases,
}
use ocap2_web.Base.Int.{pos, sub_ℕ}
use ocap2_web.Base.Map
use ocap2_web.Base.Map.{get-put}
use ocap2_web.Types.{EntityState}
use ocap2_web.Decoders.Messages.{PbEntityState, PbFrame, PbChunk}
use ocap2_web.Decoders.Protobuf.{
  States, holes, set_at, set_at_ℤ, array_or_new, store_state, store_entities, store_frames,
  convert_entity_state, convert_chunk,
}
use ocap2_web.Decoders.Protobuf.Chunk.{Slots}

length-holes : (n : ℕ) → length {A = Option EntityState} (holes n) ≡ n
unfolding holes
length-holes zero = refl
length-holes (suc n) = ap suc (length-holes n)

length-set_at :
    (i : ℕ) (v : EntityState) (xs : Slots) → i < length xs → length (set_at i v xs) ≡ length xs
unfolding set_at
length-set_at i v [] h = absurd (omega arith)
length-set_at zero v (x ∷ xs) h = refl
length-set_at (suc i) v (x ∷ xs) h = ap suc (length-set_at i v xs (omega arith))

-- Every array has the chunk's number of frames.
abbrev pub IsSized : ℕ → States → Type 0
IsSized count m = (id : ℕ) (xs : Slots) → Map.get id m ≡ some xs → length xs ≡ count

array_or_new-sized :
    (count id : ℕ) (m : States)
    → IsSized count m
    → length (array_or_new count (Map.get id m)) ≡ count
array_or_new-sized count id m s = elim (Option-cases (Map.get id m)) [
  | inl e ↦ rw e (length-holes count)
  | inr (xs, e) ↦ rw e (s id xs e)
]

-- A frame of the chunk.
abbrev pub IsWithin : ℕ → ℕ → PbFrame → Type 0
IsWithin start count f = (start ≤ f.frame_num) × (f.frame_num < start + count)

sub_ℕ-pos : (a b : ℕ) → b ≤ a → sub_ℕ a b ≡ pos (a - b)
sub_ℕ-pos a b h = rw (le→leb b a h) refl

module _ (start count : ℕ) where
  store_state-IsSized :
      (f : ℕ) (raw : PbEntityState) (m : States)
      → start ≤ f
      → f < start + count
      → IsSized count m
      → IsSized count (store_state count (sub_ℕ f start) raw m)
  unfolding store_state
  store_state-IsSized f raw m lo hi s id xs h =
      let old = array_or_new count (Map.get raw.entity_id m) in
      let sized = array_or_new-sized count raw.entity_id m s in
      elim (Bool-cases (raw.entity_id == id)) [
        | inr e ↦ s id xs (rw e at (sym (get-put raw.entity_id id _ m) ∙ h))
        | inl e ↦
            let new_array = some_inj (rw e at (sym (get-put raw.entity_id id _ m) ∙ h)) in
            sym (ap length new_array)
            ∙ ap (λ j. length (set_at_ℤ j (convert_entity_state raw) old)) (sub_ℕ-pos f start lo)
            ∙ length-set_at (f - start) (convert_entity_state raw) old (omega (arith, sized))
            ∙ sized
      ]

  store_entities-IsSized :
      (f : ℕ) (raws : List PbEntityState) (m : States)
      → start ≤ f
      → f < start + count
      → IsSized count m
      → IsSized count (store_entities count (sub_ℕ f start) raws m)
  unfolding store_entities
  store_entities-IsSized f [] m lo hi s = s
  store_entities-IsSized f (raw ∷ raws) m lo hi s =
      store_entities-IsSized f raws (store_state count (sub_ℕ f start) raw m) lo hi
        (store_state-IsSized f raw m lo hi s)

  store_frames-IsSized :
      (fs : List PbFrame) (m : States)
      → All (IsWithin start count) fs
      → IsSized count m
      → IsSized count (store_frames start count fs m)
  unfolding store_frames
  store_frames-IsSized [] m w s = s
  store_frames-IsSized (f ∷ fs) m w s =
      store_frames-IsSized fs (store_entities count (sub_ℕ f.frame_num start) f.entities m) w.1
        (store_entities-IsSized f.frame_num f.entities m w.0.0 w.0.1 s)

-- If the frames of a chunk's message lie within the chunk, then no write leaves the arrays: every entity's
-- array has exactly the number of frames that the message declares.
pub convert_chunk-IsSized :
    (c : PbChunk)
    → All (IsWithin c.start_frame c.frame_count) c.frames
    → IsSized c.frame_count (convert_chunk c).entities
unfolding convert_chunk Map.get
convert_chunk-IsSized c w =
    store_frames-IsSized c.start_frame c.frame_count c.frames [] w (λ id xs h. cc h)
