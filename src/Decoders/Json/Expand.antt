-- ===== src/Decoders/Json/Expand.antt =====
-- The states of an entity as the playback indexes them, in `convertEntity` of
-- ui/src/data/decoders/jsonDecoder.ts.
use ocap2_web.Base.{
  ℕ, zero, suc, ◌+◌, ◌-◌, ◌≤◌, ◌<◌, ◌≡◌, refl, ap, ◌∙◌, true, Option, none, some, List, [], ◌∷◌,
  ◌++◌, arith, length, get_elem?, get_elem?-append_left, get_elem?_total, get_elem?-eq-none, subst,
  some_inj, Option-cases, inl, inr,
}
use ocap2_web.Base.Int.{pos, sub_ℕ, ◌≤ℤ◌, ltb_ℤ}
use ocap2_web.Types.{ArmaCoord, EntityDef, EntityState}
use ocap2_web.Decoders.Json.{
  Run, expand, copies, round_count, RawJsonEntity, convert_entity, entity_def, is_unit_type,
  states_of, shots_of, start_of, Cast, cast, outside, ◌>>=◌,
}

length-copies : (n : ℕ) (s : EntityState) → length (copies n s) ≡ n
length-copies zero s = refl
length-copies (suc n) s = ap suc (length-copies n s)

get_elem?-copies : (n i : ℕ) (s : EntityState) → i < n → get_elem? (copies n s) i ≡ some s
get_elem?-copies zero i s h = absurd (omega arith)
get_elem?-copies (suc n) zero s h = refl
get_elem?-copies (suc n) (suc i) s h = get_elem?-copies n i s (omega arith)

get_elem?-append_right :
    (xs ys : List EntityState) (i : ℕ)
    → length xs ≤ i
    → get_elem? (xs ++ ys) i ≡ get_elem? ys (i - length xs)
get_elem?-append_right [] ys i h = ap (get_elem? ys) (omega arith)
get_elem?-append_right (x ∷ xs) ys zero h = absurd (omega arith)
get_elem?-append_right (x ∷ xs) ys (suc i) h =
    get_elem?-append_right xs ys i (omega arith) ∙ ap (get_elem? ys) (omega arith)

-- An entry begins at a frame: its range, if it has one, begins there and is not empty.
abbrev pub BeginsAt : ℕ → Option (ℕ × ℕ) → Type 0
BeginsAt start none = Unit
BeginsAt start (some (a, b)) = (a ≡ start) × (a ≤ b)

-- The entries follow each other without a gap, from a frame on.
abbrev pub IsContiguous : ℕ → List Run → Type 0
IsContiguous start [] = Unit
IsContiguous start (r ∷ rs) = BeginsAt start r.range × IsContiguous (start + round_count r.range) rs

expand-head :
    (r : Run) (rs : List Run) (i : ℕ)
    → i < round_count r.range
    → get_elem? (expand (r ∷ rs)) i ≡ some r.state
unfolding expand
expand-head r rs i h =
    get_elem?-append_left (copies (round_count r.range) r.state) (expand rs) i
      (omega (arith, length-copies (round_count r.range) r.state))
    ∙ get_elem?-copies (round_count r.range) i r.state h

expand-tail :
    (r : Run) (rs : List Run) (i : ℕ)
    → round_count r.range ≤ i
    → get_elem? (expand (r ∷ rs)) i ≡ get_elem? (expand rs) (i - round_count r.range)
unfolding expand
expand-tail r rs i h =
    let size = length-copies (round_count r.range) r.state in
    get_elem?-append_right (copies (round_count r.range) r.state) (expand rs) i
      (omega (arith, size))
    ∙ ap (λ n. get_elem? (expand rs) (i - n)) size

le_of_contiguous :
    (rs : List Run) (start k a b : ℕ) (r : Run)
    → IsContiguous start rs
    → get_elem? rs k ≡ some r
    → r.range ≡ some (a, b)
    → (start ≤ a) × (a ≤ b)
le_of_contiguous [] start k a b r c g e = cc
le_of_contiguous (q ∷ rs) start zero a b r c g e =
    let begins = subst (BeginsAt start) (ap (λ (x : Run). x.range) (some_inj g) ∙ e) c.0 in
    (omega (arith, begins.0), begins.1)
le_of_contiguous (q ∷ rs) start (suc k) a b r c g e =
    let (lo, hi) = le_of_contiguous rs (start + round_count q.range) k a b r c.1 g e in
    (omega arith, hi)

-- The run-length encoding of a vehicle's states is undone. If the entries follow each other without a gap
-- from the vehicle's first frame on, then at every frame of an entry's range the expanded states hold, at
-- the place relative to the first frame, the state of that entry.
pub expand-covers :
    (rs : List Run) (start k a b frame : ℕ) (r : Run)
    → IsContiguous start rs
    → get_elem? rs k ≡ some r
    → r.range ≡ some (a, b)
    → a ≤ frame
    → frame ≤ b
    → get_elem? (expand rs) (frame - start) ≡ some r.state
expand-covers [] start k a b frame r c g e lo hi = cc
expand-covers (q ∷ rs) start zero a b frame r c g e lo hi =
    let range = ap (λ (x : Run). x.range) (some_inj g) ∙ e in
    let begins = subst (BeginsAt start) range c.0 in
    let size : round_count q.range ≡ b + 1 - a = ap round_count range in
    expand-head q rs (frame - start) (omega (arith, begins.0, size))
    ∙ ap (λ (x : Run). some x.state) (some_inj g)
expand-covers (q ∷ rs) start (suc k) a b frame r c g e lo hi =
    let (le, ok) = le_of_contiguous rs (start + round_count q.range) k a b r c.1 g e in
    expand-tail q rs (frame - start) (omega arith)
    ∙ ap (get_elem? (expand rs)) (omega arith)
    ∙ expand-covers rs (start + round_count q.range) k a b frame r c.1 g e lo hi

cast_inj {ℓ} : {A : Type ℓ} {x y : A} → cast x ≡ cast y → x ≡ y
cast_inj {x} e = ap (λ c. elim c [ outside ↦ x | cast a ↦ a ]) e

-- The end of an entity with states: its frames are as many as its states.
abbrev IsSpanned : EntityDef → Type 0
IsSpanned def =
    (states : List EntityState)
    → def.positions ≡ some states
    → def.end_frame ≡ sub_ℕ (def.start_frame + length states) 1

-- The chain behind the states, with the shots.
abbrev Shots : Type 0
Shots = Cast (Option (List (ℕ × ArmaCoord)))

without_states-IsSpanned :
    (raw : RawJsonEntity) (shots : Shots) (def : EntityDef)
    → (shots >>= λ s. cast (entity_def raw (pos 0) none s)) ≡ cast def
    → IsSpanned def
without_states-IsSpanned raw (cast s) def h = subst IsSpanned (cast_inj h) (λ states q. cc q)
without_states-IsSpanned raw outside def h = cc h

abbrev spanned_def : RawJsonEntity → List EntityState → Shots → Cast EntityDef
spanned_def raw found shots =
    shots >>= λ s. cast (entity_def raw (sub_ℕ (start_of raw + length found) 1) (some found) s)

spanned_def-IsSpanned :
    (raw : RawJsonEntity) (found : List EntityState) (shots : Shots) (def : EntityDef)
    → spanned_def raw found shots ≡ cast def
    → IsSpanned def
spanned_def-IsSpanned raw found outside def h = cc h
spanned_def-IsSpanned raw found (cast s) def h =
    subst IsSpanned (cast_inj h)
      (λ states q. ap (λ (ss : List EntityState). sub_ℕ (start_of raw + length ss) 1) (some_inj q))

with_states-IsSpanned :
    (raw : RawJsonEntity) (found : Cast (List EntityState)) (shots : Shots) (def : EntityDef)
    → (found >>= λ states. spanned_def raw states shots) ≡ cast def
    → IsSpanned def
with_states-IsSpanned raw (cast found) shots def h = spanned_def-IsSpanned raw found shots def h
with_states-IsSpanned raw outside shots def h = cc h

convert_entity-IsSpanned :
    (raw : RawJsonEntity) (def : EntityDef) → convert_entity raw ≡ cast def → IsSpanned def
unfolding convert_entity
convert_entity-IsSpanned raw def h = elim (Option-cases raw.positions) [
  | inl n ↦
      without_states-IsSpanned raw (shots_of raw.frames_fired) def (rw (convert_entity, n) at h)
  | inr ([], y) ↦
      without_states-IsSpanned raw (shots_of raw.frames_fired) def (rw (convert_entity, y) at h)
  | inr (f ∷ fs, y) ↦
      with_states-IsSpanned raw (states_of (is_unit_type raw) (f ∷ fs)) (shots_of raw.frames_fired)
        def (rw (convert_entity, y) at h)
]

-- An entity of the file has a state at every frame of its life. If the conversion of a unit or a vehicle
-- succeeds and gives it states, then for every frame from its first to its last one there is a state at
-- the place relative to the first frame, and there is none at a later place.
pub convert_entity-covers :
    (raw : RawJsonEntity) (def : EntityDef) (states : List EntityState) (frame : ℕ)
    → convert_entity raw ≡ cast def
    → def.positions ≡ some states
    → def.start_frame ≤ frame
    → (pos frame ≤ℤ def.end_frame
        → (s : EntityState) × (get_elem? states (frame - def.start_frame) ≡ some s))
      × (ltb_ℤ def.end_frame (pos frame) ≡ true → get_elem? states (frame - def.start_frame) ≡ none)
convert_entity-covers raw def states frame h q le =
    let end_at = convert_entity-IsSpanned raw def h states q in
    (
      λ within.
          get_elem?_total states (frame - def.start_frame)
            (within_length def.start_frame (length states) frame le (rw end_at at within)),
      λ beyond.
          get_elem?-eq-none states (frame - def.start_frame)
            (beyond_length def.start_frame (length states) frame le (rw end_at at beyond)),
    )
  where
    within_length : (a n f : ℕ) → a ≤ f → pos f ≤ℤ sub_ℕ (a + n) 1 → f - a < n
    within_length a n f le h = ground arith

    beyond_length : (a n f : ℕ) → a ≤ f → ltb_ℤ (sub_ℕ (a + n) 1) (pos f) ≡ true → n ≤ f - a
    beyond_length a n f le h = ground arith
