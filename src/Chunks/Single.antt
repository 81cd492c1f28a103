-- ===== src/Chunks/Single.antt =====
-- The requests in flight in ui/src/data/chunkManager.ts, while `clear` is not called.
use ocap2_web.Base.{
  ℕ, suc, zero, ◌+◌, ◌≤◌, ◌<◌, ◌≡◌, refl, sym, ap, ◌∙◌, subst, Bool, false, not, none, some, List,
  [], ◌∷◌, ◌++◌, contains, keep, arith, ◌==◌, ==→eq, Bool-cases, inl, inr, if◌then◌else◌, get_elem?,
  All,
}
use ocap2_web.Base.Map
use ocap2_web.Base.Map.{Map}
use ocap2_web.Chunks.{
  Fetch, Waiter, Wait, on, settled, Action, unlock, call, Caller, settle, drop_fetch, drop_waiter,
}
use ocap2_web.Chunks.Keys.{Distinct, bit}

-- A load: its id, and the index of its chunk.
abbrev pub Load : Type 0
Load = ℕ × ℕ

abbrev pub load_id : Load → ℕ
load_id p = p.0

abbrev pub ids : List Load → List ℕ
ids [] = []
ids (p ∷ ps) = p.0 ∷ ids ps

abbrev pub loads : List Fetch → List Load
loads [] = []
loads (f ∷ fs) = (f.id, f.index) ∷ loads fs

abbrev pub onto_locks : Wait → Action → List Load → List Load
onto_locks (on id) (unlock i k) ps = (id, i) ∷ ps
onto_locks (on id) (call k) ps = ps
onto_locks (settled b) a ps = ps

-- The loads whose `loadChunk` still waits for them.
abbrev pub open_locks : List Waiter → List Load
open_locks [] = []
open_locks (w ∷ ws) = onto_locks w.wait w.action (open_locks ws)

abbrev pub lock_bit : ℕ → Action → ℕ
lock_bit i (unlock j k) = bit (j == i)
lock_bit i (call k) = 0

-- How many calls of `loadChunk` still have to delete the chunk from `loadingChunks`.
abbrev pub locks : ℕ → List Waiter → ℕ
locks i [] = 0
locks i (w ∷ ws) = lock_bit i w.action + locks i ws

abbrev pub key_count : ℕ → Map ℕ → ℕ
key_count i [] = 0
key_count i ((j, v) ∷ l) = bit (j == i) + key_count i l

-- How many loads are for the chunk.
abbrev pub index_count : ℕ → List Load → ℕ
index_count i [] = 0
index_count i (p ∷ ps) = bit (p.1 == i) + index_count i ps

abbrev pub without : ℕ → List Load → List Load
without id = keep (λ p. not (p.0 == id))

pub loads-append :
    (fs : List Fetch) (f : Fetch) → loads (fs ++ f ∷ []) ≡ loads fs ++ (f.id, f.index) ∷ []
loads-append [] f = refl
loads-append (g ∷ fs) f = ap (λ ps. (g.id, g.index) ∷ ps) (loads-append fs f)

onto_locks-append :
    (w : Wait) (a : Action) (ps qs : List Load)
    → onto_locks w a (ps ++ qs) ≡ onto_locks w a ps ++ qs
onto_locks-append (on id) (unlock i k) ps qs = refl
onto_locks-append (on id) (call k) ps qs = refl
onto_locks-append (settled b) a ps qs = refl

pub open_locks-unlock :
    (ws : List Waiter) (id i : ℕ) (k : Caller)
    → open_locks (ws ++ record { wait = on id; action = unlock i k } ∷ [])
      ≡ open_locks ws ++ (id, i) ∷ []
open_locks-unlock [] id i k = refl
open_locks-unlock (w ∷ ws) id i k =
    ap (onto_locks w.wait w.action) (open_locks-unlock ws id i k)
    ∙ onto_locks-append w.wait w.action (open_locks ws) ((id, i) ∷ [])

onto_locks-call : (w : Wait) (k : Caller) → onto_locks w (call k) [] ≡ []
onto_locks-call (on id) k = refl
onto_locks-call (settled b) k = refl

pub open_locks-call :
    (ws : List Waiter) (w : Wait) (k : Caller)
    → open_locks (ws ++ record { wait = w; action = call k } ∷ []) ≡ open_locks ws
open_locks-call [] w k = onto_locks-call w k
open_locks-call (v ∷ ws) w k = ap (onto_locks v.wait v.action) (open_locks-call ws w k)

pub locks-append :
    (i : ℕ) (ws : List Waiter) (w : Waiter)
    → locks i (ws ++ w ∷ []) ≡ locks i ws + lock_bit i w.action
locks-append i [] w = omega arith
locks-append i (v ∷ ws) w = omega (arith, locks-append i ws w)

-- The end of a load: it leaves the loads in flight, and the lock it held is no longer open.
onto_locks-without :
    (id : ℕ) (w : Wait) (a : Action) (ps : List Load)
    → without id (onto_locks w a ps) ≡ (elim w [
      | on j ↦ if j == id then without id ps else onto_locks (on j) a (without id ps)
      | settled b ↦ without id ps
    ])
onto_locks-without id (on j) (unlock i k) ps = ground arith
onto_locks-without id (on j) (call k) ps = ground arith
onto_locks-without id (settled b) a ps = refl

pub locks-settle : (i id : ℕ) (o : Bool) (ws : List Waiter) → locks i (settle id o ws) ≡ locks i ws
unfolding settle
locks-settle i id o [] = refl
locks-settle i id o (w ∷ ws) =
    go w.wait (ap (λ n. lock_bit i w.action + n) (locks-settle i id o ws))
  where
    go :
        (v : Wait)
        → lock_bit i w.action + locks i (settle id o ws) ≡ lock_bit i w.action + locks i ws
        → locks i (elim v [
          | on j ↦ (if j == id then record w { wait = settled o } else w) ∷ settle id o ws
          | settled b ↦ w ∷ settle id o ws
        ])
          ≡ lock_bit i w.action + locks i ws
    go (on j) ih = elim (Bool-cases (j == id)) [ inl q ↦ rw q ih | inr q ↦ rw q ih ]
    go (settled b) ih = ih

pub open_locks-settle :
    (id : ℕ) (o : Bool) (ws : List Waiter)
    → open_locks (settle id o ws) ≡ without id (open_locks ws)
unfolding settle
open_locks-settle id o [] = refl
open_locks-settle id o (w ∷ ws) = go w.wait w.action (open_locks-settle id o ws)
  where
    go :
        (v : Wait) (a : Action)
        → open_locks (settle id o ws) ≡ without id (open_locks ws)
        → open_locks (settle id o (record { wait = v; action = a } ∷ ws))
          ≡ without id (onto_locks v a (open_locks ws))
    go (on j) a ih = elim (Bool-cases (j == id)) [
      | inl q ↦ rw (q, onto_locks-without id (on j) a (open_locks ws), q) ih
      | inr q ↦
          rw (q, onto_locks-without id (on j) a (open_locks ws), q) (ap (onto_locks (on j) a) ih)
    ]
    go (settled b) a ih = ih

contains-ids-without :
    (x id : ℕ) (ps : List Load)
    → contains x (ids ps) ≡ false
    → contains x (ids (without id ps)) ≡ false
contains-ids-without x id [] h = refl
contains-ids-without x id (p ∷ ps) h = ground (arith, contains-ids-without x id ps)

pub without-Distinct :
    (id : ℕ) (ps : List Load) → Distinct (ids ps) → Distinct (ids (without id ps))
without-Distinct id [] d = tt
without-Distinct id (p ∷ ps) d = elim (Bool-cases (p.0 == id)) [
  | inl q ↦ rw q (without-Distinct id ps d.1)
  | inr q ↦ rw q (contains-ids-without p.0 id ps d.0, without-Distinct id ps d.1)
]

without_other : (id : ℕ) (ps : List Load) → contains id (ids ps) ≡ false → without id ps ≡ ps
without_other id [] h = refl
without_other id (p ∷ ps) h = elim (Bool-cases (p.0 == id)) [
  | inl q ↦ cc (rw q at h)
  | inr q ↦ rw q (ap (λ qs. p ∷ qs) (without_other id ps (rw q at h)))
]

pub loads-drop_fetch :
    (id : ℕ) (fs : List Fetch)
    → Distinct (ids (loads fs))
    → loads (drop_fetch id fs) ≡ without id (loads fs)
unfolding drop_fetch
loads-drop_fetch id [] d = refl
loads-drop_fetch id (f ∷ fs) d = elim (Bool-cases (f.id == id)) [
  | inl q ↦ rw q (
      sym (
        without_other id (loads fs)
          (subst (λ x. contains x (ids (loads fs)) ≡ false) (==→eq f.id id q) d.0)))
  | inr q ↦ rw q (ap (λ ps. (f.id, f.index) ∷ ps) (loads-drop_fetch id fs d.1))
]

-- A waiter that is ready leaves the list.
pub open_locks-drop_waiter :
    (n : ℕ) (ws : List Waiter) (w : Waiter) (o : Bool)
    → get_elem? ws n ≡ some w
    → w.wait ≡ settled o
    → open_locks (drop_waiter n ws) ≡ open_locks ws
unfolding drop_waiter
open_locks-drop_waiter n [] w o g q = cc
open_locks-drop_waiter zero (v ∷ ws) w o g q =
    let same : v ≡ w = cc in
    sym (ap (λ x. onto_locks x v.action (open_locks ws)) (ap (λ (x : Waiter). x.wait) same ∙ q))
open_locks-drop_waiter (suc n) (v ∷ ws) w o g q =
    ap (onto_locks v.wait v.action) (open_locks-drop_waiter n ws w o g q)

pub locks-drop_waiter :
    (i n : ℕ) (ws : List Waiter) (w : Waiter)
    → get_elem? ws n ≡ some w
    → locks i (drop_waiter n ws) + lock_bit i w.action ≡ locks i ws
unfolding drop_waiter
locks-drop_waiter i n [] w g = cc g
locks-drop_waiter i zero (v ∷ ws) w g =
    let same : v ≡ w = cc in omega (arith, ap (λ (x : Waiter). lock_bit i x.action) same)
locks-drop_waiter i (suc n) (v ∷ ws) w g = omega (arith, locks-drop_waiter i n ws w g)

pub key_count-put :
    (i j v : ℕ) (l : Map ℕ)
    → Map.get i l ≡ none
    → key_count j (Map.put i v l) ≡ key_count j l + bit (i == j)
unfolding Map.get Map.put
key_count-put i j v [] h = omega arith
key_count-put i j v ((k, w) ∷ l) h = elim (Bool-cases (k == i)) [
  | inl q ↦ cc (rw q at h)
  | inr q ↦ rw q (omega (arith, key_count-put i j v l (rw q at h)))
]

pub key_count-none : (i : ℕ) (l : Map ℕ) → Map.get i l ≡ none → key_count i l ≡ 0
unfolding Map.get
key_count-none i [] h = refl
key_count-none i ((k, w) ∷ l) h = elim (Bool-cases (k == i)) [
  | inl q ↦ cc (rw q at h)
  | inr q ↦ rw q (omega (arith, key_count-none i l (rw q at h)))
]

positive : {n : ℕ} → 0 < 0 + n → 0 < n
positive h = omega arith

pub key_count-delete :
    (i j : ℕ) (l : Map ℕ)
    → 0 < key_count i l
    → key_count j (Map.delete i l) + bit (i == j) ≡ key_count j l
unfolding Map.delete
key_count-delete i j [] h = absurd (omega (arith, h))
key_count-delete i j ((k, w) ∷ l) h = elim (Bool-cases (k == i)) [
  | inl q ↦ rw (q, ==→eq k i q) (omega arith)
  | inr q ↦ rw q (omega (arith, key_count-delete i j l (positive (rw q at h))))
]

pub index_count-locks : (i : ℕ) (ws : List Waiter) → index_count i (open_locks ws) ≤ locks i ws
index_count-locks i [] = omega arith
index_count-locks i (w ∷ ws) = go w.wait w.action (index_count-locks i ws)
  where
    go :
        (v : Wait) (a : Action)
        → index_count i (open_locks ws) ≤ locks i ws
        → index_count i (onto_locks v a (open_locks ws)) ≤ lock_bit i a + locks i ws
    go (on id) (unlock j k) ih = omega (arith, ih)
    go (on id) (call k) ih = omega (arith, ih)
    go (settled b) a ih = omega (arith, ih)

pub ids-append : (ps : List Load) (p : Load) → ids (ps ++ p ∷ []) ≡ ids ps ++ p.0 ∷ []
ids-append [] p = refl
ids-append (q ∷ ps) p = ap (λ is. q.0 ∷ is) (ids-append ps p)

pub contains_fresh :
    (n : ℕ) (ps : List Load) → All (λ p. load_id p < n) ps → contains n (ids ps) ≡ false
contains_fresh n [] h = refl
contains_fresh n (p ∷ ps) h = ground (arith, contains_fresh n ps h.1)
