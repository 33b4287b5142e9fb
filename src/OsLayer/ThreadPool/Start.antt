-- ===== src/OsLayer/ThreadPool/Start.antt =====
-- Which threads `init` starts and which the join loop of `shutdown` waits for.
use justice_flow.Base.{
  ℕ, zero, suc, ◌+◌, ◌≤◌, ◌<◌, ◌≡◌, refl, ap, ◌∙◌, Bool, true, false, List, [], ◌∷◌, ◌++◌, All,
  All-append, arith, ltb, if◌then◌else◌, Bool-cases, inl, inr, eqb, get_elem?, some, length,
  length-append,
}
use justice_flow.OsLayer.ThreadPool.{
  ThreadPool, max_workers, spawn, init, joined, places_below, worker_total,
}
use native.Mathlib.Numerals.{add-one}

places_below-append : (n : ℕ) → places_below (suc n) ≡ places_below n ++ n ∷ []
unfolding places_below
places_below-append n = refl

places_below-next : (n : ℕ) → places_below (n + 1) ≡ places_below n ++ n ∷ []
unfolding places_below
places_below-next n = rw add-one

spawn_all :
    (fuel i count : ℕ) (created : ℕ → Bool)
    → ((j : ℕ) → created j ≡ true)
    → i ≤ count
    → count ≤ i + fuel
    → spawn fuel created i count (places_below i) ≡ (count, places_below count)
unfolding spawn
spawn_all zero i count created all le fits =
    let same : i ≡ count = omega arith in ap (λ k. (count, places_below k)) same
spawn_all (suc fuel) i count created all le fits = elim (Bool-cases (ltb i count)) [
  | inl more ↦
      rw (more, all i)
        (rw (← places_below-next i)
          (spawn_all fuel (i + 1) count created all (ground arith) (omega arith)))
  | inr done ↦
      let same : i ≡ count = ground arith in rw done (ap (λ k. (count, places_below k)) same)
]

worker_total_bounds :
    (n : ℕ)
    → (worker_total n ≤ max_workers)
      × (worker_total n ≤ n)
      × (worker_total n ≡ (if ltb max_workers n then max_workers else n))
      × (2 ≤ n → 2 ≤ worker_total n)
unfolding worker_total
worker_total_bounds n = ground arith

places_below-zero : places_below 0 ≡ []
unfolding places_below
places_below-zero = refl

-- Where every `pthread_create` succeeds, the pool has as many workers as were asked for, 50 at most,
-- and `shutdown` joins exactly the places that hold a thread.
pub init_joins_created :
    {Task : Type 0} (p : ThreadPool Task) (n : ℕ) (created : ℕ → Bool)
    → ((j : ℕ) → created j ≡ true)
    → p.initialized ≡ false
    → 0 < n
    → let (q, places) = init created n p in
      (q.active_worker_count ≡ (if ltb max_workers n then max_workers else n)) × (joined q ≡ places)
unfolding init joined
init_joins_created p n created all fresh some_asked = ground (
  arith,
  worker_total_bounds n,
  spawn_all (worker_total n) 0 (worker_total n) created all (omega arith) (omega arith),
  places_below-zero,
)

spawn-least :
    (k fuel i count : ℕ) (created : ℕ → Bool) (places : List ℕ)
    → k ≤ i
    → k ≤ count
    → k ≤ (spawn fuel created i count places).0
unfolding spawn
spawn-least k zero i count created places hi hc = hc
spawn-least k (suc fuel) i count created places hi hc = elim (Bool-cases (ltb i count)) [
  | inl more ↦ rw more (spawn-least k fuel _ _ created _ (omega arith) (ground arith))
  | inr done ↦ rw done hc
]

spawn-All :
    (k fuel i count : ℕ) (created : ℕ → Bool) (places : List ℕ)
    → k ≤ i
    → All (λ j. k ≤ j) places
    → All (λ j. k ≤ j) (spawn fuel created i count places).1
unfolding spawn
spawn-All k zero i count created places hi h = h
spawn-All k (suc fuel) i count created places hi h = elim (Bool-cases (ltb i count)) [
  | inl more ↦ elim (Bool-cases (created i)) [
    | inl made ↦
        rw (more, made)
          (spawn-All k fuel (i + 1) _ created _ (omega arith) (All-append _ places _ h (hi, tt)))
    | inr failed ↦ rw (more, failed) (spawn-All k fuel (i + 1) _ created _ (omega arith) h)
  ]
  | inr done ↦ rw done h
]

get_elem?-append : (xs ys : List ℕ) → 0 < length xs → get_elem? (xs ++ ys) 0 ≡ get_elem? xs 0
get_elem?-append [] ys h = absurd (omega arith)
get_elem?-append (x ∷ xs) ys h = refl

length-places_below : (n : ℕ) → length (places_below n) ≡ n
unfolding places_below
length-places_below zero = refl
length-places_below (suc n) =
    omega (arith, length-append (places_below n) (n ∷ []), length-places_below n)

places_below-first : (n : ℕ) → 0 < n → get_elem? (places_below n) 0 ≡ some 0
unfolding places_below
places_below-first zero h = absurd (omega arith)
places_below-first (suc zero) h = refl
places_below-first (suc (suc n)) h =
    get_elem?-append (places_below (suc n)) (suc n ∷ [])
      (omega (arith, length-places_below (suc n)))
    ∙ places_below-first (suc n) (omega arith)

first_fails :
    (count : ℕ) (created : ℕ → Bool)
    → created 0 ≡ false
    → 2 ≤ count
    → let (left, places) = spawn count created 0 count [] in (0 < left) × All (λ j. 0 < j) places
unfolding spawn
first_fails zero created failed two = absurd (omega arith)
first_fails (suc n) created failed two = elim (Bool-cases (ltb 0 (suc n))) [
  | inl more ↦
      rw (more, failed)
        (
          spawn-least 1 n _ _ created _ (omega arith) (omega arith),
          spawn-All 1 n _ _ created _ (omega arith) tt,
        )
  | inr done ↦ absurd (ground arith)
]

-- Where the first of at least two `pthread_create` calls fails, `shutdown` joins place 0, which
-- holds no thread.
pub init_joins_missing :
    {Task : Type 0} (p : ThreadPool Task) (n : ℕ) (created : ℕ → Bool)
    → created 0 ≡ false
    → p.initialized ≡ false
    → 2 ≤ n
    → let (q, places) = init created n p in
      (get_elem? (joined q) 0 ≡ some 0) × All (λ j. 0 < j) places
unfolding init joined
init_joins_missing p n created failed fresh two =
    let (left, late) =
      first_fails (worker_total n) created failed ((worker_total_bounds n).3 two) in
    let asked : eqb n 0 ≡ false = ground arith in
    rw (fresh, asked) (places_below-first _ left, late)
