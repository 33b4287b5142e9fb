-- ===== src/Personnel/Observers/Listed.antt =====
-- The array of observers of src/system/subsystem1/src/evidence_manager.cpp is a list with at most ten
-- entries.
use justice_flow.Base.{
  ℕ, suc, ◌+◌, ◌-◌, ◌<◌, ◌≡◌, refl, sym, ap, ◌∙◌, Option, none, some, List, [], ◌∷◌, ◌++◌, ltb,
  if◌then◌else◌, length, length-append, append_assoc, get_or, set, Bool-cases, inl, inr, absurd,
  arith, ltb_iff, subst,
}
use justice_flow.Personnel.Observers.{
  max_observers, EvidenceMgr, attach, same, shifted, gap_closed, detach_from, detach, told,
  notify_all,
}

module _ {A : Type 0} where
  set-append :
      (xs : List A) (x y : A) (ts : List A) → set (xs ++ x ∷ ts) (length xs) y ≡ xs ++ y ∷ ts
  set-append [] x y ts = refl
  set-append (z ∷ xs) x y ts = ap (λ l. z ∷ l) (set-append xs x y ts)

  get_or-append : (xs : List A) (x d : A) (ts : List A) → get_or (xs ++ x ∷ ts) (length xs) d ≡ x
  get_or-append [] x d ts = refl
  get_or-append (z ∷ xs) x d ts = get_or-append xs x d ts

  get_or-next :
      (xs : List A) (x y d : A) (ts : List A) → get_or (xs ++ x ∷ y ∷ ts) (suc (length xs)) d ≡ y
  get_or-next [] x y d ts = refl
  get_or-next (z ∷ xs) x y d ts = get_or-next xs x y d ts

abbrev Slots : Type 0
Slots = List (Option ℕ)

-- One more step of the loop, with the lengths and the brackets as the next steps have them.
shifted-step :
    (xs ys : Slots) (x z y : Option ℕ) (ts : Slots)
    → shifted (length xs) (length (ys ++ z ∷ [])) ((ys ++ z ∷ []) ++ z ∷ (xs ++ ts))
      ≡ (ys ++ z ∷ []) ++ (xs ++ y ∷ ts)
    → shifted (suc (length xs)) (length ys) (ys ++ x ∷ (z ∷ (xs ++ ts)))
      ≡ ys ++ (z ∷ (xs ++ y ∷ ts))
unfolding shifted
shifted-step xs ys x z y ts e =
    let one = length-append ys (z ∷ []) in
    let next : suc (length ys) ≡ length (ys ++ z ∷ []) = omega arith in
    rw
      (
        shifted,
        get_or-next ys x z none (xs ++ ts),
        set-append ys x z (z ∷ (xs ++ ts)),
        next,
        sym (append_assoc ys (z ∷ []) (z ∷ (xs ++ ts))),
        sym (append_assoc ys (z ∷ []) (xs ++ y ∷ ts)),
      )
      e

-- The entries after x each move one place down; some entry stays behind them.
shifted-down :
    (xs ys : Slots) (x : Option ℕ) (ts : Slots)
    → (y : Option ℕ) × (shifted (length xs) (length ys) (ys ++ x ∷ (xs ++ ts))
        ≡ ys ++ (xs ++ y ∷ ts))
unfolding shifted
shifted-down [] ys x ts = (x, refl)
shifted-down (z ∷ xs) ys x ts =
    let rest = shifted-down xs (ys ++ z ∷ []) z ts in
    (rest.0, shifted-step xs ys x z rest.0 ts rest.1)

-- The list without its first entry that is `obs`.
abbrev pub removed : Option ℕ → Slots → Slots
removed obs [] = []
removed obs (x ∷ xs) = let rest = removed obs xs in if same x obs then xs else x ∷ rest

-- The list with `obs` behind it, where there is a place.
abbrev pub attached : Option ℕ → Slots → Slots
attached obs xs = if ltb (length xs) max_observers then xs ++ obs ∷ [] else xs

-- The observers of the list that are no null pointers.
abbrev pub present : Slots → List ℕ
present [] = []
present (none ∷ xs) = present xs
present (some o ∷ xs) = o ∷ present xs

-- The array holds the list in its first places, and has ten.
pub record Holds (m : EvidenceMgr) (xs : List (Option ℕ)) : Type 0 where
  pub behind : List (Option ℕ)
  pub places : m.observers ≡ xs ++ behind
  pub has_count : m.observer_count ≡ length xs
  pub ten : length xs + length behind ≡ 10

-- The list does without the entry that goes.
gap_closed-Holds :
    (ys : Slots) (x : Option ℕ) (xs : Slots) (m : EvidenceMgr)
    → Holds m (ys ++ x ∷ xs)
    → Holds (gap_closed (length ys) m) (ys ++ xs)
unfolding gap_closed
gap_closed-Holds ys x xs m h =
    let whole = length-append ys (x ∷ xs) in
    let fewer = length-append ys xs in
    let count = h.has_count in
    let moved : m.observer_count - 1 - length ys ≡ length xs = omega arith in
    let last : m.observer_count - 1 ≡ length (ys ++ xs) = omega arith in
    let slots : m.observers ≡ ys ++ x ∷ (xs ++ h.behind) =
      h.places ∙ append_assoc ys (x ∷ xs) h.behind in
    let ten = h.ten in
    let down = shifted-down xs ys x h.behind in
    let after : set (shifted (m.observer_count - 1 - length ys) (length ys) m.observers)
          (m.observer_count - 1) none
        ≡ (ys ++ xs) ++ none ∷ h.behind =
      rw (moved, last, slots, down.1, sym (append_assoc ys xs (down.0 ∷ h.behind)))
        (set-append (ys ++ xs) down.0 none h.behind) in
    record { behind = none ∷ h.behind; places = after; has_count = last; ten = omega arith }

detach_from-Holds :
    (obs : Option ℕ) (xs ys : Slots) (m : EvidenceMgr)
    → Holds m (ys ++ xs)
    → Holds (detach_from (length xs) (length ys) obs m) (ys ++ removed obs xs)
unfolding detach_from
detach_from-Holds obs [] ys m h = h
detach_from-Holds obs (x ∷ xs) ys m h =
    let one = length-append ys (x ∷ []) in
    let next : length (ys ++ x ∷ []) ≡ suc (length ys) = omega arith in
    let here : get_or m.observers (length ys) none ≡ x =
      rw (h.places, append_assoc ys (x ∷ xs) h.behind) (get_or-append ys x none (xs ++ h.behind)) in
    let later : Holds (detach_from (length xs) (suc (length ys)) obs m) (ys ++ x ∷ removed obs xs) =
      rw (sym next, sym (append_assoc ys (x ∷ []) (removed obs xs)))
        (detach_from-Holds obs xs (ys ++ x ∷ []) m (rw (append_assoc ys (x ∷ []) xs) h)) in
    elim (Bool-cases (same x obs)) [
      | inl e ↦ rw (here, e) (gap_closed-Holds ys x xs m h)
      | inr e ↦ rw (here, e) later
    ]

with_room :
    (obs : Option ℕ) (xs behind : Slots) (m : EvidenceMgr)
    → length xs < 10
    → m.observers ≡ xs ++ behind
    → m.observer_count ≡ length xs
    → length xs + length behind ≡ 10
    → Holds
        (record {
          observers = set m.observers m.observer_count obs;
          observer_count = m.observer_count + 1;
        })
        (xs ++ obs ∷ [])
with_room obs xs [] m room places has_count ten = absurd (omega arith)
with_room obs xs (b ∷ bs) m room places has_count ten =
    let longer = length-append xs (obs ∷ []) in
    record {
      behind = bs;
      places =
          rw (has_count, places) (set-append xs b obs bs ∙ sym (append_assoc xs (obs ∷ []) bs));
      has_count = omega arith;
      ten = omega arith;
    }

attach-Holds :
    (obs : Option ℕ) (xs : Slots) (m : EvidenceMgr)
    → Holds m xs
    → Holds (attach obs m) (attached obs xs)
unfolding attach
attach-Holds obs xs m h =
    let same_test = ap (λ n. ltb n 10) (sym h.has_count) in
    elim (Bool-cases (ltb m.observer_count 10)) [
      | inl e ↦
          rw (e, same_test ∙ e)
            (with_room obs xs h.behind m ((ltb_iff (length xs) 10).0 (same_test ∙ e)) h.places
              h.has_count h.ten)
      | inr e ↦ rw (e, same_test ∙ e) h
    ]

told-none : (n i : ℕ) (l : Slots) → get_or l i none ≡ none → told (suc n) i l ≡ told n (suc i) l
unfolding told
told-none n i l e = rw (told, e) refl

told-some :
    (n i : ℕ) (l : Slots) (o : ℕ)
    → get_or l i none ≡ some o
    → told (suc n) i l ≡ o ∷ told n (suc i) l
unfolding told
told-some n i l o e = rw (told, e) refl

told-moved :
    (xs ys ts : Slots) (x : Option ℕ) (l : List ℕ)
    → told (length xs) (length (ys ++ x ∷ [])) ((ys ++ x ∷ []) ++ (xs ++ ts)) ≡ l
    → told (length xs) (suc (length ys)) (ys ++ x ∷ (xs ++ ts)) ≡ l
told-moved xs ys ts x l e =
    let one = length-append ys (x ∷ []) in
    let next : suc (length ys) ≡ length (ys ++ x ∷ []) = omega arith in
    rw (next, sym (append_assoc ys (x ∷ []) (xs ++ ts))) e

told-present : (xs ys ts : Slots) → told (length xs) (length ys) (ys ++ (xs ++ ts)) ≡ present xs
unfolding told
told-present [] ys ts = refl
told-present (none ∷ xs) ys ts =
    told-none (length xs) (length ys) (ys ++ none ∷ (xs ++ ts))
      (get_or-append ys none none (xs ++ ts))
    ∙ told-moved xs ys ts none (present xs) (told-present xs (ys ++ none ∷ []) ts)
told-present (some o ∷ xs) ys ts =
    told-some (length xs) (length ys) (ys ++ some o ∷ (xs ++ ts)) o
      (get_or-append ys (some o) none (xs ++ ts))
    ∙ ap (λ l. o ∷ l)
        (told-moved xs ys ts (some o) (present xs) (told-present xs (ys ++ some o ∷ []) ts))

-- An array that holds a list stands for it: `attach` puts the observer behind the list while there are fewer
-- than ten, `detach` takes the first entry that is the observer away and closes the gap, and `notify_all`
-- tells each observer of the list that is no null pointer, in their order.
pub observers_refine :
    (obs : Option ℕ) (xs : List (Option ℕ)) (m : EvidenceMgr)
    → Holds m xs
    → Holds (attach obs m) (attached obs xs)
      × Holds (detach obs m) (removed obs xs)
      × (notify_all m ≡ present xs)
unfolding detach notify_all
observers_refine obs xs m h = (
  attach-Holds obs xs m h,
  subst (λ n. Holds (detach_from n 0 obs m) (removed obs xs)) (sym h.has_count)
      (detach_from-Holds obs xs [] m h),
  rw (h.has_count, h.places) (told-present xs [] h.behind),
)
