-- ===== src/Personnel/Observers.antt =====
-- src/system/subsystem1/src/evidence_manager.cpp: up to ten observers in an array, `none` for the null
-- pointer; an observer is its address.
pub mod Listed
use justice_flow.Base.{
  ℕ, zero, suc, ◌+◌, ◌-◌, ◌≤◌, ◌<◌, ◌≡◌, ◌≢◌, refl, sym, ap, ◌∙◌, Bool, true, false, Option, none,
  some, List, [], ◌∷◌, ◌++◌, eqb, ltb, if◌then◌else◌, length, get_or, set, replicate, Bool-cases,
  inl, inr, absurd, arith,
}

abbrev pub max_observers : ℕ
max_observers = 10

pub record EvidenceMgr : Type 0 where
  pub observers : List (Option ℕ)
  pub observer_count : ℕ

abbrev pub new_mgr : EvidenceMgr
new_mgr = record { observers = replicate 10 none; observer_count = 0 }

unfoldable pub attach : Option ℕ → EvidenceMgr → EvidenceMgr
attach obs m =
    if ltb m.observer_count max_observers
    then record {
      observers = set m.observers m.observer_count obs;
      observer_count = m.observer_count + 1;
    }
    else m

-- `observers[i] == obs` on pointers.
abbrev same : Option ℕ → Option ℕ → Bool
same none none = true
same (some a) (some b) = eqb a b
same _ _ = false

-- The inner loop: from place j on, n times the next entry one place down.
shifted : ℕ → ℕ → List (Option ℕ) → List (Option ℕ)
shifted zero j l = l
shifted (suc n) j l = shifted n (suc j) (set l j (get_or l (suc j) none))

-- The entry at i goes, and the last one is cleared.
gap_closed : ℕ → EvidenceMgr → EvidenceMgr
unfolding shifted
gap_closed i m = record {
  observers = set (shifted (m.observer_count - 1 - i) i m.observers) (m.observer_count - 1) none;
  observer_count = m.observer_count - 1;
}

-- The search, over the n places from i on.
detach_from : ℕ → ℕ → Option ℕ → EvidenceMgr → EvidenceMgr
unfolding gap_closed
detach_from zero i obs m = m
detach_from (suc n) i obs m =
    let rest = detach_from n (suc i) obs m in
    if same (get_or m.observers i none) obs then gap_closed i m else rest

unfoldable pub detach : Option ℕ → EvidenceMgr → EvidenceMgr
unfolding detach_from
detach obs m = detach_from m.observer_count 0 obs m

-- The observers that are told, in their order.
told : ℕ → ℕ → List (Option ℕ) → List ℕ
told zero i l = []
told (suc n) i l =
    let rest = told n (suc i) l in elim (get_or l i none) [ none ↦ rest | some o ↦ o ∷ rest ]

unfoldable pub notify_all : EvidenceMgr → List ℕ
unfolding told
notify_all m = told m.observer_count 0 m.observers
