-- ===== src/Enforcement/Custody.antt =====
-- The custody states of an arrest: the table of src/system/subsystem3/enforcement/src/
-- arrest_manager.cpp, which compares texts, and the same as a relation on the enumeration.
use justice_flow.Base.{
  ◌≡◌, ◌↔◌, refl, Bool, true, false, ◌&&◌, List, [], ◌∷◌, Bytes, bytes_eq, bytes_beq, bytes_beq_iff,
  codes, ◌==◌, any, arith, inl, inr, Bool-cases, and_false, not_true, sym, ◌∙◌,
}

pub data CustodyStatus : Type 0 where
  in_custody bail_granted remanded released escaped : CustodyStatus

unfoldable pub custody_str : CustodyStatus → Bytes
custody_str in_custody = codes "IN_CUSTODY"
custody_str bail_granted = codes "BAIL_GRANTED"
custody_str remanded = codes "REMANDED"
custody_str released = codes "RELEASED"
custody_str escaped = codes "ESCAPED"

pub transitions : List (Bytes × Bytes)
transitions =
    (codes "IN_CUSTODY", codes "BAIL_GRANTED")
    ∷ (codes "IN_CUSTODY", codes "REMANDED")
    ∷ (codes "IN_CUSTODY", codes "RELEASED")
    ∷ (codes "IN_CUSTODY", codes "ESCAPED")
    ∷ (codes "BAIL_GRANTED", codes "RELEASED")
    ∷ (codes "REMANDED", codes "RELEASED")
    ∷ []

same_pair : Bytes → Bytes → Bytes × Bytes → Bool
same_pair from to (f, t) = f == from && t == to

unfoldable pub is_legal_transition : Bytes → Bytes → Bool
unfolding transitions same_pair
is_legal_transition from to = any (same_pair from to) transitions

pub data Step : CustodyStatus → CustodyStatus → Type 0 where
  grant_bail : Step in_custody bail_granted
  remand : Step in_custody remanded
  release : Step in_custody released
  escape : Step in_custody escaped
  release_bailed : Step bail_granted released
  release_remanded : Step remanded released

-- Any number of steps.
pub data Reaches : CustodyStatus → CustodyStatus → Type 0 where
  here : {f : CustodyStatus} → Reaches f f
  onward : {f t u : CustodyStatus} → Step f t → Reaches t u → Reaches f u

pub Reaches-trans : {f t u : CustodyStatus} → Reaches f t → Reaches t u → Reaches f u
Reaches-trans here r = r
Reaches-trans (onward s q) r = onward s (Reaches-trans q r)

-- A released or an escaped accused is in a terminal state.
abbrev pub is_terminal : CustodyStatus → Bool
is_terminal released = true
is_terminal escaped = true
is_terminal _ = false

pub terminal_stays : {f t : CustodyStatus} → Reaches f t → is_terminal f ≡ true → t ≡ f
terminal_stays here h = refl
terminal_stays (onward grant_bail r) h = grind (arith, h)
terminal_stays (onward remand r) h = grind (arith, h)
terminal_stays (onward release r) h = grind (arith, h)
terminal_stays (onward escape r) h = grind (arith, h)
terminal_stays (onward release_bailed r) h = grind (arith, h)
terminal_stays (onward release_remanded r) h = grind (arith, h)

ruleset steps = (grant_bail, remand, release, escape, release_bailed, release_remanded)

legal-Step :
    (f t : CustodyStatus) → is_legal_transition (custody_str f) (custody_str t) ≡ true → Step f t
unfolding is_legal_transition custody_str bytes_beq
legal-Step in_custody in_custody h = grind (arith, steps)
legal-Step _ _ h = grind (arith, steps)

Step-legal :
    {f t : CustodyStatus} → Step f t → is_legal_transition (custody_str f) (custody_str t) ≡ true
unfolding is_legal_transition custody_str bytes_beq
Step-legal grant_bail = refl
Step-legal remand = refl
Step-legal release = refl
Step-legal escape = refl
Step-legal release_bailed = refl
Step-legal release_remanded = refl

-- A text that is no state which may be left, or none that may be entered, opens nothing.
closed_from :
    (from to : Bytes)
    → codes "IN_CUSTODY" == from ≡ false
    → codes "BAIL_GRANTED" == from ≡ false
    → codes "REMANDED" == from ≡ false
    → is_legal_transition from to ≡ false
unfolding is_legal_transition transitions same_pair
closed_from from to a b c = simp (a, b, c)

closed_to :
    (from to : Bytes)
    → codes "BAIL_GRANTED" == to ≡ false
    → codes "REMANDED" == to ≡ false
    → codes "RELEASED" == to ≡ false
    → codes "ESCAPED" == to ≡ false
    → is_legal_transition from to ≡ false
unfolding is_legal_transition transitions same_pair
closed_to from to a b c d = simp (a, b, c, d, and_false)

legal_from :
    (from to : Bytes)
    → is_legal_transition from to ≡ true
    → (f : CustodyStatus) × (custody_str f ≡ from)
unfolding custody_str
legal_from from to h = elim (Bool-cases (codes "IN_CUSTODY" == from)) [
  | inl e ↦ (in_custody, (bytes_beq_iff (codes "IN_CUSTODY") from).0 e)
  | inr e ↦ elim (Bool-cases (codes "BAIL_GRANTED" == from)) [
    | inl e1 ↦ (bail_granted, (bytes_beq_iff (codes "BAIL_GRANTED") from).0 e1)
    | inr e1 ↦ elim (Bool-cases (codes "REMANDED" == from)) [
      | inl e2 ↦ (remanded, (bytes_beq_iff (codes "REMANDED") from).0 e2)
      | inr e2 ↦ not_true (closed_from from to e e1 e2) h
    ]
  ]
]

legal_to :
    (from to : Bytes)
    → is_legal_transition from to ≡ true
    → (t : CustodyStatus) × (custody_str t ≡ to)
unfolding custody_str
legal_to from to h = elim (Bool-cases (codes "BAIL_GRANTED" == to)) [
  | inl e ↦ (bail_granted, (bytes_beq_iff (codes "BAIL_GRANTED") to).0 e)
  | inr e ↦ elim (Bool-cases (codes "REMANDED" == to)) [
    | inl e1 ↦ (remanded, (bytes_beq_iff (codes "REMANDED") to).0 e1)
    | inr e1 ↦ elim (Bool-cases (codes "RELEASED" == to)) [
      | inl e2 ↦ (released, (bytes_beq_iff (codes "RELEASED") to).0 e2)
      | inr e2 ↦ elim (Bool-cases (codes "ESCAPED" == to)) [
        | inl e3 ↦ (escaped, (bytes_beq_iff (codes "ESCAPED") to).0 e3)
        | inr e3 ↦ not_true (closed_to from to e e1 e2 e3) h
      ]
    ]
  ]
]

-- A step of the relation between two states that texts spell.
unfoldable pub Spelled : Bytes → Bytes → Type 0
Spelled from to =
    (f : CustodyStatus) × (t : CustodyStatus) × (custody_str f ≡ from)
    × (custody_str t ≡ to)
    × Step f t

Spelled-legal : (from to : Bytes) → Spelled from to → is_legal_transition from to ≡ true
unfolding Spelled
Spelled-legal from to (f, t, p, q, st) =
    (λ i. is_legal_transition (sym p i) (sym q i)) ∙ Step-legal st

-- A text spells one state.
pub Spelled-Step :
    (f t : CustodyStatus) (from : Bytes)
    → custody_str f ≡ from
    → Spelled from (custody_str t)
    → Step f t
Spelled-Step f t from p h =
    legal-Step f t
      ((λ i. is_legal_transition (p i) (custody_str t)) ∙ Spelled-legal from (custody_str t) h)

legal-Spelled : (from to : Bytes) → is_legal_transition from to ≡ true → Spelled from to
unfolding Spelled
legal-Spelled from to h =
    let (f, p) = legal_from from to h in
    let (t, q) = legal_to from to h in
    (f, t, p, q, legal-Step f t ((λ i. is_legal_transition (p i) (q i)) ∙ h))

-- The table of the code, which compares texts, allows a change from one text to another exactly
-- when the two texts spell custody states that are joined by a step of the relation `Step`.
pub is_legal_transition_iff :
    (from to : Bytes) → (is_legal_transition from to ≡ true) ↔ Spelled from to
is_legal_transition_iff from to = (legal-Spelled from to, Spelled-legal from to)
