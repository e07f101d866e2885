-- ===== src/Conditions/Reasons.antt =====
-- One condition for each reason.
use qubership_opensearch.Prelude.{
  ◌≡◌, ◌≢◌, refl, sym, subst, ◌∙◌, String, false, Bool-cases, inl, inr, ◌==◌, ==-false, eq_iff,
  Option, none, some, List, [], ◌∷◌, All, if◌then◌else◌, arith,
}
use qubership_opensearch.Conditions.{StatusCondition, is_changed, add_condition}

-- The conditions have different reasons.
abbrev pub IsDistinct : List StatusCondition → Type 0
IsDistinct [] = Unit
IsDistinct (c ∷ cs) = All (λ d. d.reason ≢ c.reason) cs × IsDistinct cs

-- The first condition of a reason.
abbrev pub find_condition : String → List StatusCondition → Option StatusCondition
find_condition reason [] = none
find_condition reason (c ∷ cs) =
    let rest = find_condition reason cs in if c.reason == reason then some c else rest

-- The conditions say the same, perhaps since different times.
abbrev pub SaysSame : Option StatusCondition → StatusCondition → Type 0
SaysSame none c = ⊥
SaysSame (some d) c =
    (d.kind ≡ c.kind) × (d.status ≡ c.status) × (d.reason ≡ c.reason) × (d.message ≡ c.message)

unchanged :
    (d c : StatusCondition)
    → is_changed d c ≡ false
    → (d.kind ≡ c.kind) × (d.status ≡ c.status) × (d.message ≡ c.message)
unfolding is_changed
unchanged d c h = (
  ground (arith, eq_iff d.kind c.kind),
  ground (arith, eq_iff d.status c.status),
  ground (arith, eq_iff d.message c.message),
)

chosen_reason :
    (d c : StatusCondition)
    → d.reason ≡ c.reason
    → (if is_changed d c then c else d).reason ≡ c.reason
chosen_reason d c same = elim (Bool-cases (is_changed d c)) [
  | inl new ↦ rw new refl
  | inr old ↦ rw old same
]

add_condition-others :
    (r : String) (cs : List StatusCondition) (c : StatusCondition)
    → c.reason ≢ r
    → All (λ d. d.reason ≢ r) cs
    → All (λ d. d.reason ≢ r) (add_condition cs c)
unfolding add_condition
add_condition-others r [] c other h = (other, tt)
add_condition-others r (d ∷ cs) c other (hd, h) = elim (Bool-cases (d.reason == c.reason)) [
  | inl same ↦
      rw same ((λ e. other (cc (e, chosen_reason d c ((eq_iff d.reason c.reason).0 same)))), h)
  | inr fresh ↦ rw fresh (hd, add_condition-others r cs c other h)
]

-- A list of conditions with different reasons keeps different reasons.
pub add_condition-IsDistinct :
    (cs : List StatusCondition) (c : StatusCondition)
    → IsDistinct cs
    → IsDistinct (add_condition cs c)
unfolding add_condition
add_condition-IsDistinct [] c h = (tt, tt)
add_condition-IsDistinct (d ∷ cs) c (hd, h) = elim (Bool-cases (d.reason == c.reason)) [
  | inl same ↦ rw same (
    (let reasons = (eq_iff d.reason c.reason).0 same in
        subst (λ r. All (λ e. e.reason ≢ r) cs) (reasons ∙ sym (chosen_reason d c reasons)) hd),
    h,
  )
  | inr fresh ↦ rw fresh (
    add_condition-others d.reason cs c (λ e. cc (fresh, (eq_iff d.reason c.reason).1 (cc e))) hd,
    add_condition-IsDistinct cs c h,
  )
]

chosen-SaysSame :
    (d c : StatusCondition)
    → d.reason ≡ c.reason
    → SaysSame (some (if is_changed d c then c else d)) c
chosen-SaysSame d c same = elim (Bool-cases (is_changed d c)) [
  | inl new ↦ rw new (refl, refl, refl, refl)
  | inr old ↦
      let (kind, status, message) = unchanged d c old in rw old (kind, status, same, message)
]

find-added :
    (cs : List StatusCondition) (c : StatusCondition)
    → SaysSame (find_condition c.reason (add_condition cs c)) c
unfolding add_condition
find-added [] c = rw ((eq_iff c.reason c.reason).1 refl) (refl, refl, refl, refl)
find-added (d ∷ cs) c = elim (Bool-cases (d.reason == c.reason)) [
  | inl same ↦
      let reasons = (eq_iff d.reason c.reason).0 same in
      rw same (rw ((eq_iff _ _).1 (chosen_reason d c reasons)) (chosen-SaysSame d c reasons))
  | inr fresh ↦ rw fresh (rw fresh (find-added cs c))
]

find-other :
    (r : String) (cs : List StatusCondition) (c : StatusCondition)
    → r ≢ c.reason
    → find_condition r (add_condition cs c) ≡ find_condition r cs
unfolding add_condition
find-other r [] c other = rw (==-false c.reason r (λ e. other (sym e))) refl
find-other r (d ∷ cs) c other = elim (Bool-cases (d.reason == c.reason)) [
  | inl same ↦
      let reasons = (eq_iff d.reason c.reason).0 same in
      rw same (
        rw (==-false _ r (λ e. other (sym e ∙ chosen_reason d c reasons)))
          (rw (==-false d.reason r (λ e. other (sym e ∙ reasons))) refl))
  | inr fresh ↦ rw fresh (ground (arith, find-other r cs c other))
]

-- Behind an update the condition of the new one's reason says what the new one says, and for any
-- other reason the list has what it had before.
pub add_condition-find :
    (r : String) (cs : List StatusCondition) (c : StatusCondition)
    → SaysSame (find_condition c.reason (add_condition cs c)) c
      × (r ≢ c.reason → find_condition r (add_condition cs c) ≡ find_condition r cs)
add_condition-find r cs c = (find-added cs c, find-other r cs c)
