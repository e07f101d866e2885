-- ===== src/Adapter/Health/Worst.antt =====
-- The status of the adapter against a plain order of the statuses.
use qubership_opensearch.Prelude.{
  ℕ, suc, ◌⊎◌, inl, inr, ◌≡◌, refl, String, Bool, true, false, ◌==◌, ◌||◌, eq_iff, leb, any, List,
  [], ◌∷◌, if◌then◌else◌, arith, subst, ap,
}
use qubership_opensearch.Http.{Event, World, Error, ok, pure, panic, ◌>>=◌}
use qubership_opensearch.Http.Yields.{OnOk, Yields, Yields-pure, Yields-bind}
use qubership_opensearch.Adapter.Health.{
  first_status, health_statuses, status_of_color, color_of, get_health, determine_health_status,
}

-- The place of a status in the list; it is the length of the list if the status is not there.
abbrev pub place : String → List String → ℕ
place s [] = 0
place s (t ∷ ts) = if t == s then 0 else suc (place s ts)

-- The worse of two statuses: the one that stands first.
abbrev pub worse : String → String → String
worse a b = if leb (place a health_statuses) (place b health_statuses) then a else b

first_status-if :
    (ss : List String) (a b old : String)
    → first_status ss a b old ≡ (
        if any (λ s. s == a || s == b) ss
        then (if leb (place a ss) (place b ss) then a else b)
        else old)
unfolding first_status
first_status-if [] a b old = refl
first_status-if (s ∷ ss) a b old =
    ground (arith, eq_iff s a, eq_iff s b, first_status-if ss a b old)

-- The four statuses that GetHealth knows.
abbrev IsKnown : String → Type 0
IsKnown s = any (λ t. t == s) ("UP" ∷ "DOWN" ∷ "WARNING" ∷ "PROBLEM" ∷ []) ≡ true

IsKnown-if : (b : Bool) (s t : String) → IsKnown s → IsKnown t → IsKnown (if b then s else t)
IsKnown-if true s t hs ht = hs
IsKnown-if false s t hs ht = ht

status_of_color-IsKnown : (color : String) → IsKnown (status_of_color color)
unfolding status_of_color
status_of_color-IsKnown color =
    IsKnown-if (color == "green") _ _ refl
      (IsKnown-if (color == "red") _ _ refl (IsKnown-if (color == "yellow") _ _ refl refl))

color_of-IsKnown : (colors : List String ⊎ Error) → Yields IsKnown (color_of colors)
unfolding color_of panic
color_of-IsKnown (inr e) = Yields-pure _ refl
color_of-IsKnown (inl []) = record { at = λ log. tt }
color_of-IsKnown (inl (color ∷ colors)) = Yields-pure _ (status_of_color-IsKnown color)

module _ (w : World) where
  get_health-IsKnown : Yields IsKnown (get_health w)
  unfolding get_health
  get_health-IsKnown = Yields-bind _ _ color_of-IsKnown

  either-IsKnown :
      (o aggregator : String)
      → IsKnown o
      → any (λ s. s == o || s == aggregator) health_statuses ≡ true
  either-IsKnown o aggregator known = ground arith

  -- The status that the adapter reports is the worse one of the two that it has, whatever it has
  -- reported before: that of OpenSearch, as it is read now, and that of the registration.
  pub determine_health_status-eq-worse :
      (aggregator old o : String) (log log' : List Event)
      → get_health w log ≡ (ok o, log')
      → determine_health_status w aggregator old log ≡ (ok (worse o aggregator), log')
  unfolding determine_health_status pure ◌>>=◌
  determine_health_status-eq-worse aggregator old o log log' read =
      let known : IsKnown o =
        subst (OnOk IsKnown) (ap (λ r. r.0) read) (get_health-IsKnown.at log) in
      rw (read, first_status-if health_statuses o aggregator old, either-IsKnown o aggregator known)
        refl
