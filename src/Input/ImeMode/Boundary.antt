-- ===== src/Input/ImeMode/Boundary.antt =====
-- A change of the mode counts for exactly the events behind its boundary.
use sardp.Base.{
  ℕ, ◌≤◌, ◌<◌, ◌≡◌, refl, none, List, [], ◌∷◌, ltb, if◌then◌else◌, arith, Bool-cases, inl, inr,
}
use sardp.Session.Messages.{ImeMode, ImeModeChange}
use sardp.Input.ImeMode.{ImeModeSm, on_mode_change, mode_for}

-- The modes that events are processed under, in the order of their arrival.
abbrev pub modes : ImeModeSm → List ℕ → List ImeMode
modes s [] = []
modes s (id ∷ ids) = (mode_for s id).1 ∷ modes (mode_for s id).0 ids

abbrev pub modes_by_boundary : ImeMode → ImeModeChange → List ℕ → List ImeMode
modes_by_boundary old change [] = []
modes_by_boundary old change (id ∷ ids) =
    (if ltb change.effective_after_event_id id then change.mode else old)
    ∷ modes_by_boundary old change ids

abbrev pub AllFrom : ℕ → List ℕ → Type 0
AllFrom low [] = Unit {0}
AllFrom low (id ∷ ids) = (low ≤ id) × AllFrom low ids

-- The ids of the events on the stream do not go down.
abbrev IsOrdered : List ℕ → Type 0
IsOrdered [] = Unit {0}
IsOrdered (id ∷ ids) = AllFrom id ids × IsOrdered ids

settled :
    (s : ImeModeSm) (old : ImeMode) (change : ImeModeChange) (low : ℕ) (ids : List ℕ)
    → s.pending ≡ none
    → s.current ≡ change.mode
    → change.effective_after_event_id < low
    → AllFrom low ids
    → modes s ids ≡ modes_by_boundary old change ids
unfolding mode_for
settled s old change low [] h e l a = refl
settled s old change low (id ∷ ids) h e l a = ground (arith, settled s old change low ids h e l a.1)

pending_modes :
    (s : ImeModeSm) (change : ImeModeChange) (ids : List ℕ)
    → IsOrdered ids
    → modes (on_mode_change s change) ids ≡ modes_by_boundary s.current change ids
unfolding mode_for on_mode_change
pending_modes s change [] o = refl
pending_modes s change (id ∷ ids) o = elim (Bool-cases (ltb change.effective_after_event_id id)) [
  | inl e ↦ ground (
    arith,
    e,
    settled (record { current = change.mode; pending = none }) s.current change id ids refl refl
        (ground arith) o.0,
  )
  | inr e ↦ ground (arith, e, pending_modes s change ids o.1)
]

-- After a change was announced, events whose ids do not go down are processed under the mode that
-- was in force up to the boundary, and under the new one behind it.
pub on_mode_change-modes :
    (s : ImeModeSm) (change : ImeModeChange) (ids : List ℕ)
    → IsOrdered ids
    → modes (on_mode_change s change) ids ≡ modes_by_boundary s.current change ids
on_mode_change-modes s change ids o = pending_modes s change ids o
