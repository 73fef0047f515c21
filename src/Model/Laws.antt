-- ===== src/Model/Laws.antt =====
-- Conversions of model/mod.rs to and from attribute values, and what the `which-jobs` filters mean.
use ippper_rs.Prelude.{ℤ, ◌≡◌, ◌⊎◌, inl, inr, refl, ◌↔◌, not, ◌||◌, true, arith}
use ippper_rs.Ipp.Enums.{JobState}
use ippper_rs.Ipp.Value.{IppValue, enum, resolution}
use ippper_rs.Model.{
  PageOrientation, Converted, enum_error, orientation_of_code, converted, rejected,
  orientation_of_value, orientation_value, Resolution, resolution_of_value, resolution_value,
  WhichJob, match_state,
}

enum_error_cases :
    (v : ℤ) (c : Converted PageOrientation ℤ)
    → (enum_error v c ≡ rejected (enum v))
      ⊎ ((o : PageOrientation) × (enum_error v c ≡ converted o))
enum_error_cases v (converted o) = inr (o, refl)
enum_error_cases v (rejected _) = inl refl

orientation_cases :
    (v : IppValue)
    → (orientation_of_value v ≡ rejected v)
      ⊎ ((o : PageOrientation) × (orientation_of_value v ≡ converted o))
unfolding orientation_of_value
orientation_cases (enum v) = enum_error_cases v (orientation_of_code v)
orientation_cases _ = inl refl

resolution_cases :
    (v : IppValue)
    → (resolution_of_value v ≡ rejected v)
      ⊎ ((r : Resolution) × (resolution_of_value v ≡ converted r))
unfolding resolution_of_value
resolution_cases (resolution x f u) = inr (record { cross_feed = x; feed = f; units = u }, refl)
resolution_cases _ = inl refl

-- An attribute value converts to a page orientation exactly if it is the value that this
-- orientation converts to, and a value that does not convert is given back unchanged.
pub orientation_of_value-orientation_value :
    (v : IppValue) (o : PageOrientation)
    → ((orientation_of_value v ≡ converted o) ↔ (v ≡ orientation_value o))
      × ((orientation_of_value v ≡ rejected v)
          ⊎ ((o' : PageOrientation) × (orientation_of_value v ≡ converted o')))
unfolding orientation_of_value orientation_value
orientation_of_value-orientation_value v o = (ground arith, orientation_cases v)

-- An attribute value converts to a resolution exactly if it is the value that this resolution
-- converts to, and a value that does not convert is given back unchanged.
pub resolution_of_value-resolution_value :
    (v : IppValue) (r : Resolution)
    → ((resolution_of_value v ≡ converted r) ↔ (v ≡ resolution_value r))
      × ((resolution_of_value v ≡ rejected v)
          ⊎ ((r' : Resolution) × (resolution_of_value v ≡ converted r')))
unfolding resolution_of_value resolution_value
resolution_of_value-resolution_value v r = (ground arith, resolution_cases v)

-- The filter `not-completed` passes exactly the states that `completed` does not pass; it passes a
-- state exactly if one of `pending`, `pending-held`, `processing` and `processing-stopped` does, and
-- `completed` passes whatever `canceled` or `aborted` passes; `all` passes every state.
pub match_state_partition :
    (s : JobState)
    → (match_state WhichJob.not_completed s ≡ not (match_state WhichJob.completed s))
      × (match_state WhichJob.not_completed s ≡ (
          match_state WhichJob.pending s
          || match_state WhichJob.pending_held s
          || match_state WhichJob.processing s
          || match_state WhichJob.processing_stopped s))
      × ((match_state WhichJob.canceled s
            || match_state WhichJob.aborted s
            || match_state WhichJob.completed s)
          ≡ match_state WhichJob.completed s)
      × (match_state WhichJob.all s ≡ true)
unfolding match_state
match_state_partition s = ground arith
