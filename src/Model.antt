-- ===== src/Model.antt =====
-- model/mod.rs: page orientations, resolutions and the `which-jobs` filter.
pub mod Laws
use ippper_rs.Prelude.{ℕ, ℤ, pos, eqb_ℤ, Bool, true, false, ◌||◌, Option, none, some, if◌then◌else◌}
use ippper_rs.Ipp.Enums.{JobState, same_state}
use ippper_rs.Ipp.Value.{IppValue, enum, resolution}

pub data PageOrientation : Type 0 where
  portrait landscape reverse_portrait reverse_landscape : PageOrientation

-- `value as i32`.
unfoldable pub orientation_code : PageOrientation → ℤ
orientation_code portrait = pos 3
orientation_code landscape = pos 4
orientation_code reverse_portrait = pos 5
orientation_code reverse_landscape = pos 6

-- A conversion gives back the value that it cannot convert.
pub data Converted (A B : Type 0) : Type 0 where
  converted : A → Converted A B
  rejected : B → Converted A B

abbrev pub converted? : {A B : Type 0} → Converted A B → Option A
converted? (converted a) = some a
converted? (rejected b) = none

-- `PageOrientation::try_from(i32)`.
unfoldable pub orientation_of_code : ℤ → Converted PageOrientation ℤ
orientation_of_code v =
    if eqb_ℤ v (pos 3)
    then converted portrait
    else if eqb_ℤ v (pos 4)
    then converted landscape
    else if eqb_ℤ v (pos 5)
    then converted reverse_portrait
    else if eqb_ℤ v (pos 6)
    then converted reverse_landscape
    else rejected v

-- `map_err(|_| IppValue::Enum(v))`.
abbrev enum_error : ℤ → Converted PageOrientation ℤ → Converted PageOrientation IppValue
enum_error v (converted o) = converted o
enum_error v (rejected _) = rejected (enum v)

-- `PageOrientation::try_from(IppValue)`.
unfoldable pub orientation_of_value : IppValue → Converted PageOrientation IppValue
unfolding orientation_of_code
orientation_of_value (enum v) = enum_error v (orientation_of_code v)
orientation_of_value value = rejected value

-- `IppValue::from(PageOrientation)`.
unfoldable pub orientation_value : PageOrientation → IppValue
unfolding orientation_code
orientation_value o = enum (orientation_code o)

pub record Resolution : Type 0 where
  pub cross_feed : ℤ
  pub feed : ℤ
  pub units : ℤ

unfoldable pub new_dpi : ℤ → ℤ → Resolution
new_dpi cross feed = record { cross_feed = cross; feed = feed; units = pos 3 }

unfoldable pub new_dpcm : ℤ → ℤ → Resolution
new_dpcm cross feed = record { cross_feed = cross; feed = feed; units = pos 4 }

-- `Resolution::try_from(IppValue)`.
unfoldable pub resolution_of_value : IppValue → Converted Resolution IppValue
resolution_of_value (resolution x f u) = converted (record { cross_feed = x; feed = f; units = u })
resolution_of_value value = rejected value

-- `IppValue::from(Resolution)`.
unfoldable pub resolution_value : Resolution → IppValue
resolution_value r = resolution r.cross_feed r.feed r.units

pub data WhichJob : Type 0 where
  not_completed completed aborted all canceled : WhichJob
  pending pending_held processing processing_stopped : WhichJob

unfoldable pub match_state : WhichJob → JobState → Bool
match_state not_completed state =
    same_state state JobState.pending
    || same_state state JobState.pending_held
    || same_state state JobState.processing
    || same_state state JobState.processing_stopped
match_state completed state =
    same_state state JobState.canceled
    || same_state state JobState.aborted
    || same_state state JobState.completed
match_state all state = true
match_state canceled state = same_state state JobState.canceled
match_state pending state = same_state state JobState.pending
match_state pending_held state = same_state state JobState.pending_held
match_state processing state = same_state state JobState.processing
match_state processing_stopped state = same_state state JobState.processing_stopped
match_state aborted state = same_state state JobState.aborted
