-- ===== src/Temporal/Scan.antt =====
-- What the patterns of src/humanflow/runtime/temporal.py find in an utterance, and the texts of dates.
use humanflow.Shared.Result.{ok, Result}
use humanflow.Temporal.Calendar.{Date}
use Prim.Native.Nat.{ℕ}
use humanflow.Shared.{
  String, Bool, false, ◌&&◌, Option, none, some, List, [], ◌∷◌, ◌==◌, nat_instance, string_instance,
  int_instance,
}

-- A match of a calendar date: its start, its text, and its groups as numbers.
pub record DateMatch : Type 0 where
  pub start : ℕ
  pub text : String
  pub month : ℕ
  pub day : ℕ
  pub year : Option ℕ

-- A match of "morgen" or "übermorgen".
pub record DayMatch : Type 0 where
  pub start : ℕ
  pub text : String
  pub day_after : Bool

-- A match of "N Tage später".
pub record OffsetMatch : Type 0 where
  pub text : String
  pub raw_count : String
  pub count : ℕ

-- A match of "in N Wochen" within the window of a weekday.
pub record WeeksMatch : Type 0 where
  pub start : ℕ
  pub raw_count : String
  pub count : ℕ

-- A match of a weekday: what stands in the window around it, whose texts start at its own start.
pub record WeekdayMatch : Type 0 where
  pub start : ℕ
  pub target : ℕ
  pub position : ℕ
  pub expression : String
  pub week_after_next : Bool
  pub next_week : Bool
  pub weeks : List WeeksMatch
  pub this_week : Bool
  pub after_next : Bool

-- An utterance: its text and the matches of every pattern, in the order of the text.
pub record Utterance : Type 0 where
  pub text : String
  pub numeric_dates : List DateMatch
  pub named_dates : List DateMatch
  pub ambiguous : Option (ℕ × String)
  pub offset : Option OffsetMatch
  pub relative_days : List DayMatch
  pub weekdays : List WeekdayMatch

-- A text that should be a date: the standard form of one, or another text with what
-- `date.fromisoformat` gives for it.
pub data IsoText : Type 0 where
  iso : Date → IsoText
  other_text : Result Date → IsoText

abbrev pub from_iso : IsoText → Result Date
from_iso (iso d) = ok d
from_iso (other_text o) = o

abbrev pub is_iso_of : IsoText → Date → Bool
is_iso_of (iso d) e = d.year == e.year && d.month == e.month && d.day == e.day
is_iso_of (other_text o) e = false

-- The date of a resolution stands for its text in the standard form.
pub record TemporalResolution : Type 0 where
  pub raw_expression : String
  pub resolved : Date
  pub timezone : String
  pub resolution_rule : String
  pub confidence : ℕ

-- The last element of a list.
abbrev pub last {ℓ} : {A : Type ℓ} → List A → Option A
last [] = none
last (x ∷ xs) = let rest = last xs in elim rest [ none ↦ some x | some y ↦ some y ]
