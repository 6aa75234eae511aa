-- ===== src/Acknowledgement.antt =====
-- storage/acknowledgement.py: what the user did with each signal. The table has the signal for its
-- key; the table of signals, which another class fills, is given to `stats`. Times are seconds, and a
-- rate is the exact quotient that the code rounds. Labels are for people and are left out.
pub mod Callback
pub mod Statistics
mod Tests
use garnet_trader.Prelude.{
  ℕ, suc, ◌+◌, ◌-◌, ◌*◌, ◌≤◌, Bool, true, false, not, ◌&&◌, ◌||◌, Option, none, some, List, [], ◌∷◌,
  ◌++◌, ltb, leb, ◌==◌, length, if◌then◌else◌,
}
use garnet_trader.Prelude.Dict.{Dict, lookup, insert}
use garnet_trader.Prelude.Ratio.{Ratio, ratio_ℕ}
use garnet_trader.Prelude.Result.{Result, ok, raised}
use garnet_trader.Prelude.Text.{Text, codes, text_eq}

unfoldable pub is_valid_action : Text → Bool
is_valid_action action =
    text_eq action (codes "seen")
    || text_eq action (codes "taken")
    || text_eq action (codes "skipped")

pub record Acknowledgement : Type 0 where
  pub signal_id : Text
  pub acknowledged_at : ℕ
  pub action : Text
  pub source : Text
  pub note : Option Text

pub is_executed : Acknowledgement → Bool
is_executed a = text_eq a.action (codes "taken")

abbrev pub AckStore : Type 0
AckStore = Dict Acknowledgement

-- `record`
unfoldable pub record_ack :
    Text → Text → Text → Option Text → ℕ → AckStore → Result Acknowledgement × AckStore
record_ack signal_id action source note moment store =
    if not (is_valid_action action)
    then (raised, store)
    else let ack : Acknowledgement = record {
      signal_id = signal_id;
      acknowledged_at = moment;
      action = action;
      source = source;
      note = note;
    } in
      (ok ack, insert signal_id ack store)

-- `get`
unfoldable pub get_ack : Text → AckStore → Option Acknowledgement
get_ack signal_id store = lookup signal_id store

pub record Stats : Type 0 where
  pub total_signals : ℕ
  pub acknowledged : ℕ
  pub unacknowledged : ℕ
  pub seen : ℕ
  pub taken : ℕ
  pub skipped : ℕ
  pub delivery_rate_pct : Option Ratio
  pub execution_rate_pct : Option Ratio

-- The signals, with their times of creation, that the database finds in the period: its comparison of
-- a time with the start of the period is a parameter.
unfoldable pub since : Option (ℕ → Bool) → Dict ℕ → Dict ℕ
since none signals = signals
since (some in_period) [] = []
since (some in_period) ((id, at) ∷ signals) =
    let rest = since (some in_period) signals in if in_period at then (id, at) ∷ rest else rest

-- The rows of the join with a test on the action.
unfoldable pub count_joined : (Text → Bool) → AckStore → Dict ℕ → ℕ
count_joined test [] signals = 0
count_joined test ((id, a) ∷ acks) signals =
    let rest = count_joined test acks signals in
    elim (lookup id signals) [ none ↦ rest | some at ↦ if test a.action then rest + 1 else rest ]

abbrev pub rate : ℕ → ℕ → Option Ratio
rate part whole = if whole == 0 then none else some (ratio_ℕ (part * 100) whole)

-- `none` for the signals stands for a table that does not exist.
unfoldable pub stats : Option (ℕ → Bool) → Option (Dict ℕ) → AckStore → Stats
stats period none acks = record {
  total_signals = 0;
  acknowledged = 0;
  unacknowledged = 0;
  seen = 0;
  taken = 0;
  skipped = 0;
  delivery_rate_pct = none;
  execution_rate_pct = none;
}
stats period (some signals) acks =
    let chosen = since period signals in
    let total = length chosen in
    let acknowledged = count_joined (λ action. true) acks chosen in
    let taken = count_joined (text_eq (codes "taken")) acks chosen in
    record {
      total_signals = total;
      acknowledged = acknowledged;
      unacknowledged = total - acknowledged;
      seen = count_joined (text_eq (codes "seen")) acks chosen;
      taken = taken;
      skipped = count_joined (text_eq (codes "skipped")) acks chosen;
      delivery_rate_pct = rate acknowledged total;
      execution_rate_pct = rate taken acknowledged;
    }

-- `str.isspace` on one code point.
unfoldable pub is_space : ℕ → Bool
is_space c =
    (leb 9 c && leb c 13)
    || (leb 28 c && leb c 32)
    || (c == 133)
    || (c == 160)
    || (c == 5760)
    || (leb 8192 c && leb c 8202)
    || (c == 8232)
    || (c == 8233)
    || (c == 8239)
    || (c == 8287)
    || (c == 12288)

unfoldable pub strip_left : Text → Text
strip_left [] = []
strip_left (c ∷ s) = let rest = strip_left s in if is_space c then rest else c ∷ s

-- A character is kept if it or one after it is no space.
unfoldable pub strip_right : Text → Text
strip_right [] = []
strip_right (c ∷ s) = elim (strip_right s) [
  | [] ↦ if is_space c then [] else c ∷ []
  | d ∷ t ↦ c ∷ d ∷ t
]

abbrev pub strip : Text → Text
strip s = strip_left (strip_right s)

-- The parts around the first colon.
unfoldable pub split_colon : Text → Option (Text × Text)
split_colon [] = none
split_colon (c ∷ s) =
    let rest = split_colon s in
    if c == 58
    then some ([], s)
    else elim rest [ none ↦ none | some parts ↦ some (c ∷ parts.0, parts.1) ]

unfoldable pub callback_data : Text → Text → Text
callback_data action signal_id = codes "ack:" ++ action ++ codes ":" ++ signal_id

-- The rows of `build_keyboard`, by the data of their buttons.
pub build_keyboard : Text → List (List Text)
build_keyboard signal_id =
    (callback_data (codes "taken") signal_id ∷ callback_data (codes "skipped") signal_id ∷ [])
    ∷ (callback_data (codes "seen") signal_id ∷ [])
    ∷ []

-- The end of `parse_callback`, on the three parts.
unfoldable pub accept : Text → Text → Text → Option (Text × Text)
accept prefix action raw =
    if not (text_eq prefix (codes "ack"))
    then none
    else let signal_id = strip raw in
      if not (is_valid_action action) || text_eq signal_id []
      then none
      else some (action, signal_id)

unfoldable pub parse_callback : Text → Option (Text × Text)
parse_callback data' = elim (split_colon data') [
  | none ↦ none
  | some first ↦ elim (split_colon first.1) [
    | none ↦ none
    | some second ↦ accept first.0 second.0 second.1
  ]
]
