-- ===== src/Signals/Generator.antt =====
-- signals/signal_generator.py: from the raw signals of the strategies to those that are published.
use garnet_trader.Prelude.{
  ℕ, ◌+◌, ◌*◌, ◌/◌, max, Bool, false, not, Option, none, some, List, [], ◌∷◌, ◌++◌, map, length,
  ltb, ◌==◌, if◌then◌else◌,
}
use garnet_trader.Prelude.Dict.{Dict, lookup, insert}
use garnet_trader.Prelude.Sort.{sort}
use garnet_trader.Prelude.Text.{Text, codes}
use garnet_trader.PaperStore.{text_leb}
use garnet_trader.Payoff.{Side, buy, sell, smallest}
use garnet_trader.Signals.{Signal}
use garnet_trader.Risk.{RiskLimits, FeeRules, apply}

-- Times in seconds. `show_strike` is Python's text of a strike.
pub record GeneratorConfig : Type 0 where
  pub symbols : List Text
  pub dedupe_window : ℕ
  pub min_confidence : Option ℕ
  pub signal_validity : ℕ
  pub fees : FeeRules
  pub limits : RiskLimits
  pub show_strike : ℕ → Text

pub record Generator : Type 0 where
  pub last_emitted : Dict ℕ
  pub holdings : Option (Dict ℕ)
  pub failed_symbols : List Text
  pub strategy_errors : Dict ℕ

abbrev pub or_zero : Option ℕ → ℕ
or_zero none = 0
or_zero (some n) = n

abbrev pub or_one : Option ℕ → ℕ
or_one none = 1
or_one (some n) = n

abbrev pub side_value : Side → Text
side_value buy = codes "buy"
side_value sell = codes "sell"

-- `separator.join(parts)`
unfoldable pub join : Text → List Text → Text
join separator [] = []
join separator (part ∷ []) = part
join separator (part ∷ next ∷ parts) = part ++ separator ++ join separator (next ∷ parts)

unfoldable pub dedupe_key : GeneratorConfig → Signal → Text
unfolding join
dedupe_key c s =
    join (codes "|") (s.strategy_name ∷ s.symbol ∷ side_value s.side ∷ c.show_strike s.strike ∷ [])

unfoldable pub leg_part : GeneratorConfig → Signal → Text
unfolding join
leg_part c s = join (codes ":") (s.symbol ∷ side_value s.side ∷ c.show_strike s.strike ∷ [])

unfoldable pub group_dedupe_key : GeneratorConfig → Signal → List Signal → Text
unfolding join leg_part sort text_leb
group_dedupe_key c leg legs =
    join (codes "|")
      (leg.strategy_name ∷ codes "GROUP" ∷ sort text_leb (map (leg_part c) (leg ∷ legs)))

unfoldable pub is_duplicate_key : GeneratorConfig → Text → ℕ → Generator → Bool
is_duplicate_key c key now g = elim (lookup key g.last_emitted) [
  | none ↦ false
  | some previous ↦ ltb now (previous + c.dedupe_window)
]

unfoldable pub emit : Text → ℕ → Generator → Generator
emit key now g = record g { last_emitted = insert key now g.last_emitted }

unfoldable pub is_unsure : GeneratorConfig → Signal → Bool
is_unsure c s = elim c.min_confidence [
  | none ↦ false
  | some least ↦ ltb (or_zero s.confidence) least
]

abbrev pub size_of : Signal → ℕ
size_of s = elim s.metadata.contract_size [ none ↦ 1000 | some size ↦ size ]

abbrev pub valid_for : ℕ → Signal → Signal
valid_for validity s = record s { valid_until = some (s.created_at + validity) }

-- `_post_process` up to the test for duplicates: it touches no state.
unfoldable pub checked : GeneratorConfig → Signal → Option Signal
unfolding is_unsure
checked c s = if is_unsure c s then none else elim (apply c.fees c.limits s (size_of s)) [
  | none ↦ none
  | some sized ↦ some (valid_for c.signal_validity sized)
]

unfoldable pub publish : GeneratorConfig → Signal → Generator → Option Signal × Generator
unfolding dedupe_key is_duplicate_key emit
publish c s g =
    let key = dedupe_key c s in
    if is_duplicate_key c key s.created_at g then (none, g) else (some s, emit key s.created_at g)

-- `_post_process` of a single signal.
unfoldable pub post_process : GeneratorConfig → Signal → Generator → Option Signal × Generator
unfolding checked publish
post_process c s g = elim (checked c s) [ none ↦ (none, g) | some sized ↦ publish c sized g ]

-- Every leg, or nothing.
unfoldable pub size_legs : GeneratorConfig → List Signal → Option (List Signal)
unfolding checked
size_legs c [] = some []
size_legs c (leg ∷ legs) =
    let rest = size_legs c legs in
    elim (checked c leg) [
      | none ↦ none
      | some sized ↦ elim rest [ none ↦ none | some others ↦ some (sized ∷ others) ]
    ]

abbrev pub leg_ratio : Signal → ℕ
leg_ratio s = or_one s.metadata.leg_ratio

unfoldable pub base_qty : List Signal → ℕ
unfolding smallest
base_qty legs = smallest (map (λ s. s.suggested_qty / max (leg_ratio s) 1) legs)

abbrev pub resized : ℕ → Signal → Signal
resized base s = record s { suggested_qty = base * leg_ratio s }

unfoldable pub release : GeneratorConfig → List Signal → Generator → List Signal × Generator
unfolding group_dedupe_key is_duplicate_key emit
release c [] g = ([], g)
release c (leg ∷ legs) g =
    let base = base_qty (leg ∷ legs) in
    let key = group_dedupe_key c leg legs in
    if base == 0
    then ([], g)
    else (if is_duplicate_key c key leg.created_at g
        then ([], g)
        else (map (resized base) (leg ∷ legs), emit key leg.created_at g))

abbrev pub expected_legs : Signal → List Signal → ℕ
expected_legs leg legs = elim leg.metadata.leg_count [ none ↦ length (leg ∷ legs) | some n ↦ n ]

unfoldable pub process_leg_group :
    GeneratorConfig → List Signal → Generator → List Signal × Generator
unfolding size_legs release
process_leg_group c [] g = ([], g)
process_leg_group c (leg ∷ legs) g =
    if not (length (leg ∷ legs) == expected_legs leg legs)
    then ([], g)
    else elim (size_legs c (leg ∷ legs)) [ none ↦ ([], g) | some sized ↦ release c sized g ]

-- An empty identifier is as good as none.
abbrev pub group_of : Signal → Option Text
group_of s = elim s.metadata.leg_group_id [
  | none ↦ none
  | some [] ↦ none
  | some (x ∷ xs) ↦ some (x ∷ xs)
]

unfoldable pub add_to_group : Text → Signal → Dict (List Signal) → Dict (List Signal)
add_to_group id s groups = elim (lookup id groups) [
  | none ↦ insert id (s ∷ []) groups
  | some legs ↦ insert id (legs ++ s ∷ []) groups
]

-- The signals on their own and the groups, from those found so far.
unfoldable pub split :
    List Signal → List Signal → Dict (List Signal) → List Signal × Dict (List Signal)
unfolding add_to_group
split [] singles groups = (singles, groups)
split (s ∷ ss) singles groups = elim (group_of s) [
  | none ↦ split ss (singles ++ s ∷ []) groups
  | some id ↦ split ss singles (add_to_group id s groups)
]

unfoldable pub process_singles : GeneratorConfig → List Signal → Generator → List Signal × Generator
unfolding post_process
process_singles c [] g = ([], g)
process_singles c (s ∷ ss) g =
    let (final, g') = post_process c s g in
    let (rest, g'') = process_singles c ss g' in
    (elim final [ none ↦ rest | some signal ↦ signal ∷ rest ], g'')

unfoldable pub process_groups :
    GeneratorConfig → Dict (List Signal) → Generator → List Signal × Generator
unfolding process_leg_group
process_groups c [] g = ([], g)
process_groups c ((id, legs) ∷ groups) g =
    let (accepted, g') = process_leg_group c legs g in
    let (rest, g'') = process_groups c groups g' in (accepted ++ rest, g'')

unfoldable pub process_batch : GeneratorConfig → List Signal → Generator → List Signal × Generator
unfolding split process_singles process_groups
process_batch c raw g =
    let (singles, groups) = split raw [] [] in
    let (first, g') = process_singles c singles g in
    let (second, g'') = process_groups c groups g' in (first ++ second, g'')

pub reset_dedupe_cache : Generator → Generator
reset_dedupe_cache g = record g { last_emitted = [] }
