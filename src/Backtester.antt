-- ===== src/Backtester.antt =====
-- backtest/signal_backtester.py, with PremiumBar of data/option_history.py: the signals of past days
-- and what became of them. Prices are whole numbers of any fine unit and a return is an exact
-- quotient. The history, the chain and the strategies are given; the adjustment of the history is
-- the `adjust_history` of CorporateActions. The text reports are left out.
pub mod Days
pub mod Prefix
mod Tests
use garnet_trader.Prelude.{
  ℕ, zero, suc, ◌+◌, ◌-◌, ◌*◌, ◌%◌, Bool, true, false, not, ◌&&◌, ◌||◌, Option, none, some, List,
  [], ◌∷◌, ◌++◌, map, length, ltb, leb, ◌==◌, if◌then◌else◌,
}
use garnet_trader.Prelude.Dict.{Dict, lookup, insert}
use garnet_trader.Prelude.Int.{ℤ, pos, ◌-ℤ◌, ◌*ℤ◌, ltb_ℤ}
use garnet_trader.Prelude.Ratio.{Ratio, ratio, ratio_ℕ}
use garnet_trader.Prelude.Sort.{sort}
use garnet_trader.Prelude.Text.{Text}
use garnet_trader.Payoff.{OptionType, call, put, is_buy}
use garnet_trader.Signals.{Signal}

pub record SignalOutcome : Type 0 where
  pub signal : Signal
  pub entry_price : ℕ
  pub exit_price : ℕ
  pub horizon_days : ℕ
  pub entry_premium : Option ℕ
  pub exit_premium : Option ℕ

abbrev pub negated : Ratio → Ratio
negated r = ratio (pos 0 -ℤ r.num) r.den

-- (to - from) / from, in percent.
abbrev pub growth : ℕ → ℕ → Ratio
growth from to = ratio ((pos to -ℤ pos from) *ℤ pos 100) from

unfoldable pub underlying_return_pct : SignalOutcome → Ratio
underlying_return_pct o =
    if leb o.entry_price 0 then ratio_ℕ 0 1 else growth o.entry_price o.exit_price

abbrev pub is_call : OptionType → Bool
is_call call = true
is_call put = false

-- A call bought or a put sold.
unfoldable pub is_bullish : SignalOutcome → Bool
is_bullish o =
    if is_call o.signal.option_type then is_buy o.signal.side else not (is_buy o.signal.side)

unfoldable pub directional_return_pct : SignalOutcome → Ratio
unfolding underlying_return_pct is_bullish
directional_return_pct o =
    if is_bullish o then underlying_return_pct o else negated (underlying_return_pct o)

-- Both premiums, where they are known and not 0.
unfoldable pub real_premium : Option ℕ → Option ℕ → Option (ℕ × ℕ)
real_premium (some (suc entry)) (some (suc exit)) = some (suc entry, suc exit)
real_premium entry exit = none

abbrev pub has_real_premium : SignalOutcome → Bool
has_real_premium o = elim (real_premium o.entry_premium o.exit_premium) [
  | none ↦ false
  | some premiums ↦ true
]

-- A seller gains when the premium falls.
unfoldable pub premium_return_pct : SignalOutcome → Option Ratio
unfolding real_premium
premium_return_pct o = elim (real_premium o.entry_premium o.exit_premium) [
  | none ↦ none
  | some (entry, exit) ↦
      let raw = growth entry exit in some (if is_buy o.signal.side then raw else negated raw)
]

unfoldable pub effective_return_pct : SignalOutcome → Ratio
unfolding premium_return_pct directional_return_pct
effective_return_pct o = elim (premium_return_pct o) [
  | none ↦ directional_return_pct o
  | some r ↦ r
]

unfoldable pub is_win : SignalOutcome → Bool
unfolding effective_return_pct
is_win o = ltb_ℤ (pos 0) (effective_return_pct o).num

unfoldable pub count : (SignalOutcome → Bool) → List SignalOutcome → ℕ
count test [] = 0
count test (o ∷ os) = (if test o then 1 else 0) + count test os

pub wins : List SignalOutcome → ℕ
unfolding count is_win
wins os = count is_win os

pub win_rate_pct : List SignalOutcome → Ratio
unfolding count is_win
win_rate_pct os =
    if length os == 0 then ratio_ℕ 0 1 else ratio_ℕ (count is_win os * 100) (length os)

-- By the time of the signal, those of one time as they stand.
pub returns : List SignalOutcome → List Ratio
unfolding sort effective_return_pct
returns os = map effective_return_pct (sort (λ a b. leb a.signal.created_at b.signal.created_at) os)

pub premium_coverage_pct : List SignalOutcome → Option Ratio
unfolding count real_premium
premium_coverage_pct os =
    if length os == 0 then none else some (ratio_ℕ (count has_real_premium os * 100) (length os))

unfoldable pub add_outcome : SignalOutcome → Dict (List SignalOutcome) → Dict (List SignalOutcome)
add_outcome o grouped = elim (lookup o.signal.strategy_name grouped) [
  | none ↦ insert o.signal.strategy_name (o ∷ []) grouped
  | some os ↦ insert o.signal.strategy_name (os ++ o ∷ []) grouped
]

unfoldable pub group_outcomes :
    List SignalOutcome → Dict (List SignalOutcome) → Dict (List SignalOutcome)
unfolding add_outcome
group_outcomes [] grouped = grouped
group_outcomes (o ∷ os) grouped = group_outcomes os (add_outcome o grouped)

pub by_strategy : List SignalOutcome → Dict (List SignalOutcome)
unfolding group_outcomes
by_strategy os = group_outcomes os []
