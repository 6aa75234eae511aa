-- ===== src/Signals.antt =====
-- signals/signal_model.py: a signal with what the risk and the generator read of it. The texts for
-- people, the identifier, the status and the price of the underlying are left out. A price is a
-- number of any fine unit, a time in seconds, the confidence in any unit.
pub mod Generator
pub mod Groups
pub mod Spacing
pub mod Grouped
pub mod Batch
pub mod Window
pub mod Passes
mod Tests
use garnet_trader.Prelude.{
  ℕ, zero, suc, ◌+◌, ◌-◌, ◌*◌, ◌/◌, Bool, Option, none, some, ltb, if◌then◌else◌,
}
use garnet_trader.Prelude.Int.{ℤ}
use garnet_trader.Prelude.Text.{Text}
use garnet_trader.Payoff.{Side, OptionType}

-- The keys of `metadata` that the code reads or writes.
pub record Metadata : Type 0 where
  pub leg_group_id : Option Text
  pub ins_code : Option Text
  pub leg_count : Option ℕ
  pub leg_ratio : Option ℕ
  pub contract_size : Option ℕ
  pub max_loss : Option ℕ
  pub round_trip_fees : Option ℕ

pub record Signal : Type 0 where
  pub symbol : Text
  pub option_type : OptionType
  pub side : Side
  pub strike : ℕ
  pub expiry : ℕ
  pub suggested_price : ℕ
  pub suggested_qty : ℕ
  pub strategy_name : Text
  pub created_at : ℕ
  pub valid_until : Option ℕ
  pub stop_loss : Option ℤ
  pub take_profit : Option ℤ
  pub confidence : Option ℕ
  pub contract_size : Option ℕ
  pub metadata : Metadata

abbrev seconds_per_day : ℕ
seconds_per_day = 86400

abbrev default_contract_size : ℕ
default_contract_size = 1000

-- `__post_init__`: the validity and the size that are not given.
unfoldable pub post_init : Signal → Signal
post_init s = record s {
  valid_until = elim s.valid_until [ none ↦ some (s.created_at + 30 * 60) | some t ↦ some t ];
  contract_size = elim s.contract_size [ none ↦ s.metadata.contract_size | some size ↦ some size ];
}

pub days_to_expiry : Signal → ℕ
days_to_expiry s = s.expiry - s.created_at / seconds_per_day

unfoldable pub units_per_contract : Signal → ℕ
units_per_contract s = elim s.contract_size [
  | none ↦ default_contract_size
  | some zero ↦ default_contract_size
  | some (suc size) ↦ suc size
]

pub notional : Signal → ℕ
unfolding units_per_contract
notional s = s.suggested_price * s.suggested_qty * units_per_contract s

pub is_expired : Signal → ℕ → Bool
is_expired s now = elim s.valid_until [ none ↦ Bool.false | some t ↦ ltb t now ]

-- `replace` makes a new signal, and so completes it again.
unfoldable pub with_risk : Signal → ℕ → Option ℤ → Option ℤ → Signal
unfolding post_init
with_risk s qty stop_loss take_profit =
    post_init (record s { suggested_qty = qty; stop_loss = stop_loss; take_profit = take_profit })
