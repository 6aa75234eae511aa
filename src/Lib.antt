-- ===== src/Lib.antt =====
-- Verification of the option trading assistant: its order book, its trading calendar, its paper
-- account, its health checks, its periodic reports, the metrics of its trades and the
-- acknowledgement of signals.
--
-- The program watches the options of the Tehran exchange. It reads order books over the network,
-- keeps a calendar of trading days, and runs a paper account whose orders are filled against the
-- real books. Paths are from option_signal_bot/.
--
-- Parts and files
--   data/order_book.py
--     OrderBook.antt             BookLevel, OrderBook and their methods: fill_price, depth, slippage,
--                                can_fill, spread
--     OrderBook/Build.antt       from_depth, from_tsetmc, and parse_best_limits of
--                                data/tsetmc_quote_client.py
--     OrderBook/Client.antt      OrderBookClient, with try_get_order_book of data/quote_source.py
--     OrderBook/Filling.antt, OrderBook/Best.antt    the laws of a fill
--   market/trading_calendar.py
--     Jalali.antt                jalali_to_gregorian, gregorian_to_jalali, is_jalali_leap
--     Jalali/Years.antt, Jalali/RoundTrip.antt       the laws of the conversions
--     Calendar.antt              MarketSession and TradingCalendar
--     Calendar/Learning.antt, Calendar/Queries.antt, Calendar/Ranges.antt, Calendar/Questions.antt
--                                their laws
--   risk/fees.py
--     Fees.antt                  FeeSchedule: the costs of a trade and the premiums with them
--   storage/paper_trading_store.py
--     PaperStore.antt            PaperTradingStore: four tables, one function for each statement
--     PaperStore/Rows.antt       what a statement does to the rows
--   execution/paper_broker.py
--     PaperBroker.antt           PaperBroker: place_order, settle_expired_positions, reset and the
--                                methods that they call
--     PaperBroker/Orders.antt    what the checks of place_order let through
--     PaperBroker/Positions.antt, PaperBroker/Placing.antt    what an order does to the tables
--     PaperBroker/Settling.antt  the settlement of expired positions
--     PaperBroker/Keys.antt      one position for each symbol
--     PaperBroker/Ledger.antt    the account over any sequence of calls
--     PaperBroker/Views.antt     get_positions and unrealized_pnl
--   monitoring/health.py
--     Health.antt                the checks, AlertThrottle and HealthMonitor, and the loop of
--                                _check_health in main.py
--     Health/Throttle.antt       which alerts the throttle lets through
--     Health/Counters.antt       what the monitor counts
--   monitoring/periodic_report.py
--     PeriodicReport.antt        ReportSchedule, and _maybe_send_periodic_report of main.py
--     PeriodicReport/Due.antt    when reports are sent
--   backtest/metrics.py
--     Metrics.antt               the metrics that need no roots
--     Metrics/Streak.antt, Metrics/Drawdown.antt    two of them, described on their own
--   strategies/payoff.py and data/option_chain_client.py
--     Payoff.antt                PositionLeg and StrategyPayoff: the cost, the profit at a price and its
--                                extremes
--     Payoff/Capital.antt        required_capital and the ratios over it
--     Payoff/Contracts.antt      OptionContract, OptionChain and the legs made from a contract
--     Payoff/Slope.antt, Payoff/Walk.antt    the profit as a function that changes its slope at strikes
--     Payoff/Extremes.antt, Payoff/Limits.antt    what the extremes and the unlimited sides say
--     Payoff/Cost.antt           the profit and the cost of entering
--   strategies/scanner.py
--     Scanner.antt               ScanFilters, the grouping by expiry and the four vertical spreads
--     Scanner/Structures.antt    the straddle and the collar
--     Scanner/Spreads.antt       the iron condor, the calendar spread and scan_all
--     Scanner/Ranking.antt       rank_strategies and what it gives
--     Scanner/Role.antt          the names of the roles of legs
--     Scanner/Lists.antt         what the loops keep of the contracts
--     Scanner/Accepted.antt, Scanner/Candidates.antt    what the filters ask, and the legs
--     Scanner/Vertical.antt, Scanner/Condor.antt    what the structures found satisfy
--   strategies/multi_leg.py and strategies/registry.py
--     Strategies.antt            Leg, net_debit and max_loss
--     Strategies/Registry.antt   register_strategy and create_strategies
--   storage/reporting.py
--     Reporting.antt             the tables of signals and results, the queries and evaluate_signal
--     Reporting/Totals.antt      how the reports by group and the summary agree
--   signals/signal_model.py, signals/signal_generator.py
--     Signals.antt               Signal
--     Signals/Generator.antt     SignalGenerator from raw signals to those that are published
--     Signals/Passes.antt        a pass over the symbols: run_once and generate_for_symbol
--     Signals/Groups.antt        what becomes of the legs of a structure
--     Signals/Spacing.antt, Signals/Grouped.antt, Signals/Batch.antt, Signals/Window.antt
--                                the window against duplicates
--   risk/risk_calculator.py
--     Risk.antt                  RiskCalculator on exact numbers
--     Risk/Bounds.antt           the quantity it suggests
--   backtest/signal_backtester.py
--     Backtester.antt            SignalOutcome and BacktestReport
--     Backtester/Days.antt       SignalBacktester, and PremiumBar of data/option_history.py
--     Backtester/Prefix.antt     which bars a backtest looks at
--   backtest/walk_forward.py
--     WalkForward.antt           the folds, the grid of parameters and the metrics of folds
--     WalkForward/Optimizer.antt    WalkForwardOptimizer, with the backtester as a parameter
--     WalkForward/Folds.antt, WalkForward/Robust.antt, WalkForward/Best.antt    the folds that are made and the result chosen
--   market/corporate_actions.py
--     CorporateActions.antt      CorporateAction, CorporateActionLog and the reading of share changes
--     CorporateActions/Splitting.antt    adjusting over a period and its parts
--   notifiers/telegram_commands.py
--     TelegramCommands.antt      the commands and their replies
--     TelegramCommands/Polling.antt    what an update does, and a poll
--     TelegramCommands/Boundary.antt    what the updates of other chats can do
--   storage/acknowledgement.py
--     Acknowledgement.antt       AckStore, build_keyboard and parse_callback
--     Acknowledgement/Callback.antt, Acknowledgement/Statistics.antt    their laws
--   Prelude.antt and its children hold what the others share: tests on numbers, integers, texts,
--   dictionaries, results that may be an exception, quotients and sorting.
--
-- How the parts interact. PaperBroker asks a book for fill_price, pays the costs of Fees and writes to
-- PaperStore; it takes resolve_contract and try_get_order_book as parameters, the fields of Broker.
-- The client of order books takes the answer of the network, and the clock, with each call. A pass of the generator asks
-- Risk for the size of every signal, and takes the market, the broker's holdings and the strategies as
-- parameters, the fields of World. The scanner makes the structures of Payoff from the contracts of a
-- chain. A button of
-- TelegramCommands is read and kept by Acknowledgement. Calendar
-- stands on Jalali for the fixed holidays.
--
-- State. A method that changes its object is a function from the state before to the result and the
-- state after. An exception is a value of Result, and the state beside it is what the statements before
-- it left. The account over time is the relation Step of PaperBroker/Ledger.antt,
-- in which every call has books and contracts of its own; a settlement that raises is not a step.
--
-- Numbers. Prices and volumes of the book are naturals, as the exchange sends them, and an average is
-- an exact quotient. A day is its ordinal, as in Python's datetime. The amounts of the paper account are
-- elements of any type with the operations that the code applies, the record Number, of which no law is
-- assumed: what is shown holds of floats, with their rounding. The prices of payoffs are naturals, of a unit that makes the halves
-- the code takes whole, and their amounts integers in millionths of it. The returns that the metrics read are
-- integers of any scale. Times are seconds.
--
-- Loops. The loop that makes the folds of a walk forward has one more step of fuel than the history has
-- days, which is shown to be enough for a step that is not negative; with a negative one the loop of
-- the program does not end, and the fuel is spent. next_trading_day tries 60 days, as the source does. The climb to the Jalali year of a day has
-- fuel, and the round trips show that it is enough for the supported years. Loops over a range of days
-- recur on the days left; loops over rows recur on the list.
--
-- Not modelled. Commits and the files behind the tables and behind the calendar's cache; the network;
-- logging; views for the dashboard (to_dict, performance_summary, list_orders, list_trades). The update time of an order, which the broker writes equal to its creation time, is not
-- a field. Of payoffs the break-even points and the score of liquidity are left out, and of the structures that
-- the scanner finds their names and notes. Of the reports the counts by day and the export are left out.
-- Pricing, the conditions of each strategy, brokers
-- of remote services and the web dashboard are not modelled.
pub mod Prelude
pub mod OrderBook
pub mod Jalali
pub mod Calendar
pub mod Fees
pub mod PaperStore
pub mod PaperBroker
pub mod Health
pub mod Acknowledgement
pub mod PeriodicReport
pub mod Metrics
pub mod Payoff
pub mod Scanner
pub mod Reporting
pub mod Strategies
pub mod Signals
pub mod Risk
pub mod WalkForward
pub mod CorporateActions
pub mod TelegramCommands
pub mod Backtester
