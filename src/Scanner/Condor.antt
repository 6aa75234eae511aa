-- ===== src/Scanner/Condor.antt =====
-- The iron condors of strategies/scanner.py: what every one of them satisfies.
use mathlib.Core.Path.{subst}
use garnet_trader.Prelude.{
  All-imp, ◌+◌, ◌*◌, ltb→lt, ℕ, ◌≡◌, refl, ◌≤◌, ◌<◌, Bool, true, ◌&&◌, some, List, [], ◌∷◌, ltb,
  length, take, length-take, All, Bool-cases, inl, inr, arith,
}
use garnet_trader.Prelude.Int.{pos, ltb_ℤ, ◌+ℤ◌, ◌-ℤ◌, int_laws}
use garnet_trader.Prelude.Sort.{sort, All-sort}
use garnet_trader.Payoff.{
  Side, buy, sell, OptionType, call, put, PositionLeg, StrategyPayoff, is_some, net_premium,
  net_credit, units, total, keep, entry_cost, signed,
}
use garnet_trader.Payoff.Contracts.{
  OptionContract, OptionChain, same_type, keep_contracts, leg_from_contract,
}
use garnet_trader.Scanner.{
  ScanFilters, Group, usable, by_expiry, combinations, strike_before, for_each, found_by, structure,
}
use garnet_trader.Scanner.Structures.{puts_below, calls_above}
use garnet_trader.Scanner.Spreads.{
  IronCondor, Pair, condor_legs, make_condor, in_order, iron_condor, last_contracts, condors_of,
  better_condor, scan_iron_condor,
}
use garnet_trader.Scanner.Lists.{
  All-take, All-for_each, All-found_by, All-keep_contracts, All-combinations, InGroup,
  group_by-InGroup,
}
use garnet_trader.Scanner.Role
use garnet_trader.Scanner.Accepted.{IsLeg, accepts-IsAccepted, leg_from_contract-IsLeg}
use garnet_trader.Scanner.Candidates.{
  IsUsable, IsCandidate, usable-IsUsable, same_type_eq, only_if-some, both, one_contract,
}

All-last_contracts {κ} :
    (P : OptionContract → Type κ) (n : ℕ) (cs : List OptionContract)
    → All P cs
    → All P (last_contracts n cs)
unfolding last_contracts
All-last_contracts P n [] h = tt
All-last_contracts P n (c ∷ cs) h = elim (Bool-cases (ltb (length cs) n)) [
  | inl short ↦ rw short h
  | inr long ↦ rw long (All-last_contracts P n cs h.1)
]

-- Two puts below the price of the underlying and two calls above it, of one expiry.
abbrev pub IsWing :
    ScanFilters → OptionChain → ℕ → OptionType → ℕ → (OptionContract → Type 0) → Pair → Type 0
IsWing f chain today type expiry beyond p =
    (IsCandidate f chain today type expiry p.0 × beyond p.0)
    × (IsCandidate f chain today type expiry p.1 × beyond p.1)

abbrev pub IsBelow : OptionChain → OptionContract → Type 0
IsBelow chain c = c.strike < chain.spot_price

abbrev pub IsAbove : OptionChain → OptionContract → Type 0
IsAbove chain c = chain.spot_price < c.strike

-- The price of the contracts of a leg.
abbrev pub amount : PositionLeg → ℕ
amount leg = leg.entry_price * leg.contract_size

-- The four legs in the order of the code, each of one contract, and what they bring in.
abbrev pub IsCondor : ScanFilters → OptionChain → ℕ → IronCondor → Type 0
IsCondor f chain today s =
    (puts : Pair) × (calls : Pair) × (long_put : PositionLeg) × (short_put : PositionLeg)
    × (short_call : PositionLeg) × (long_call : PositionLeg) × IsWing f chain today put s.expiration
        (IsBelow chain) puts
    × IsWing f chain today call s.expiration (IsAbove chain) calls
    × (s.payoff.legs ≡ long_put ∷ short_put ∷ short_call ∷ long_call ∷ [])
    × IsLeg buy puts.0 long_put
    × IsLeg sell puts.1 short_put
    × IsLeg sell calls.0 short_call
    × IsLeg buy calls.1 long_call
    × (puts.0.strike < puts.1.strike)
    × (puts.1.strike < calls.0.strike)
    × (calls.0.strike < calls.1.strike)
    × (amount long_put + amount long_call < amount short_put + amount short_call)

in_order_lem : (a b c d : ℕ) → (ltb a b && ltb c d && ltb b c) ≡ true → (a < b) × (b < c) × (c < d)
in_order_lem a b c d h = ground (arith, h)

is_credit :
    (s : StrategyPayoff) → is_some (net_credit s) ≡ true → ltb_ℤ (net_premium s) (pos 0) ≡ true
unfolding net_credit
is_credit s h = elim (Bool-cases (ltb_ℤ (net_premium s) (pos 0))) [
  | inl negative ↦ negative
  | inr other ↦ ground (arith, h)
]

leg_of : OptionContract → Side → List ℕ → PositionLeg
leg_of c side role = leg_from_contract c side 1 role

credit_lem :
    (a b c d : ℕ)
    → ltb_ℤ (pos a +ℤ ((pos 0 -ℤ pos b) +ℤ ((pos 0 -ℤ pos c) +ℤ (pos d +ℤ pos 0)))) (pos 0) ≡ true
    → a + d < b + c
credit_lem a b c d h = let less = ltb→lt _ _ h in omega (int_laws, less)

net_credit_lem :
    (f : ScanFilters) (chain : OptionChain) (expiry : ℕ) (puts calls : Pair)
    → is_some (net_credit (make_condor f chain expiry puts calls).payoff) ≡ true
    → amount (leg_of puts.0 buy Role.long_put) + amount (leg_of calls.1 buy Role.long_call)
      < amount (leg_of puts.1 sell Role.short_put) + amount (leg_of calls.0 sell Role.short_call)
unfolding net_premium total keep entry_cost signed make_condor structure condor_legs
    leg_from_contract leg_of
net_credit_lem f chain expiry puts calls h =
    let a = leg_of puts.0 buy Role.long_put in
    let b = leg_of puts.1 sell Role.short_put in
    let c = leg_of calls.0 sell Role.short_call in
    let d = leg_of calls.1 buy Role.long_call in
    let less =
      credit_lem (a.entry_price * units a) (b.entry_price * units b) (c.entry_price * units c)
        (d.entry_price * units d) (is_credit (make_condor f chain expiry puts calls).payoff h) in
    omega (
      arith,
      less,
      one_contract a refl,
      one_contract b refl,
      one_contract c refl,
      one_contract d refl,
    )

iron_condor-IsCondor :
    (f : ScanFilters) (chain : OptionChain) (today expiry : ℕ) (puts calls : Pair)
    → IsWing f chain today put expiry (IsBelow chain) puts
    → IsWing f chain today call expiry (IsAbove chain) calls
    → (s : IronCondor) → iron_condor f chain expiry puts calls ≡ some s
    → IsCondor f chain today s
unfolding iron_condor in_order make_condor structure condor_legs leg_of
iron_condor-IsCondor f chain today expiry puts calls below above s found =
    let condor = make_condor f chain expiry puts calls in
    let kept =
      only_if-some (in_order puts calls && is_some (net_credit condor.payoff)) condor s found in
    let gates = both (in_order puts calls) (is_some (net_credit condor.payoff)) kept.0 in
    let order = in_order_lem puts.0.strike puts.1.strike calls.0.strike calls.1.strike gates.0 in
    subst (IsCondor f chain today) kept.1 (
      puts,
      calls,
      leg_of puts.0 buy Role.long_put,
      leg_of puts.1 sell Role.short_put,
      leg_of calls.0 sell Role.short_call,
      leg_of calls.1 buy Role.long_call,
      below,
      above,
      refl,
      leg_from_contract-IsLeg buy puts.0 Role.long_put,
      leg_from_contract-IsLeg sell puts.1 Role.short_put,
      leg_from_contract-IsLeg sell calls.0 Role.short_call,
      leg_from_contract-IsLeg buy calls.1 Role.long_call,
      order.0,
      order.1,
      order.2,
      net_credit_lem f chain expiry puts calls gates.1,
    )

kept_side :
    (f : ScanFilters) (chain : OptionChain) (today : ℕ) (type : OptionType) (expiry : ℕ)
    (near : OptionContract → Bool) (Beyond : OptionContract → Type 0)
    → ((c : OptionContract) → near c ≡ true → Beyond c)
    → (cs : List OptionContract) → InGroup (IsUsable f chain today) (λ c. c.expiry) (expiry, cs)
    → All
        (λ c. IsCandidate f chain today type expiry c × Beyond c)
        (keep_contracts (λ c. same_type c.option_type type && near c) cs)
kept_side f chain today type expiry near Beyond step cs h =
    let test : OptionContract → Bool = λ c. same_type c.option_type type && near c in
    let Q : OptionContract → Type 0 = λ c. IsUsable f chain today c × (c.expiry ≡ expiry) in
    All-imp (λ c. Q c × (test c ≡ true)) (λ c. IsCandidate f chain today type expiry c × Beyond c)
      (λ c u.
        let split = both (same_type c.option_type type) (near c) u.1 in
        (
          (
            u.0.0.0,
            accepts-IsAccepted f today c u.0.0.1,
            u.0.1,
            same_type_eq c.option_type type split.0,
          ),
          step c split.1,
        ))
      (keep_contracts test cs) (All-keep_contracts Q test cs h)

condors_of-IsCondor :
    (f : ScanFilters) (chain : OptionChain) (today : ℕ) (group : Group)
    → InGroup (IsUsable f chain today) (λ c. c.expiry) group
    → All (IsCondor f chain today) (condors_of f chain group)
unfolding condors_of
condors_of-IsCondor f chain today (expiry, cs) h =
    let spot = chain.spot_price in
    let Put : OptionContract → Type 0 =
      λ c. IsCandidate f chain today put expiry c × IsBelow chain c in
    let Call : OptionContract → Type 0 =
      λ c. IsCandidate f chain today call expiry c × IsAbove chain c in
    let puts = sort strike_before (puts_below spot cs) in
    let calls = sort strike_before (calls_above spot cs) in
    let below = All-sort strike_before Put (puts_below spot cs) (
      kept_side f chain today put expiry (λ c. ltb c.strike spot) (IsBelow chain)
        (λ c less. ground (arith, less)) cs h) in
    let above = All-sort strike_before Call (calls_above spot cs) (
      kept_side f chain today call expiry (λ c. ltb spot c.strike) (IsAbove chain)
        (λ c less. ground (arith, less)) cs h) in
    let call_pairs = All-combinations Call (take 5 calls) (All-take Call 5 calls above) in
    All-for_each (IsWing f chain today put expiry (IsBelow chain)) (IsCondor f chain today)
      (λ p. found_by (iron_condor f chain expiry p) (combinations (take 5 calls)))
      (λ p wing.
        All-found_by (IsWing f chain today call expiry (IsAbove chain)) (IsCondor f chain today)
          (iron_condor f chain expiry p)
          (λ q other. iron_condor-IsCondor f chain today expiry p q wing other)
          (combinations (take 5 calls)) call_pairs)
      (combinations (last_contracts 5 puts))
      (All-combinations Put (last_contracts 5 puts) (All-last_contracts Put 5 puts below))

-- Every iron condor that the scan gives is made of two puts and two calls of the chain that have what
-- the filters ask, all of one expiry: a put bought below a put sold, both below the price of the
-- underlying, and a call sold below a call bought, both above it. Each leg is one contract, bought at
-- its ask or sold at its bid, and the two that are sold bring in more than the two that are bought
-- cost. No more condors are given than the limit.
pub scan_iron_condor-IsCondor :
    (f : ScanFilters) (chain : OptionChain) (today limit : ℕ)
    → All (IsCondor f chain today) (scan_iron_condor f chain today limit)
      × (length (scan_iron_condor f chain today limit) ≤ limit)
unfolding scan_iron_condor by_expiry
scan_iron_condor-IsCondor f chain today limit =
    let good = IsCondor f chain today in
    let groups = by_expiry (usable f chain today) in
    let found = for_each (condors_of f chain) groups in
    let grouped =
      group_by-InGroup (IsUsable f chain today) (λ c. c.expiry) [] (usable f chain today)
        (usable-IsUsable f chain today) tt in
    let all =
      All-for_each (InGroup (IsUsable f chain today) (λ c. c.expiry)) good (condors_of f chain)
        (condors_of-IsCondor f chain today) groups grouped in
    let bound = length-take limit (sort better_condor found) in
    (
      All-take good limit (sort better_condor found) (All-sort better_condor good found all),
      omega (arith, bound),
    )
