-- ===== src/Scanner/Candidates.antt =====
-- The contracts of a chain that strategies/scanner.py makes its structures of.
use garnet_trader.Prelude.{
  ℕ, ◌≡◌, refl, ap, ◌∙◌, ◌⊎◌, inl, inr, ◌*◌, Bool, true, ◌&&◌, some, List, [], ◌∷◌, All, All-imp,
  arith,
}
use garnet_trader.Payoff.{OptionType, call, put, PositionLeg, units}
use garnet_trader.Payoff.Contracts.{OptionContract, OptionChain, same_type}
use garnet_trader.Scanner.{ScanFilters, accepts, usable, only_if}
use garnet_trader.Scanner.Accepted.{IsAccepted}
use garnet_trader.Scanner.Lists.{All-keep_contracts}

abbrev pub IsIn : OptionContract → List OptionContract → Type 0
IsIn c [] = ⊥
IsIn c (d ∷ ds) = (c ≡ d) ⊎ IsIn c ds

each_IsIn : (cs : List OptionContract) → All (λ c. IsIn c cs) cs
each_IsIn [] = tt
each_IsIn (c ∷ cs) =
    (inl refl, All-imp (λ d. IsIn d cs) (λ d. IsIn d (c ∷ cs)) (λ d h. inr h) cs (each_IsIn cs))

pub same_type_eq : (s t : OptionType) → same_type s t ≡ true → s ≡ t
same_type_eq call call h = refl
same_type_eq call put h = ground (arith, h)
same_type_eq put call h = ground (arith, h)
same_type_eq put put h = refl

pub only_if-some {ℓ} :
    {A : Type ℓ} (b : Bool) (a c : A) → only_if b a ≡ some c → (b ≡ true) × (a ≡ c)
only_if-some b a c h = ground (arith, h)

pub both : (a b : Bool) → (a && b) ≡ true → (a ≡ true) × (b ≡ true)
both a b h = ground (arith, h)

-- A contract of the chain that passes the filters.
abbrev pub IsUsable : ScanFilters → OptionChain → ℕ → OptionContract → Type 0
IsUsable f chain today c = IsIn c chain.contracts × (accepts f today c ≡ true)

pub usable-IsUsable :
    (f : ScanFilters) (chain : OptionChain) (today : ℕ)
    → All (IsUsable f chain today) (usable f chain today)
unfolding usable
usable-IsUsable f chain today =
    All-keep_contracts (λ c. IsIn c chain.contracts) (accepts f today) chain.contracts
      (each_IsIn chain.contracts)

-- A contract of the chain that has what the filters ask, of a type and an expiry.
abbrev pub IsCandidate : ScanFilters → OptionChain → ℕ → OptionType → ℕ → OptionContract → Type 0
IsCandidate f chain today type expiry c =
    IsIn c chain.contracts × IsAccepted f today c × (c.expiry ≡ expiry) × (c.option_type ≡ type)

-- The legs are of one contract each.
pub one_contract :
    (leg : PositionLeg)
    → leg.quantity ≡ 1
    → leg.entry_price * units leg ≡ leg.entry_price * leg.contract_size
one_contract leg one =
    let same : leg.quantity * leg.contract_size ≡ leg.contract_size =
      ap (λ n. n * leg.contract_size) one ∙ omega arith in
    ap (λ n. leg.entry_price * n) same
