-- ===== src/Acknowledgement/Statistics.antt =====
-- The statistics of the acknowledgements over any records.
use garnet_trader.Prelude.{
  ℕ, ◌+◌, ◌≤◌, ◌≡◌, refl, inl, inr, Bool, true, false, Option, none, some, [], ◌∷◌, arith,
  Bool-cases, Option-cases, length, ◌⊎◌,
}
use garnet_trader.Prelude.Dict.{
  Dict, lookup, erase, lookup-insert, lookup-erase, Distinct, insert-Distinct, lookup-rest,
}
use garnet_trader.Prelude.Text.{Text, codes, text_eq, text_eq_iff}
use garnet_trader.Acknowledgement.Callback.{action-cases}
use garnet_trader.Acknowledgement.{
  AckStore, Acknowledgement, is_valid_action, record_ack, stats, since, count_joined,
}

-- One row for each signal, each with a valid action.
unfoldable pub IsKept : AckStore → Type 0
IsKept acks =
    Distinct acks
    × ((id : Text) (a : Acknowledgement)
        → lookup id acks ≡ some a
        → is_valid_action a.action ≡ true)

pub record_ack-IsKept :
    (id action source : Text) (note : Option Text) (moment : ℕ) (acks : AckStore)
    → IsKept acks
    → IsKept (record_ack id action source note moment acks).1
unfolding record_ack IsKept
record_ack-IsKept id action source note moment acks (distinct, valid) =
    elim (Bool-cases (is_valid_action action)) [
      | inl good ↦ rw good (
        insert-Distinct id _ acks distinct,
        λ k a e. ground (
          arith,
          good,
          valid k a,
          lookup-insert {V = Acknowledgement} id k
              (record {
                signal_id = id;
                acknowledged_at = moment;
                action = action;
                source = source;
                note = note;
              })
              acks,
        ),
      )
      | inr bad ↦ rw bad (distinct, valid)
    ]

length-erase_le : {V : Type 0} (k : Text) (d : Dict V) → length (erase k d) ≤ length d
unfolding erase
length-erase_le k [] = omega arith
length-erase_le k ((j, w) ∷ d) = ground (arith, length-erase_le k d)

length-erase :
    {V : Type 0} (k : Text) (v : V) (d : Dict V)
    → lookup k d ≡ some v
    → length (erase k d) + 1 ≤ length d
unfolding lookup erase
length-erase k v [] h = cc
length-erase k v ((j, w) ∷ d) h = elim (Bool-cases (text_eq j k)) [
  | inl same ↦ rw same (ground (arith, length-erase_le k d))
  | inr other ↦
      let found : lookup k d ≡ some v = ground (arith, other) in
      rw other (ground (arith, length-erase k v d found))
]

-- A valid action is exactly one of the three.
one_action :
    (action : Text)
    → is_valid_action action ≡ true
    → ((text_eq (codes "seen") action ≡ true)
        × (text_eq (codes "taken") action ≡ false)
        × (text_eq (codes "skipped") action ≡ false))
      ⊎ ((text_eq (codes "seen") action ≡ false)
          × (text_eq (codes "taken") action ≡ true)
          × (text_eq (codes "skipped") action ≡ false))
      ⊎ ((text_eq (codes "seen") action ≡ false)
          × (text_eq (codes "taken") action ≡ false)
          × (text_eq (codes "skipped") action ≡ true))
unfolding text_eq
one_action action valid = elim (action-cases action valid) [
  | inl same ↦ rw same (inl (refl, refl, refl))
  | inr (inl same) ↦ rw same (inr (inl (refl, refl, refl)))
  | inr (inr same) ↦ rw same (inr (inr (refl, refl, refl)))
]

-- A signal without a row takes no part in the join.
count_joined-erase :
    (test : Text → Bool) (id : Text) (acks : AckStore) (signals : Dict ℕ)
    → lookup id acks ≡ none
    → count_joined test acks (erase id signals) ≡ count_joined test acks signals
unfolding count_joined lookup
count_joined-erase test id [] signals h = refl
count_joined-erase test id ((j, a) ∷ acks) signals h = ground (
  arith,
  count_joined-erase test id acks signals,
  lookup-erase {V = ℕ} id j signals,
  text_eq_iff j id,
  text_eq_iff id j,
)

-- With one row for each signal, the rows of the join are no more than the signals.
count_joined-le :
    (test : Text → Bool) (acks : AckStore) (signals : Dict ℕ)
    → Distinct acks
    → count_joined test acks signals ≤ length signals
unfolding count_joined
count_joined-le test [] signals distinct = omega arith
count_joined-le test ((id, a) ∷ acks) signals distinct = elim (Option-cases (lookup id signals)) [
  | inl h ↦ ground (arith, h, count_joined-le test acks signals distinct.1)
  | inr (at, h) ↦
      let rest = count_joined-le test acks (erase id signals) distinct.1 in
      ground (
        arith,
        h,
        rest,
        count_joined-erase test id acks signals distinct.0,
        length-erase id at signals h,
      )
]

IsKept-rest :
    (id : Text) (a : Acknowledgement) (acks : AckStore)
    → IsKept ((id, a) ∷ acks)
    → (is_valid_action a.action ≡ true) × IsKept acks
unfolding IsKept lookup
IsKept-rest id a acks (distinct, valid) = (
  valid id a (ground (arith, text_eq_iff id id)),
  (distinct.1, λ k b e. valid k b (lookup-rest id k a b acks distinct.0 e).1),
)

count_joined-split :
    (acks : AckStore) (signals : Dict ℕ)
    → IsKept acks
    → count_joined (λ action. true) acks signals
      ≡ count_joined (text_eq (codes "seen")) acks signals
        + count_joined (text_eq (codes "taken")) acks signals
        + count_joined (text_eq (codes "skipped")) acks signals
unfolding count_joined
count_joined-split [] signals kept = refl
count_joined-split ((id, a) ∷ acks) signals kept =
    let (valid, rest) = IsKept-rest id a acks kept in
    let earlier = count_joined-split acks signals rest in
    elim (Option-cases (lookup id signals)) [
      | inl h ↦ ground (arith, h, earlier)
      | inr (at, h) ↦ ground (arith, h, earlier, one_action a.action valid)
    ]

-- Over records with one valid row for each signal, every acknowledgement is counted under exactly one
-- of the three actions, there are no more of them than signals, and the rest of the signals are the
-- unacknowledged ones.
pub stats_lem :
    (period : Option (ℕ → Bool)) (signals : Dict ℕ) (acks : AckStore)
    → IsKept acks
    → let s = stats period (some signals) acks in
      (s.acknowledged ≡ s.seen + s.taken + s.skipped)
      × (s.acknowledged + s.unacknowledged ≡ s.total_signals)
      × (s.total_signals ≡ length (since period signals))
unfolding stats IsKept
stats_lem period signals acks kept =
    let chosen = since period signals in
    (
      count_joined-split acks chosen kept,
      ground (arith, count_joined-le (λ action. true) acks chosen kept.0),
      refl,
    )
