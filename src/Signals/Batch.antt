-- ===== src/Signals/Batch.antt =====
-- One batch of signals, as a step that publishes them.
use mathlib.Core.Path.{subst}
use garnet_trader.Prelude.{
  ℕ, ◌≡◌, refl, sym, ◌⊎◌, inl, inr, false, none, some, List, [], ◌∷◌, ◌++◌, arith, Bool-cases,
  Option-cases, All,
}
use garnet_trader.Prelude.Dict.{Dict, lookup, insert, lookup-insert}
use garnet_trader.Prelude.Text.{Text, text_eq, text_eq_refl}
use garnet_trader.Signals.{Signal}
use garnet_trader.Signals.Generator.{
  GeneratorConfig, Generator, dedupe_key, is_duplicate_key, emit, publish, checked, post_process,
  group_of, add_to_group, split, process_singles, process_groups, process_leg_group, process_batch,
}
use garnet_trader.Signals.Spacing.{
  is_single, IsClear, IsStep, IsStep-append, IsStep-none, emit-Raises,
}
use garnet_trader.Signals.Grouped.{IsGrouped, process_leg_group-IsStep}

IsGrouped-append :
    (legs : List Signal) (s : Signal)
    → IsGrouped legs
    → is_single s ≡ false
    → IsGrouped (legs ++ s ∷ [])
IsGrouped-append [] s h k = (k, tt)
IsGrouped-append (leg ∷ legs) s h k = (h.0, IsGrouped-append legs s h.1 k)

abbrev AreGroups : Dict (List Signal) → Type 0
AreGroups = All (λ entry. IsGrouped entry.1)

insert-AreGroups :
    (id : Text) (legs : List Signal) (groups : Dict (List Signal))
    → IsGrouped legs
    → AreGroups groups
    → AreGroups (insert id legs groups)
unfolding insert
insert-AreGroups id legs [] h all = (h, tt)
insert-AreGroups id legs ((j, others) ∷ groups) h all = elim (Bool-cases (text_eq j id)) [
  | inl same ↦ rw same (h, all.1)
  | inr other ↦ rw other (all.0, insert-AreGroups id legs groups h all.1)
]

lookup-IsGrouped :
    (id : Text) (legs : List Signal) (groups : Dict (List Signal))
    → lookup id groups ≡ some legs
    → AreGroups groups
    → IsGrouped legs
unfolding lookup
lookup-IsGrouped id legs [] e all = absurd (ground (arith, e))
lookup-IsGrouped id legs ((j, others) ∷ groups) e all = elim (Bool-cases (text_eq j id)) [
  | inl same ↦ let here : others ≡ legs = ground (arith, same, e) in subst IsGrouped here all.0
  | inr other ↦ lookup-IsGrouped id legs groups (ground (arith, other, e)) all.1
]

add_to_group-AreGroups :
    (id : Text) (s : Signal) (groups : Dict (List Signal))
    → is_single s ≡ false
    → AreGroups groups
    → AreGroups (add_to_group id s groups)
unfolding add_to_group
add_to_group-AreGroups id s groups h all = elim (Option-cases (lookup id groups)) [
  | inl first ↦
      let same : add_to_group id s groups ≡ insert id (s ∷ []) groups = ground (arith, first) in
      subst AreGroups (sym same) (insert-AreGroups id (s ∷ []) groups (h, tt) all)
  | inr (legs, e) ↦
      let same : add_to_group id s groups ≡ insert id (legs ++ s ∷ []) groups = ground (arith, e) in
      subst AreGroups (sym same) (
        insert-AreGroups id (legs ++ s ∷ []) groups
          (IsGrouped-append legs s (lookup-IsGrouped id legs groups e all) h) all)
]

split-AreGroups :
    (raw singles : List Signal) (groups : Dict (List Signal))
    → AreGroups groups
    → AreGroups (split raw singles groups).1
unfolding split
split-AreGroups [] singles groups all = all
split-AreGroups (s ∷ raw) singles groups all = elim (Option-cases (group_of s)) [
  | inl alone ↦
      let same : split (s ∷ raw) singles groups ≡ split raw (singles ++ s ∷ []) groups =
        ground (arith, alone) in
      subst (λ r. AreGroups r.1) (sym same) (split-AreGroups raw (singles ++ s ∷ []) groups all)
  | inr (id, e) ↦
      let grouped : is_single s ≡ false = ground (arith, e) in
      let same : split (s ∷ raw) singles groups ≡ split raw singles (add_to_group id s groups) =
        ground (arith, e) in
      subst (λ r. AreGroups r.1) (sym same)
        (split-AreGroups raw singles (add_to_group id s groups)
          (add_to_group-AreGroups id s groups grouped all))
]

module _ (c : GeneratorConfig) where
  IsStep-published :
      (s : Signal) (g : Generator)
      → is_duplicate_key c (dedupe_key c s) s.created_at g ≡ false
      → IsStep c (s ∷ [], emit (dedupe_key c s) s.created_at g) g
  unfolding is_duplicate_key emit
  IsStep-published s g new =
      let up = emit-Raises c (dedupe_key c s) s.created_at g new in
      let found : lookup (dedupe_key c s) (insert (dedupe_key c s) s.created_at g.last_emitted)
          ≡ some s.created_at =
        ground (
          arith,
          text_eq_refl (dedupe_key c s),
          lookup-insert {V = ℕ} (dedupe_key c s) (dedupe_key c s) s.created_at g.last_emitted,
        ) in
      let clear : IsClear c g.last_emitted s =
        elim (Option-cases (lookup (dedupe_key c s) g.last_emitted)) [
          | inl never ↦ inr (inl never)
          | inr (p, at) ↦ inr (inr (p, at, ground (arith, at, new)))
        ] in
      (up, (inr (s.created_at, found, omega arith), tt), (clear, tt), (tt, tt))

  -- The two ends that a single signal comes to.
  post_process-cases :
      (s : Signal) (g : Generator)
      → (post_process c s g ≡ (none, g))
        ⊎ ((t : Signal) × (post_process c s g ≡ (some t, emit (dedupe_key c t) t.created_at g))
            × (is_duplicate_key c (dedupe_key c t) t.created_at g ≡ false))
  unfolding post_process publish
  post_process-cases s g = elim (Option-cases (checked c s)) [
    | inl refused ↦ inl (ground (arith, refused))
    | inr (t, e) ↦ elim (Bool-cases (is_duplicate_key c (dedupe_key c t) t.created_at g)) [
      | inl again ↦ inl (ground (arith, e, again))
      | inr new ↦ inr (t, ground (arith, e, new), new)
    ]
  ]

  process_singles-IsStep : (ss : List Signal) (g : Generator) → IsStep c (process_singles c ss g) g
  unfolding process_singles
  process_singles-IsStep [] g = IsStep-none c g g refl
  process_singles-IsStep (s ∷ ss) g = elim (post_process-cases s g) [
    | inl nothing ↦
        let same : process_singles c (s ∷ ss) g ≡ process_singles c ss g =
          ground (arith, nothing) in
        subst (λ r. IsStep c r g) (sym same) (process_singles-IsStep ss g)
    | inr (t, e, new) ↦
        let g' = emit (dedupe_key c t) t.created_at g in
        let rest = process_singles c ss g' in
        let same : process_singles c (s ∷ ss) g ≡ (t ∷ rest.0, rest.1) = ground (arith, e) in
        subst (λ r. IsStep c r g) (sym same)
          (IsStep-append c (t ∷ []) rest.0 g g' rest.1 (IsStep-published t g new)
            (process_singles-IsStep ss g'))
  ]

  process_groups-IsStep :
      (groups : Dict (List Signal)) (g : Generator)
      → AreGroups groups
      → IsStep c (process_groups c groups g) g
  unfolding process_groups
  process_groups-IsStep [] g all = IsStep-none c g g refl
  process_groups-IsStep ((id, legs) ∷ groups) g all =
      let first = process_leg_group c legs g in
      let rest = process_groups c groups first.1 in
      IsStep-append c first.0 rest.0 g first.1 rest.1 (process_leg_group-IsStep c legs g all.0)
        (process_groups-IsStep groups first.1 all.1)

  pub process_batch-IsStep :
      (raw : List Signal) (g : Generator) → IsStep c (process_batch c raw g) g
  unfolding process_batch
  process_batch-IsStep raw g =
      let parts = split raw [] [] in
      let first = process_singles c parts.0 g in
      let second = process_groups c parts.1 first.1 in
      IsStep-append c first.0 second.0 g first.1 second.1 (process_singles-IsStep parts.0 g)
        (process_groups-IsStep parts.1 first.1 (split-AreGroups raw [] [] tt))
