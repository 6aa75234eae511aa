-- ===== src/Health/Throttle.antt =====
-- What the throttle lets through, over a sequence of checks.
use mathlib.Core.Path.{subst}
use garnet_trader.Prelude.{
  ℕ, ◌+◌, ◌≤◌, ◌<◌, ◌≡◌, refl, sym, ◌∙◌, inl, inr, true, false, ◌&&◌, ◌||◌, none, some, List, [],
  ◌∷◌, ltb, leb, arith, All, Bool-cases,
}
use garnet_trader.Prelude.Dict.{lookup, lookup-insert, lookup-erase}
use garnet_trader.Prelude.Text.{Text, text_eq, text_eq_iff, text_eq_refl}
use garnet_trader.Health.{
  HealthCheck, severity, is_alert, Sent, AlertThrottle, should_send, record_alert, clear,
  announce_one, announce,
}

-- A check that the throttle holds back after an alert `c` at `a`: of another key, or an alert no more
-- severe before the cooldown has passed.
abbrev pub Held : HealthCheck → ℕ → ℕ → HealthCheck × ℕ → Type 0
Held c a cooldown (d, now) =
    text_eq d.key c.key ≡ true
    → (is_alert d ≡ true) × (severity d ≤ severity c) × (now < a + cooldown)

-- What the throttle knows after the alert `c` at `a`.
abbrev Knows : HealthCheck → ℕ → AlertThrottle → Type 0
Knows c a t = lookup c.key t.sent ≡ some (record { status = c.status; sent_at = some a })

record_alert-Knows : (c : HealthCheck) (a : ℕ) (t : AlertThrottle) → Knows c a (record_alert c a t)
unfolding record_alert
record_alert-Knows c a t = ground (
  arith,
  text_eq_refl c.key,
  lookup-insert {V = Sent} c.key c.key (record { status = c.status; sent_at = some a }) t.sent,
)

should_send-Knows :
    (c : HealthCheck) (a : ℕ) (t : AlertThrottle) (d : HealthCheck) (now : ℕ)
    → Knows c a t
    → text_eq d.key c.key ≡ true
    → should_send d now t
      ≡ (is_alert d && (ltb (severity c) (severity d) || leb (a + t.cooldown) now))
unfolding should_send
should_send-Knows c a t d now knows same =
    let key : lookup d.key t.sent ≡ some (record { status = c.status; sent_at = some a }) =
      ground (arith, text_eq_iff d.key c.key) in
    ground arith

announce_one-keeps :
    (c : HealthCheck) (a : ℕ) (t : AlertThrottle) (d : HealthCheck) (now : ℕ)
    → Knows c a t
    → Held c a t.cooldown (d, now)
    → let (sent, t') = announce_one (d, now) t in
      (t'.cooldown ≡ t.cooldown) × (sent ≡ true → text_eq d.key c.key ≡ false) × Knows c a t'
unfolding announce_one record_alert clear
announce_one-keeps c a t d now knows held = elim (Bool-cases (text_eq d.key c.key)) [
  | inl same ↦ ground (arith, held same, should_send-Knows c a t d now knows same)
  | inr other ↦ ground (
    arith,
    other,
    lookup-insert {V = Sent} d.key c.key (record { status = d.status; sent_at = some now }) t.sent,
    lookup-erase d.key c.key t.sent,
  )
]

announce-keeps :
    (c : HealthCheck) (a : ℕ) (checks : List (HealthCheck × ℕ)) (t : AlertThrottle)
    → Knows c a t
    → All (Held c a t.cooldown) checks
    → let (sent, t') = announce checks t in
      (t'.cooldown ≡ t.cooldown) × All (λ x. text_eq x.0.key c.key ≡ false) sent × Knows c a t'
unfolding announce
announce-keeps c a [] t knows held = (refl, tt, knows)
announce-keeps c a ((d, now) ∷ checks) t knows held =
    let t₁ = (announce_one (d, now) t).1 in
    let (cooldown, other, knows₁) = announce_one-keeps c a t d now knows held.0 in
    let held₁ = subst (λ w. All (Held c a w) checks) (sym cooldown) held.1 in
    let (cooldown₂, others, knows₂) = announce-keeps c a checks t₁ knows₁ held₁ in
    elim (Bool-cases (announce_one (d, now) t).0) [
      | inl sent ↦ (cooldown₂ ∙ cooldown, rw sent (other sent, others), knows₂)
      | inr kept ↦ (cooldown₂ ∙ cooldown, rw kept others, knows₂)
    ]

record_alert-cooldown :
    (c : HealthCheck) (a : ℕ) (t : AlertThrottle) → (record_alert c a t).cooldown ≡ t.cooldown
unfolding record_alert
record_alert-cooldown c a t = refl

-- After an alert, whatever checks follow, as long as those of its key are alerts no more severe and
-- come before the cooldown has passed, none of its key is sent; and the next alert of the key is sent
-- exactly if it is more severe or the cooldown has passed.
pub announce-throttled :
    (c : HealthCheck) (a : ℕ) (t : AlertThrottle) (checks : List (HealthCheck × ℕ))
    → All (Held c a t.cooldown) checks
    → let (sent, t') = announce checks (record_alert c a t) in
      All (λ x. text_eq x.0.key c.key ≡ false) sent
      × ((d : HealthCheck) (now : ℕ)
          → text_eq d.key c.key ≡ true
          → should_send d now t'
            ≡ (is_alert d && (ltb (severity c) (severity d) || leb (a + t.cooldown) now)))
announce-throttled c a t checks held =
    let t' = (announce checks (record_alert c a t)).1 in
    let held' = subst (λ w. All (Held c a w) checks) (sym (record_alert-cooldown c a t)) held in
    let (cooldown, others, knows) =
      announce-keeps c a checks (record_alert c a t) (record_alert-Knows c a t) held' in
    (
      others,
      λ d now same.
          subst
            (λ w.
              should_send d now t'
              ≡ (is_alert d && (ltb (severity c) (severity d) || leb (a + w) now)))
            (cooldown ∙ record_alert-cooldown c a t) (should_send-Knows c a t' d now knows same),
    )

announce_one-forgotten :
    (key : Text) (d : HealthCheck) (now : ℕ) (t : AlertThrottle)
    → lookup key t.sent ≡ none
    → text_eq d.key key ≡ false
    → lookup key (announce_one (d, now) t).1.sent ≡ none
unfolding announce_one record_alert clear
announce_one-forgotten key d now t forgotten other = ground (
  arith,
  lookup-insert {V = Sent} d.key key (record { status = d.status; sent_at = some now }) t.sent,
  lookup-erase d.key key t.sent,
)

announce-forgotten :
    (key : Text) (checks : List (HealthCheck × ℕ)) (t : AlertThrottle)
    → lookup key t.sent ≡ none
    → All (λ x. text_eq x.0.key key ≡ false) checks
    → lookup key (announce checks t).1.sent ≡ none
unfolding announce
announce-forgotten key [] t forgotten others = forgotten
announce-forgotten key ((d, now) ∷ checks) t forgotten others =
    announce-forgotten key checks (announce_one (d, now) t).1
      (announce_one-forgotten key d now t forgotten others.0) others.1

announce_one-in_order :
    (c : HealthCheck) (a : ℕ) (t : AlertThrottle)
    → is_alert c ≡ false
    → lookup c.key (announce_one (c, a) t).1.sent ≡ none
unfolding announce_one clear should_send
announce_one-in_order c a t in_order =
    ground (arith, in_order, text_eq_refl c.key, lookup-erase c.key c.key t.sent)

-- A check that is in order ends the silence: after it, and any checks of other keys, an alert of its
-- key is sent at once.
pub announce-resolved :
    (c : HealthCheck) (a : ℕ) (t : AlertThrottle) (checks : List (HealthCheck × ℕ))
    → is_alert c ≡ false
    → All (λ x. text_eq x.0.key c.key ≡ false) checks
    → (d : HealthCheck) (now : ℕ) → text_eq d.key c.key ≡ true
    → should_send d now (announce ((c, a) ∷ checks) t).1 ≡ is_alert d
unfolding announce should_send
announce-resolved c a t checks in_order others d now same =
    let forgotten =
      announce-forgotten c.key checks (announce_one (c, a) t).1
        (announce_one-in_order c a t in_order) others in
    let key : lookup d.key (announce checks (announce_one (c, a) t).1).1.sent ≡ none =
      ground (arith, forgotten, text_eq_iff d.key c.key) in
    ground arith
