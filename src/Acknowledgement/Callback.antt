-- ===== src/Acknowledgement/Callback.antt =====
-- The data of the buttons under a signal, and what is read back from it.
use garnet_trader.Prelude.{
  ◌≡◌, refl, sym, ap, ◌∙◌, inl, inr, true, some, [], ◌∷◌, ◌++◌, arith, Bool-cases, Option-cases,
  ◌≢◌, ◌⊎◌, ◌==◌,
}
use garnet_trader.Prelude.Text.{Text, codes, text_eq_iff}
use garnet_trader.Acknowledgement.{
  is_valid_action, strip, split_colon, callback_data, accept, parse_callback,
}

pub action-cases :
    (action : Text)
    → is_valid_action action ≡ true
    → (action ≡ codes "seen") ⊎ (action ≡ codes "taken") ⊎ (action ≡ codes "skipped")
unfolding is_valid_action
action-cases action h = ground (
  arith,
  text_eq_iff action (codes "seen"),
  text_eq_iff action (codes "taken"),
  text_eq_iff action (codes "skipped"),
)

accept-valid :
    (action signal_id : Text)
    → is_valid_action action ≡ true
    → strip signal_id ≡ signal_id
    → signal_id ≢ []
    → accept (codes "ack") action signal_id ≡ some (action, signal_id)
unfolding accept
accept-valid action signal_id valid stripped some_id =
    ground (arith, text_eq_iff signal_id [], text_eq_iff (codes "ack") (codes "ack"))

-- A button carries its action and its signal: what it sends is read back as the same pair, for a signal
-- identifier that is not empty and has no space at its ends.
pub parse_callback-callback_data :
    (action signal_id : Text)
    → is_valid_action action ≡ true
    → strip signal_id ≡ signal_id
    → signal_id ≢ []
    → parse_callback (callback_data action signal_id) ≡ some (action, signal_id)
unfolding parse_callback callback_data split_colon
parse_callback-callback_data action signal_id valid stripped some_id =
    elim (action-cases action valid) [
      | inl seen ↦ rw seen (
          accept-valid (codes "seen") signal_id (sym (ap is_valid_action seen) ∙ valid) stripped
            some_id)
      | inr (inl taken) ↦ rw taken (
          accept-valid (codes "taken") signal_id (sym (ap is_valid_action taken) ∙ valid) stripped
            some_id)
      | inr (inr skipped) ↦ rw skipped (
          accept-valid (codes "skipped") signal_id (sym (ap is_valid_action skipped) ∙ valid)
            stripped some_id)
    ]

split_colon-parts : (s p r : Text) → split_colon s ≡ some (p, r) → s ≡ p ++ codes ":" ++ r
unfolding split_colon
split_colon-parts [] p r e = cc
split_colon-parts (c ∷ s) p r e = elim (Bool-cases (c == 58)) [
  | inl colon ↦
      let first : p ≡ [] = ground arith in
      let second : r ≡ s = ground arith in
      let is_colon : c ≡ 58 = ground arith in rw (first, second, is_colon) refl
  | inr other ↦ elim (Option-cases (split_colon s)) [
    | inl h ↦ ground arith
    | inr ((p', r'), h) ↦
        let rest = split_colon-parts s p' r' h in
        let first : p ≡ c ∷ p' = ground arith in
        let second : r ≡ r' = ground arith in rw (first, second) (ap (λ w. c ∷ w) rest)
  ]
]

-- What is read back comes from data of that form, with a valid action and the identifier that is not
-- empty once stripped.
accept_sound :
    (prefix action raw a i : Text)
    → accept prefix action raw ≡ some (a, i)
    → (prefix ≡ codes "ack")
      × (action ≡ a)
      × (i ≡ strip raw)
      × (is_valid_action a ≡ true)
      × (i ≢ [])
unfolding accept
accept_sound prefix action raw a i e =
    ground (arith, text_eq_iff prefix (codes "ack"), text_eq_iff (strip raw) [])

-- Data that is read as an action and a signal is `ack:`, the action, a colon and a text that strips to the
-- signal; the action is valid and the signal not empty. Nothing else is taken for an acknowledgement.
pub parse_callback_sound :
    (sent action signal_id : Text)
    → parse_callback sent ≡ some (action, signal_id)
    → (is_valid_action action ≡ true)
      × (signal_id ≢ [])
      × ((raw : Text) × (sent ≡ callback_data action raw) × (strip raw ≡ signal_id))
unfolding parse_callback callback_data
parse_callback_sound sent action signal_id e = elim (Option-cases (split_colon sent)) [
  | inl h ↦ ground arith
  | inr ((prefix, rest), h) ↦ elim (Option-cases (split_colon rest)) [
    | inl g ↦ ground arith
    | inr ((word, raw), g) ↦
        let accepted : accept prefix word raw ≡ some (action, signal_id) = ground arith in
        let (is_ack, same, stripped, valid, some_id) =
          accept_sound prefix word raw action signal_id accepted in
        let whole = split_colon-parts sent prefix rest h in
        let part = split_colon-parts rest word raw g in
        (valid, some_id, (raw, rw (whole, is_ack, part, same) refl, sym stripped))
  ]
]
