-- ===== src/Acknowledgement/Tests.antt =====
-- A signal that was taken, and one that nobody answered.
use garnet_trader.Prelude.{ℕ, ◌≡◌, ◌≢◌, refl, true, some, none, [], ◌∷◌}
use garnet_trader.Prelude.Dict.{Dict, lookup}
use garnet_trader.Prelude.Text.{Text, codes, text_eq}
use garnet_trader.Acknowledgement.{
  AckStore, is_valid_action, record_ack, strip, strip_left, strip_right, is_space, parse_callback,
  callback_data, split_colon, accept,
}
use garnet_trader.Acknowledgement.Callback.{parse_callback-callback_data, parse_callback_sound}
use garnet_trader.Acknowledgement.Statistics.{IsKept, record_ack-IsKept}

parse_callback-callback_data_example :
    parse_callback (callback_data (codes "taken") (codes "a1:b"))
    ≡ some (codes "taken", codes "a1:b")
unfolding is_valid_action text_eq strip_left strip_right is_space
parse_callback-callback_data_example =
    parse_callback-callback_data (codes "taken") (codes "a1:b") refl refl (λ e. cc)

parse_callback_sound_example :
    (is_valid_action (codes "seen") ≡ true)
    × (codes "x7" ≢ [])
    × ((raw : Text) × (codes "ack:seen: x7" ≡ callback_data (codes "seen") raw)
        × (strip raw ≡ codes "x7"))
unfolding parse_callback split_colon accept is_valid_action text_eq strip_left strip_right is_space
parse_callback_sound_example =
    parse_callback_sound (codes "ack:seen: x7") (codes "seen") (codes "x7") refl

nothing-IsKept : IsKept []
unfolding IsKept lookup
nothing-IsKept = (tt, λ id a e. cc)

abbrev answered : AckStore
answered = (record_ack (codes "s1") (codes "taken") (codes "telegram") none 50 []).1

answered-IsKept : IsKept answered
answered-IsKept =
    record_ack-IsKept (codes "s1") (codes "taken") (codes "telegram") none 50 [] nothing-IsKept

abbrev signals : Dict ℕ
signals = (codes "s1", 40) ∷ (codes "s2", 45) ∷ []
