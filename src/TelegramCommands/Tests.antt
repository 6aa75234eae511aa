-- ===== src/TelegramCommands/Tests.antt =====
-- Runs of the commands.
use garnet_trader.Prelude.{ℕ, ◌≡◌, refl, true, false, none, some, List, [], ◌∷◌, if◌then◌else◌}
use garnet_trader.Prelude.Int.{pos}
use garnet_trader.Prelude.Result.{ok}
use garnet_trader.Prelude.Text.{Text, codes, text_eq, lower}
use garnet_trader.Acknowledgement.{strip_left, strip_right}
use garnet_trader.TelegramCommands.{
  signal_list, send_message, answer_callback, not_allowed, Update, Settings, TelegramCommandBot,
}
use garnet_trader.TelegramCommands.Polling.{poll_once}
use garnet_trader.TelegramCommands.Boundary.{own, AreAlike, is_off, past_all, poll_once-own}

-- Signals, status and performance are numbers here.
abbrev settings : Settings ℕ ℕ ℕ
settings = record {
  bot_token = codes "t";
  allowed_chat_id = codes "42";
  context = record {
    recent_signals = some (λ limit. ok (limit ∷ []));
    status = some (ok 1);
    performance = none;
    has_total = λ m. true;
    int_of = λ text. some (pos 99);
  };
}

abbrev start : TelegramCommandBot ℕ ℕ ℕ
start = record { offset = 0; memory = record { muted = false; ack_store = some [] }; calls = [] }

abbrev message_from : ℕ → Text → Text → Update
message_from id chat text = record {
  update_id = some id;
  callback_query = none;
  message = some (record { chat_id = chat; text = text });
  handled_at = 0;
  store_fails = false;
}

abbrev button_from : ℕ → Text → Text → Update
button_from id chat tapped = record {
  update_id = some id;
  callback_query = some (record { id = codes "q"; chat_id = chat; data_text = tapped });
  message = none;
  handled_at = 0;
  store_fails = false;
}

abbrev updates : List Update
updates =
    message_from 7 (codes "42") (codes " /signals@Bot 99 ")
    ∷ message_from 8 (codes "13") (codes "/mute")
    ∷ button_from 9 (codes "13") (codes "ack:taken:s1")
    ∷ []

-- The count is cut to 20; the stranger's command and button do nothing; all three are passed over.
poll_once-updates : poll_once settings (some updates) start ≡ (
  1,
  record {
    offset = 10;
    memory = record { muted = false; ack_store = some [] };
    calls = send_message (signal_list (20 ∷ [])) ∷ answer_callback (codes "q") not_allowed ∷ [];
  },
)
unfolding poll_once text_eq lower strip_left strip_right
poll_once-updates = refl

poll_once-own_example :
    let r = poll_once settings (some updates) start in
    let r' = poll_once settings (some (own settings updates)) start in
    (r.0 ≡ r'.0)
    × AreAlike r.1 r'.1
    × (r.1.offset ≡ (if is_off settings then start.offset else past_all updates start.offset))
poll_once-own_example = poll_once-own settings updates start
