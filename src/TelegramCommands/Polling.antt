-- ===== src/TelegramCommands/Polling.antt =====
-- notifiers/telegram_commands.py: what each update does, and one poll.
use garnet_trader.Prelude.{
  ℕ, ◌+◌, max, not, ◌||◌, Option, none, some, List, [], ◌∷◌, ◌++◌, if◌then◌else◌,
}
use garnet_trader.Prelude.Result.{ok, raised}
use garnet_trader.Prelude.Text.{Text, codes, text_eq}
use garnet_trader.Acknowledgement.{record_ack, parse_callback}
use garnet_trader.TelegramCommands.{
  Reply, Answer, not_allowed, unknown_button, not_active, not_saved, saved, Call, send_message,
  answer_callback, CallbackQuery, Update, Memory, Settings, TelegramCommandBot, handle_update,
}

-- What one update does: how many commands it counts for, the memory after it and the calls it makes.
pub record Reaction (G S P : Type 0) : Type 0 where
  pub handled : ℕ
  pub memory : Memory
  pub calls : List (Call G S P)

abbrev pub moved_offset : Update → ℕ → ℕ
moved_offset u offset = elim u.update_id [ none ↦ offset | some id ↦ max offset (id + 1) ]

module _ {G S P : Type 0} where
  abbrev pub reaction : ℕ → Memory → List (Call G S P) → Reaction G S P
  reaction handled memory calls = record { handled = handled; memory = memory; calls = calls }

  -- `_answer_callback`
  unfoldable pub answered : Text → Answer → List (Call G S P)
  answered [] answer = []
  answered (c ∷ id) answer = answer_callback (c ∷ id) answer ∷ []

  -- The tap of a button by the right chat, once its data is read.
  unfoldable pub save_ack : Update → Text → Text → Text → Memory → Reaction G S P
  unfolding record_ack answered
  save_ack u id action signal_id memory = elim memory.ack_store [
    | none ↦ reaction 0 memory (answered id not_active)
    | some store ↦
        if u.store_fails
        then reaction 0 memory (answered id not_saved)
        else (let (result, store') =
              record_ack signal_id action (codes "telegram") none u.handled_at store in
            elim result [
              | raised ↦ reaction 0 memory (answered id not_saved)
              | ok ack ↦
                  reaction 1 (record memory { ack_store = some store' })
                    (answered id (saved action))
            ])
  ]

  unfoldable pub handle_callback : Settings G S P → Update → CallbackQuery → Memory → Reaction G S P
  unfolding save_ack answered
  handle_callback b u q memory =
      if not (text_eq q.chat_id b.allowed_chat_id)
      then reaction 0 memory (answered q.id not_allowed)
      else elim (parse_callback q.data_text) [
        | none ↦ reaction 0 memory (answered q.id unknown_button)
        | some (action, signal_id) ↦ save_ack u q.id action signal_id memory
      ]

  abbrev reply_of : Option (Reply G S P) × Memory → Reaction G S P
  reply_of (none, memory) = reaction 0 memory []
  reply_of (some reply, memory) = reaction 1 memory (send_message reply ∷ [])

  -- The body of the loop, but for the offset.
  unfoldable pub react : Settings G S P → Update → Memory → Reaction G S P
  unfolding handle_callback handle_update
  react b u memory = elim u.callback_query [
    | some q ↦ handle_callback b u q memory
    | none ↦ reply_of (handle_update b u.message memory)
  ]

  unfoldable pub handle_updates :
      Settings G S P → List Update → TelegramCommandBot G S P → ℕ × TelegramCommandBot G S P
  unfolding react
  handle_updates b [] bot = (0, bot)
  handle_updates b (u ∷ updates) bot =
      let r = react b u bot.memory in
      let (handled, bot') = handle_updates b updates (record bot {
        offset = moved_offset u bot.offset;
        memory = r.memory;
        calls = bot.calls ++ r.calls;
      }) in
      (r.handled + handled, bot')

  -- The updates that the request gave, or `none` where it failed.
  unfoldable pub poll_once :
      Settings G S P
      → Option (List Update)
      → TelegramCommandBot G S P
      → ℕ × TelegramCommandBot G S P
  unfolding handle_updates
  poll_once b answer bot =
      if text_eq b.bot_token [] || text_eq b.allowed_chat_id []
      then (0, bot)
      else elim answer [ none ↦ (0, bot) | some updates ↦ handle_updates b updates bot ]
