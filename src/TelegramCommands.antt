-- ===== src/TelegramCommands.antt =====
-- notifiers/telegram_commands.py: the polling of updates, the commands and the buttons. A reply is
-- which text it is, with the data in it. What the context's functions give, and Python's `int` of a
-- text, are parameters; files are left out, and a call to Telegram is kept in the order it is made.
pub mod Polling
pub mod Boundary
mod Tests
use garnet_trader.Prelude.{
  ℕ, zero, suc, ◌+◌, min, max, Bool, true, false, not, ◌&&◌, ◌||◌, Option, none, some, List, [],
  ◌∷◌, ◌++◌, ltb, leb, ◌==◌, if◌then◌else◌,
}
use garnet_trader.Prelude.Int.{ℤ, pos, negsuc}
use garnet_trader.Prelude.Result.{Result, ok, raised}
use garnet_trader.Prelude.Text.{Text, codes, text_eq, lower}
use garnet_trader.Acknowledgement.{AckStore, record_ack, parse_callback, strip, is_space}

-- The rows of `recent_signals`, the data of `status` and of `performance`.
pub record CommandContext (G S P : Type 0) : Type 0 where
  pub recent_signals : Option (ℕ → Result (List G))
  pub status : Option (Result S)
  pub performance : Option (Result P)
  pub has_total : P → Bool
  pub int_of : Text → Option ℤ

pub data Reply (G S P : Type 0) : Type 0 where
  help : Reply G S P
  unknown : Text → Reply G S P
  failed : Text → Reply G S P
  signals_unavailable : Reply G S P
  bad_count : Text → Reply G S P
  no_signals : Reply G S P
  signal_list : List G → Reply G S P
  status_unavailable : Reply G S P
  status_of : S → Bool → Reply G S P
  report_unavailable : Reply G S P
  nothing_evaluated : Reply G S P
  report_of : P → Reply G S P
  now_muted : Reply G S P
  now_unmuted : Reply G S P

-- What a button is answered with.
pub data Answer : Type 0 where
  not_allowed : Answer
  unknown_button : Answer
  not_active : Answer
  not_saved : Answer
  saved : Text → Answer

pub data Call (G S P : Type 0) : Type 0 where
  send_message : Reply G S P → Call G S P
  answer_callback : Text → Answer → Call G S P

pub record CallbackQuery : Type 0 where
  pub id : Text
  pub chat_id : Text
  pub data_text : Text

pub record Message : Type 0 where
  pub chat_id : Text
  pub text : Text

-- An update, with the time at which it is handled and whether the table of acknowledgements fails then.
pub record Update : Type 0 where
  pub update_id : Option ℕ
  pub callback_query : Option CallbackQuery
  pub message : Option Message
  pub handled_at : ℕ
  pub store_fails : Bool

-- What the commands and buttons read and write.
pub record Memory : Type 0 where
  pub muted : Bool
  pub ack_store : Option AckStore

pub record Settings (G S P : Type 0) : Type 0 where
  pub bot_token : Text
  pub allowed_chat_id : Text
  pub context : CommandContext G S P

pub record TelegramCommandBot (G S P : Type 0) : Type 0 where
  pub offset : ℕ
  pub memory : Memory
  pub calls : List (Call G S P)

-- `text.split()`, from the word so far.
unfoldable pub words : Text → Text → List Text
unfolding is_space
words [] [] = []
words (c ∷ word) [] = (c ∷ word) ∷ []
words [] (d ∷ s) = if is_space d then words [] s else words (d ∷ []) s
words (c ∷ word) (d ∷ s) =
    if is_space d then (c ∷ word) ∷ words [] s else words (c ∷ word ++ d ∷ []) s

-- `lstrip("/")` and `split("@")[0]`
unfoldable pub without_slashes : Text → Text
without_slashes [] = []
without_slashes (c ∷ s) = let rest = without_slashes s in if c == b'/' then rest else c ∷ s

unfoldable pub before_at : Text → Text
before_at [] = []
before_at (c ∷ s) = let rest = before_at s in if c == b'@' then [] else c ∷ rest

abbrev pub starts_with_slash : Text → Bool
starts_with_slash [] = false
starts_with_slash (c ∷ s) = c == b'/'

-- `max(1, min(n, 20))`
abbrev pub limit_of : ℤ → ℕ
limit_of (pos n) = max 1 (min n 20)
limit_of (negsuc n) = 1

-- A missing message reads as one of no chat and no text.
abbrev pub message_of : Option Message → Message
message_of none = record { chat_id = []; text = [] }
message_of (some m) = m

module _ {G S P : Type 0} where
  unfoldable pub list_signals : Text → Result (List G) → Reply G S P
  list_signals name raised = failed name
  list_signals name (ok []) = no_signals
  list_signals name (ok (g ∷ gs)) = signal_list (g ∷ gs)

  unfoldable pub cmd_signals : CommandContext G S P → Text → List Text → Reply G S P
  unfolding list_signals
  cmd_signals x name args = elim x.recent_signals [
    | none ↦ signals_unavailable
    | some recent ↦ elim args [
      | [] ↦ list_signals name (recent 5)
      | arg ∷ more ↦ elim (x.int_of arg) [
        | none ↦ bad_count arg
        | some n ↦ list_signals name (recent (limit_of n))
      ]
    ]
  ]

  unfoldable pub cmd_status : CommandContext G S P → Text → Memory → Reply G S P
  cmd_status x name memory = elim x.status [
    | none ↦ status_unavailable
    | some raised ↦ failed name
    | some (ok found) ↦ status_of found memory.muted
  ]

  unfoldable pub cmd_report : CommandContext G S P → Text → Reply G S P
  cmd_report x name = elim x.performance [
    | none ↦ report_unavailable
    | some raised ↦ failed name
    | some (ok m) ↦ if x.has_total m then report_of m else nothing_evaluated
  ]

  -- The table of commands.
  unfoldable pub run_command :
      CommandContext G S P → Text → List Text → Memory → Reply G S P × Memory
  unfolding cmd_signals cmd_status cmd_report
  run_command x name args memory =
      if text_eq name (codes "start") || text_eq name (codes "help")
      then (help, memory)
      else if text_eq name (codes "signals")
      then (cmd_signals x name args, memory)
      else if text_eq name (codes "status")
      then (cmd_status x name memory, memory)
      else if text_eq name (codes "report")
      then (cmd_report x name, memory)
      else if text_eq name (codes "mute")
      then (now_muted, record memory { muted = true })
      else if text_eq name (codes "unmute")
      then (now_unmuted, record memory { muted = false })
      else (unknown name, memory)

  unfoldable pub run_words :
      CommandContext G S P → List Text → Memory → Option (Reply G S P) × Memory
  unfolding run_command without_slashes before_at
  run_words x [] memory = (none, memory)
  run_words x (first ∷ args) memory =
      let name = lower (before_at (without_slashes first)) in
      let (reply, memory') = run_command x name args memory in (some reply, memory')

  unfoldable pub handle_update :
      Settings G S P → Option Message → Memory → Option (Reply G S P) × Memory
  unfolding run_words words
  handle_update b message memory =
      let m = message_of message in
      let text = strip m.text in
      if not (starts_with_slash text)
      then (none, memory)
      else if not (text_eq (strip m.chat_id) b.allowed_chat_id)
      then (none, memory)
      else run_words b.context (words [] text) memory
