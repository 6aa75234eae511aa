-- ===== src/TelegramCommands/Boundary.antt =====
-- What the updates of other chats can do.
use garnet_trader.Prelude.{
  ℕ, max, ◌+◌, ◌≡◌, refl, sym, ap, ◌∙◌, inl, inr, Bool, true, false, not, ◌||◌, Option, none, some,
  List, [], ◌∷◌, ◌++◌, if◌then◌else◌, arith, Bool-cases, Option-cases, append_nil,
}
use garnet_trader.Prelude.Text.{Text, text_eq}
use garnet_trader.Acknowledgement.{strip}
use garnet_trader.TelegramCommands.{
  not_allowed, unknown_button, not_active, not_saved, saved, Call, send_message, answer_callback,
  Message, Update, Memory, Settings, TelegramCommandBot, message_of, starts_with_slash,
  handle_update,
}
use garnet_trader.TelegramCommands.Polling.{
  reaction, answered, handle_callback, react, moved_offset, handle_updates, poll_once,
}

-- The offset past every update that has an identifier, whoever sent it.
abbrev pub past_id : Option ℕ → ℕ
past_id none = 0
past_id (some id) = id + 1

unfoldable pub past_all : List Update → ℕ → ℕ
past_all [] offset = offset
past_all (u ∷ us) offset = max (past_id u.update_id) (past_all us offset)

moved-past_id :
    (id : Option ℕ) (offset : ℕ)
    → (elim id [ none ↦ offset | some n ↦ max offset (n + 1) ]) ≡ max (past_id id) offset
moved-past_id none offset = omega arith
moved-past_id (some n) offset = omega arith

past_all-moved_offset :
    (u : Update) (us : List Update) (offset : ℕ)
    → past_all us (moved_offset u offset) ≡ max (past_id u.update_id) (past_all us offset)
unfolding past_all
past_all-moved_offset u [] offset = moved-past_id u.update_id offset
past_all-moved_offset u (v ∷ us) offset = omega (arith, past_all-moved_offset u us offset)

module _ {G S P : Type 0} where
  -- The chat of an update is not the one that is allowed.
  abbrev pub is_foreign : Settings G S P → Update → Bool
  is_foreign b u = elim u.callback_query [
    | some q ↦ not (text_eq q.chat_id b.allowed_chat_id)
    | none ↦ not (text_eq (strip (message_of u.message).chat_id) b.allowed_chat_id)
  ]

  -- The updates of the chat that is allowed.
  unfoldable pub own : Settings G S P → List Update → List Update
  own b [] = []
  own b (u ∷ us) = let rest = own b us in if is_foreign b u then rest else u ∷ rest

  abbrev is_denial : Call G S P → Bool
  is_denial (send_message reply) = false
  is_denial (answer_callback id not_allowed) = true
  is_denial (answer_callback id unknown_button) = false
  is_denial (answer_callback id not_active) = false
  is_denial (answer_callback id not_saved) = false
  is_denial (answer_callback id (saved action)) = false

  -- The calls that say more than that a chat is not allowed.
  unfoldable pub telling : List (Call G S P) → List (Call G S P)
  telling [] = []
  telling (c ∷ cs) = let rest = telling cs in if is_denial c then rest else c ∷ rest

  telling_none : telling [] ≡ []
  unfolding telling
  telling_none = refl

  telling-append : (xs ys : List (Call G S P)) → telling (xs ++ ys) ≡ telling xs ++ telling ys
  unfolding telling
  telling-append [] ys = refl
  telling-append (x ∷ xs) ys = let rest = telling-append xs ys in ground (arith, rest)

  telling-answered : (id : Text) → telling (answered id not_allowed) ≡ []
  unfolding telling answered
  telling-answered [] = refl
  telling-answered (c ∷ id) = refl

  handle_update-foreign :
      (b : Settings G S P) (message : Option Message) (memory : Memory)
      → text_eq (strip (message_of message).chat_id) b.allowed_chat_id ≡ false
      → handle_update b message memory ≡ (none, memory)
  unfolding handle_update
  handle_update-foreign b message memory other =
      elim (Bool-cases (starts_with_slash (strip (message_of message).text))) [
        | inl command ↦ ground (arith, command, other)
        | inr plain ↦ ground (arith, plain)
      ]

  -- An update of another chat counts for nothing, changes no memory and tells nothing.
  react-foreign :
      (b : Settings G S P) (u : Update) (memory : Memory)
      → is_foreign b u ≡ true
      → ((react b u memory).handled ≡ 0)
        × ((react b u memory).memory ≡ memory)
        × (telling (react b u memory).calls ≡ [])
  unfolding react handle_callback
  react-foreign b u memory foreign = elim (Option-cases u.callback_query) [
    | inr (q, e) ↦
        let other : text_eq q.chat_id b.allowed_chat_id ≡ false = ground (arith, e, foreign) in
        rw (e, other) (refl, refl, telling-answered q.id)
    | inl missing ↦
        let other : text_eq (strip (message_of u.message).chat_id) b.allowed_chat_id ≡ false =
          ground (arith, missing, foreign) in
        let same : react b u memory ≡ reaction 0 memory [] =
          ground (arith, missing, handle_update-foreign b u.message memory other) in
        (
          ap (λ r. r.handled) same,
          ap (λ r. r.memory) same,
          ap (λ r. telling r.calls) same ∙ telling_none,
        )
  ]

  -- The same memory, and the same calls but for the answers that a chat is not allowed.
  abbrev pub AreAlike : TelegramCommandBot G S P → TelegramCommandBot G S P → Type 0
  AreAlike bot bot' = (bot.memory ≡ bot'.memory) × (telling bot.calls ≡ telling bot'.calls)

  abbrev after : Settings G S P → Update → TelegramCommandBot G S P → TelegramCommandBot G S P
  after b u bot = record bot {
    offset = moved_offset u bot.offset;
    memory = (react b u bot.memory).memory;
    calls = bot.calls ++ (react b u bot.memory).calls;
  }

  after-foreign :
      (b : Settings G S P) (u : Update) (bot bot' : TelegramCommandBot G S P)
      → is_foreign b u ≡ true
      → AreAlike bot bot'
      → AreAlike (after b u bot) bot'
  after-foreign b u bot bot' foreign alike =
      let nothing = react-foreign b u bot.memory foreign in
      (
        nothing.1 ∙ alike.0,
        telling-append bot.calls (react b u bot.memory).calls
            ∙ ap (λ ys. telling bot.calls ++ ys) nothing.2
            ∙ append_nil (telling bot.calls)
            ∙ alike.1,
      )

  after-AreAlike :
      (b : Settings G S P) (u : Update) (bot bot' : TelegramCommandBot G S P)
      → AreAlike bot bot'
      → AreAlike (after b u bot) (after b u bot')
  after-AreAlike b u bot bot' alike = (
    ap (λ m. (react b u m).memory) alike.0,
    telling-append bot.calls (react b u bot.memory).calls
        ∙ ap (λ ys. ys ++ telling (react b u bot.memory).calls) alike.1
        ∙ ap (λ m. telling bot'.calls ++ telling (react b u m).calls) alike.0
        ∙ sym (telling-append bot'.calls (react b u bot'.memory).calls),
  )

  handle_updates-own :
      (b : Settings G S P) (us : List Update) (bot bot' : TelegramCommandBot G S P)
      → AreAlike bot bot'
      → let r = handle_updates b us bot in
        let r' = handle_updates b (own b us) bot' in (r.0 ≡ r'.0) × AreAlike r.1 r'.1
  unfolding handle_updates own
  handle_updates-own b [] bot bot' alike = (refl, alike)
  handle_updates-own b (u ∷ us) bot bot' alike = elim (Bool-cases (is_foreign b u)) [
    | inl foreign ↦
        let rest =
          handle_updates-own b us (after b u bot) bot' (after-foreign b u bot bot' foreign alike) in
        let skipped : own b (u ∷ us) ≡ own b us = ground (arith, foreign) in
        let nothing = (react-foreign b u bot.memory foreign).0 in
        let count : (handle_updates b (u ∷ us) bot).0 ≡ (handle_updates b us (after b u bot)).0 =
          ap (λ k. k + (handle_updates b us (after b u bot)).0) nothing ∙ omega arith in
        rw skipped (count ∙ rest.0, rest.1)
    | inr ours ↦
        let rest =
          handle_updates-own b us (after b u bot) (after b u bot')
            (after-AreAlike b u bot bot' alike) in
        let kept : own b (u ∷ us) ≡ u ∷ own b us = ground (arith, ours) in
        rw kept (
          ap (λ m. (react b u m).handled + (handle_updates b us (after b u bot)).0) alike.0
              ∙ ap (λ k. (react b u bot'.memory).handled + k) rest.0,
          rest.1,
        )
  ]

  handle_updates-past_all :
      (b : Settings G S P) (us : List Update) (bot : TelegramCommandBot G S P)
      → (handle_updates b us bot).1.offset ≡ past_all us bot.offset
  unfolding handle_updates past_all
  handle_updates-past_all b [] bot = refl
  handle_updates-past_all b (u ∷ us) bot =
      handle_updates-past_all b us (after b u bot) ∙ past_all-moved_offset u us bot.offset

  -- The program answers nobody: it has no token or no chat that is allowed.
  abbrev pub is_off : Settings G S P → Bool
  is_off b = text_eq b.bot_token [] || text_eq b.allowed_chat_id []

  -- But for the offset, a poll does the same as if the updates of other chats had never come: it
  -- counts the same commands, leaves the same memory, which is the mute and the acknowledgements, and
  -- makes the same calls but for the answers that a chat is not allowed. The offset moves past the
  -- updates of other chats too, so that none is fetched again; without a token or an allowed chat it
  -- stays.
  pub poll_once-own :
      (b : Settings G S P) (us : List Update) (bot : TelegramCommandBot G S P)
      → let r = poll_once b (some us) bot in
        let r' = poll_once b (some (own b us)) bot in
        (r.0 ≡ r'.0)
        × AreAlike r.1 r'.1
        × (r.1.offset ≡ (if is_off b then bot.offset else past_all us bot.offset))
  unfolding poll_once
  poll_once-own b us bot = elim (Bool-cases (is_off b)) [
    | inl off ↦ rw off (refl, (refl, refl), refl)
    | inr on ↦
        let alike = handle_updates-own b us bot bot (refl, refl) in
        rw on (alike.0, alike.1, handle_updates-past_all b us bot)
  ]
