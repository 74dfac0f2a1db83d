-- ===== src/Tokens.antt =====
-- app/utils/tokens.py: `trim_history`, which cuts a conversation's history to the model's budget.
-- `count_tokens` calls tiktoken, which is not part of the repository: it is the parameter
-- `count_tokens` of the model. A history entry is the dict `{"role": ..., "content": ...}` that
-- `ConversationService.build_history` makes, so both keys are present.
pub mod Loop
pub mod Window
use whatsapp_ai_bot.Prelude.{
  ℕ, ◌+◌, String, Bool, true, false, ◌&&◌, List, [], ◌∷◌, ◌++◌, reverse, ltb, ◌==◌, if◌then◌else◌,
  take_last,
}

pub record Turn : Type 0 where
  pub role : String
  pub content : String

-- `_MESSAGE_OVERHEAD_TOKENS`
abbrev pub message_overhead_tokens : ℕ
message_overhead_tokens = 4

abbrev pub is_nonempty {ℓ} : {A : Type ℓ} → List A → Bool
is_nonempty [] = false
is_nonempty (x ∷ xs) = true

-- Python's `xs[-n:]`: with `n` equal to 0 it is the whole list.
unfoldable pub slice_last {ℓ} : {A : Type ℓ} → ℕ → List A → List A
slice_last n xs = if n == 0 then xs else take_last n xs

module _ (count_tokens : String → ℕ) where
  unfoldable pub cost : Turn → ℕ
  cost m = count_tokens m.content + message_overhead_tokens

  -- The loop of `trim_history`, over the entries from newest to oldest.
  unfoldable pub collect : ℕ → ℕ → List Turn → List Turn → List Turn
  collect max_tokens total trimmed [] = trimmed
  collect max_tokens total trimmed (m ∷ older) =
      let rest = collect max_tokens (total + cost m) (trimmed ++ m ∷ []) older in
      if is_nonempty trimmed && ltb max_tokens (total + cost m) then trimmed else rest

  unfoldable pub trim_history : List Turn → ℕ → ℕ → List Turn
  trim_history history max_messages max_tokens =
      reverse (collect max_tokens 0 [] (reverse (slice_last max_messages history)))
