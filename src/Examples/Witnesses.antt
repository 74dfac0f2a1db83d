-- ===== src/Examples/Witnesses.antt =====
-- The theorems at concrete inputs.
use Prim.Native.String.{count, ◌++◌ as append_text}
use text.Mathlib.TextLemmas.{length-append}
use whatsapp_ai_bot.Prelude.{
  find, latest, later, inl, ℕ, ◌+◌, ◌≤◌, ◌<◌, String, true, false, List, [], ◌∷◌, ◌++◌, none, some,
  ◌≡◌, ◌≢◌, refl, arith, All, any, select, length, ◌==◌, ◌⊎◌,
}
use whatsapp_ai_bot.Tokens.{Turn, trim_history, cost, slice_last, collect}
use whatsapp_ai_bot.Tokens.Loop.{total_cost, leave, pick}
use whatsapp_ai_bot.Tokens.Window.{trim_history_window, trim_history_maximal, older}
use whatsapp_ai_bot.Redis.{fresh, counter, add_new, members, trim, count_within}
use whatsapp_ai_bot.Store.Rows.{
  human, Conversation, empty, whatsapp, derive_session_state, waiting_idle,
}
use whatsapp_ai_bot.Store.Messages.{reserved, stored, claim_inbound}
use whatsapp_ai_bot.Store.Conversations
use whatsapp_ai_bot.Store.Conversations.{
  active_for_user, get_or_create_active, is_open_for, claim_idle_sessions, is_idle, index_holds,
  is_sweepable,
}
use whatsapp_ai_bot.Store.Conversations.Laws.{WellFormed}
use whatsapp_ai_bot.Store.Conversations.Active.{get_or_create_active_opens}
use whatsapp_ai_bot.Store.Conversations.Claims.{is_idle-waiting}
use whatsapp_ai_bot.Store.Conversations.Sweep.{claim_idle_sessions_disjoint}
use whatsapp_ai_bot.Store.Conversations.Consistent.{Consistent, Rows, statements_keep_Consistent}
use whatsapp_ai_bot.Store.Conversations.Untouched.{reopenings_leave_active}
use whatsapp_ai_bot.Store.Conversations.Waiting.{
  WaitingAt, claim_idle_sessions-WaitingAt, claims-Waiting,
}
use whatsapp_ai_bot.World.{World, Wire, ok}
use whatsapp_ai_bot.Quota.Types.{allowed}
use whatsapp_ai_bot.World.Effects.{pure, redis, ◌>>=◌}
use whatsapp_ai_bot.Quota.Customer.{
  count_message, count_and_check, check_counts, check_repeats, check_rates,
}
use whatsapp_ai_bot.Quota.Customer.Limits.{LogWithin, log_of, count_and_check-LogWithin}
use whatsapp_ai_bot.Quota.Customer.Recount.{
  QuotaStep, counted, blocked, run_steps, count_message_again,
}
use whatsapp_ai_bot.Quota.Check.{check}
use whatsapp_ai_bot.Quota.Check.Outage.{check_fails_open}
use whatsapp_ai_bot.Quota.Spend.{judge_usage, read_usage, add_usage, completion_cost}
use whatsapp_ai_bot.Quota.Spend.Totals.{record_all, total_tokens, judge_usage-record_all}
use whatsapp_ai_bot.Chat.Service.{Service, paragraphs}
use whatsapp_ai_bot.Chat.Reservation.Views.{answers, accepted_answers}
use whatsapp_ai_bot.Webhook.{Delivery, attempt, attempts}
use whatsapp_ai_bot.Webhook.Once.{attempts_answer_once}
use whatsapp_ai_bot.Webhook.Redelivery.{attempt_ignores_stored, carries}
use whatsapp_ai_bot.Store.Users.{get_by_wa_id}
use whatsapp_ai_bot.Webhook.Handoff.{customer, comes_from, attempt_leaves_to_human}
use whatsapp_ai_bot.Webhook.Amounts.{CleanCopy, IsClean, attempt_sends_no_amount}
use whatsapp_ai_bot.Examples.{
  floats, settings, texts, service, killed_at, redis_is_down, start, question, session_of,
  three_sessions, sara, with_operator, operator_answers,
}

-- A first attempt that is killed at its seventh effect, and two retries.
abbrev retried : List (Service × Delivery)
retried =
    (service (killed_at 6), question)
    ∷ (service (killed_at 99), question)
    ∷ (service (killed_at 99), question)
    ∷ []

attempts_answer_once_example :
    (accepted_answers "wamid.1" (attempts retried start).wire ≤ 1)
    × (answers "wamid.1" (attempts retried start).wire ≤ 2)
unfolding reserved any answers select
attempts_answer_once_example = attempts_answer_once retried start "wamid.1" refl refl

-- A world in which the question is stored, and was not answered.
abbrev stored_question : World
stored_question = record start {
  committed = (claim_inbound 1000 1 "wamid.1" "text" (some "How much is it?") none empty).1;
}

attempt_ignores_stored_example :
    ((attempt (service (killed_at 99)) question stored_question).1.committed
      ≡ stored_question.committed)
    × ((attempt (service (killed_at 99)) question stored_question).1.wire ≡ [])
unfolding stored claim_inbound any carries
attempt_ignores_stored_example =
    attempt_ignores_stored (service (killed_at 99)) question stored_question "wamid.1" refl refl

prefix_adds : (t : String) → (count (paragraphs "Hello" t) == 3) ≡ false
prefix_adds t = ground (arith, length-append "Hello" (append_text "\n\n" t), length-append "\n\n" t)

clean_copy : CleanCopy (service (killed_at 99))
clean_copy = record {
  welcome = refl;
  opening = refl;
  out_of_scope = refl;
  handoff = refl;
  sales = refl;
  capacity = refl;
  abuse = refl;
  rate_limit = refl;
  service = λ id. refl;
  unsupported = refl;
  deflection = refl;
  prefix = λ t h. prefix_adds t;
}

attempt_sends_no_amount_example :
    All
      (λ (x : Wire). IsClean (service (killed_at 99)) x.text)
      (attempt (service (killed_at 99)) question start).1.wire
attempt_sends_no_amount_example =
    attempt_sends_no_amount (service (killed_at 99)) question start clean_copy tt

attempt_leaves_to_human_example :
    (attempt (service (killed_at 99)) question operator_answers).1.wire ≡ []
unfolding customer get_by_wa_id find active_for_user is_open_for select latest later comes_from
attempt_leaves_to_human_example =
    attempt_leaves_to_human (service (killed_at 99)) question operator_answers "201" sara
      with_operator refl refl refl refl

three_sessions-WellFormed : WellFormed three_sessions
unfolding index_holds is_open_for any
three_sessions-WellFormed = record {
  one_active = refl;
  falling = (omega arith, (omega arith, (omega arith, tt)));
}

get_or_create_active_opens_example :
    (c : Conversation) × ((get_or_create_active 1000 40 (some 1800) whatsapp three_sessions).0
      ≡ some c)
    × (is_open_for 40 c ≡ true)
    × WellFormed (get_or_create_active 1000 40 (some 1800) whatsapp three_sessions).1
    × (get_or_create_active 1100 40 none whatsapp
          (get_or_create_active 1000 40 (some 1800) whatsapp three_sessions).1
        ≡ (some c, (get_or_create_active 1000 40 (some 1800) whatsapp three_sessions).1))
get_or_create_active_opens_example =
    get_or_create_active_opens 1000 40 (some 1800) whatsapp three_sessions 1100 none whatsapp
      three_sessions-WellFormed

three_sessions-Rows : Rows three_sessions
three_sessions-Rows = (steady 3 30 990, (steady 2 20 100, (steady 1 10 200, tt)))
  where
    steady : (id user t : ℕ) → Consistent (session_of id user t)
    steady id user t = record { ended = refl; handed = refl; unowned = λ e. refl }

statements_keep_Consistent_example :
    Rows (get_or_create_active 1000 40 none whatsapp three_sessions).1
    × Rows (Conversations.reopen_recent 1000 40 900 three_sessions).1
    × Rows (Conversations.reopen 1000 2 three_sessions).1
    × Rows (Conversations.set_mode 1000 2 human (some "Mona") none three_sessions)
    × Rows (Conversations.touch 1000 2 three_sessions)
    × Rows (Conversations.mark_welcome_sent 1000 2 three_sessions)
    × Rows (claim_idle_sessions 1000 900 5 three_sessions).1
    × Rows (Conversations.close 1000 2 three_sessions)
    × Rows (Conversations.delete 2 three_sessions)
statements_keep_Consistent_example =
    statements_keep_Consistent 1000 2 40 5 900 900 none whatsapp human (some "Mona") none
      three_sessions three_sessions-Rows

claim_idle_sessions_disjoint_example :
    All
      (λ i. any (λ j. i == j) (claim_idle_sessions 1000 900 1 three_sessions).0 ≡ false)
      (claim_idle_sessions 1060 960 5 (claim_idle_sessions 1000 900 1 three_sessions).1).0
claim_idle_sessions_disjoint_example =
    claim_idle_sessions_disjoint 1000 900 1 1060 960 5 three_sessions three_sessions-WellFormed

claim_idle_sessions-WaitingAt_example :
    All (WaitingAt 900 three_sessions) (claim_idle_sessions 1000 900 5 three_sessions).0
    × (length (claim_idle_sessions 1000 900 5 three_sessions).0 ≤ 5)
claim_idle_sessions-WaitingAt_example =
    claim_idle_sessions-WaitingAt 1000 900 5 three_sessions three_sessions-WellFormed

-- The open session itself is to be reopened.
reopenings_leave_active_example :
    (Conversations.get 2 (Conversations.reopen 1000 2 three_sessions).1
      ≡ some (session_of 2 20 100))
    × (Conversations.get 2 (Conversations.reopen_recent 1000 10 900 three_sessions).1
        ≡ some (session_of 2 20 100))
unfolding Conversations.get find
reopenings_leave_active_example =
    reopenings_leave_active 1000 2 10 900 2 (session_of 2 20 100) three_sessions refl refl

claims-Waiting_example : any (λ i. i == 2) (claim_idle_sessions 1000 900 5 three_sessions).0 ≡ true
unfolding is_idle is_sweepable select Conversations.get find
claims-Waiting_example =
    claims-Waiting 1000 900 5 2 three_sessions (session_of 2 20 100) (omega arith) refl (record {
      is_on = refl;
      with_bot = refl;
      swept = inl refl;
      unmarked = refl;
      silent = omega arith;
    })

is_idle-waiting_example : derive_session_state (session_of 2 20 100) 300 1000 ≡ waiting_idle
unfolding is_idle is_sweepable
is_idle-waiting_example = is_idle-waiting (session_of 2 20 100) 300 1000 refl

check_fails_open_example :
    (check redis_is_down settings texts "201" "wamid.1" (some "hello") start).0 ≡ ok allowed
check_fails_open_example =
    check_fails_open redis_is_down settings texts "201" "wamid.1" (some "hello") start (λ t. refl)
      (λ t. refl)

-- Another message of the customer, and a block, in between.
abbrev between : List QuotaStep
between = counted "201" "wamid.2" 1002 1002 ∷ blocked "202" 900 1003 ∷ []

count_message_again_example :
    (count_message settings "201" "wamid.1" 1005 1005 (
      run_steps settings between
        (count_message settings "201" "wamid.1" 1000 1000 fresh).1)).0.added
    ≡ false
unfolding count_message add_new members trim any select
count_message_again_example =
    count_message_again settings "201" "wamid.1" 1000 1000 1005 1005 between fresh refl
      ((omega arith, omega arith, omega arith), (tt, tt)) (omega arith) (omega arith)

judge_usage-record_all_example :
    ((judge_usage settings (read_usage 7 0 fresh).0).is_allowed ≡ true)
    × (counter 7 fresh.tokens + total_tokens ((40, 10) ∷ []) < settings.daily_token_limit)
unfolding judge_usage read_usage record_all add_usage completion_cost counter
judge_usage-record_all_example =
    judge_usage-record_all floats settings 7 0 ((40, 10) ∷ []) fresh (λ a b. omega arith) refl

-- Three messages of five tokens, and four of overhead each.
abbrev said : String → Turn
said t = record { role = "user"; content = t }

abbrev history : List Turn
history = said "one" ∷ said "two" ∷ said "three" ∷ []

abbrev five : String → ℕ
five t = 5

trim_history_window_example :
    (older five history 10 20 ++ trim_history five history 10 20 ≡ history)
    × (trim_history five history 10 20 ≢ [])
    × (length (trim_history five history 10 20) ≤ 10)
    × ((total_cost five (trim_history five history 10 20) ≤ 20)
        ⊎ (length (trim_history five history 10 20) ≡ 1))
trim_history_window_example =
    trim_history_window five history 10 20 (omega arith) (λ e. absurd (cc e))

trim_history_maximal_example :
    20 < total_cost five (trim_history five history 10 20) + cost five (said "one")
unfolding older trim_history slice_last collect leave pick cost
trim_history_maximal_example =
    trim_history_maximal five history [] (said "one") 10 20 (omega arith) refl (omega arith)

count_and_check-LogWithin_example : LogWithin settings 1000 (log_of "201" 1000 fresh)
unfolding count_and_check redis ◌>>=◌ count_message check_counts check_repeats check_rates pure
    members trim add_new count_within any select
count_and_check-LogWithin_example =
    count_and_check-LogWithin (killed_at 99) settings texts "201" "wamid.1" none 1000 start
      (count_and_check (killed_at 99) settings texts "201" "wamid.1" none 1000 start).1 allowed refl
      refl refl
