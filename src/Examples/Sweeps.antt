-- ===== src/Examples/Sweeps.antt =====
-- Sweeps and channels at concrete inputs.
use whatsapp_ai_bot.Prelude.{
  ℕ, ◌≤◌, String, true, false, some, none, arith, List, [], ◌∷◌, any, select, ◌≡◌, refl, inl, ◌↔◌,
  str_eq,
}
use whatsapp_ai_bot.Store.Rows.{empty, whatsapp}
use whatsapp_ai_bot.Settings.{conversation_idle_timeout}
use whatsapp_ai_bot.Store.Messages.{claim_inbound, stored}
use whatsapp_ai_bot.Store.Conversations
use whatsapp_ai_bot.World.{World, Outside, ok, refused}
use whatsapp_ai_bot.Channels.{ChannelSettings, meta_channels_for_object}
use whatsapp_ai_bot.Channels.Outbound.{
  outbound_adapter, adapter, usable_channels, meta_inbound_adapters,
}
use whatsapp_ai_bot.Channels.Usable.{outbound_adapter-usable, meta_inbound_adapters-usable}
use whatsapp_ai_bot.Sessions.{Sweeper, sweep, sweeps}
use whatsapp_ai_bot.Sessions.Goodbye.{goodbyes, rows_of}
use whatsapp_ai_bot.Sessions.Goodbye.Once.{sweeps_close_once}
use whatsapp_ai_bot.Sessions.Closing.{is_still_open, has_customer}
use whatsapp_ai_bot.Sessions.Closing.Live.{sweep_closes}
use whatsapp_ai_bot.Examples.{service, killed_at, start, session_of, sara}

abbrev pub same_text : String → String
same_text t = t

-- WhatsApp is on, and Messenger is on without the page's token.
abbrev pub channels : ChannelSettings
channels = record {
  enable_whatsapp = true;
  enable_messenger = true;
  enable_instagram_dm = false;
  enable_facebook_comments = false;
  enable_instagram_comments = false;
  facebook_page_id = "page";
  facebook_page_access_token = "";
  facebook_verify_token = "";
  instagram_account_id = "";
  instagram_access_token = "";
  meta_app_secret = "";
  facebook_comment_dm_invite = false;
  instagram_comment_dm_invite = false;
  facebook_comment_dm_invite_message = "";
  instagram_comment_dm_invite_message = "";
}

outbound_adapter-usable_example :
    (outbound_adapter same_text channels whatsapp ≡ adapter whatsapp)
    ↔ (any (λ c. str_eq c whatsapp) (usable_channels same_text channels) ≡ true)
outbound_adapter-usable_example = outbound_adapter-usable same_text channels whatsapp

meta_inbound_adapters-usable_example :
    meta_inbound_adapters same_text channels "page"
    ≡ select
        (λ c. any (λ d. str_eq d c) (usable_channels same_text channels))
        (meta_channels_for_object "page")
meta_inbound_adapters-usable_example = meta_inbound_adapters-usable same_text channels "page"

abbrev pub sweeper : Outside → Sweeper
sweeper o = record { service = service o; channels = channels; strip = same_text }

-- A process that is killed at one tick, long after `start`.
abbrev late : ℕ → Outside
late n = record (killed_at n) { clock = λ t. 5000 }

-- A process that lives, and whose sends are all refused.
abbrev pub refusing : Outside
refusing = record (late 0) { dies = λ t. false; send = λ t. refused }

-- A session of Sara's that is idle for long.
abbrev idle : World
idle = record start {
  committed =
      (claim_inbound 100 1 "wamid.1" "text" (some "How much is it?") none (record empty {
        users = sara ∷ [];
        conversations = session_of 1 1 100 ∷ [];
        next_user = 2;
        next_conversation = 2;
      })).1;
}

-- A sweep that is killed as it sends, and two more.
abbrev swept : List Sweeper
swept = sweeper (late 3) ∷ sweeper (late 99) ∷ sweeper (late 99) ∷ []

sweeps_close_once_example : goodbyes 1 (sweeps swept idle).wire ≤ 1
unfolding rows_of select goodbyes claim_inbound stored any
sweeps_close_once_example = sweeps_close_once swept idle 1 (omega arith) refl

sweep_closes_example :
    (n : ℕ) × ((sweep (sweeper refusing) idle).0 ≡ ok n)
    × (is_still_open 1 (sweep (sweeper refusing) idle).1.committed ≡ false)
unfolding has_customer any stored claim_inbound Conversations.claim_idle_sessions
    Conversations.candidates Conversations.is_idle Conversations.is_sweepable
    Conversations.sort_by_activity Conversations.insert_by_activity select conversation_idle_timeout
sweep_closes_example =
    sweep_closes (sweeper refusing) idle 1 refl refl (λ t. refl) (λ t. inl refl) refl refl
