-- ===== src/Channels.antt =====
-- The channels of app/channels/constants.py, their switches and credentials
-- (app/channels/config.py), and what app/channels/registry.py says of them. A channel is its id, a
-- text; a dictionary is the list of its entries. Python's `str.strip` is a parameter.
pub mod Outbound
pub mod Usable
use whatsapp_ai_bot.Prelude.{
  ℕ, String, Bool, true, false, not, ◌&&◌, ◌||◌, List, [], ◌∷◌, map, Option, none, some,
  if◌then◌else◌, any, find, str_eq,
}
use whatsapp_ai_bot.Store.Rows.{whatsapp, messenger}

abbrev pub instagram_dm : String
instagram_dm = "instagram_dm"

abbrev pub facebook_comment : String
facebook_comment = "facebook_comment"

abbrev pub instagram_comment : String
instagram_comment = "instagram_comment"

pub record ChannelProfile : Type 0 where
  pub id : String
  pub label : String
  pub is_private : Bool
  pub has_session : Bool
  pub supports_quick_replies : Bool
  pub supports_media_out : Bool
  pub reply_window_hours : ℕ
  pub private_sibling : Option String

abbrev private_profile : String → String → ChannelProfile
private_profile id label = record {
  id = id;
  label = label;
  is_private = true;
  has_session = true;
  supports_quick_replies = true;
  supports_media_out = true;
  reply_window_hours = 24;
  private_sibling = none;
}

abbrev comment_profile : String → String → String → ChannelProfile
comment_profile id label sibling = record {
  id = id;
  label = label;
  is_private = false;
  has_session = false;
  supports_quick_replies = false;
  supports_media_out = false;
  reply_window_hours = 24;
  private_sibling = some sibling;
}

-- `PROFILES`
unfoldable pub profiles : List ChannelProfile
profiles =
    private_profile whatsapp "WhatsApp"
    ∷ private_profile messenger "Messenger"
    ∷ private_profile instagram_dm "Instagram DM"
    ∷ comment_profile facebook_comment "Facebook Comment" messenger
    ∷ comment_profile instagram_comment "Instagram Comment" instagram_dm
    ∷ []

-- `profile`; `none` is the `ValueError`.
unfoldable pub profile : String → Option ChannelProfile
unfolding profiles
profile channel = find (λ p. str_eq p.id channel) profiles

unfoldable pub is_known : String → Bool
unfolding profiles
is_known channel = any (λ p. str_eq p.id channel) profiles

-- `ChannelSettings`
pub record ChannelSettings : Type 0 where
  pub enable_whatsapp : Bool
  pub enable_messenger : Bool
  pub enable_instagram_dm : Bool
  pub enable_facebook_comments : Bool
  pub enable_instagram_comments : Bool
  pub facebook_page_id : String
  pub facebook_page_access_token : String
  pub facebook_verify_token : String
  pub instagram_account_id : String
  pub instagram_access_token : String
  pub meta_app_secret : String
  pub facebook_comment_dm_invite : Bool
  pub instagram_comment_dm_invite : Bool
  pub facebook_comment_dm_invite_message : String
  pub instagram_comment_dm_invite_message : String

-- `text or other`
abbrev pub or_text : String → String → String
or_text text other = if str_eq text "" then other else text

pub record Switch : Type 0 where
  pub channel : String
  pub on : Bool

-- `switches`
unfoldable pub switches : ChannelSettings → List Switch
switches s =
    record { channel = whatsapp; on = s.enable_whatsapp }
    ∷ record { channel = messenger; on = s.enable_messenger }
    ∷ record { channel = instagram_dm; on = s.enable_instagram_dm }
    ∷ record { channel = facebook_comment; on = s.enable_facebook_comments }
    ∷ record { channel = instagram_comment; on = s.enable_instagram_comments }
    ∷ []

-- `dm_invite_enabled`
unfoldable pub dm_invite_enabled : ChannelSettings → String → Bool
dm_invite_enabled s channel =
    if str_eq channel facebook_comment
    then s.facebook_comment_dm_invite
    else if str_eq channel instagram_comment
    then s.instagram_comment_dm_invite
    else false

-- `is_enabled`: an unknown channel is off.
unfoldable pub is_enabled : String → ChannelSettings → Bool
unfolding switches
is_enabled channel s = any (λ e. str_eq e.channel channel && e.on) (switches s)

-- `enabled_channels`
unfoldable pub enabled_switches : List Switch → List String
enabled_switches [] = []
enabled_switches (e ∷ es) =
    let rest = enabled_switches es in if e.on then e.channel ∷ rest else rest

unfoldable pub enabled_channels : ChannelSettings → List String
unfolding switches enabled_switches
enabled_channels s = enabled_switches (switches s)

-- `META_CHANNELS` and `any_meta_channel_enabled`
abbrev pub meta_channels : List String
meta_channels = messenger ∷ instagram_dm ∷ facebook_comment ∷ instagram_comment ∷ []

unfoldable pub any_meta_channel_enabled : ChannelSettings → Bool
unfolding is_enabled
any_meta_channel_enabled s = any (λ c. is_enabled c s) meta_channels

unfoldable pub meta_dm_channel : String → Option String
meta_dm_channel object_type =
    if str_eq object_type "page"
    then some messenger
    else if str_eq object_type "instagram"
    then some instagram_dm
    else none

unfoldable pub meta_comment_channel : String → Option String
meta_comment_channel object_type =
    if str_eq object_type "page"
    then some facebook_comment
    else if str_eq object_type "instagram"
    then some instagram_comment
    else none

abbrev cons_option : Option String → List String → List String
cons_option none rest = rest
cons_option (some c) rest = c ∷ rest

unfoldable pub meta_channels_for_object : String → List String
unfolding meta_dm_channel meta_comment_channel
meta_channels_for_object object_type =
    cons_option (meta_dm_channel object_type) (cons_option (meta_comment_channel object_type) [])

module _ (strip : String → String) where
  unfoldable pub instagram_token : ChannelSettings → String
  instagram_token s = or_text (strip s.instagram_access_token) s.facebook_page_access_token

  -- The handshake token and the signing secret of the Meta webhook.
  unfoldable pub verify_token : ChannelSettings → String → String
  verify_token s whatsapp_verify_token =
      or_text (strip s.facebook_verify_token) whatsapp_verify_token

  unfoldable pub app_secret : ChannelSettings → String → String
  app_secret s whatsapp_app_secret = or_text (strip s.meta_app_secret) whatsapp_app_secret

  abbrev page_credentials : ChannelSettings → List (String × String)
  page_credentials s =
      ("facebook_page_id", s.facebook_page_id)
      ∷ ("facebook_page_access_token", s.facebook_page_access_token)
      ∷ []

  abbrev instagram_credentials : ChannelSettings → List (String × String)
  instagram_credentials s =
      ("instagram_account_id", s.instagram_account_id) ∷ ("instagram_token", instagram_token s) ∷ []

  -- `REQUIRED_CREDENTIALS`, each name with its value.
  unfoldable pub required_credentials : String → ChannelSettings → List (String × String)
  unfolding instagram_token
  required_credentials channel s =
      if str_eq channel messenger || str_eq channel facebook_comment
      then page_credentials s
      else if str_eq channel instagram_dm || str_eq channel instagram_comment
      then instagram_credentials s
      else []

  unfoldable pub blank_names : List (String × String) → List String
  blank_names [] = []
  blank_names ((name, value) ∷ rest) =
      let others = blank_names rest in if str_eq (strip value) "" then name ∷ others else others

  unfoldable pub missing_credentials : String → ChannelSettings → List String
  unfolding required_credentials blank_names
  missing_credentials channel s = blank_names (required_credentials channel s)
