-- ===== src/Channels/Outbound.antt =====
-- app/channels/outbound.py: which adapter carries a message. An adapter is named by its channel; that
-- every channel's module registers one is what `_register_adapters` imports them for.
use whatsapp_ai_bot.Prelude.{
  String, Bool, true, false, List, [], ◌∷◌, Option, none, some, if◌then◌else◌, str_eq, any, not,
  select,
}
use whatsapp_ai_bot.Channels.{
  ChannelSettings, is_known, is_enabled, missing_credentials, meta_dm_channel,
  meta_channels_for_object, enabled_channels,
}

-- Why `ChannelUnavailableError` is raised.
pub data Unavailable : Type 0 where
  unknown_channel switched_off not_configured no_adapter : Unavailable

pub data Resolved : Type 0 where
  adapter : String → Resolved
  unavailable : Unavailable → Resolved

-- `if missing:`, and the truth of any list.
abbrev pub is_empty {ℓ} : {A : Type ℓ} → List A → Bool
is_empty [] = true
is_empty (x ∷ xs) = false

-- `adapter_class` after `_register_adapters`: the five modules register the five known channels.
unfoldable pub adapter_class : String → Option String
unfolding is_known
adapter_class channel = if is_known channel then some channel else none

abbrev constructed : Option String → Resolved
constructed none = unavailable no_adapter
constructed (some c) = adapter c

module _ (strip : String → String) (s : ChannelSettings) where
  unfoldable pub outbound_adapter : String → Resolved
  unfolding adapter_class
  outbound_adapter channel =
      if not (is_known channel)
      then unavailable unknown_channel
      else if not (is_enabled channel s)
      then unavailable switched_off
      else if not (is_empty (missing_credentials strip channel s))
      then unavailable not_configured
      else constructed (adapter_class channel)

  -- `_meta_adapter`
  unfoldable pub meta_adapter : String → Option String
  unfolding adapter_class
  meta_adapter channel =
      if not (is_enabled channel s)
      then none
      else if not (is_empty (missing_credentials strip channel s))
      then none
      else adapter_class channel

  abbrev meta_adapter_of : Option String → Option String
  meta_adapter_of none = none
  meta_adapter_of (some c) = meta_adapter c

  unfoldable pub meta_inbound_adapter : String → Option String
  unfolding meta_adapter
  meta_inbound_adapter object_type = meta_adapter_of (meta_dm_channel object_type)

  abbrev append_adapter : Option String → List String → List String
  append_adapter none rest = rest
  append_adapter (some c) rest = c ∷ rest

  unfoldable pub adapters_of : List String → List String
  unfolding meta_adapter
  adapters_of [] = []
  adapters_of (c ∷ cs) = append_adapter (meta_adapter c) (adapters_of cs)

  unfoldable pub meta_inbound_adapters : String → List String
  unfolding adapters_of
  meta_inbound_adapters object_type = adapters_of (meta_channels_for_object object_type)

  -- The keys of `readiness` of app/channels/registry.py: the enabled channels that lack a credential.
  unfoldable pub is_unready : String → Bool
  is_unready channel = not (is_empty (missing_credentials strip channel s))

  unfoldable pub unready_channels : List String
  unfolding is_unready
  unready_channels = select is_unready (enabled_channels s)

  -- `usable_channels` of app/channels/registry.py
  unfoldable pub usable_channels : List String
  unfolding unready_channels
  usable_channels = select (λ c. not (any (λ d. str_eq d c) unready_channels)) (enabled_channels s)
