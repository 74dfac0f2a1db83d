-- ===== src/Channels/Usable.antt =====
-- The adapters that app/channels/outbound.py resolves, against the channels that
-- app/channels/registry.py calls usable.
use whatsapp_ai_bot.Prelude.{
  String, Bool, true, not, ◌&&◌, List, [], ◌∷◌, none, some, ◌≡◌, refl, ◌∙◌, ap, ◌↔◌, if◌then◌else◌,
  select, any, str_eq, eq_iff, Bool-cases, inl, inr, arith,
}
use whatsapp_ai_bot.Channels.{
  ChannelSettings, Switch, profiles, is_known, switches, is_enabled, enabled_switches,
  enabled_channels, meta_channels_for_object,
}
use whatsapp_ai_bot.Channels.Outbound.{
  adapter, adapter_class, outbound_adapter, meta_adapter, adapters_of, meta_inbound_adapters,
  is_unready, unready_channels, usable_channels,
}

abbrev pub lists : String → List String → Bool
lists x cs = any (λ c. str_eq c x) cs

lists-select :
    (p : String → Bool) (x : String) (cs : List String)
    → lists x (select p cs) ≡ (lists x cs && p x)
unfolding select any
lists-select p x [] = refl
lists-select p x (c ∷ cs) = elim (Bool-cases (str_eq c x)) [
  | inl same ↦
      let at_x : p c ≡ p x = ap p ((eq_iff c x).0 same) in
      ground (arith, same, at_x, lists-select p x cs)
  | inr apart ↦ ground (arith, apart, lists-select p x cs)
]

lists-enabled_switches :
    (x : String) (es : List Switch)
    → lists x (enabled_switches es) ≡ any (λ e. str_eq e.channel x && e.on) es
unfolding enabled_switches any
lists-enabled_switches x [] = refl
lists-enabled_switches x (e ∷ es) = ground (arith, lists-enabled_switches x es)

enabled_known : (x : String) (s : ChannelSettings) → is_enabled x s ≡ true → is_known x ≡ true
unfolding is_enabled is_known switches profiles any
enabled_known x s h = ground arith

module _ (strip : String → String) (s : ChannelSettings) where
  serves : String → Bool
  serves x = is_enabled x s && not (is_unready strip s x)

  lists-enabled : (x : String) → lists x (enabled_channels s) ≡ is_enabled x s
  unfolding enabled_channels is_enabled
  lists-enabled x = lists-enabled_switches x (switches s)

  lists-unready :
      (x : String) → lists x (unready_channels strip s) ≡ (is_enabled x s && is_unready strip s x)
  unfolding unready_channels
  lists-unready x =
      lists-select (is_unready strip s) x (enabled_channels s)
      ∙ ap (λ b. b && is_unready strip s x) (lists-enabled x)

  lists-usable : (x : String) → lists x (usable_channels strip s) ≡ serves x
  unfolding usable_channels serves
  lists-usable x =
      lists-select (λ c. not (lists c (unready_channels strip s))) x (enabled_channels s)
      ∙ ground (arith, lists-enabled x, lists-unready x)

  meta_adapter-serves : (x : String) → meta_adapter strip s x ≡ (if serves x then some x else none)
  unfolding meta_adapter adapter_class serves is_unready
  meta_adapter-serves x = ground (arith, enabled_known x s)

  -- A channel resolves to its own adapter exactly when it is among the usable channels.
  pub outbound_adapter-usable :
      (channel : String)
      → (outbound_adapter strip s channel ≡ adapter channel)
        ↔ (any (λ c. str_eq c channel) (usable_channels strip s) ≡ true)
  unfolding outbound_adapter adapter_class serves is_unready
  outbound_adapter-usable channel = ground (arith, enabled_known channel s, lists-usable channel)

  adapters_of-select :
      (cs : List String)
      → adapters_of strip s cs ≡ select (λ c. lists c (usable_channels strip s)) cs
  unfolding adapters_of select
  adapters_of-select [] = refl
  adapters_of-select (c ∷ cs) =
      ground (arith, meta_adapter-serves c, lists-usable c, adapters_of-select cs)

  -- A Meta delivery is handed to the usable ones of its object's channels, in their order.
  pub meta_inbound_adapters-usable :
      (object_type : String)
      → meta_inbound_adapters strip s object_type
        ≡ select
            (λ c. any (λ d. str_eq d c) (usable_channels strip s))
            (meta_channels_for_object object_type)
  unfolding meta_inbound_adapters
  meta_inbound_adapters-usable object_type =
      adapters_of-select (meta_channels_for_object object_type)
