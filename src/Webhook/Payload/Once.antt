-- ===== src/Webhook/Payload/Once.antt =====
-- The answers to one inbound message, over sequences of attempts at whole payloads.
use whatsapp_ai_bot.Json.{Json}
use whatsapp_ai_bot.World.{World}
use whatsapp_ai_bot.World.Keeps.{Keeps}
use whatsapp_ai_bot.Chat.Service.{Service}
use whatsapp_ai_bot.Chat.Reservation.Views.{Once}
