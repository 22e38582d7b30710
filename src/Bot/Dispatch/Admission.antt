-- ===== src/Bot/Dispatch/Admission.antt =====
-- internal/bot/bot.go: what `dispatchAsync` does, and for whom.
use thunder_go.Config.{Config}
use thunder_go.Prelude.Text.{Text}
