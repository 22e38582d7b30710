-- ===== src/Examples/Admitting.antt =====
-- A message of a stranger, to a bot that asks for nothing.
use thunder_go.Prelude.{true, false, none, some, []}
use thunder_go.Bot.Dispatch.{Incoming}
use thunder_go.Bot.Preflight.{Answers, Context, State}
use thunder_go.Prelude.Int.{pos}
use thunder_go.Prelude.Text.{codes}

abbrev answers : Answers
answers = record {
  is_channel_banned = λ id. some false;
  is_user_banned = λ id. some false;
  is_authorized = λ id. some false;
  is_user_activated = λ id. some false;
  has_primary = true;
  get_chat_member = λ chat id. none;
  global = none;
  random = none;
  save_activation_token = λ t. true;
  handler_fails = λ t. false;
}

abbrev idle : State
idle = record { limiter = none; shortener = none }

abbrev stranger : Context
stranger = record { sender = pos 9; is_authorized = false; cmd = some (codes "link") }

abbrev link_message : Incoming
link_message = record {
  is_channel = false;
  is_group = false;
  is_private = true;
  is_media = false;
  is_command = true;
  channel_id = pos 0;
  chat_id = pos 9;
  sender_id = pos 9;
  get_command = codes "/link";
  args = [];
}
