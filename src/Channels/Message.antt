-- ===== src/Channels/Message.antt =====
-- channels/message.hpp: the messages that go out.
use mylobsterpp.Prelude.{ℕ, Option, List, Text, Json}

pub record Attachment : Type 0 where
  pub type : Text
  pub url : Text
  pub filename : Option Text
  pub size : Option ℕ

pub record OutgoingMessage : Type 0 where
  pub channel : Text
  pub recipient_id : Text
  pub text : Text
  pub attachments : List Attachment
  pub reply_to : Option Text
  pub thread_id : Option Text
  pub extra : Json
