-- ===== src/Event.antt =====
-- lib/irccd/event.h: the events that a server dispatches. `server` is its name, which is all that
-- hooks and rules read of it. A `none` is a NULL string.
pub mod Text
use irccd.Base.{ℕ, Option, List, Bytes}

pub record NamesUser : Type 0 where
  pub nickname : Option Bytes
  pub modes : ℕ

pub data Event : Type 0 where
  connect : Bytes → Event
  disconnect : Bytes → Event
  invite : Bytes → Bytes → Bytes → Event
  join : Bytes → Bytes → Bytes → Event
  kick : Bytes → Bytes → Bytes → Bytes → Option Bytes → Event
  me : Bytes → Bytes → Bytes → Bytes → Event
  message : Bytes → Bytes → Bytes → Bytes → Event
  command : Bytes → Bytes → Bytes → Bytes → Event
  mode : Bytes → Bytes → Bytes → Bytes → List Bytes → Event
  names : Bytes → Bytes → List NamesUser → Event
  nick : Bytes → Bytes → Bytes → Event
  notice : Bytes → Bytes → Bytes → Bytes → Event
  part : Bytes → Bytes → Bytes → Option Bytes → Event
  topic : Bytes → Bytes → Bytes → Bytes → Event
  whois : Bytes → Event
  unknown : Bytes → Event
