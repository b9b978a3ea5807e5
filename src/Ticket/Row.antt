-- ===== src/Ticket/Row.antt =====
-- The rows of a ticket, its thread and its history, and the helpers that write them.
use backend_new.Basics.{
  ℕ, ◌+◌, ◌*◌, Bool, true, false, Option, none, some, List, [], ◌∷◌, ◌++◌, ◌==◌, Text,
}

pub data Status : Type 0 where
  opened in_progress waiting_on_investor resolved closed : Status

pub data Priority : Type 0 where
  low normal high urgent : Priority

pub data Category : Type 0 where
  kyc sip_mandate order redemption payment statement account other : Category

pub data Channel : Type 0 where
  app chat phone email : Channel

pub data Author : Type 0 where
  investor staff system : Author

pub data RelatedType : Type 0 where
  order plan payment : RelatedType

-- `type`, `fromValue` and `toValue` of an event row; an assignment stores the two names.
pub data Change : Type 0 where
  created : Channel → Change
  status : (from to : Status) → Change
  priority : (from to : Priority) → Change
  category : (from to : Category) → Change
  assigned : (from to : Option Text) → Change

-- `actor_staff` is null where the investor acted.
pub record Event : Type 0 where
  pub actor_staff : Option ℕ
  pub change : Change

pub record Message : Type 0 where
  pub id : ℕ
  pub author : Author
  pub staff : Option ℕ
  pub body : Text
  pub internal : Bool
  pub created_at : ℕ

-- Times are milliseconds since the epoch.
pub record Ticket : Type 0 where
  pub id : ℕ
  pub user_id : ℕ
  pub subject : Text
  pub category : Category
  pub priority : Priority
  pub status : Status
  pub channel : Channel
  pub assigned_staff : Option ℕ
  pub opened_by_staff : Option ℕ
  pub chat_conversation : Option ℕ
  pub related : Option (RelatedType × ℕ)
  pub sla_due_at : ℕ
  pub first_response_at : Option ℕ
  pub resolved_at : Option ℕ
  pub closed_at : Option ℕ
  pub last_message_at : ℕ
  pub awaiting_staff : Bool
  pub unread_by_investor : Bool
  pub created_at : ℕ
  pub messages : List Message
  pub events : List Event

abbrev pub hour_ms : ℕ
hour_ms = 3600000

abbrev pub sla_hours : Priority → ℕ
sla_hours urgent = 4
sla_hours high = 24
sla_hours normal = 48
sla_hours low = 72

abbrev pub sla_from : ℕ → Priority → ℕ
sla_from at p = at + sla_hours p * hour_ms

abbrev pub status_code : Status → ℕ
status_code opened = 0
status_code in_progress = 1
status_code waiting_on_investor = 2
status_code resolved = 3
status_code closed = 4

abbrev pub same_status : Status → Status → Bool
same_status a b = status_code a == status_code b

abbrev pub priority_code : Priority → ℕ
priority_code low = 0
priority_code normal = 1
priority_code high = 2
priority_code urgent = 3

abbrev pub same_priority : Priority → Priority → Bool
same_priority a b = priority_code a == priority_code b

abbrev pub category_code : Category → ℕ
category_code kyc = 0
category_code sip_mandate = 1
category_code order = 2
category_code redemption = 3
category_code payment = 4
category_code statement = 5
category_code account = 6
category_code other = 7

abbrev pub same_category : Category → Category → Bool
same_category a b = category_code a == category_code b

-- `DONE` and `LIVE`
abbrev pub is_done : Status → Bool
is_done resolved = true
is_done closed = true
is_done _ = false

abbrev pub is_live : Status → Bool
is_live opened = true
is_live in_progress = true
is_live waiting_on_investor = true
is_live _ = false

-- `event(tx, …)`: one more row in the history.
unfoldable pub add_event : Option ℕ → Change → Ticket → Ticket
add_event who what t = record t {
  events = t.events ++ record { actor_staff = who; change = what } ∷ [];
}

unfoldable pub add_message : Message → Ticket → Ticket
add_message m t = record t { messages = t.messages ++ m ∷ [] }

-- `statusStamps`: resolving stamps, reopening clears, closing keeps the time of resolution.
unfoldable pub status_stamps : Status → ℕ → Ticket → Ticket
status_stamps resolved now t = record t {
  status = resolved;
  resolved_at = some now;
  closed_at = none;
}
status_stamps closed now t = record t { status = closed; closed_at = some now }
status_stamps s now t = record t { status = s; resolved_at = none; closed_at = none }
