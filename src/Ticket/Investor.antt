-- ===== src/Ticket/Investor.antt =====
-- The handlers of the investor: `createMyTicket`, `replyToMyTicket` and `getMyTicket`.
use backend_new.Basics.{
  Text, ℕ, length, Bool, true, false, not, ◌&&◌, Option, none, some, List, [], ◌∷◌, ◌==◌, leb,
  if◌then◌else◌, Result, ok, ◌>>=◌, ◌>>◌, throw_if, keep, count,
}
use backend_new.Ticket.Row.{
  Status, opened, waiting_on_investor, resolved, closed, normal, Category, Channel, app, investor,
  RelatedType, Change, created, Message, Ticket, same_status, is_live, add_event, add_message,
  status_stamps,
}
use backend_new.Ticket.Desk.{
  Call, Desk, Directory, NewTicket, Refusal, add, closed_for_investor, find_own, fresh, not_related,
  put, related_ok, too_many_open,
}

abbrev is_live_of : ℕ → Ticket → Bool
is_live_of user t = t.user_id == user && is_live t.status

unfoldable pub my_ticket : Call → ℕ → NewTicket → Ticket
my_ticket c user i =
    let said : Message = record {
      id = c.message_id;
      author = investor;
      staff = none;
      body = i.body;
      internal = false;
      created_at = c.db_now;
    } in
    add_event none (created app)
      (add_message said (fresh c (record i { user_id = user; channel = app; priority = normal })))

unfoldable pub create_my_ticket : Directory → Call → ℕ → NewTicket → Desk → Result Refusal Desk
create_my_ticket dir c user i d = do
  throw_if (not (related_ok dir user i.related)) not_related
  throw_if (leb 10 (count (is_live_of user) d.tickets)) too_many_open
  ok (add d (my_ticket c user i))

abbrev pub reopens : Status → Bool
reopens waiting_on_investor = true
reopens resolved = true
reopens _ = false

unfoldable pub mark_waiting : ℕ → Ticket → Ticket
mark_waiting now t = record t { last_message_at = now; awaiting_staff = true }

-- The status of `t` is the one that was read: a message and its marks do not change it.
unfoldable pub reopen : ℕ → Ticket → Ticket
reopen now t =
    if reopens t.status
    then add_event none (Change.status t.status opened) (status_stamps opened now t)
    else t

unfoldable pub apply_my_reply : Call → Text → Ticket → Ticket
apply_my_reply c body t =
    let said : Message = record {
      id = c.message_id;
      author = investor;
      staff = none;
      body = body;
      internal = false;
      created_at = c.db_now;
    } in
    reopen c.now (mark_waiting c.now (add_message said t))

unfoldable pub reply_to_my_ticket : Call → ℕ → ℕ → Text → Desk → Result Refusal Desk
reply_to_my_ticket c user id body d = do
  t ← find_own d user id
  throw_if (same_status t.status closed) closed_for_investor
  ok (put d id (apply_my_reply c body))

unfoldable pub mark_read : Ticket → Ticket
mark_read t = record t { unread_by_investor = false }

-- A turn of a chat, of the investor, of the bot or of staff.
pub data ChatSender : Type 0 where
  by_investor by_bot by_staff by_system : ChatSender

pub record ChatTurn : Type 0 where
  pub id : ℕ
  pub sender : ChatSender
  pub staff : Option ℕ
  pub body : Text
  pub intent : Option Text
  pub created_at : ℕ

-- A conversation, with the oldest turn first.
pub record Talk : Type 0 where
  pub started_at : ℕ
  pub messages : List ChatTurn

abbrev pub chat_replay_limit : ℕ
chat_replay_limit = 300

-- The newest turns, in order: `take` from the newest, and `reverse`.
abbrev pub newest : List ChatTurn → List ChatTurn
newest [] = []
newest (m ∷ turns) =
    let rest = newest turns in if leb chat_replay_limit (length turns) then rest else m ∷ turns

abbrev pub chat_of : Option Talk → Option Talk
chat_of none = none
chat_of (some talk) = some (record talk { messages = newest talk.messages })

-- What the investor is shown of a ticket; staff are given by id in place of their first name, and the
-- reference number and the preview of the last message are left out.
pub record InvestorView : Type 0 where
  pub id : ℕ
  pub subject : Text
  pub category : Category
  pub channel : Channel
  pub status : Status
  pub unread : Bool
  pub last_message_at : ℕ
  pub created_at : ℕ
  pub related : Option (RelatedType × ℕ)
  pub can_reply : Bool
  pub resolved_at : Option ℕ
  pub chat : Option Talk
  pub messages : List Message

-- `talks` reads the conversation of a ticket that was raised from a chat.
unfoldable pub investor_view : (talks : ℕ → Option Talk) → Ticket → InvestorView
investor_view talks t = record {
  id = t.id;
  subject = t.subject;
  category = t.category;
  channel = t.channel;
  status = t.status;
  unread = false;
  last_message_at = t.last_message_at;
  created_at = t.created_at;
  related = t.related;
  can_reply = not (same_status t.status closed);
  resolved_at = t.resolved_at;
  chat = elim t.chat_conversation [ none ↦ none | some id ↦ chat_of (talks id) ];
  messages = keep (λ m. not m.internal) t.messages;
}

unfoldable pub seen : ℕ → Ticket → Desk → Desk
seen id t d = if t.unread_by_investor then put d id mark_read else d

unfoldable pub get_my_ticket :
    (talks : ℕ → Option Talk) → ℕ → ℕ → Desk → Result Refusal (Desk × InvestorView)
get_my_ticket talks user id d = do t ← find_own d user id; ok (seen id t d, investor_view talks t)
