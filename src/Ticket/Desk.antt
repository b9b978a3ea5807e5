-- ===== src/Ticket/Desk.antt =====
-- The table of tickets and the handlers of staff that write it. `Directory` stands for the queries on tables
-- of other components; each is read once, where the code reads it. A handler that throws does so
-- before its transaction, so a refusal leaves the table as it was.
use backend_new.Basics.{
  Text, ℕ, any, Bool, true, false, not, ◌&&◌, Option, none, some, List, [], ◌∷◌, ◌==◌, same_option,
  is_none, if◌then◌else◌, Result, ok, err, ◌>>=◌, ◌>>◌, throw_if, find, update_where,
}
use backend_new.Ticket.Row.{
  Status, opened, in_progress, waiting_on_investor, closed, Priority, Category, Channel, chat,
  staff, system, RelatedType, Change, created, assigned, Message, Ticket, sla_from, same_status,
  same_priority, same_category, add_event, add_message, status_stamps,
}

-- Each `throw` of the service, with the HTTP status that `HttpError` gives it.
pub data Refusal : Type 0 where
  no_ticket no_investor not_related not_an_agent closed_for_staff closed_for_investor
        too_many_open :
      Refusal

pub http_status : Refusal → ℕ
http_status no_ticket = 404
http_status no_investor = 400
http_status not_related = 400
http_status not_an_agent = 400
http_status closed_for_staff = 409
http_status closed_for_investor = 409
http_status too_many_open = 409

pub record Directory : Type 0 where
  pub is_investor : ℕ → Bool
  pub owns : ℕ → RelatedType × ℕ → Bool
  pub is_agent : ℕ → Bool
  pub full_name : ℕ → Option Text

-- A reply that the investor is told of by `notifyReply`.
pub record Notice : Type 0 where
  pub user_id : ℕ
  pub ticket_id : ℕ
  pub message_id : ℕ

pub record Desk : Type 0 where
  pub tickets : List Ticket
  pub notices : List Notice

-- What the database and the clocks give a handler: `now` is `new Date()` of the process, `db_now`
-- the column default, the ids are fresh.
pub record Call : Type 0 where
  pub now : ℕ
  pub db_now : ℕ
  pub ticket_id : ℕ
  pub message_id : ℕ

pub record Update : Type 0 where
  pub status : Option Status
  pub priority : Option Priority
  pub category : Option Category
  pub assignee : Option (Option ℕ)

pub record Reply : Type 0 where
  pub body : Text
  pub internal : Bool
  pub status : Option Status

pub record NewTicket : Type 0 where
  pub user_id : ℕ
  pub subject : Text
  pub category : Category
  pub priority : Priority
  pub channel : Channel
  pub body : Text
  pub related : Option (RelatedType × ℕ)

abbrev pub with_id : ℕ → Ticket → Bool
with_id id t = t.id == id

unfoldable pub find_ticket : Desk → ℕ → Result Refusal Ticket
find_ticket d id = elim (find (with_id id) d.tickets) [ none ↦ err no_ticket | some t ↦ ok t ]

-- `findFirst({ where: { id, userId } })`
unfoldable pub find_own : Desk → ℕ → ℕ → Result Refusal Ticket
find_own d user id = elim (find (λ t. with_id id t && t.user_id == user) d.tickets) [
  | none ↦ err no_ticket
  | some t ↦ ok t
]

unfoldable pub put : Desk → ℕ → (Ticket → Ticket) → Desk
put d id f = record d { tickets = update_where (with_id id) f d.tickets }

unfoldable pub add : Desk → Ticket → Desk
add d t = record d { tickets = t ∷ d.tickets }

-- The row that `supportTicket.create` inserts, with the column defaults.
unfoldable pub fresh : Call → NewTicket → Ticket
fresh c i = record {
  id = c.ticket_id;
  user_id = i.user_id;
  subject = i.subject;
  category = i.category;
  priority = i.priority;
  status = opened;
  channel = i.channel;
  assigned_staff = none;
  opened_by_staff = none;
  chat_conversation = none;
  related = i.related;
  sla_due_at = sla_from c.now i.priority;
  first_response_at = none;
  resolved_at = none;
  closed_at = none;
  last_message_at = c.db_now;
  awaiting_staff = true;
  unread_by_investor = false;
  created_at = c.db_now;
  messages = [];
  events = [];
}

abbrev pub related_ok : Directory → ℕ → Option (RelatedType × ℕ) → Bool
related_ok dir user none = true
related_ok dir user (some r) = dir.owns user r

-- The staff member who raises a ticket owns it, and works on it at once.
unfoldable pub staff_opens : ℕ → Ticket → Ticket
staff_opens viewer t = record t {
  opened_by_staff = some viewer;
  assigned_staff = some viewer;
  status = in_progress;
  awaiting_staff = false;
}

unfoldable pub staff_ticket : Call → NewTicket → ℕ → Ticket
staff_ticket c i viewer =
    let note : Message = record {
      id = c.message_id;
      author = staff;
      staff = some viewer;
      body = i.body;
      internal = true;
      created_at = c.db_now;
    } in
    add_event (some viewer) (created i.channel) (add_message note (staff_opens viewer (fresh c i)))

unfoldable pub create_staff_ticket : Directory → Call → NewTicket → ℕ → Desk → Result Refusal Desk
create_staff_ticket dir c i viewer d = do
  throw_if (not (dir.is_investor i.user_id)) no_investor
  throw_if (not (related_ok dir i.user_id i.related)) not_related
  ok (add d (staff_ticket c i viewer))

unfoldable pub chat_ticket : Call → NewTicket → ℕ → ℕ → Ticket
chat_ticket c i conversation viewer =
    let note : Message = record {
      id = c.message_id;
      author = system;
      staff = none;
      body = i.body;
      internal = true;
      created_at = c.db_now;
    } in
    let row = staff_opens viewer (fresh c (record i { channel = chat; related = none })) in
    add_event (some viewer) (created chat)
      (add_message note (record row { chat_conversation = some conversation }))

-- Runs inside the caller's transaction, and has no check of its own; the unique key on the
-- conversation fails it where the conversation has a ticket.
unfoldable pub create_ticket_from_chat : Call → NewTicket → ℕ → ℕ → Desk → Option Desk
create_ticket_from_chat c i conversation viewer d =
    if any (λ t. same_option t.chat_conversation (some conversation)) d.tickets
    then none
    else some (add d (chat_ticket c i conversation viewer))

-- The four changes of `updateTicket`, each with its event, in the order of the code.
unfoldable pub move_status : Option Status → ℕ → Option ℕ → Ticket → Ticket
move_status none now who t = t
move_status (some s) now who t =
    if same_status s t.status
    then t
    else add_event who (Change.status t.status s) (status_stamps s now t)

unfoldable pub move_priority : Option Priority → Option ℕ → Ticket → Ticket
move_priority none who t = t
move_priority (some p) who t =
    if same_priority p t.priority
    then t
    else add_event who (Change.priority t.priority p)
        (record t { priority = p; sla_due_at = sla_from t.created_at p })

unfoldable pub move_category : Option Category → Option ℕ → Ticket → Ticket
move_category none who t = t
move_category (some k) who t =
    if same_category k t.category
    then t
    else add_event who (Change.category t.category k) (record t { category = k })

abbrev name_of : Directory → Option ℕ → Option Text
name_of dir none = none
name_of dir (some id) = dir.full_name id

unfoldable pub move_owner : Directory → Option (Option ℕ) → Option ℕ → Ticket → Ticket
move_owner dir none who t = t
move_owner dir (some next) who t =
    if same_option next t.assigned_staff
    then t
    else add_event who (assigned (name_of dir t.assigned_staff) (name_of dir next))
        (record t { assigned_staff = next })

abbrev agent_ok : Directory → Option (Option ℕ) → Bool
agent_ok dir (some (some id)) = dir.is_agent id
agent_ok dir _ = true

unfoldable pub apply_update : Directory → ℕ → Update → Option ℕ → Ticket → Ticket
apply_update dir now u who t =
    move_owner dir u.assignee who
      (move_category u.category who (move_priority u.priority who (move_status u.status now who t)))

unfoldable pub update_ticket : Directory → Call → ℕ → Update → ℕ → Desk → Result Refusal Desk
update_ticket dir c id u viewer d = do
  _ ← find_ticket d id
  throw_if (not (agent_ok dir u.assignee)) not_an_agent
  ok (put d id (apply_update dir c.now u (some viewer)))

-- Replying claims an unowned ticket.
unfoldable pub claim : Directory → ℕ → Ticket → Ticket
claim dir viewer t =
    if is_none t.assigned_staff
    then add_event (some viewer) (assigned none (dir.full_name viewer))
        (record t { assigned_staff = some viewer })
    else t

abbrev first_or : Option ℕ → ℕ → Option ℕ
first_or none now = some now
first_or (some t) now = some t

unfoldable pub mark_public : Bool → ℕ → Ticket → Ticket
mark_public internal now t = if internal then t else record t {
  last_message_at = now;
  awaiting_staff = false;
  unread_by_investor = true;
  first_response_at = first_or t.first_response_at now;
}

-- `input.status ?? (input.internal ? undefined : "WAITING_ON_INVESTOR")`
abbrev pub next_status : Reply → Option Status
next_status r = elim r.status [
  | none ↦ if r.internal then none else some waiting_on_investor
  | some s ↦ some s
]

unfoldable pub apply_staff_reply : Directory → Call → Reply → ℕ → Ticket → Ticket
apply_staff_reply dir c r viewer t =
    let said : Message = record {
      id = c.message_id;
      author = staff;
      staff = some viewer;
      body = r.body;
      internal = r.internal;
      created_at = c.db_now;
    } in
    move_status (next_status r) c.now (some viewer)
      (claim dir viewer (mark_public r.internal c.now (add_message said t)))

unfoldable pub staff_reply : Directory → Call → ℕ → Reply → ℕ → Desk → Result Refusal Desk
staff_reply dir c id r viewer d = do
  t ← find_ticket d id
  throw_if (same_status t.status closed && not r.internal) closed_for_staff
  let moved = put d id (apply_staff_reply dir c r viewer)
  ok (
      if r.internal then moved else record moved {
        notices =
            record { user_id = t.user_id; ticket_id = id; message_id = c.message_id }
            ∷ moved.notices;
      })
