-- ===== src/Ticket/Steps.antt =====
-- The steps of the ticket table, and the rule by which a property of every ticket is kept: each
-- handler of src/services/support-ticket.service.ts inserts a ticket or rewrites the ones with its id.
use backend_new.Basics.{
  Text, ℕ, ◌≡◌, ◌⊎◌, Bool, Option, some, [], arith, inl, inr, ok, All, All-update_where,
}
use backend_new.Ticket.Row.{Status, Priority, Category, Message, Ticket, add_message}
use backend_new.Ticket.Desk.{
  Directory, Desk, Call, Update, Reply, NewTicket, put, add, create_staff_ticket,
  create_ticket_from_chat, update_ticket, staff_reply, apply_update, apply_staff_reply,
  staff_ticket, chat_ticket, next_status, claim, mark_public, move_status, move_priority,
  move_category, move_owner,
}
use backend_new.Ticket.Investor.{
  create_my_ticket, reply_to_my_ticket, get_my_ticket, InvestorView, Talk, apply_my_reply,
  my_ticket, mark_read, seen, reopen, mark_waiting,
}

-- `Good` is what is assumed of the clocks when a ticket is raised. One handler that succeeds, or the read that marks a ticket as seen.
pub data Step (dir : Directory) (Good : Call → Type 0) : Desk → Desk → Type 0 where
  staff_raises :
      {d d' : Desk} (c : Call) (i : NewTicket) (viewer : ℕ)
      → Good c
      → create_staff_ticket dir c i viewer d ≡ ok d'
      → Step dir Good d d'
  chat_raises :
      {d d' : Desk} (c : Call) (i : NewTicket) (conversation viewer : ℕ)
      → Good c
      → create_ticket_from_chat c i conversation viewer d ≡ some d'
      → Step dir Good d d'
  updates :
      {d d' : Desk} (c : Call) (id : ℕ) (u : Update) (viewer : ℕ)
      → update_ticket dir c id u viewer d ≡ ok d'
      → Step dir Good d d'
  staff_replies :
      {d d' : Desk} (c : Call) (id : ℕ) (r : Reply) (viewer : ℕ)
      → staff_reply dir c id r viewer d ≡ ok d'
      → Step dir Good d d'
  investor_raises :
      {d d' : Desk} (c : Call) (user : ℕ) (i : NewTicket)
      → Good c
      → create_my_ticket dir c user i d ≡ ok d'
      → Step dir Good d d'
  investor_replies :
      {d d' : Desk} (c : Call) (user id : ℕ) (body : Text)
      → reply_to_my_ticket c user id body d ≡ ok d'
      → Step dir Good d d'
  investor_reads :
      {d d' : Desk} (talks : ℕ → Option Talk) (user id : ℕ) (v : InvestorView)
      → get_my_ticket talks user id d ≡ ok (d', v)
      → Step dir Good d d'

pub data Reach (dir : Directory) (Good : Call → Type 0) (d : Desk) : Desk → Type 0 where
  start : Reach dir Good d d
  later : {e f : Desk} → Reach dir Good d e → Step dir Good e f → Reach dir Good d f

abbrev pub no_tickets : Desk
no_tickets = record { tickets = []; notices = [] }

-- The single writes that the handlers are made of keep a property of one ticket.
pub record Rewritten (dir : Directory) (P : Ticket → Type 0) : Type 0 where
  pub status :
      (s : Option Status) (now : ℕ) (who : Option ℕ) (t : Ticket)
      → P t
      → P (move_status s now who t)
  pub priority :
      (p : Option Priority) (who : Option ℕ) (t : Ticket) → P t → P (move_priority p who t)
  pub category :
      (k : Option Category) (who : Option ℕ) (t : Ticket) → P t → P (move_category k who t)
  pub owner :
      (next : Option (Option ℕ)) (who : Option ℕ) (t : Ticket) → P t → P (move_owner dir next who t)
  pub claimed : (viewer : ℕ) (t : Ticket) → P t → P (claim dir viewer t)
  pub public : (internal : Bool) (now : ℕ) (t : Ticket) → P t → P (mark_public internal now t)
  pub message : (m : Message) (t : Ticket) → P t → P (add_message m t)
  pub waiting : (now : ℕ) (t : Ticket) → P t → P (mark_waiting now t)
  pub reopened : (now : ℕ) (t : Ticket) → P t → P (reopen now t)
  pub read : (t : Ticket) → P t → P (mark_read t)

-- What a property of one ticket has to meet to hold of the whole table: the three ways to raise a
-- ticket, and the writes.
pub record Kept (dir : Directory) (Good : Call → Type 0) (P : Ticket → Type 0) : Type 0 where
  pub of_staff : (c : Call) (i : NewTicket) (viewer : ℕ) → Good c → P (staff_ticket c i viewer)
  pub of_chat :
      (c : Call) (i : NewTicket) (talk viewer : ℕ) → Good c → P (chat_ticket c i talk viewer)
  pub of_investor : (c : Call) (user : ℕ) (i : NewTicket) → Good c → P (my_ticket c user i)
  pub status :
      (s : Option Status) (now : ℕ) (who : Option ℕ) (t : Ticket)
      → P t
      → P (move_status s now who t)
  pub priority :
      (p : Option Priority) (who : Option ℕ) (t : Ticket) → P t → P (move_priority p who t)
  pub category :
      (k : Option Category) (who : Option ℕ) (t : Ticket) → P t → P (move_category k who t)
  pub owner :
      (next : Option (Option ℕ)) (who : Option ℕ) (t : Ticket) → P t → P (move_owner dir next who t)
  pub claimed : (viewer : ℕ) (t : Ticket) → P t → P (claim dir viewer t)
  pub public : (internal : Bool) (now : ℕ) (t : Ticket) → P t → P (mark_public internal now t)
  pub message : (m : Message) (t : Ticket) → P t → P (add_message m t)
  pub waiting : (now : ℕ) (t : Ticket) → P t → P (mark_waiting now t)
  pub reopened : (now : ℕ) (t : Ticket) → P t → P (reopen now t)
  pub read : (t : Ticket) → P t → P (mark_read t)

abbrev rewritten :
    (dir : Directory) (Good : Call → Type 0) (P : Ticket → Type 0)
    → Kept dir Good P
    → Rewritten dir P
rewritten dir Good P k = record {
  status = k.status;
  priority = k.priority;
  category = k.category;
  owner = k.owner;
  claimed = k.claimed;
  public = k.public;
  message = k.message;
  waiting = k.waiting;
  reopened = k.reopened;
  read = k.read;
}

-- What each handler leaves behind where it succeeds.
module _ (dir : Directory) (c : Call) (d d' : Desk) where
  pub create_staff_ticket-eq :
      (i : NewTicket) (viewer : ℕ)
      → create_staff_ticket dir c i viewer d ≡ ok d'
      → d' ≡ add d (staff_ticket c i viewer)
  unfolding create_staff_ticket
  create_staff_ticket-eq i viewer e = ground arith

  pub create_ticket_from_chat-eq :
      (i : NewTicket) (talk viewer : ℕ)
      → create_ticket_from_chat c i talk viewer d ≡ some d'
      → d' ≡ add d (chat_ticket c i talk viewer)
  unfolding create_ticket_from_chat
  create_ticket_from_chat-eq i talk viewer e = ground arith

  pub update_ticket-eq :
      (id : ℕ) (u : Update) (viewer : ℕ)
      → update_ticket dir c id u viewer d ≡ ok d'
      → d' ≡ put d id (apply_update dir c.now u (some viewer))
  unfolding update_ticket
  update_ticket-eq id u viewer e = ground arith

  pub staff_reply-eq :
      (id : ℕ) (r : Reply) (viewer : ℕ)
      → staff_reply dir c id r viewer d ≡ ok d'
      → d'.tickets ≡ (put d id (apply_staff_reply dir c r viewer)).tickets
  unfolding staff_reply
  staff_reply-eq id r viewer e = ground arith

  pub create_my_ticket-eq :
      (user : ℕ) (i : NewTicket)
      → create_my_ticket dir c user i d ≡ ok d'
      → d' ≡ add d (my_ticket c user i)
  unfolding create_my_ticket
  create_my_ticket-eq user i e = ground arith

module _ (d d' : Desk) where
  pub reply_to_my_ticket-eq :
      (c : Call) (user id : ℕ) (body : Text)
      → reply_to_my_ticket c user id body d ≡ ok d'
      → d' ≡ put d id (apply_my_reply c body)
  unfolding reply_to_my_ticket
  reply_to_my_ticket-eq c user id body e = ground arith

  pub get_my_ticket-eq :
      (talks : ℕ → Option Talk) (user id : ℕ) (v : InvestorView)
      → get_my_ticket talks user id d ≡ ok (d', v)
      → (d' ≡ put d id mark_read) ⊎ (d' ≡ d)
  unfolding get_my_ticket seen
  get_my_ticket-eq talks user id v e = ground arith

module _ (dir : Directory) (P : Ticket → Type 0) (k : Rewritten dir P) where
  pub apply_update-P :
      (now : ℕ) (u : Update) (who : Option ℕ) (t : Ticket) → P t → P (apply_update dir now u who t)
  unfolding apply_update
  apply_update-P now u who t h =
      k.owner u.assignee who _
        (k.category u.category who _ (k.priority u.priority who _ (k.status u.status now who t h)))

  pub apply_staff_reply-P :
      (c : Call) (r : Reply) (viewer : ℕ) (t : Ticket)
      → P t
      → P (apply_staff_reply dir c r viewer t)
  unfolding apply_staff_reply
  apply_staff_reply-P c r viewer t h =
      k.status (next_status r) c.now (some viewer) _
        (k.claimed viewer _ (k.public r.internal c.now _ (k.message _ t h)))

  pub apply_my_reply-P : (c : Call) (body : Text) (t : Ticket) → P t → P (apply_my_reply c body t)
  unfolding apply_my_reply
  apply_my_reply-P c body t h = k.reopened c.now _ (k.waiting c.now _ (k.message _ t h))

module _ (dir : Directory) (Good : Call → Type 0) (P : Ticket → Type 0) (k : Kept dir Good P) where
  put-All :
      (d : Desk) (id : ℕ) (f : Ticket → Ticket)
      → ((t : Ticket) → P t → P (f t))
      → All P d.tickets
      → All P (put d id f).tickets
  unfolding put
  put-All d id f h a = All-update_where _ P f d.tickets h a

  -- A step keeps a property of tickets.
  pub Step-All : {d d' : Desk} → Step dir Good d d' → All P d.tickets → All P d'.tickets
  unfolding add
  Step-All {d} {d'} (staff_raises c i viewer g e) a =
      rw (create_staff_ticket-eq dir c d d' i viewer e) (k.of_staff c i viewer g, a)
  Step-All {d} {d'} (chat_raises c i talk viewer g e) a =
      rw (create_ticket_from_chat-eq dir c d d' i talk viewer e) (k.of_chat c i talk viewer g, a)
  Step-All {d} {d'} (updates c id u viewer e) a =
      rw (update_ticket-eq dir c d d' id u viewer e)
        (put-All d id _ (apply_update-P dir P (rewritten dir Good P k) c.now u (some viewer)) a)
  Step-All {d} {d'} (staff_replies c id r viewer e) a =
      rw (staff_reply-eq dir c d d' id r viewer e)
        (put-All d id _ (apply_staff_reply-P dir P (rewritten dir Good P k) c r viewer) a)
  Step-All {d} {d'} (investor_raises c user i g e) a =
      rw (create_my_ticket-eq dir c d d' user i e) (k.of_investor c user i g, a)
  Step-All {d} {d'} (investor_replies c user id body e) a =
      rw (reply_to_my_ticket-eq d d' c user id body e)
        (put-All d id _ (apply_my_reply-P dir P (rewritten dir Good P k) c body) a)
  Step-All {d} {d'} (investor_reads talks user id v e) a =
      elim (get_my_ticket-eq d d' talks user id v e) [
        | inl marked ↦ rw marked (put-All d id _ k.read a)
        | inr same ↦ rw same a
      ]

  pub Reach-All : {d d' : Desk} → Reach dir Good d d' → All P d.tickets → All P d'.tickets
  Reach-All start a = a
  Reach-All (later r s) a = Step-All s (Reach-All r a)
