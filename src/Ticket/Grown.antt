-- ===== src/Ticket/Grown.antt =====
-- The table of tickets over a sequence of handlers: every row goes on, and its history with it.
use backend_new.Basics.{
  ℕ, ◌≡◌, refl, update_where, Bool, Option, none, some, List, [], ◌∷◌, Bool-cases, inl, inr,
}
use backend_new.Ticket.Row.{Channel, created, app, chat, Ticket, add_event, add_message}
use backend_new.Ticket.Desk.{
  Directory, Desk, staff_ticket, chat_ticket, fresh, staff_opens, Call, NewTicket, put, add,
  with_id, apply_update, apply_staff_reply,
}
use backend_new.Ticket.Investor.{mark_read, my_ticket, apply_my_reply}
use backend_new.Ticket.Steps.{
  apply_update-P, apply_staff_reply-P, apply_my_reply-P, Step, staff_raises, chat_raises, updates,
  staff_replies, investor_raises, investor_replies, investor_reads, Reach, start, later,
  create_staff_ticket-eq, create_ticket_from_chat-eq, update_ticket-eq, staff_reply-eq,
  create_my_ticket-eq, reply_to_my_ticket-eq, get_my_ticket-eq,
}
use backend_new.Ticket.Audit.{Grew, Grew-refl, Grew-Rewritten}

-- A ticket as one of the handlers raises it: its history is the event of its creation.
abbrev IsNew : Ticket → Type 0
IsNew t =
    (who : Option ℕ) × (channel : Channel) × (t.events
      ≡ record { actor_staff = who; change = created channel } ∷ [])

-- Every row is still there and went on from what it was; the others were raised in between.
pub data Grown : List Ticket → List Ticket → Type 0 where
  empty : Grown [] []
  went_on : {t u : Ticket} {ts us : List Ticket} → Grew t u → Grown ts us → Grown (t ∷ ts) (u ∷ us)
  raised :
      {t u : Ticket} {ts us : List Ticket} → IsNew t → Grew t u → Grown ts us → Grown ts (u ∷ us)

Grown-refl : (ts : List Ticket) → Grown ts ts
Grown-refl [] = empty
Grown-refl (t ∷ ts) = went_on (Grew-refl t) (Grown-refl ts)

-- A step rewrites some rows in place.
Grown-update_where :
    (p : Ticket → Bool) (f : Ticket → Ticket)
    → ((o t : Ticket) → Grew o t → Grew o (f t))
    → {os ts : List Ticket} → Grown os ts
    → Grown os (update_where p f ts)
Grown-update_where p f k empty = empty
Grown-update_where p f k (went_on {t} {u} g rest) = elim (Bool-cases (p u)) [
  | inl here ↦ went_on (rw here (k t u g)) (Grown-update_where p f k rest)
  | inr not_here ↦ went_on (rw not_here g) (Grown-update_where p f k rest)
]
Grown-update_where p f k (raised {t} {u} new g rest) = elim (Bool-cases (p u)) [
  | inl here ↦ raised {t = t} new (rw here (k t u g)) (Grown-update_where p f k rest)
  | inr not_here ↦ raised {t = t} new (rw not_here g) (Grown-update_where p f k rest)
]

Grown-put :
    (o d : Desk) (id : ℕ) (f : Ticket → Ticket)
    → ((o t : Ticket) → Grew o t → Grew o (f t))
    → Grown o.tickets d.tickets
    → Grown o.tickets (put d id f).tickets
unfolding put
Grown-put o d id f k g = Grown-update_where (with_id id) f k g

Grown-add :
    (o d : Desk) (t : Ticket)
    → IsNew t
    → Grown o.tickets d.tickets
    → Grown o.tickets (add d t).tickets
unfolding add
Grown-add o d t new g = raised new (Grew-refl t) g

module _ (dir : Directory) (c : Call) (i : NewTicket) where
  staff_ticket-IsNew : (viewer : ℕ) → IsNew (staff_ticket c i viewer)
  unfolding staff_ticket fresh staff_opens add_message add_event
  staff_ticket-IsNew viewer = (some viewer, i.channel, refl)

  chat_ticket-IsNew : (talk viewer : ℕ) → IsNew (chat_ticket c i talk viewer)
  unfolding chat_ticket fresh staff_opens add_message add_event
  chat_ticket-IsNew talk viewer = (some viewer, chat, refl)

  my_ticket-IsNew : (user : ℕ) → IsNew (my_ticket c user i)
  unfolding my_ticket fresh add_message add_event
  my_ticket-IsNew user = (none, app, refl)

module _ (dir : Directory) (o : Desk) where
  Step-Grown :
      {d d' : Desk}
      → Step dir (λ _. Unit) d d'
      → Grown o.tickets d.tickets
      → Grown o.tickets d'.tickets
  Step-Grown {d} {d'} (staff_raises c i viewer g e) h =
      rw (create_staff_ticket-eq dir c d d' i viewer e)
        (Grown-add o d (staff_ticket c i viewer) (staff_ticket-IsNew dir c i viewer) h)
  Step-Grown {d} {d'} (chat_raises c i talk viewer g e) h =
      rw (create_ticket_from_chat-eq dir c d d' i talk viewer e)
        (Grown-add o d (chat_ticket c i talk viewer) (chat_ticket-IsNew dir c i talk viewer) h)
  Step-Grown {d} {d'} (updates c id u viewer e) h = rw (update_ticket-eq dir c d d' id u viewer e) (
      Grown-put o d id (apply_update dir c.now u (some viewer))
        (λ t. apply_update-P dir (Grew t) (Grew-Rewritten dir t) c.now u (some viewer)) h)
  Step-Grown {d} {d'} (staff_replies c id r viewer e) h =
      rw (staff_reply-eq dir c d d' id r viewer e) (
        Grown-put o d id (apply_staff_reply dir c r viewer)
          (λ t. apply_staff_reply-P dir (Grew t) (Grew-Rewritten dir t) c r viewer) h)
  Step-Grown {d} {d'} (investor_raises c user i g e) h =
      rw (create_my_ticket-eq dir c d d' user i e)
        (Grown-add o d (my_ticket c user i) (my_ticket-IsNew dir c i user) h)
  Step-Grown {d} {d'} (investor_replies c user id body e) h =
      rw (reply_to_my_ticket-eq d d' c user id body e) (
        Grown-put o d id (apply_my_reply c body)
          (λ t. apply_my_reply-P dir (Grew t) (Grew-Rewritten dir t) c body) h)
  Step-Grown {d} {d'} (investor_reads talks user id v e) h =
      elim (get_my_ticket-eq d d' talks user id v e) [
        | inl marked ↦ rw marked (Grown-put o d id mark_read (λ t. (Grew-Rewritten dir t).read) h)
        | inr same ↦ rw same h
      ]

-- Whatever handlers run on a table of tickets, in whatever order and with whatever arguments, no row
-- is lost and the history of each only grows: the events of a ticket at the end are those that it had
-- before and some more, and these, each of which names the status, priority or category that it
-- replaces, lead from the values that the ticket had before exactly to those that it has in the end. A
-- ticket that is raised in between has the event of its creation first, and goes on in the same way.
-- So no change of the three is left out of the history.
pub Reach-Grown :
    (dir : Directory) {d d' : Desk} → Reach dir (λ _. Unit) d d' → Grown d.tickets d'.tickets
Reach-Grown dir {d} start = Grown-refl d.tickets
Reach-Grown dir {d} (later before step) = Step-Grown dir d step (Reach-Grown dir before)
