-- ===== src/Ticket/Stamps.antt =====
-- The timestamps that follow a status (`statusStamps`).
use backend_new.Basics.{◌≡◌, ◌≢◌, true, none, All, arith}
use backend_new.Ticket.Row.{
  resolved, closed, Ticket, is_live, add_event, add_message, status_stamps,
}
use backend_new.Ticket.Desk.{
  Directory, Desk, move_status, move_priority, move_category, move_owner, claim, mark_public,
  staff_ticket, chat_ticket, fresh, staff_opens,
}
use backend_new.Ticket.Investor.{reopen, mark_waiting, mark_read, my_ticket}
use backend_new.Ticket.Steps.{Kept, Reach, Reach-All, no_tickets}

-- A ticket is stamped closed exactly while it is closed; a resolved one says when; a live one
-- carries neither stamp.
pub record IsStamped (t : Ticket) : Type 0 where
  pub closed_stamp : t.status ≡ closed → t.closed_at ≢ none
  pub not_closed : t.status ≢ closed → t.closed_at ≡ none
  pub resolved_stamp : t.status ≡ resolved → t.resolved_at ≢ none
  pub live : is_live t.status ≡ true → t.resolved_at ≡ none

stamps_kept : (dir : Directory) → Kept dir (λ _. Unit) IsStamped
unfolding staff_ticket chat_ticket my_ticket fresh staff_opens add_message mark_read add_event
    move_status move_priority move_category move_owner status_stamps claim mark_public mark_waiting
    reopen
stamps_kept dir = record {
  of_staff = λ c i viewer _. ground arith;
  of_chat = λ c i talk viewer _. ground arith;
  of_investor = λ c user i _. ground arith;
  status = λ s now who t a. ground arith;
  priority = λ p who t a. ground arith;
  category = λ k who t a. ground arith;
  owner = λ next who t a. ground arith;
  claimed = λ viewer t a. ground arith;
  public = λ internal now t a. ground arith;
  message = λ m t a. ground arith;
  waiting = λ now t a. ground arith;
  reopened = λ now t a. ground arith;
  read = λ t a. ground arith;
}

-- Whatever handlers have run, a ticket has a time of closing exactly while it is closed, a resolved
-- ticket has a time of resolution, and an open, active or waiting one has no time of resolution.
pub Reach-IsStamped :
    (dir : Directory) (d : Desk) → Reach dir (λ _. Unit) no_tickets d → All IsStamped d.tickets
Reach-IsStamped dir d r = Reach-All dir (λ _. Unit) IsStamped (stamps_kept dir) r tt
