-- ===== src/Ticket/Sla.antt =====
-- The resolution deadline of a ticket (`slaFrom`, `SLA_HOURS`).
use backend_new.Basics.{ℕ, ◌≤◌, ◌+◌, ◌*◌, All, arith}
use backend_new.Ticket.Row.{Ticket, sla_hours, hour_ms, add_event, add_message, status_stamps}
use backend_new.Ticket.Desk.{
  Directory, Desk, Call, move_status, move_priority, move_category, move_owner, claim, mark_public,
  staff_ticket, chat_ticket, fresh, staff_opens,
}
use backend_new.Ticket.Investor.{reopen, mark_waiting, mark_read, my_ticket}
use backend_new.Ticket.Steps.{Kept, Reach, Reach-All, no_tickets}

-- When a ticket is raised, the clocks of the process and of the database are at most `skew` apart.
abbrev pub Within : ℕ → Call → Type 0
Within skew c = (c.now ≤ c.db_now + skew) × (c.db_now ≤ c.now + skew)

-- The deadline is as far from the time of creation as the priority says, give or take `skew`.
abbrev pub IsDue : ℕ → Ticket → Type 0
IsDue skew t =
    (t.sla_due_at ≤ t.created_at + sla_hours t.priority * hour_ms + skew)
    × (t.created_at + sla_hours t.priority * hour_ms ≤ t.sla_due_at + skew)

IsDue-kept : (dir : Directory) (skew : ℕ) → Kept dir (Within skew) (IsDue skew)
unfolding staff_ticket chat_ticket my_ticket fresh staff_opens add_message mark_read add_event
    move_status move_priority move_category move_owner status_stamps claim mark_public mark_waiting
    reopen
IsDue-kept dir skew = record {
  of_staff = λ c i viewer g. ground arith;
  of_chat = λ c i talk viewer g. ground arith;
  of_investor = λ c user i g. ground arith;
  status = λ s now who t a. ground arith;
  priority = λ p who t a. ground arith;
  category = λ k who t a. ground arith;
  owner = λ next who t a. ground arith;
  claimed = λ viewer t a. ground arith;
  public = λ internal now t a. ground arith;
  message = λ m t a. ground arith;
  waiting = λ now t a. ground arith;
  reopened = λ now t a. ground arith;
  read = λ t a. ground arith;
}

-- Where the clocks of the process and of the database are never more than `skew` apart when a ticket
-- is raised, the deadline of every ticket is the time it was created plus the hours of the priority
-- that it has now, give or take `skew`, whatever handlers have run.
pub Reach-IsDue :
    (dir : Directory) (skew : ℕ) (d : Desk)
    → Reach dir (Within skew) no_tickets d
    → All (IsDue skew) d.tickets
Reach-IsDue dir skew d r = Reach-All dir (Within skew) (IsDue skew) (IsDue-kept dir skew) r tt
