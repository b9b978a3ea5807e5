-- ===== src/Ticket/Tests.antt =====
-- Runs of the ticket handlers, and the theorems applied to them.
use backend_new.Basics.{
  ℕ, ◌≡◌, refl, true, false, Option, arith, none, some, [], ◌∷◌, ◌++◌, All, keep, Result, ok, err,
}
use backend_new.Ticket.Row.{
  resolved, closed, urgent, low, kyc, phone, Ticket, is_live, add_event, add_message, status_stamps,
}
use backend_new.Ticket.Desk.{
  Directory, Desk, Call, Update, Reply, NewTicket, Refusal, closed_for_staff, closed_for_investor,
  create_staff_ticket, update_ticket, staff_reply, find_own, find_ticket, put, add, fresh,
  staff_opens, staff_ticket, apply_update, move_status, move_priority, move_category, move_owner,
  claim, mark_public, apply_staff_reply,
}
use backend_new.Ticket.Investor.{
  create_my_ticket, reply_to_my_ticket, get_my_ticket, InvestorView, Talk, my_ticket, mark_waiting,
  reopen, apply_my_reply, mark_read, seen, investor_view,
}
use backend_new.Ticket.Steps.{
  Reach, start, later, investor_raises, staff_replies, updates, no_tickets,
}
use backend_new.Ticket.Grown.{Grown, Reach-Grown}
use backend_new.Ticket.Stamps.{IsStamped, Reach-IsStamped}
use backend_new.Ticket.Sla.{Within, IsDue, Reach-IsDue}
use backend_new.Ticket.Visible.{is_public, reply-get_my_ticket, said}

desk : Unit {0}
unfolding create_staff_ticket create_my_ticket update_ticket staff_reply reply_to_my_ticket
    get_my_ticket find_own find_ticket put add fresh staff_opens staff_ticket my_ticket apply_update
    move_status move_priority move_category move_owner claim mark_public apply_staff_reply
    mark_waiting reopen apply_my_reply mark_read seen investor_view add_event add_message
    status_stamps
desk = tt

abbrev offices : Directory
offices = record {
  is_investor = λ _. true;
  owns = λ _ _. true;
  is_agent = λ _. true;
  full_name = λ _. some (65 ∷ []);
}

abbrev at : ℕ → Call
at n = record { now = n; db_now = n; ticket_id = 7; message_id = n }

abbrev asked : NewTicket
asked = record {
  user_id = 1;
  subject = 72 ∷ [];
  category = kyc;
  priority = low;
  channel = phone;
  body = 73 ∷ [];
  related = none;
}

abbrev or_else : Result Refusal Desk → Desk
or_else (ok d) = d
or_else (err _) = no_tickets

abbrev raised : Desk
raised = or_else (create_my_ticket offices (at 100) 1 asked no_tickets)

abbrev note : Reply
note = record { body = 74 ∷ []; internal = true; status = none }

abbrev noted : Desk
noted = or_else (staff_reply offices (at 200) 7 note 5 raised)

abbrev close_it : Update
close_it = record {
  status = some resolved;
  priority = some urgent;
  category = none;
  assignee = none;
}

abbrev done : Desk
done = or_else (update_ticket offices (at 300) 7 close_it 5 noted)

-- The database's clock is 3 ms ahead when the ticket is raised.
abbrev drifting : Call
drifting = record { now = 100; db_now = 103; ticket_id = 7; message_id = 100 }

abbrev drifted : Desk
drifted = or_else (
    update_ticket offices (at 300) 7 close_it 5 (
      or_else (
        staff_reply offices (at 200) 7 note 5
          (or_else (create_my_ticket offices drifting 1 asked no_tickets)))))

run : Reach offices (Within 5) no_tickets drifted
unfolding desk
run =
    later
      (later (later start (investor_raises drifting 1 asked (omega arith, omega arith) refl))
        (staff_replies (at 200) 7 note 5 refl))
      (updates (at 300) 7 close_it 5 refl)

Reach-IsDue_example : All (IsDue 5) drifted.tickets
Reach-IsDue_example = Reach-IsDue offices 5 drifted run

run_any : Reach offices (λ _. Unit) no_tickets done
unfolding desk
run_any =
    later
      (later (later start (investor_raises (at 100) 1 asked tt refl))
        (staff_replies (at 200) 7 note 5 refl))
      (updates (at 300) 7 close_it 5 refl)

-- From the ticket as it was raised.
run_on : Reach offices (λ _. Unit) raised done
unfolding desk
run_on =
    later (later start (staff_replies (at 200) 7 note 5 refl)) (updates (at 300) 7 close_it 5 refl)

Reach-Grown_example : Grown raised.tickets done.tickets
Reach-Grown_example = Reach-Grown offices run_on

Reach-IsStamped_example : All IsStamped done.tickets
Reach-IsStamped_example = Reach-IsStamped offices done run_any

abbrev replied : Desk
replied = or_else (reply_to_my_ticket (at 400) 1 7 (75 ∷ []) done)

abbrev no_talks : ℕ → Option Talk
no_talks id = none

reply-get_my_ticket_example :
    (t : Ticket) × (d'' : Desk) × (v : InvestorView) × (find_own done 1 7 ≡ ok t)
    × (get_my_ticket no_talks 1 7 replied ≡ ok (d'', v))
    × (is_live v.status ≡ true)
    × (v.can_reply ≡ true)
    × (v.messages ≡ keep is_public t.messages ++ said (at 400) (75 ∷ []) ∷ [])
unfolding desk
reply-get_my_ticket_example = reply-get_my_ticket no_talks (at 400) 1 7 (75 ∷ []) done replied refl

abbrev shut : Desk
shut = or_else (update_ticket offices (at 500) 7 (record close_it { status = some closed }) 5 done)

closed_refuses :
    (reply_to_my_ticket (at 600) 1 7 [] shut ≡ err closed_for_investor)
    × (staff_reply offices (at 600) 7 (record note { internal = false }) 5 shut
        ≡ err closed_for_staff)
unfolding desk
closed_refuses = (refl, refl)
