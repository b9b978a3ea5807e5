-- ===== src/Ticket/Visible.antt =====
-- What the investor sees of a ticket: `getMyTicket` after `replyToMyTicket`.
use backend_new.Basics.{
  Text, ℕ, ◌≡◌, refl, sym, subst, Bool, true, false, not, ◌&&◌, Option, none, [], ◌∷◌, ◌++◌, arith,
  Option-cases, inl, inr, ok, bind-eq-ok, keep-append, keep, find, find_sound, find-update_where,
  ◌==◌,
}
use backend_new.Ticket.Row.{
  Status, Message, Ticket, investor, closed, same_status, is_live, status_stamps, add_event,
  add_message,
}
use backend_new.Ticket.Desk.{Desk, Call, find_own, put}
use backend_new.Ticket.Investor.{
  get_my_ticket, reply_to_my_ticket, InvestorView, Talk, apply_my_reply, mark_waiting, reopen, seen,
  investor_view,
}

abbrev pub is_public : Message → Bool
is_public m = not m.internal

abbrev pub said : Call → Text → Message
said c body = record {
  id = c.message_id;
  author = investor;
  staff = none;
  body = body;
  internal = false;
  created_at = c.db_now;
}

reply_to_my_ticket-eq :
    (c : Call) (user id : ℕ) (body : Text) (d d' : Desk)
    → reply_to_my_ticket c user id body d ≡ ok d'
    → (t : Ticket) × (find_own d user id ≡ ok t)
      × (same_status t.status closed ≡ false)
      × (d' ≡ put d id (apply_my_reply c body))
unfolding reply_to_my_ticket
reply_to_my_ticket-eq c user id body d d' e =
    let (t, found, rest) = bind-eq-ok (find_own d user id) _ e in
    (t, found, ground arith, ground arith)

apply_my_reply_fields :
    (c : Call) (body : Text) (t : Ticket)
    → ((apply_my_reply c body t).id ≡ t.id)
      × ((apply_my_reply c body t).user_id ≡ t.user_id)
      × ((apply_my_reply c body t).messages ≡ t.messages ++ said c body ∷ [])
unfolding apply_my_reply mark_waiting reopen status_stamps add_event add_message
apply_my_reply_fields c body t = ground arith

apply_my_reply-is_live :
    (c : Call) (body : Text) (t : Ticket)
    → same_status t.status closed ≡ false
    → is_live (apply_my_reply c body t).status ≡ true
unfolding apply_my_reply mark_waiting reopen status_stamps add_event add_message
apply_my_reply-is_live c body t h = ground arith

live-can_reply : (s : Status) → is_live s ≡ true → not (same_status s closed) ≡ true
live-can_reply s h = ground arith

find_own-put :
    (f : Ticket → Ticket) (user id : ℕ) (d : Desk) (t : Ticket)
    → ((x : Ticket) → ((f x).id ≡ x.id) × ((f x).user_id ≡ x.user_id))
    → find_own d user id ≡ ok t
    → find_own (put d id f) user id ≡ ok (f t)
unfolding find_own put
find_own-put f user id d t same e =
    elim (Option-cases (find (λ x. x.id == id && x.user_id == user) d.tickets)) [
      | inl missing ↦ absurd (let bad = rw (missing, find_own) at e in cc)
      | inr (u, found) ↦
          let same_row : u ≡ t = let e' = rw (found, find_own) at e in cc in
          let kept =
            find-update_where (λ x. x.id == id && x.user_id == user) (λ x. x.id == id) f d.tickets u
              (ground (arith, find_sound (λ x. x.id == id && x.user_id == user) d.tickets u))
              (λ x. rw ((same x).0, (same x).1)) found in
          rw (kept, find_own) (rw same_row)
    ]

get_my_ticket-found :
    (talks : ℕ → Option Talk) (user id : ℕ) (d : Desk) (t : Ticket)
    → find_own d user id ≡ ok t
    → get_my_ticket talks user id d ≡ ok (seen id t d, investor_view talks t)
unfolding get_my_ticket
get_my_ticket-found talks user id d t found = rw (found, get_my_ticket)

-- After a reply that is accepted, the investor who reads the ticket finds it live and open to
-- replies, with the reply behind the public messages that were there before.
pub reply-get_my_ticket :
    (talks : ℕ → Option Talk) (c : Call) (user id : ℕ) (body : Text) (d d' : Desk)
    → reply_to_my_ticket c user id body d ≡ ok d'
    → (t : Ticket) × (d'' : Desk) × (v : InvestorView) × (find_own d user id ≡ ok t)
      × (get_my_ticket talks user id d' ≡ ok (d'', v))
      × (is_live v.status ≡ true)
      × (v.can_reply ≡ true)
      × (v.messages ≡ keep is_public t.messages ++ said c body ∷ [])
unfolding investor_view
reply-get_my_ticket talks c user id body d d' e =
    let (t, found, open_now, after) = reply_to_my_ticket-eq c user id body d d' e in
    let (same_id, same_user, more) = apply_my_reply_fields c body t in
    let there =
      find_own-put (apply_my_reply c body) user id d t
        (λ x. ((apply_my_reply_fields c body x).0, (apply_my_reply_fields c body x).1)) found in
    (
      t,
      seen id (apply_my_reply c body t) d',
      investor_view talks (apply_my_reply c body t),
      found,
      get_my_ticket-found talks user id d' (apply_my_reply c body t)
          (subst (λ x. find_own x user id ≡ ok (apply_my_reply c body t)) (sym after) there),
      apply_my_reply-is_live c body t open_now,
      live-can_reply (apply_my_reply c body t).status (apply_my_reply-is_live c body t open_now),
      rw more (keep-append is_public t.messages (said c body) refl),
    )
