-- ===== src/Cart/Consent.antt =====
-- One code for a whole checkout: `consentCheckout` and `consentTarget`, with `assertProofFor` of
-- src/services/order.service.ts.
use backend_new.Basics.{
  ℕ, Bool, true, false, not, ◌&&◌, Option, none, some, List, [], ◌∷◌, ◌++◌, leb, ◌==◌, Text,
  text_eq, any, keep, includes, is_none, same_option, update_where, if◌then◌else◌, Result, ok, err,
  ◌>>=◌, ◌>>◌, throw_if,
}
use backend_new.Cart.Items.{Item, same_type}
use backend_new.Cart.Checkout.{
  Line, Checkout, LineDto, OrderState, pending, Stage, stage_ready, stage_of, is_live, Reply, done,
  refused, broken,
}

pub record Contact : Type 0 where
  pub isd_code : Text
  pub mobile : Text

-- A code that was spent: the number it was sent to, and whether it was to approve a transaction.
pub record Proof : Type 0 where
  pub phone : Text
  pub is_approval : Bool

pub record Order : Type 0 where
  pub id : ℕ
  pub account : ℕ
  pub folio : Option ℕ
  pub state : OrderState
  pub consent_at : Option ℕ

pub data Target : Type 0 where
  of_order of_plan : ℕ → Target

pub record Request : Type 0 where
  pub target : Target
  pub contact : Contact

-- What left for other services, in order.
pub data Event : Type 0 where
  code_spent : Event
  consent_sent : Request → Event

pub data ConsentRefusal : Type 0 where
  already_confirmed not_reviewed no_longer_pending no_contact plan_not_ready bad_token :
      ConsentRefusal
  not_an_approval wrong_mobile broke : ConsentRefusal

-- `.replace(/\D/g, "")`
abbrev pub digits : Text → Text
digits = keep (λ c. leb 48 c && leb c 57)

-- `assertProofFor`
unfoldable pub assert_proof_for : Proof → Contact → Result ConsentRefusal (Unit {0})
assert_proof_for proof contact =
    throw_if (not proof.is_approval) not_an_approval
    >> throw_if (not (text_eq (digits proof.phone) (digits (contact.isd_code ++ contact.mobile))))
        wrong_mobile

abbrev pub all_proved : Proof → List Request → Result ConsentRefusal (Unit {0})
all_proved proof [] = ok tt
all_proved proof (r ∷ rs) = assert_proof_for proof r.contact >> all_proved proof rs

abbrev pub is_ready : Stage → Bool
is_ready stage_ready = true
is_ready _ = false

abbrev pub is_pending : OrderState → Bool
is_pending pending = true
is_pending _ = false

-- `flatMap` on the orders and on the plans of lines
abbrev pub with_id : Option ℕ → List ℕ → List ℕ
with_id none ids = ids
with_id (some id) ids = id ∷ ids

abbrev pub order_ids : List LineDto → List ℕ
order_ids [] = []
order_ids (l ∷ ls) = with_id (if is_none l.order_state then none else l.line.order) (order_ids ls)

abbrev pub plan_ids : List LineDto → List ℕ
plan_ids [] = []
plan_ids (l ∷ ls) = with_id (if is_none l.plan_state then none else l.line.plan) (plan_ids ls)

abbrev pub with_request : Option Request → List Request → List Request
with_request none rs = rs
with_request (some r) rs = r ∷ rs

-- Requests gathered one by one; the first failure is the failure of all.
abbrev pub gather :
    {A : Type 0}
    → (A → Result ConsentRefusal (Option Request))
    → List A
    → Result ConsentRefusal (List Request)
gather f [] = ok []
gather f (a ∷ rest) = f a >>= λ r. gather f rest >>= λ rs. ok (with_request r rs)

abbrev pub fails_target : Target → Line → Bool
fails_target (of_order id) l = same_option l.order (some id)
fails_target (of_plan id) l = same_option l.plan (some id)

abbrev pub note : Target → ℕ → List Line → List Line
note target message lines =
    update_where (fails_target target) (λ l. record l { error = some message }) lines

-- `contact_of` is `resolveConsentContact`, `prepare` is `preparePlanConfirm`, `consume` is
-- `consumeVerificationToken`, and `send` are the writes of one consent.
module _ (contact_of : ℕ → Option ℕ → Result ConsentRefusal Contact)
    (prepare : ℕ → Result ConsentRefusal (Option Contact))
    (consume : ℕ → ℕ → Result ConsentRefusal Proof) (send : Request → Reply (Unit {0})) where
  abbrev pub order_request : Order → Result ConsentRefusal (Option Request)
  order_request o = contact_of o.account o.folio >>= λ c.
      ok (some (record { target = of_order o.id; contact = c }))

  abbrev pub planned : ℕ → Option Contact → Option Request
  planned id none = none
  planned id (some c) = some (record { target = of_plan id; contact = c })

  abbrev pub plan_request : ℕ → Result ConsentRefusal (Option Request)
  plan_request id = prepare id >>= λ c. ok (planned id c)

  abbrev pub to_consent : List LineDto → List Order → List Order
  to_consent live orders = keep (λ o. includes (order_ids live) o.id && is_none o.consent_at) orders

  -- Everything that can refuse before the code is spent.
  unfoldable pub prepared :
      Option ℕ → List LineDto → List Order → Result ConsentRefusal (List Request)
  prepared consented_at dtos orders =
      let live = keep is_live dtos in
      throw_if (not (is_ready (stage_of consented_at dtos))) not_reviewed
      >> throw_if (any (λ o. not (is_pending o.state)) (to_consent live orders)) no_longer_pending
      >> (gather order_request (to_consent live orders) >>= λ os.
          gather plan_request (plan_ids live) >>= λ ps. ok (os ++ ps))

  abbrev pub sent_on :
      Request
      → Reply (Unit {0})
      → (List Line → List Event × List Line × Bool)
      → List Line
      → List Event × List Line × Bool
  sent_on r (done u) rest lines =
      let (log, after, good) = rest lines in (consent_sent r ∷ log, after, good)
  sent_on r (refused message plan) rest lines =
      let (log, after, good) = rest (note r.target message lines) in
      (consent_sent r ∷ log, after, good)
  sent_on r broken rest lines = (consent_sent r ∷ [], lines, false)

  -- The consents one after the other; a refusal is noted on its line.
  unfoldable pub send_all : List Request → List Line → List Event × List Line × Bool
  send_all [] lines = ([], lines, true)
  send_all (r ∷ rs) lines = sent_on r (send r) (λ ls. send_all rs ls) lines

  -- The lines of the cart that were placed leave it.
  abbrev pub is_placed : (isin_of : ℕ → ℕ) → ℕ → List Line → Item → Bool
  is_placed isin_of user lines i =
      (i.user == user)
      && any
          (λ l.
            is_none l.error && (same_type i.item_type l.item_type && (isin_of i.scheme == l.isin)))
          lines

  abbrev pub finish :
      (isin_of : ℕ → ℕ)
      → ℕ
      → Checkout
      → List Item
      → List Event × List Line × Bool
      → List Event × Checkout × List Item × Result ConsentRefusal (Unit {0})
  finish isin_of now c items (log, lines, true) = (
    code_spent ∷ log,
    record c { lines = lines; consented_at = some now },
    keep (λ i. not (is_placed isin_of c.user lines i)) items,
    ok tt,
  )
  finish isin_of now c items (log, lines, false) =
      (code_spent ∷ log, record c { lines = lines }, items, err broke)

  -- What the call sends, and the checkout and the cart after it.
  unfoldable pub consent_checkout :
      (isin_of : ℕ → ℕ)
      → (now token : ℕ) → Checkout
      → List LineDto
      → List Order
      → List Item
      → List Event × Checkout × List Item × Result ConsentRefusal (Unit {0})
  consent_checkout isin_of now token c dtos orders items =
      if not (is_none c.consented_at)
      then ([], c, items, ok tt)
      else elim (prepared c.consented_at dtos orders) [
        | err e ↦ ([], c, items, err e)
        | ok requests ↦ elim (consume token c.id) [
          | err e ↦ ([], c, items, err e)
          | ok proof ↦ elim (all_proved proof requests) [
            | err e ↦ (code_spent ∷ [], c, items, err e)
            | ok fine ↦ finish isin_of now c items (send_all requests c.lines)
          ]
        ]
      ]
