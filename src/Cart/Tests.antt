-- ===== src/Cart/Tests.antt =====
-- A cart and its checkout at concrete inputs.
use backend_new.Basics.{
  ℕ, ◌≡◌, ◌≢◌, ◌↔◌, refl, All, map, true, false, Option, none, some, List, [], ◌∷◌, text_eq, any,
  arith, Result, ok, err, ◌+◌,
}
use backend_new.Cart.Items.{Item, sip, lumpsum, Scheme, PutInput, put_cart_item, may_put, upsert}
use backend_new.Cart.Bounds.{IsCart, put, Step-IsCart}
use backend_new.Cart.Refined.{Refines, cart-Refines}
use backend_new.Cart.Checkout.{
  Line, CheckoutInput, Checkout, LineDto, Reply, done, refused, create_checkout, may_check_out,
  place_lumpsums, place_sips, pending, stage_of, is_live,
}
use backend_new.Cart.Settled.{goods, has_outcome, create_checkout-Settles}
use backend_new.Cart.Consent.{
  Order, Contact, Proof, Request, ConsentRefusal, consent_checkout, prepared, assert_proof_for,
  send_all, wrong_mobile, broke,
}
use backend_new.Cart.Payment.{
  pay, confirm, payment_failed, payment_pending, pay_checkout, consent_target,
}
use backend_new.Cart.Paid.{asks, IsDue, pay_checkout_iff}
use backend_new.Cart.Sent.{IsForAll, consent_checkout-IsForAll, is_sent, refused_sends_nothing}

abbrev fund : Scheme
fund = record { id = 1; isin = 100; is_active = true; purchase_allowed = true; sip_allowed = true }

abbrev one_time : Item
one_time = record { id = 7; user = 3; scheme = 1; item_type = lumpsum; amount = 500000 }

abbrev monthly : Item
monthly = record { id = 8; user = 3; scheme = 1; item_type = sip; amount = 100000 }

empty : IsCart []
empty = record {
  few = λ u. omega arith;
  few_lumpsums = λ u. omega arith;
  single = λ u s t. omega arith;
}

abbrev input : PutInput
input = record { user = 3; isin = 100; item_type = lumpsum; amount = 500000 }

Step-IsCart_example : IsCart (put_cart_item (fund ∷ []) 7 input []).0
Step-IsCart_example = Step-IsCart (fund ∷ []) {items = []} (put 7 input) empty

put_once : (put_cart_item (fund ∷ []) 7 input []).0 ≡ one_time ∷ []
unfolding put_cart_item may_put upsert
put_once = refl

cart-Refines_example : Refines (fund ∷ []) []
cart-Refines_example = cart-Refines (fund ∷ []) [] empty

-- Services that place every order, and refuse every plan.
abbrev batch : List Line → ℕ → ℕ × Reply (List ℕ)
batch lines s = (s + 1, done (s ∷ []))

abbrev plans : Line → ℕ → ℕ × Reply ℕ
plans line s = (s + 1, refused 42 none)

abbrev choice : CheckoutInput
choice = record { user = 3; account = 2; mandate = some 6; installment_day = some 5 }

abbrev ref : ℕ → ℕ
ref n = n

abbrev isin_of : ℕ → ℕ
isin_of id = 100

answered :
    (create_checkout batch plans 1 ref isin_of choice (one_time ∷ monthly ∷ []) [] 50).2 ≡ ok tt
unfolding create_checkout may_check_out place_lumpsums place_sips
answered = refl

create_checkout-Settles_example :
    (c : Checkout) × ((create_checkout batch plans 1 ref isin_of choice
        (one_time ∷ monthly ∷ [])
        []
        50).1
      ≡ c ∷ [])
    × All (λ l. has_outcome l ≡ true) c.lines
    × (map goods c.lines
        ≡ record { isin = 100; item_type = lumpsum; amount = 500000 }
          ∷ record { isin = 100; item_type = sip; amount = 100000 }
          ∷ [])
create_checkout-Settles_example =
    create_checkout-Settles batch plans 1 ref isin_of choice (one_time ∷ monthly ∷ []) [] 50
      answered

abbrev line : Line
line = record {
  source_ref = 0;
  isin = 100;
  item_type = lumpsum;
  amount = 500000;
  order = some 50;
  plan = none;
  error = none;
}

abbrev checkout : Checkout
checkout = record {
  id = 1;
  user = 3;
  account = 2;
  mandate = none;
  installment_day = none;
  consented_at = none;
  lines = line ∷ [];
}

abbrev dto : LineDto
dto = record { line = line; order_state = some pending; plan_state = none }

abbrev waiting : Order
waiting = record { id = 50; account = 2; folio = none; state = pending; consent_at = none }

-- The registered mobile is 91 5, written as digits of the text.
abbrev contact_of : ℕ → Option ℕ → Result ConsentRefusal Contact
contact_of account folio = ok (record { isd_code = 57 ∷ 49 ∷ []; mobile = 53 ∷ [] })

abbrev prepare : ℕ → Result ConsentRefusal (Option Contact)
prepare id = ok none

abbrev consume : ℕ → ℕ → Result ConsentRefusal Proof
consume token id = ok (record { phone = 43 ∷ 57 ∷ 49 ∷ 53 ∷ []; is_approval = true })

abbrev consume_other : ℕ → ℕ → Result ConsentRefusal Proof
consume_other token id = ok (record { phone = 43 ∷ 57 ∷ 49 ∷ 54 ∷ []; is_approval = true })

abbrev send : Request → Reply (Unit {0})
send r = done tt

confirmed :
    (consent_checkout contact_of prepare consume send isin_of 9 77 checkout
      (dto ∷ [])
      (waiting ∷ [])
      []).3
    ≡ ok tt
unfolding consent_checkout prepared stage_of is_live assert_proof_for send_all text_eq
confirmed = refl

consent_checkout-IsForAll_example :
    IsForAll contact_of prepare consume send 77 checkout
      (dto ∷ [])
      (waiting ∷ [])
      (consent_checkout contact_of prepare consume send isin_of 9 77 checkout
        (dto ∷ [])
        (waiting ∷ [])
        []).0
consent_checkout-IsForAll_example =
    consent_checkout-IsForAll contact_of prepare consume send isin_of 9 77 checkout (dto ∷ [])
      (waiting ∷ []) [] refl confirmed

other_mobile :
    (consent_checkout contact_of prepare consume_other send isin_of 9 77 checkout
      (dto ∷ [])
      (waiting ∷ [])
      []).3
    ≡ err wrong_mobile
unfolding consent_checkout prepared stage_of is_live assert_proof_for send_all text_eq
other_mobile = refl

apart : wrong_mobile ≢ broke
apart e = absurd (cc)

refused_sends_nothing_example :
    (any is_sent
        (consent_checkout contact_of prepare consume_other send isin_of 9 77 checkout
          (dto ∷ [])
          (waiting ∷ [])
          []).0
      ≡ false)
    × ((consent_checkout contact_of prepare consume_other send isin_of 9 77 checkout
          (dto ∷ [])
          (waiting ∷ [])
          []).1
        ≡ checkout)
    × ((consent_checkout contact_of prepare consume_other send isin_of 9 77 checkout
          (dto ∷ [])
          (waiting ∷ [])
          []).2
        ≡ [])
refused_sends_nothing_example =
    refused_sends_nothing contact_of prepare consume_other send isin_of 9 77 checkout (dto ∷ [])
      (waiting ∷ []) [] wrong_mobile other_mobile apart

abbrev confirmed_checkout : Checkout
confirmed_checkout = record checkout { consented_at = some 9 }

paid_once :
    pay_checkout confirmed_checkout (dto ∷ []) (some payment_failed)
    ≡ ok (pay (50 ∷ []) ∷ confirm (50 ∷ []) ∷ [])
unfolding pay_checkout is_live
paid_once = refl

not_again :
    pay_checkout confirmed_checkout (dto ∷ []) (some payment_pending) ≡ ok (confirm (50 ∷ []) ∷ [])
unfolding pay_checkout is_live
not_again = refl

pay_checkout_iff_example :
    (asks (pay_checkout confirmed_checkout (dto ∷ []) none) ≡ true)
    ↔ IsDue confirmed_checkout (dto ∷ []) none
pay_checkout_iff_example = pay_checkout_iff confirmed_checkout (dto ∷ []) none

code_goes_to : consent_target (λ id. some id) checkout (dto ∷ []) ≡ ok (2, some 50)
unfolding consent_target stage_of is_live
code_goes_to = refl
