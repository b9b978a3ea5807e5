-- ===== src/Cart/Paid.antt =====
-- When a payment is asked for, and when a code may be.
use backend_new.Basics.{
  ℕ, ◌≡◌, ◌≢◌, ◌⊎◌, ◌↔◌, refl, sym, ap, subst, ◌∙◌, inl, inr, Bool, true, false, not, ◌&&◌, Option,
  none, some, List, [], ◌∷◌, any, is_none, if◌then◌else◌, Result, ok, err, Bool-cases, Option-cases,
  arith,
}
use backend_new.Cart.Items.{ItemType, sip, lumpsum, is_lumpsum}
use backend_new.Cart.Checkout.{
  Checkout, LineDto, is_live, OrderState, under_review, pending, confirmed, submitted, successful,
  failed, cancelled, reversed, order_ended,
}
use backend_new.Cart.Consent.{with_id}
use backend_new.Cart.Payment.{
  PaymentStatus, payment_initiated, payment_pending, payment_submitted, payment_approved,
  payment_success, payment_failed, payment_rejected, PayRefusal, PayEvent, pay, confirm, payable,
  needs_payment, pay_for, pay_checkout,
}

abbrev pub is_pay : PayEvent → Bool
is_pay (pay ids) = true
is_pay (confirm ids) = false

abbrev pub asks : Result PayRefusal (List PayEvent) → Bool
asks (err e) = false
asks (ok events) = any is_pay events

abbrev is_empty : List ℕ → Bool
is_empty [] = true
is_empty (id ∷ ids) = false

-- A one-time line with an order, neither failed nor cancelled, and no error.
pub record IsPayable (l : LineDto) : Type 0 where
  pub one_time : l.line.item_type ≡ lumpsum
  pub placed : (id : ℕ) × (l.line.order ≡ some id)
  pub goes_on :
      (state : OrderState) × (l.order_state ≡ some state) × (state ≢ failed) × (state ≢ cancelled)
  pub fine : l.line.error ≡ none

-- A line of the list.
pub data Some (P : LineDto → Type 0) : List LineDto → Type 0 where
  this : {l : LineDto} {ls : List LineDto} → P l → Some P (l ∷ ls)
  further : {l : LineDto} {ls : List LineDto} → Some P ls → Some P (l ∷ ls)

-- What a payment takes: a confirmed checkout, an order to pay for, and no payment that stands.
pub record IsDue (c : Checkout) (dtos : List LineDto) (payment : Option PaymentStatus)
    : Type 0 where
  pub consented : (at : ℕ) × (c.consented_at ≡ some at)
  pub owed : Some IsPayable dtos
  pub unpaid :
      (payment ≡ none) ⊎ ((payment ≡ some payment_failed) ⊎ (payment ≡ some payment_rejected))

module _ (l : LineDto) (ls : List LineDto) where
  skipped : (is_live l && is_lumpsum l.line.item_type) ≡ false → payable (l ∷ ls) ≡ payable ls
  skipped out = rw out

  without_state :
      (is_live l && is_lumpsum l.line.item_type) ≡ true
      → l.order_state ≡ none
      → payable (l ∷ ls) ≡ payable ls
  without_state on missing = rw (on, missing)

  without_order :
      (is_live l && is_lumpsum l.line.item_type) ≡ true
      → (state : OrderState) → l.order_state ≡ some state
      → l.line.order ≡ none
      → payable (l ∷ ls) ≡ payable ls
  without_order on state has missing = rw (on, has, missing)

  taken :
      (is_live l && is_lumpsum l.line.item_type) ≡ true
      → (state : OrderState) (id : ℕ) → l.order_state ≡ some state
      → l.line.order ≡ some id
      → payable (l ∷ ls) ≡ id ∷ payable ls
  taken on state id has here = rw (on, has, here)

not_ended :
    (state : OrderState) → order_ended state ≡ false → (state ≢ failed) × (state ≢ cancelled)
not_ended state on = (
  λ is. absurd (let bad = subst (λ x. order_ended x ≡ false) is on in cc),
  λ is. absurd (let bad = subst (λ x. order_ended x ≡ false) is on in cc),
)

goes_on_not_ended :
    (state : OrderState) → state ≢ failed → state ≢ cancelled → order_ended state ≡ false
goes_on_not_ended failed a b = absurd (a refl)
goes_on_not_ended cancelled a b = absurd (b refl)
goes_on_not_ended under_review a b = refl
goes_on_not_ended pending a b = refl
goes_on_not_ended confirmed a b = refl
goes_on_not_ended submitted a b = refl
goes_on_not_ended successful a b = refl
goes_on_not_ended reversed a b = refl

lumpsum_of : (t : ItemType) → is_lumpsum t ≡ true → t ≡ lumpsum
lumpsum_of sip e = absurd (cc)
lumpsum_of lumpsum e = refl

none_of {ℓ} : {A : Type ℓ} (o : Option A) → is_none o ≡ true → o ≡ none
none_of none e = refl
none_of (some x) e = absurd (cc)

live-IsPayable :
    (l : LineDto) (state : OrderState) (id : ℕ)
    → (is_live l && is_lumpsum l.line.item_type) ≡ true
    → l.order_state ≡ some state
    → l.line.order ≡ some id
    → IsPayable l
unfolding is_live
live-IsPayable l state id on has here = elim (Bool-cases (is_none l.line.error)) [
  | inr wrong ↦ absurd (let bad = rw (wrong, is_live) at on in cc)
  | inl fine ↦
      let both : (not (order_ended state) && is_lumpsum l.line.item_type) ≡ true =
        rw (fine, has, is_live) at on in
      record {
        one_time = lumpsum_of l.line.item_type (ground arith);
        placed = (id, here);
        goes_on =
            let (fine_state, kept_state) = not_ended state (ground arith) in
            (state, has, fine_state, kept_state);
        fine = none_of l.line.error fine;
      }
]

IsPayable-live : (l : LineDto) → IsPayable l → (is_live l && is_lumpsum l.line.item_type) ≡ true
unfolding is_live
IsPayable-live l p =
    let (state, has, a, b) = p.goes_on in
    let fine = p.fine in
    let kind = p.one_time in
    let on = goes_on_not_ended state a b in rw (fine, has, kind, on, is_live)

-- There is something to pay exactly where a line is payable.
owed_by : (dtos : List LineDto) → is_empty (payable dtos) ≡ false → Some IsPayable dtos
owed_by [] e = absurd (cc)
owed_by (l ∷ ls) e = elim (Bool-cases (is_live l && is_lumpsum l.line.item_type)) [
  | inr out ↦ further (owed_by ls (ap is_empty (sym (skipped l ls out)) ∙ e))
  | inl on ↦ elim (Option-cases l.order_state) [
    | inl missing ↦ further (owed_by ls (ap is_empty (sym (without_state l ls on missing)) ∙ e))
    | inr (state, has) ↦ elim (Option-cases l.line.order) [
      | inl missing ↦
          further (owed_by ls (ap is_empty (sym (without_order l ls on state has missing)) ∙ e))
      | inr (id, found) ↦ this (live-IsPayable l state id on has found)
    ]
  ]
]

with_id-is_empty :
    (o : Option ℕ) (ids : List ℕ) → is_empty ids ≡ false → is_empty (with_id o ids) ≡ false
with_id-is_empty none ids e = e
with_id-is_empty (some id) ids e = refl

payable_of : (dtos : List LineDto) → Some IsPayable dtos → is_empty (payable dtos) ≡ false
payable_of [] e = elim e [ ]
payable_of (l ∷ ls) (this p) =
    let (state, has, a, b) = p.goes_on in
    let (id, found) = p.placed in ap is_empty (taken l ls (IsPayable-live l p) state id has found)
payable_of (l ∷ ls) (further s) = elim (Bool-cases (is_live l && is_lumpsum l.line.item_type)) [
  | inr out ↦ ap is_empty (skipped l ls out) ∙ payable_of ls s
  | inl on ↦ rw on (
      with_id-is_empty (if is_none l.order_state then none else l.line.order) (payable ls)
        (payable_of ls s))
]

-- The payments after which another one is asked for.
came_to_nothing :
    (payment : Option PaymentStatus)
    → needs_payment payment ≡ true
    → (payment ≡ none) ⊎ ((payment ≡ some payment_failed) ⊎ (payment ≡ some payment_rejected))
came_to_nothing none e = inl refl
came_to_nothing (some payment_failed) e = inr (inl refl)
came_to_nothing (some payment_rejected) e = inr (inr refl)
came_to_nothing (some payment_initiated) e = absurd (cc)
came_to_nothing (some payment_pending) e = absurd (cc)
came_to_nothing (some payment_submitted) e = absurd (cc)
came_to_nothing (some payment_approved) e = absurd (cc)
came_to_nothing (some payment_success) e = absurd (cc)

another :
    (payment : Option PaymentStatus)
    → (payment ≡ none) ⊎ ((payment ≡ some payment_failed) ⊎ (payment ≡ some payment_rejected))
    → needs_payment payment ≡ true
another payment (inl e) = rw e
another payment (inr (inl e)) = rw e
another payment (inr (inr e)) = rw e

asked :
    (ids : List ℕ) (payment : Option PaymentStatus)
    → any is_pay (pay_for ids payment) ≡ (not (is_empty ids) && needs_payment payment)
asked [] payment = refl
asked (id ∷ ids) payment = elim (Bool-cases (needs_payment payment)) [
  | inl due ↦ rw due
  | inr stands ↦ rw stands
]

-- `payCheckout` asks for a payment exactly when the checkout is confirmed, a one-time line of it has an
-- order that neither failed nor was cancelled, and no error, and the checkout has no payment but one
-- that failed or was rejected.
pub pay_checkout_iff :
    (c : Checkout) (dtos : List LineDto) (payment : Option PaymentStatus)
    → (asks (pay_checkout c dtos payment) ≡ true) ↔ IsDue c dtos payment
unfolding pay_checkout
pay_checkout_iff c dtos payment = (
  λ e. elim (Option-cases c.consented_at) [
    | inl early ↦ absurd (let bad = rw (early, pay_checkout) at e in cc)
    | inr (at, since) ↦
        let due = sym (asked (payable dtos) payment) ∙ (rw (since, pay_checkout) at e) in
        record {
          consented = (at, since);
          owed = owed_by dtos (ground arith);
          unpaid = came_to_nothing payment (ground arith);
        }
  ],
  λ d.
      let (at, since) = d.consented in
      let owed = payable_of dtos d.owed in
      let unpaid = another payment d.unpaid in
      rw (since, pay_checkout) (asked (payable dtos) payment ∙ rw (owed, unpaid)),
)
