-- ===== src/Cart/Payment.antt =====
-- Paying for a checkout: `payCheckout`, and what a code is sent for: `consentTarget`.
use backend_new.Basics.{
  ℕ, Bool, true, false, ◌&&◌, Option, none, some, List, [], ◌∷◌, find, keep, is_none, if◌then◌else◌,
  Result, ok, err,
}
use backend_new.Cart.Items.{is_lumpsum}
use backend_new.Cart.Checkout.{
  Checkout, LineDto, stage_failed, stage_consented, stage_reviewing, stage_ready, stage_of, is_live,
}
use backend_new.Cart.Consent.{order_ids}

pub data PaymentStatus : Type 0 where
  payment_initiated payment_pending payment_submitted payment_approved payment_success
        payment_failed payment_rejected :
      PaymentStatus

abbrev pub fell_through : PaymentStatus → Bool
fell_through payment_failed = true
fell_through payment_rejected = true
fell_through _ = false

pub data PayRefusal : Type 0 where
  not_confirmed not_ready confirmed_before : PayRefusal

-- What is asked of the payment and order services.
pub data PayEvent : Type 0 where
  pay : List ℕ → PayEvent
  confirm : List ℕ → PayEvent

-- The orders of the one-time lines that can still go ahead.
abbrev pub payable : List LineDto → List ℕ
payable dtos = order_ids (keep (λ l. is_live l && is_lumpsum l.line.item_type) dtos)

-- No payment, or one that came to nothing.
abbrev pub needs_payment : Option PaymentStatus → Bool
needs_payment none = true
needs_payment (some status) = fell_through status

abbrev pub pay_for : List ℕ → Option PaymentStatus → List PayEvent
pay_for [] payment = []
pay_for (id ∷ ids) payment =
    if needs_payment payment
    then pay (id ∷ ids) ∷ confirm (id ∷ ids) ∷ []
    else confirm (id ∷ ids) ∷ []

-- The calls that it makes; a call that fails ends it there.
unfoldable pub pay_checkout :
    Checkout → List LineDto → Option PaymentStatus → Result PayRefusal (List PayEvent)
pay_checkout c dtos payment =
    if is_none c.consented_at then err not_confirmed else ok (pay_for (payable dtos) payment)

-- The first line that can go ahead.
abbrev pub first_live : List LineDto → List LineDto
first_live dtos = elim (find is_live dtos) [ none ↦ [] | some l ↦ l ∷ [] ]

abbrev pub first_folio : (ℕ → Option ℕ) → List ℕ → Option ℕ
first_folio folio_of [] = none
first_folio folio_of (id ∷ ids) = folio_of id

-- The account and the folio that a code is sent for; `folio_of` reads an order's row.
unfoldable pub consent_target :
    (folio_of : ℕ → Option ℕ) → Checkout → List LineDto → Result PayRefusal (ℕ × Option ℕ)
consent_target folio_of c dtos = elim (stage_of c.consented_at dtos) [
  | stage_consented ↦ err confirmed_before
  | stage_ready ↦ ok (c.account, first_folio folio_of (order_ids (first_live dtos)))
  | stage_failed ↦ err not_ready
  | stage_reviewing ↦ err not_ready
]
