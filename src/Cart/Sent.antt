-- ===== src/Cart/Sent.antt =====
-- What a confirmation sends: nothing, or a consent for every line.
use backend_new.Basics.{
  ℕ, ◌≡◌, ◌≢◌, refl, ap, inl, inr, Bool, true, false, not, Option, List, [], ◌∷◌, ◌++◌, map, All,
  any, is_none, text_eq, text_eq_iff, Result, Result-cases, Bool-cases, ok, err, throw_if,
  throw_if-eq_ok, step-ok, arith,
}
use backend_new.Cart.Items.{Item}
use backend_new.Cart.Checkout.{Line, Checkout, LineDto, Reply, done, refused, broken}
use backend_new.Cart.Consent.{
  Contact, Proof, Order, Request, Event, code_spent, consent_sent, ConsentRefusal, wrong_mobile,
  not_an_approval, broke, digits, assert_proof_for, all_proved, prepared, sent_on, send_all, finish,
  consent_checkout,
}

abbrev pub is_sent : Event → Bool
is_sent code_spent = false
is_sent (consent_sent r) = true

-- A proof for a transaction, sent to the mobile that is registered for the request.
pub record IsProved (proof : Proof) (r : Request) : Type 0 where
  pub approval : proof.is_approval ≡ true
  pub mobile : digits proof.phone ≡ digits (r.contact.isd_code ++ r.contact.mobile)

twice_not : (b : Bool) → not b ≡ false → b ≡ true
twice_not b e = ground arith

assert_proof_for-IsProved :
    (proof : Proof) (r : Request) → assert_proof_for proof r.contact ≡ ok tt → IsProved proof r
unfolding assert_proof_for
assert_proof_for-IsProved proof r e =
    let (a, b) =
      step-ok _
        (throw_if
          (not (text_eq (digits proof.phone) (digits (r.contact.isd_code ++ r.contact.mobile))))
          wrong_mobile)
        e in
    record {
      approval = twice_not _ (throw_if-eq_ok _ not_an_approval a);
      mobile = (text_eq_iff _ _).0 (twice_not _ (throw_if-eq_ok _ wrong_mobile b));
    }

all_proved-IsProved :
    (proof : Proof) (rs : List Request) → all_proved proof rs ≡ ok tt → All (IsProved proof) rs
all_proved-IsProved proof [] e = tt
all_proved-IsProved proof (r ∷ rs) e =
    let (one, rest) = step-ok (assert_proof_for proof r.contact) (all_proved proof rs) e in
    (assert_proof_for-IsProved proof r one, all_proved-IsProved proof rs rest)

module _ (contact_of : ℕ → Option ℕ → Result ConsentRefusal Contact)
    (prepare : ℕ → Result ConsentRefusal (Option Contact))
    (consume : ℕ → ℕ → Result ConsentRefusal Proof) (send : Request → Reply (Unit {0})) where
  sent_on-log :
      (r : Request) (reply : Reply (Unit {0})) (rest : List Line → List Event × List Line × Bool)
      (lines : List Line) (log : List Event)
      → ((ls : List Line) → (rest ls).2 ≡ true → (rest ls).0 ≡ log)
      → (sent_on contact_of prepare consume send r reply rest lines).2 ≡ true
      → (sent_on contact_of prepare consume send r reply rest lines).0 ≡ consent_sent r ∷ log
  sent_on-log r (done u) rest lines log k good = ap (λ l. consent_sent r ∷ l) (k lines good)
  sent_on-log r (refused message plan) rest lines log k good =
      ap (λ l. consent_sent r ∷ l) (k _ good)
  sent_on-log r broken rest lines log k good = absurd (cc)

  send_all-log :
      (rs : List Request) (lines : List Line)
      → (send_all contact_of prepare consume send rs lines).2 ≡ true
      → (send_all contact_of prepare consume send rs lines).0 ≡ map consent_sent rs
  unfolding send_all
  send_all-log [] lines good = refl
  send_all-log (r ∷ rs) lines good =
      sent_on-log r (send r) (λ ls. send_all contact_of prepare consume send rs ls) lines
        (map consent_sent rs) (λ ls fine. send_all-log rs ls fine) good

  -- Everything that was prepared, with a proof for each.
  pub record IsForAll (token : ℕ) (c : Checkout) (dtos : List LineDto) (orders : List Order)
      (log : List Event) : Type 0 where
    pub requests : List Request
    pub proof : Proof
    pub all : prepared contact_of prepare consume send c.consented_at dtos orders ≡ ok requests
    pub spent : consume token c.id ≡ ok proof
    pub proved : All (IsProved proof) requests
    pub sent : log ≡ code_spent ∷ map consent_sent requests

  finish-sent :
      (isin_of : ℕ → ℕ) (now : ℕ) (c : Checkout) (items : List Item)
      (r : List Event × List Line × Bool) (log : List Event)
      → (r.2 ≡ true → r.0 ≡ log)
      → (finish contact_of prepare consume send isin_of now c items r).3 ≡ ok tt
      → (finish contact_of prepare consume send isin_of now c items r).0 ≡ code_spent ∷ log
  finish-sent isin_of now c items (l, lines, true) log k e = ap (λ x. code_spent ∷ x) (k refl)
  finish-sent isin_of now c items (l, lines, false) log k e = absurd (cc)

  finish-error :
      (isin_of : ℕ → ℕ) (now : ℕ) (c : Checkout) (items : List Item)
      (r : List Event × List Line × Bool) (e : ConsentRefusal)
      → (finish contact_of prepare consume send isin_of now c items r).3 ≡ err e
      → e ≡ broke
  finish-error isin_of now c items (l, lines, true) e h = absurd (cc)
  finish-error isin_of now c items (l, lines, false) e h = cc

  -- A confirmation of a checkout that was not confirmed before, if it succeeds, spent one code and sent
  -- one consent for each order and plan that was prepared, in order; the code was for a transaction
  -- and went to the mobile that is registered for every one of them.
  pub consent_checkout-IsForAll :
      (isin_of : ℕ → ℕ) (now token : ℕ) (c : Checkout) (dtos : List LineDto) (orders : List Order)
      (items : List Item)
      → is_none c.consented_at ≡ true
      → (consent_checkout contact_of prepare consume send isin_of now token c dtos orders items).3
        ≡ ok tt
      → IsForAll token c dtos orders
          (consent_checkout contact_of prepare consume send isin_of now token c dtos orders items).0
  unfolding consent_checkout
  consent_checkout-IsForAll isin_of now token c dtos orders items first h =
      elim (Result-cases (prepared contact_of prepare consume send c.consented_at dtos orders)) [
        | inl (e, bad) ↦ absurd (let no_way = rw (consent_checkout, first, bad) at h in cc)
        | inr (requests, all) ↦ elim (Result-cases (consume token c.id)) [
          | inl (e, bad) ↦ absurd (let no_way = rw (consent_checkout, first, all, bad) at h in cc)
          | inr (proof, spent) ↦ elim (Result-cases (all_proved proof requests)) [
            | inl (e, bad) ↦
                absurd (let no_way = rw (consent_checkout, first, all, spent, bad) at h in cc)
            | inr (fine, proved) ↦
                let end = rw (consent_checkout, first, all, spent, proved) at h in
                record {
                  requests = requests;
                  proof = proof;
                  all = all;
                  spent = spent;
                  proved = all_proved-IsProved proof requests proved;
                  sent =
                      rw (consent_checkout, first, all, spent, proved)
                        (finish-sent isin_of now c items
                          (send_all contact_of prepare consume send requests c.lines)
                          (map consent_sent requests) (send_all-log requests c.lines) end);
                }
          ]
        ]
      ]

  -- A confirmation that is refused, other than by a failure while the consents are sent, sent none and
  -- changed neither the checkout nor the cart.
  pub refused_sends_nothing :
      (isin_of : ℕ → ℕ) (now token : ℕ) (c : Checkout) (dtos : List LineDto) (orders : List Order)
      (items : List Item) (e : ConsentRefusal)
      → (consent_checkout contact_of prepare consume send isin_of now token c dtos orders items).3
        ≡ err e
      → e ≢ broke
      → (any is_sent
            (consent_checkout contact_of prepare consume send isin_of now token c dtos orders
              items).0
          ≡ false)
        × ((consent_checkout contact_of prepare consume send isin_of now token c dtos orders
              items).1
            ≡ c)
        × ((consent_checkout contact_of prepare consume send isin_of now token c dtos orders
              items).2
            ≡ items)
  unfolding consent_checkout
  refused_sends_nothing isin_of now token c dtos orders items e h apart =
      elim (Bool-cases (is_none c.consented_at)) [
        | inr again ↦ absurd (let no_way = rw (consent_checkout, again) at h in cc)
        | inl first ↦
            elim (Result-cases
              (prepared contact_of prepare consume send c.consented_at dtos orders)) [
                | inl (x, bad) ↦ rw (consent_checkout, first, bad) (refl, refl, refl)
                | inr (requests, all) ↦ elim (Result-cases (consume token c.id)) [
                  | inl (x, bad) ↦ rw (consent_checkout, first, all, bad) (refl, refl, refl)
                  | inr (proof, spent) ↦ elim (Result-cases (all_proved proof requests)) [
                    | inl (x, bad) ↦
                        rw (consent_checkout, first, all, spent, bad) (refl, refl, refl)
                    | inr (fine, proved) ↦ absurd (
                        apart (
                          finish-error isin_of now c items
                            (send_all contact_of prepare consume send requests c.lines) e
                            (rw (consent_checkout, first, all, spent, proved) at h)))
                  ]
                ]
              ]
      ]
