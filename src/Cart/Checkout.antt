-- ===== src/Cart/Checkout.antt =====
-- Placing a cart: `createCheckout`, and the stage a checkout is at.
use backend_new.Basics.{
  ℕ, ◌+◌, Bool, true, false, not, ◌&&◌, Option, none, some, List, [], ◌∷◌, map, ltb, ◌==◌, any,
  keep, length, is_none, if◌then◌else◌, Result, ok, err, ◌>>◌, throw_if,
}
use backend_new.Cart.Items.{ItemType, is_sip, is_lumpsum, Item, of_user, max_lumpsums}

-- A line of a checkout; `error` numbers the reason that the provider gave.
pub record Line : Type 0 where
  pub source_ref : ℕ
  pub isin : ℕ
  pub item_type : ItemType
  pub amount : ℕ
  pub order : Option ℕ
  pub plan : Option ℕ
  pub error : Option ℕ

pub record Checkout : Type 0 where
  pub id : ℕ
  pub user : ℕ
  pub account : ℕ
  pub mandate : Option ℕ
  pub installment_day : Option ℕ
  pub consented_at : Option ℕ
  pub lines : List Line

pub record CheckoutInput : Type 0 where
  pub user : ℕ
  pub account : ℕ
  pub mandate : Option ℕ
  pub installment_day : Option ℕ

pub data CheckoutRefusal : Type 0 where
  empty_cart many_lumpsums no_mandate no_day failure : CheckoutRefusal

-- What the order or plan service answers: a result, a refusal with a message and perhaps the plan that
-- it left, or any other failure.
pub data Reply (A : Type 0) : Type 0 where
  done : A → Reply A
  refused : (message : ℕ) (plan : Option ℕ) → Reply A
  broken : Reply A

-- Zero is no day.
abbrev pub no_day_given : Option ℕ → Bool
no_day_given none = true
no_day_given (some d) = d == 0

abbrev pub some_lines : List Item → Bool
some_lines [] = false
some_lines (i ∷ is) = true

unfoldable pub may_check_out : CheckoutInput → List Item → Result CheckoutRefusal (Unit {0})
may_check_out input cart =
    throw_if (not (some_lines cart)) empty_cart
    >> throw_if (ltb max_lumpsums (length (keep (λ i. is_lumpsum i.item_type) cart))) many_lumpsums
    >> throw_if (any (λ i. is_sip i.item_type) cart && is_none input.mandate) no_mandate
    >> throw_if (any (λ i. is_sip i.item_type) cart && no_day_given input.installment_day) no_day

-- A line for each item of the cart, each with a reference of its own.
abbrev pub lines_of : (ℕ → ℕ) → ℕ → (ℕ → ℕ) → List Item → List Line
lines_of fresh_ref n isin_of [] = []
lines_of fresh_ref n isin_of (i ∷ is) =
    record {
      source_ref = fresh_ref n;
      isin = isin_of i.scheme;
      item_type = i.item_type;
      amount = i.amount;
      order = none;
      plan = none;
      error = none;
    }
    ∷ lines_of fresh_ref (n + 1) isin_of is

abbrev pub one_time : Line → Bool
one_time l = is_lumpsum l.item_type

abbrev pub then_cons : Line → Option (List Line) → Option (List Line)
then_cons l none = none
then_cons l (some ls) = some (l ∷ ls)

-- The mandate and the day are kept only where a line is monthly.
abbrev pub new_checkout : ℕ → CheckoutInput → Bool → List Line → Checkout
new_checkout fresh input monthly lines = record {
  id = fresh;
  user = input.user;
  account = input.account;
  mandate = if monthly then input.mandate else none;
  installment_day = if monthly then input.installment_day else none;
  consented_at = none;
  lines = lines;
}

-- `orders[index]!.id` for each one-time line, in order; it fails when there are too few orders.
abbrev pub assign : List ℕ → List Line → Option (List Line)
assign ids [] = some []
assign [] (l ∷ ls) = let rest = assign [] ls in if one_time l then none else then_cons l rest
assign (id ∷ ids) (l ∷ ls) =
    let next_one = assign ids ls in
    let same_one = assign (id ∷ ids) ls in
    if one_time l then then_cons (record l { order = some id }) next_one else then_cons l same_one

abbrev pub fail_line : ℕ → Line → Line
fail_line message l = if one_time l then record l { error = some message } else l

-- `S` is the state of the order and plan services.
module _ {S : Type 0} (create_batch : List Line → S → S × Reply (List ℕ))
    (create_sip : Line → S → S × Reply ℕ) where
  abbrev pub batch_reply : List Line → S × Reply (List ℕ) → S × List Line × Bool
  batch_reply ls (s, done ids) = elim (assign ids ls) [
    | none ↦ (s, ls, false)
    | some placed ↦ (s, placed, true)
  ]
  batch_reply ls (s, refused message plan) = (s, map (fail_line message) ls, true)
  batch_reply ls (s, broken) = (s, ls, false)

  -- All one-time lines in one batch.
  unfoldable pub place_lumpsums : List Line → S → S × List Line × Bool
  place_lumpsums ls s =
      if any one_time ls then batch_reply ls (create_batch (keep one_time ls) s) else (s, ls, true)

  abbrev pub then_line : Line → S × List Line × Bool → S × List Line × Bool
  then_line l (s, ls, good) = (s, l ∷ ls, good)

  abbrev pub sip_reply :
      Line → S × Reply ℕ → (rest : S → S × List Line × Bool) → List Line → S × List Line × Bool
  sip_reply l (s, done id) rest ls = then_line (record l { plan = some id }) (rest s)
  sip_reply l (s, refused message plan) rest ls =
      then_line (record l { error = some message; plan = plan }) (rest s)
  sip_reply l (s, broken) rest ls = (s, l ∷ ls, false)

  -- Each monthly line by itself; a failure that is no refusal stops the loop.
  unfoldable pub place_sips : List Line → S → S × List Line × Bool
  place_sips [] s = (s, [], true)
  place_sips (l ∷ ls) s = elim (one_time l) [
    | true ↦ then_line l (place_sips ls s)
    | false ↦ sip_reply l (create_sip l s) (λ s'. place_sips ls s') ls
  ]

  abbrev pub then_sips : S × List Line × Bool → S × List Line × Bool
  then_sips (s, ls, true) = place_sips ls s
  then_sips (s, ls, false) = (s, ls, false)

  abbrev pub answer : Bool → Result CheckoutRefusal (Unit {0})
  answer true = ok tt
  answer false = err failure

  abbrev pub store :
      Checkout
      → List Checkout
      → S × List Line × Bool
      → S × List Checkout × Result CheckoutRefusal (Unit {0})
  store c checkouts (s, ls, good) = (s, record c { lines = ls } ∷ checkouts, answer good)

  unfoldable pub create_checkout :
      (fresh : ℕ) (fresh_ref isin_of : ℕ → ℕ)
      → CheckoutInput
      → List Item
      → List Checkout
      → S
      → S × List Checkout × Result CheckoutRefusal (Unit {0})
  create_checkout fresh fresh_ref isin_of input items checkouts s =
      let cart = keep (of_user input.user) items in
      elim (may_check_out input cart) [
        | err e ↦ (s, checkouts, err e)
        | ok fine ↦
            let lines = lines_of fresh_ref 0 isin_of cart in
            store (new_checkout fresh input (any (λ i. is_sip i.item_type) cart) lines) checkouts
              (then_sips (place_lumpsums lines s))
      ]

-- The states of an order and of a plan.
pub data OrderState : Type 0 where
  under_review pending confirmed submitted successful failed cancelled reversed : OrderState

pub data PlanState : Type 0 where
  created review_completed confirmed_plan submitted_plan active cancelled_plan completed
        failed_plan :
      PlanState

pub data Stage : Type 0 where
  stage_failed stage_consented stage_reviewing stage_ready : Stage

abbrev pub order_ended : OrderState → Bool
order_ended failed = true
order_ended cancelled = true
order_ended _ = false

abbrev pub plan_ended : PlanState → Bool
plan_ended failed_plan = true
plan_ended cancelled_plan = true
plan_ended _ = false

abbrev pub in_review : OrderState → Bool
in_review under_review = true
in_review _ = false

abbrev pub is_created : PlanState → Bool
is_created created = true
is_created _ = false

-- A line with what its order and plan are at, as `toCheckoutDto` joins them.
pub record LineDto : Type 0 where
  pub line : Line
  pub order_state : Option OrderState
  pub plan_state : Option PlanState

unfoldable pub is_live : LineDto → Bool
is_live l = if not (is_none l.line.error) then false else elim l.order_state [
  | some state ↦ not (order_ended state)
  | none ↦ elim l.plan_state [ some state ↦ not (plan_ended state) | none ↦ false ]
]

abbrev pub is_waiting : LineDto → Bool
is_waiting l = elim l.order_state [
  | some state ↦ in_review state
  | none ↦ elim l.plan_state [ some state ↦ is_created state | none ↦ false ]
]

abbrev pub join : (ℕ → Option OrderState) → (ℕ → Option PlanState) → Line → LineDto
join order_of plan_of l = record {
  line = l;
  order_state = elim l.order [ none ↦ none | some id ↦ order_of id ];
  plan_state = elim l.plan [ none ↦ none | some id ↦ plan_of id ];
}

unfoldable pub stage_of : Option ℕ → List LineDto → Stage
stage_of consented_at dtos =
    if not (any is_live dtos)
    then stage_failed
    else if not (is_none consented_at)
    then stage_consented
    else if any is_waiting (keep is_live dtos)
    then stage_reviewing
    else stage_ready
