-- ===== src/Cart/Settled.antt =====
-- No line of a checkout is left without an outcome.
use backend_new.Basics.{
  ℕ, ◌+◌, ◌==◌, ◌≡◌, refl, sym, ap, ◌∙◌, subst, inl, inr, Bool, true, false, not, ◌||◌, Option,
  none, some, some-injective, List, [], ◌∷◌, map, All, any, keep, is_none, Result-cases, Bool-cases,
  Option-cases, ok, arith,
}
use backend_new.Cart.Items.{is_sip, ItemType, Item, of_user}
use backend_new.Cart.Checkout.{
  Line, new_checkout, Checkout, CheckoutInput, Reply, done, refused, broken, may_check_out,
  lines_of, one_time, then_cons, assign, fail_line, batch_reply, place_lumpsums, then_line,
  place_sips, sip_reply, then_sips, store, create_checkout,
}

-- An order, a plan, or the reason why there is none.
abbrev pub has_outcome : Line → Bool
has_outcome l = not (is_none l.order) || (not (is_none l.plan) || not (is_none l.error))

-- What a line is to buy.
pub record Goods : Type 0 where
  pub isin : ℕ
  pub item_type : ItemType
  pub amount : ℕ

abbrev pub goods : Line → Goods
goods l = record { isin = l.isin; item_type = l.item_type; amount = l.amount }

-- What an item of the cart asks for; `isin_of` is the key of a fund.
abbrev pub wanted : (ℕ → ℕ) → Item → Goods
wanted isin_of i = record { isin = isin_of i.scheme; item_type = i.item_type; amount = i.amount }

goods-lines_of :
    (fresh_ref : ℕ → ℕ) (n : ℕ) (isin_of : ℕ → ℕ) (items : List Item)
    → map goods (lines_of fresh_ref n isin_of items) ≡ map (wanted isin_of) items
goods-lines_of fresh_ref n isin_of [] = refl
goods-lines_of fresh_ref n isin_of (i ∷ is) =
    ap (λ gs. wanted isin_of i ∷ gs) (goods-lines_of fresh_ref (n + 1) isin_of is)

-- A one-time line that was dealt with.
abbrev IsPlaced : Line → Type 0
IsPlaced l = (not (one_time l) || has_outcome l) ≡ true

then_cons-eq_some :
    (l : Line) (o : Option (List Line)) (placed : List Line)
    → then_cons l o ≡ some placed
    → (rest : List Line) × (o ≡ some rest) × (placed ≡ l ∷ rest)
then_cons-eq_some l none placed e = absurd (cc)
then_cons-eq_some l (some rest) placed e = (rest, refl, sym (some-injective (l ∷ rest) placed e))

-- A list of lines that were dealt with, for the same goods.
abbrev Places : List Line → List Line → Type 0
Places placed ls = All IsPlaced placed × (map goods placed ≡ map goods ls)

cons-Places :
    (new l : Line) (placed rest ls : List Line)
    → placed ≡ new ∷ rest
    → IsPlaced new
    → goods new ≡ goods l
    → Places rest ls
    → Places placed (l ∷ ls)
cons-Places new l placed rest ls e settled same (all, goods_same) =
    subst (λ x. Places x (l ∷ ls)) (sym e)
      ((settled, all), ap (λ g. g ∷ map goods rest) same ∙ ap (λ gs. goods l ∷ gs) goods_same)

assign-IsPlaced :
    (ids : List ℕ) (ls placed : List Line) → assign ids ls ≡ some placed → Places placed ls
assign-IsPlaced ids [] placed e =
    let is = some-injective [] placed e in subst (λ x. Places x []) is (tt, refl)
assign-IsPlaced [] (l ∷ ls) placed e = elim (Bool-cases (one_time l)) [
  | inl one ↦ absurd (let bad = rw one at e in cc)
  | inr monthly ↦
      let (rest, there, is) = then_cons-eq_some l (assign [] ls) placed (rw monthly at e) in
      cons-Places l l placed rest ls is (rw monthly) refl (assign-IsPlaced [] ls rest there)
]
assign-IsPlaced (id ∷ ids) (l ∷ ls) placed e = elim (Bool-cases (one_time l)) [
  | inl one ↦
      let (rest, there, is) =
        then_cons-eq_some (record l { order = some id }) (assign ids ls) placed (rw one at e) in
      cons-Places (record l { order = some id }) l placed rest ls is (rw one) refl
        (assign-IsPlaced ids ls rest there)
  | inr monthly ↦
      let (rest, there, is) = then_cons-eq_some l (assign (id ∷ ids) ls) placed (rw monthly at e) in
      cons-Places l l placed rest ls is (rw monthly) refl (assign-IsPlaced (id ∷ ids) ls rest there)
]

any_plan : (o e : Bool) → (o || (true || e)) ≡ true
any_plan o e = ground arith

any_error : (o p : Bool) → (o || (p || true)) ≡ true
any_error o p = ground arith

fail_line-IsPlaced : (message : ℕ) (ls : List Line) → Places (map (fail_line message) ls) ls
fail_line-IsPlaced message [] = (tt, refl)
fail_line-IsPlaced message (l ∷ ls) = elim (Bool-cases (one_time l)) [
  | inl one ↦
      cons-Places (record l { error = some message }) l (map (fail_line message) (l ∷ ls))
        (map (fail_line message) ls) ls (rw one)
        (rw one (any_error (not (is_none l.order)) (not (is_none l.plan)))) refl
        (fail_line-IsPlaced message ls)
  | inr monthly ↦
      cons-Places l l (map (fail_line message) (l ∷ ls)) (map (fail_line message) ls) ls
        (rw monthly) (rw monthly) refl (fail_line-IsPlaced message ls)
]

none_one_time : (ls : List Line) → any one_time ls ≡ false → All IsPlaced ls
none_one_time [] e = tt
none_one_time (l ∷ ls) e = (ground arith, none_one_time ls (ground arith))

module _ {S : Type 0} (create_batch : List Line → S → S × Reply (List ℕ))
    (create_sip : Line → S → S × Reply ℕ) where
  batch_reply-Places :
      (ls : List Line) (r : S × Reply (List ℕ))
      → (batch_reply create_batch create_sip ls r).2 ≡ true
      → Places (batch_reply create_batch create_sip ls r).1 ls
  batch_reply-Places ls (s, done ids) good = elim (Option-cases (assign ids ls)) [
    | inl short ↦ absurd (let bad = rw (short, batch_reply) at good in cc)
    | inr (placed, all) ↦ rw (all, batch_reply) (assign-IsPlaced ids ls placed all)
  ]
  batch_reply-Places ls (s, refused message plan) good = fail_line-IsPlaced message ls
  batch_reply-Places ls (s, broken) good = absurd (cc)

  place_lumpsums-Places :
      (ls : List Line) (s : S)
      → (place_lumpsums create_batch create_sip ls s).2 ≡ true
      → Places (place_lumpsums create_batch create_sip ls s).1 ls
  unfolding place_lumpsums
  place_lumpsums-Places ls s good = elim (Bool-cases (any one_time ls)) [
    | inl there ↦
        rw (there, place_lumpsums)
          (batch_reply-Places ls (create_batch (keep one_time ls) s)
            (rw (there, place_lumpsums) at good))
    | inr all_monthly ↦ rw (all_monthly, place_lumpsums) (none_one_time ls all_monthly, refl)
  ]

  -- Lines with an outcome each, for the same goods.
  abbrev Settles : List Line → List Line → Type 0
  Settles settled ls = All (λ l. has_outcome l ≡ true) settled × (map goods settled ≡ map goods ls)

  then_line-Settles :
      (new l : Line) (r : S × List Line × Bool) (ls : List Line)
      → has_outcome new ≡ true
      → goods new ≡ goods l
      → (r.2 ≡ true → Settles r.1 ls)
      → (then_line create_batch create_sip new r).2 ≡ true
      → Settles (then_line create_batch create_sip new r).1 (l ∷ ls)
  then_line-Settles new l (s, rest, good) ls out same k h =
      let (all, goods_same) = k h in
      ((out, all), ap (λ g. g ∷ map goods rest) same ∙ ap (λ gs. goods l ∷ gs) goods_same)

  replied :
      (l : Line) (ls : List Line) (r : S × Reply ℕ) (rest : S → S × List Line × Bool)
      → ((s' : S) → (rest s').2 ≡ true → Settles (rest s').1 ls)
      → (sip_reply create_batch create_sip l r rest ls).2 ≡ true
      → Settles (sip_reply create_batch create_sip l r rest ls).1 (l ∷ ls)
  replied l ls (s', done id) rest k good =
      then_line-Settles (record l { plan = some id }) l (rest s') ls
        (any_plan (not (is_none l.order)) (not (is_none l.error))) refl (k s') good
  replied l ls (s', refused message plan) rest k good =
      then_line-Settles (record l { error = some message; plan = plan }) l (rest s') ls
        (any_error (not (is_none l.order)) (not (is_none plan))) refl (k s') good
  replied l ls (s', broken) rest k good = absurd (cc)

  place_sips-Settles :
      (ls : List Line) (s : S)
      → All IsPlaced ls
      → (place_sips create_batch create_sip ls s).2 ≡ true
      → Settles (place_sips create_batch create_sip ls s).1 ls
  unfolding place_sips
  place_sips-Settles [] s h good = (tt, refl)
  place_sips-Settles (l ∷ ls) s h good = elim (Bool-cases (one_time l)) [
    | inl one ↦
        rw (one, place_sips)
          (then_line-Settles l l (place_sips create_batch create_sip ls s) ls
            (let out = h.0 in rw one at out) refl (place_sips-Settles ls s h.1)
            (rw (one, place_sips) at good))
    | inr monthly ↦
        rw (monthly, place_sips)
          (replied l ls (create_sip l s) (λ s'. place_sips create_batch create_sip ls s')
            (λ s'. place_sips-Settles ls s' h.1) (rw (monthly, place_sips) at good))
  ]

  placed_then :
      (ls : List Line) (r : S × List Line × Bool)
      → (r.2 ≡ true → Places r.1 ls)
      → (then_sips create_batch create_sip r).2 ≡ true
      → Settles (then_sips create_batch create_sip r).1 ls
  placed_then ls (s, placed, true) k good =
      let (dealt, same) = k refl in
      let (all, same') = place_sips-Settles placed s dealt good in (all, same' ∙ same)
  placed_then ls (s, placed, false) k good = absurd (cc)

  stored_as :
      (c : Checkout) (ls : List Line) (checkouts : List Checkout) (r : S × List Line × Bool)
      → (r.2 ≡ true → Settles r.1 ls)
      → (store create_batch create_sip c checkouts r).2 ≡ ok tt
      → (d : Checkout) × ((store create_batch create_sip c checkouts r).1 ≡ d ∷ checkouts)
        × Settles d.lines ls
  stored_as c ls checkouts (s, settled, true) k good = (record c { lines = settled }, refl, k refl)
  stored_as c ls checkouts (s, settled, false) k good = absurd (cc)

  stored :
      (c : Checkout) (ls : List Line) (checkouts : List Checkout) (s : S)
      → (store create_batch create_sip c checkouts
          (then_sips create_batch create_sip (place_lumpsums create_batch create_sip ls s))).2
        ≡ ok tt
      → (d : Checkout) × ((store create_batch create_sip c checkouts
            (then_sips create_batch create_sip (place_lumpsums create_batch create_sip ls s))).1
          ≡ d ∷ checkouts)
        × Settles d.lines ls
  stored c ls checkouts s good =
      stored_as c ls checkouts
        (then_sips create_batch create_sip (place_lumpsums create_batch create_sip ls s))
        (placed_then ls (place_lumpsums create_batch create_sip ls s) (place_lumpsums-Places ls s))
        good

  -- A checkout that is answered keeps the ones before it and adds one. Its lines stand one to one for
  -- the items in the cart of the user, in their order, each for the fund, type and amount of its item,
  -- and every line has its order, its plan or the reason why it has none.
  pub create_checkout-Settles :
      (fresh : ℕ) (fresh_ref isin_of : ℕ → ℕ) (input : CheckoutInput) (items : List Item)
      (checkouts : List Checkout) (s : S)
      → (create_checkout create_batch create_sip fresh fresh_ref isin_of input items checkouts s).2
        ≡ ok tt
      → (c : Checkout) × ((create_checkout create_batch create_sip fresh fresh_ref isin_of input
            items checkouts s).1
          ≡ c ∷ checkouts)
        × All (λ l. has_outcome l ≡ true) c.lines
        × (map goods c.lines ≡ map (wanted isin_of) (keep (λ i. i.user == input.user) items))
  unfolding create_checkout
  create_checkout-Settles fresh fresh_ref isin_of input items checkouts s good =
      let cart = keep (of_user input.user) items in
      let lines = lines_of fresh_ref 0 isin_of cart in
      elim (Result-cases (may_check_out input cart)) [
        | inl (e, bad) ↦ absurd (let no_way = rw (create_checkout, bad) at good in cc)
        | inr (fine, may) ↦
            let (c, written, settles) =
              stored (new_checkout fresh input (any (λ i. is_sip i.item_type) cart) lines) lines
                checkouts s (rw (create_checkout, may) at good) in
            rw (create_checkout, may)
              (c, written, settles.0, settles.1 ∙ goods-lines_of fresh_ref 0 isin_of cart)
      ]
