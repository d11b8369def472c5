-- ===== src/Recovery/RoundTrip.antt =====
-- A snapshot is read back as it was built (src/application/services/payment_recovery_snapshot.py).
use remnashop.Prelude.{
  ℕ, Bool, true, false, not, Option, none, some, List, [], ◌∷◌, leb, ◌≡◌, refl, arith, ==-refl,
}
use remnashop.Prelude.Result.{ok}
use remnashop.Pricing.Decimal.{Decimal, finite}
use remnashop.Fulfillment.Row.{pending}
use remnashop.Recovery.Value.{int, str, is_empty, strict_int, strict_str, optional_str, object}
use remnashop.Recovery.Snapshot.{
  Codecs, PriceDetails, PlanSnapshot, ResolvedPayment, PlanType, traffic, devices, both, unlimited,
  PurchaseType, new, renew, change, Currency, usd, xtr, rub, PaymentGatewayType, telegram_stars,
  yookassa, yoomoney, valutix, cryptomus, heleket, cryptopay, freekassa, mulenpay, paymaster,
  platega, robokassa, urlpay, wata, rollypay, plan_type_value, purchase_type_value, currency_value,
  gateway_value, member_of, plan_types, purchase_types, currencies, gateways, optional, uuid_items,
  uuid_or_null, pricing_fields, plan_fields, build_resolved_payment_snapshot,
}
use remnashop.Recovery.Reading.{
  is_amount, le_amount, decimal, uuids, optional_uuid, read_pricing, read_plan,
  transaction_from_resolved_snapshot,
}

-- The documented behaviour of Python's texts of decimals and UUIDs, and of the client's strategies:
-- none is empty, and the constructor reads it back.
pub record IsFaithful (codecs : Codecs) : Type 0 where
  pub decimal_read :
      (n : Bool) (c s : ℕ)
      → codecs.decimal_of (codecs.decimal_text (finite n c s)) ≡ some (finite n c s)
  pub decimal_full : (n : Bool) (c s : ℕ) → is_empty (codecs.decimal_text (finite n c s)) ≡ false
  pub uuid_read : (u : ℕ) → codecs.uuid_of (codecs.uuid_text u) ≡ some u
  pub uuid_full : (u : ℕ) → is_empty (codecs.uuid_text u) ≡ false
  pub strategy_read : (u : ℕ) → codecs.strategy_of (codecs.strategy_text u) ≡ some u
  pub strategy_full : (u : ℕ) → is_empty (codecs.strategy_text u) ≡ false

-- an optional text that is not the empty text
abbrev pub is_proper : Option (List ℕ) → Bool
is_proper none = true
is_proper (some s) = not (is_empty s)

-- What the program's payments fulfil: amounts that a price can have, and no empty texts.
pub record IsRecoverable (t : ResolvedPayment) : Type 0 where
  pub owned : leb 1 t.user_id ≡ true
  pub original : is_amount t.pricing.original_amount ≡ true
  pub final : is_amount t.pricing.final_amount ≡ true
  pub percent : leb t.pricing.discount_percent 100 ≡ true
  pub reduced : le_amount t.pricing.final_amount t.pricing.original_amount ≡ true
  pub display_name : is_proper t.gateway_display_name ≡ true
  pub payment_method : is_proper t.payment_method ≡ true
  pub name : is_empty t.plan_snapshot.name ≡ false
  pub tag : is_proper t.plan_snapshot.tag ≡ true

plan_type-member :
    (e : PlanType)
    → (is_empty (plan_type_value e) ≡ false)
      × (member_of plan_type_value plan_types (plan_type_value e) ≡ some e)
plan_type-member traffic = (refl, refl)
plan_type-member devices = (refl, refl)
plan_type-member both = (refl, refl)
plan_type-member unlimited = (refl, refl)

purchase_type-member :
    (e : PurchaseType)
    → (is_empty (purchase_type_value e) ≡ false)
      × (member_of purchase_type_value purchase_types (purchase_type_value e) ≡ some e)
purchase_type-member new = (refl, refl)
purchase_type-member renew = (refl, refl)
purchase_type-member change = (refl, refl)

currency-member :
    (e : Currency)
    → (is_empty (currency_value e) ≡ false)
      × (member_of currency_value currencies (currency_value e) ≡ some e)
currency-member usd = (refl, refl)
currency-member xtr = (refl, refl)
currency-member rub = (refl, refl)

gateway-member :
    (e : PaymentGatewayType)
    → (is_empty (gateway_value e) ≡ false)
      × (member_of gateway_value gateways (gateway_value e) ≡ some e)
gateway-member telegram_stars = (refl, refl)
gateway-member yookassa = (refl, refl)
gateway-member yoomoney = (refl, refl)
gateway-member valutix = (refl, refl)
gateway-member cryptomus = (refl, refl)
gateway-member heleket = (refl, refl)
gateway-member cryptopay = (refl, refl)
gateway-member freekassa = (refl, refl)
gateway-member mulenpay = (refl, refl)
gateway-member paymaster = (refl, refl)
gateway-member platega = (refl, refl)
gateway-member robokassa = (refl, refl)
gateway-member urlpay = (refl, refl)
gateway-member wata = (refl, refl)
gateway-member rollypay = (refl, refl)

strict_int-any : (n : ℕ) → strict_int 0 (int n) ≡ ok n
unfolding strict_int
strict_int-any n = let any : leb 0 n ≡ true = ground arith in rw any refl

strict_int-from : (m n : ℕ) → leb m n ≡ true → strict_int m (int n) ≡ ok n
unfolding strict_int
strict_int-from m n h = rw h refl

strict_str-full : (s : List ℕ) → is_empty s ≡ false → strict_str (str s) ≡ ok s
unfolding strict_str
strict_str-full s full = rw full refl

optional_str-optional :
    (s : Option (List ℕ)) → is_proper s ≡ true → optional_str (optional s) ≡ ok s
unfolding optional_str
optional_str-optional none h = refl
optional_str-optional (some s) h = let full : is_empty s ≡ false = ground arith in rw full refl

module _ (codecs : Codecs) (faithful : IsFaithful codecs) where
  decimal-text :
      (d : Decimal) → is_amount d ≡ true → decimal codecs (str (codecs.decimal_text d)) ≡ ok d
  unfolding decimal strict_str
  decimal-text (finite n c s) h =
      rw (decimal, faithful.decimal_full n c s, faithful.decimal_read n c s, h) refl
  decimal-text _ h = absurd (cc h)

  uuids-items : (us : List ℕ) → uuids codecs (uuid_items codecs.uuid_text us) ≡ ok us
  unfolding uuids
  uuids-items [] = refl
  uuids-items (u ∷ us) = rw (uuids, faithful.uuid_full u, faithful.uuid_read u, uuids-items us) refl

  optional_uuid-null :
      (u : Option ℕ) → optional_uuid codecs (uuid_or_null codecs.uuid_text u) ≡ ok u
  unfolding optional_uuid
  optional_uuid-null none = refl
  optional_uuid-null (some u) = rw (optional_uuid, faithful.uuid_full u, faithful.uuid_read u) refl

  read_pricing-fields :
      (p : PriceDetails)
      → is_amount p.original_amount ≡ true
      → is_amount p.final_amount ≡ true
      → leb p.discount_percent 100 ≡ true
      → le_amount p.final_amount p.original_amount ≡ true
      → read_pricing codecs (pricing_fields codecs p) ≡ ok p
  unfolding read_pricing pricing_fields
  read_pricing-fields p original final percent reduced =
      rw
        (
          decimal-text p.original_amount original,
          strict_int-any p.discount_percent,
          decimal-text p.final_amount final,
          percent,
          reduced,
        )
        refl

  read_plan-fields :
      (p : PlanSnapshot)
      → is_empty p.name ≡ false
      → is_proper p.tag ≡ true
      → read_plan codecs (plan_fields codecs p) ≡ ok p
  unfolding read_plan plan_fields
  read_plan-fields p name tag =
      let (full, type) = plan_type-member p.type in
      rw
        (
          uuids-items p.internal_squads,
          optional_uuid-null p.external_squad,
          strict_int-any p.id,
          strict_str-full p.name name,
          optional_str-optional p.tag tag,
          strict_str-full (plan_type_value p.type) full,
          type,
          strict_str-full (codecs.strategy_text p.traffic_limit_strategy)
              (faithful.strategy_full p.traffic_limit_strategy),
          faithful.strategy_read p.traffic_limit_strategy,
          strict_int-any p.traffic_limit,
          strict_int-any p.device_limit,
          strict_int-any p.duration,
        )
        refl

  -- A snapshot that was built of a payment is read back: for the user it belongs to and any payment
  -- id, the reading answers with the same payment, pending and under that id, provided the user id
  -- is positive, the amounts are finite and not negative, the discount is at most 100 %, the final
  -- amount is at most the original one, the plan has a name, and no optional text is empty.
  pub resolved_snapshot_round_trip :
      (t : ResolvedPayment) (payment_id : ℕ)
      → IsRecoverable t
      → transaction_from_resolved_snapshot codecs t.user_id payment_id
          (build_resolved_payment_snapshot codecs t)
        ≡ ok (record t { payment_id = payment_id; status = pending })
  unfolding transaction_from_resolved_snapshot build_resolved_payment_snapshot object strict_int
  resolved_snapshot_round_trip t payment_id r =
      let (purchase_full, purchase_type) = purchase_type-member t.purchase_type in
      let (gateway_full, gateway_type) = gateway-member t.gateway_type in
      let (currency_full, currency) = currency-member t.currency in
      rw
        (
          r.owned,
          ==-refl,
          read_pricing-fields t.pricing r.original r.final r.percent r.reduced,
          read_plan-fields t.plan_snapshot r.name r.tag,
          strict_str-full (purchase_type_value t.purchase_type) purchase_full,
          purchase_type,
          strict_str-full (gateway_value t.gateway_type) gateway_full,
          gateway_type,
          optional_str-optional t.gateway_display_name r.display_name,
          optional_str-optional t.payment_method r.payment_method,
          strict_str-full (currency_value t.currency) currency_full,
          currency,
        )
        refl
