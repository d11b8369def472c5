-- ===== src/Recovery/Reading.antt =====
-- The reading of a snapshot (`transaction_from_resolved_snapshot`,
-- src/application/services/payment_recovery_snapshot.py).
use Prim.Native.String.{String}
use remnashop.Prelude.{
  ℕ, Bool, false, not, ◌&&◌, ◌*◌, ◌^◌, Option, none, some, List, [], ◌∷◌, ◌==◌, leb, if◌then◌else◌,
}
use remnashop.Prelude.Result.{Result, ok, err, ◌>>=◌, ◌>>◌}
use remnashop.Pricing.Decimal.{Decimal, finite}
use remnashop.Fulfillment.Row.{pending}
use remnashop.Recovery.Value.{
  JsonValue, array, Elements, no_elements, element, Entries, SnapshotError, invalid, require, get,
  has_shape, strict_int, strict_str, optional_str, object, strict_bool, is_falsy, converted,
}
use remnashop.Recovery.Snapshot.{
  Codecs, PriceDetails, PlanSnapshot, ResolvedPayment, plan_type_value, purchase_type_value,
  currency_value, gateway_value, member_of, plan_types, purchase_types, currencies, gateways,
}

-- finite and not below zero
abbrev pub is_amount : Decimal → Bool
is_amount (finite negative c s) = not (negative && not (c == 0))
is_amount _ = false

abbrev checked_amount : Decimal → Result SnapshotError Decimal
checked_amount d = if is_amount d then ok d else err invalid

-- `a <= b`, of amounts
abbrev pub le_amount : Decimal → Decimal → Bool
le_amount (finite n c s) (finite m d t) = leb (c * 10 ^ t) (d * 10 ^ s)
le_amount a b = false

abbrev pub snapshot_keys : List String
snapshot_keys =
    "version" ∷ "user_id" ∷ "purchase_type" ∷ "gateway_type" ∷ "gateway_display_name"
    ∷ "payment_method" ∷ "pricing" ∷ "currency" ∷ "plan" ∷ []

abbrev pub pricing_keys : List String
pricing_keys = "original_amount" ∷ "discount_percent" ∷ "final_amount" ∷ []

abbrev pub plan_keys : List String
plan_keys =
    "id" ∷ "name" ∷ "tag" ∷ "type" ∷ "traffic_limit_strategy" ∷ "traffic_limit" ∷ "device_limit"
    ∷ "duration" ∷ "internal_squads" ∷ "external_squad" ∷ "is_trial" ∷ []

abbrev as_list : JsonValue → Result SnapshotError Elements
as_list (array items) = ok items
as_list _ = err invalid

module _ (codecs : Codecs) where
  -- `_decimal`
  unfoldable pub decimal : JsonValue → Result SnapshotError Decimal
  unfolding strict_str
  decimal v = do s ← strict_str v; d ← converted (codecs.decimal_of s); checked_amount d

  uuid : JsonValue → Result SnapshotError ℕ
  unfolding strict_str
  uuid v = do s ← strict_str v; converted (codecs.uuid_of s)

  unfoldable pub uuids : Elements → Result SnapshotError (List ℕ)
  unfolding uuid
  uuids no_elements = ok []
  uuids (element v vs) = do u ← uuid v; us ← uuids vs; ok (u ∷ us)

  unfoldable pub optional_uuid : JsonValue → Result SnapshotError (Option ℕ)
  unfolding uuid
  optional_uuid v = if is_falsy v then ok none else (do u ← uuid v; ok (some u))

  unfoldable pub read_pricing : Entries → Result SnapshotError PriceDetails
  unfolding decimal strict_int
  read_pricing data_of = do
    require (has_shape pricing_keys data_of)
    original ← get "original_amount" data_of >>= decimal
    percent ← get "discount_percent" data_of >>= strict_int 0
    final ← get "final_amount" data_of >>= decimal
    require (leb percent 100 && le_amount final original)
    ok (record { original_amount = original; discount_percent = percent; final_amount = final })

  unfoldable pub read_plan : Entries → Result SnapshotError PlanSnapshot
  unfolding strict_int strict_str optional_str uuids optional_uuid
  read_plan plan = do
    require (has_shape plan_keys plan)
    squads ← get "internal_squads" plan >>= as_list >>= uuids
    external ← get "external_squad" plan >>= optional_uuid
    id ← get "id" plan >>= strict_int 0
    name ← get "name" plan >>= strict_str
    tag ← get "tag" plan >>= optional_str
    type_text ← get "type" plan >>= strict_str
    type ← converted (member_of plan_type_value plan_types type_text)
    strategy_text ← get "traffic_limit_strategy" plan >>= strict_str
    strategy ← converted (codecs.strategy_of strategy_text)
    traffic_limit ← get "traffic_limit" plan >>= strict_int 0
    device_limit ← get "device_limit" plan >>= strict_int 0
    duration ← get "duration" plan >>= strict_int 0
    is_trial ← get "is_trial" plan >>= strict_bool
    ok (record {
      id = id;
      name = name;
      tag = tag;
      type = type;
      traffic_limit_strategy = strategy;
      traffic_limit = traffic_limit;
      device_limit = device_limit;
      duration = duration;
      internal_squads = squads;
      external_squad = external;
      is_trial = is_trial;
    })

  unfoldable pub transaction_from_resolved_snapshot :
      ℕ → ℕ → Entries → Result SnapshotError ResolvedPayment
  unfolding read_pricing read_plan strict_int strict_str optional_str object
  transaction_from_resolved_snapshot expected_user_id payment_id snapshot = do
    require (has_shape snapshot_keys snapshot)
    version ← get "version" snapshot >>= strict_int 1
    require (version == 1)
    user_id ← get "user_id" snapshot >>= strict_int 1
    require (user_id == expected_user_id)
    pricing ← get "pricing" snapshot >>= object >>= read_pricing
    plan ← get "plan" snapshot >>= object >>= read_plan
    purchase_text ← get "purchase_type" snapshot >>= strict_str
    purchase_type ← converted (member_of purchase_type_value purchase_types purchase_text)
    gateway_text ← get "gateway_type" snapshot >>= strict_str
    gateway_type ← converted (member_of gateway_value gateways gateway_text)
    display_name ← get "gateway_display_name" snapshot >>= optional_str
    payment_method ← get "payment_method" snapshot >>= optional_str
    currency_text ← get "currency" snapshot >>= strict_str
    currency ← converted (member_of currency_value currencies currency_text)
    ok (record {
      payment_id = payment_id;
      user_id = expected_user_id;
      status = pending;
      purchase_type = purchase_type;
      gateway_type = gateway_type;
      gateway_display_name = display_name;
      payment_method = payment_method;
      pricing = pricing;
      currency = currency;
      plan_snapshot = plan;
    })
