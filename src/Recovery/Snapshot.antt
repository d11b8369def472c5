-- ===== src/Recovery/Snapshot.antt =====
-- The building and the reading of the snapshot of a resolved payment
-- (src/application/services/payment_recovery_snapshot.py, src/application/dto/transaction.py,
-- src/application/dto/plan.py). The members of the enumerations are data, as `_enum_member` gives them;
-- the integers of a transaction are zero or more.
use remnashop.Prelude.{ℕ, Bool, Option, none, some, List, [], ◌∷◌, if◌then◌else◌}
use remnashop.Pricing.Decimal.{Decimal}
use remnashop.Fulfillment.Row.{Status}
use remnashop.Recovery.Value.{
  JsonValue, null, bool, int, str, array, dict, Elements, no_elements, element, Entries, no_entries,
  entry, code_points, text_eq,
}

-- Python's `str` and constructor for decimals, UUIDs and the strategies of the Remnawave client; none
-- where the constructor raises
pub record Codecs : Type 0 where
  pub decimal_text : Decimal → List ℕ
  pub decimal_of : List ℕ → Option Decimal
  pub uuid_text : ℕ → List ℕ
  pub uuid_of : List ℕ → Option ℕ
  pub strategy_text : ℕ → List ℕ
  pub strategy_of : List ℕ → Option ℕ

pub data PlanType : Type 0 where
  traffic devices both unlimited : PlanType

pub data PurchaseType : Type 0 where
  new renew change : PurchaseType

pub data Currency : Type 0 where
  usd xtr rub : Currency

pub data PaymentGatewayType : Type 0 where
  telegram_stars yookassa yoomoney valutix cryptomus heleket cryptopay freekassa :
      PaymentGatewayType
  mulenpay paymaster platega robokassa urlpay wata rollypay : PaymentGatewayType

pub record PriceDetails : Type 0 where
  pub original_amount : Decimal
  pub discount_percent : ℕ
  pub final_amount : Decimal

pub record PlanSnapshot : Type 0 where
  pub id : ℕ
  pub name : List ℕ
  pub tag : Option (List ℕ)
  pub type : PlanType
  pub traffic_limit_strategy : ℕ
  pub traffic_limit : ℕ
  pub device_limit : ℕ
  pub duration : ℕ
  pub internal_squads : List ℕ
  pub external_squad : Option ℕ
  pub is_trial : Bool

-- what the snapshot is about
pub record ResolvedPayment : Type 0 where
  pub payment_id : ℕ
  pub user_id : ℕ
  pub status : Status
  pub purchase_type : PurchaseType
  pub gateway_type : PaymentGatewayType
  pub gateway_display_name : Option (List ℕ)
  pub payment_method : Option (List ℕ)
  pub pricing : PriceDetails
  pub currency : Currency
  pub plan_snapshot : PlanSnapshot

abbrev pub plan_type_value : PlanType → List ℕ
plan_type_value traffic = code_points "TRAFFIC"
plan_type_value devices = code_points "DEVICES"
plan_type_value both = code_points "BOTH"
plan_type_value unlimited = code_points "UNLIMITED"

abbrev pub purchase_type_value : PurchaseType → List ℕ
purchase_type_value new = code_points "NEW"
purchase_type_value renew = code_points "RENEW"
purchase_type_value change = code_points "CHANGE"

abbrev pub currency_value : Currency → List ℕ
currency_value usd = code_points "USD"
currency_value xtr = code_points "XTR"
currency_value rub = code_points "RUB"

abbrev pub gateway_value : PaymentGatewayType → List ℕ
gateway_value telegram_stars = code_points "TELEGRAM_STARS"
gateway_value yookassa = code_points "YOOKASSA"
gateway_value yoomoney = code_points "YOOMONEY"
gateway_value valutix = code_points "VALUTIX"
gateway_value cryptomus = code_points "CRYPTOMUS"
gateway_value heleket = code_points "HELEKET"
gateway_value cryptopay = code_points "CRYPTOPAY"
gateway_value freekassa = code_points "FREEKASSA"
gateway_value mulenpay = code_points "MULENPAY"
gateway_value paymaster = code_points "PAYMASTER"
gateway_value platega = code_points "PLATEGA"
gateway_value robokassa = code_points "ROBOKASSA"
gateway_value urlpay = code_points "URLPAY"
gateway_value wata = code_points "WATA"
gateway_value rollypay = code_points "ROLLYPAY"

-- the member of an enumeration with a value, `Enum(value)`
abbrev pub member_of : {E : Type 0} → (E → List ℕ) → List E → List ℕ → Option E
member_of value [] text = none
member_of value (e ∷ es) text =
    let rest = member_of value es text in if text_eq (value e) text then some e else rest

abbrev pub plan_types : List PlanType
plan_types = traffic ∷ devices ∷ both ∷ unlimited ∷ []

abbrev pub purchase_types : List PurchaseType
purchase_types = new ∷ renew ∷ change ∷ []

abbrev pub currencies : List Currency
currencies = usd ∷ xtr ∷ rub ∷ []

abbrev pub gateways : List PaymentGatewayType
gateways =
    telegram_stars ∷ yookassa ∷ yoomoney ∷ valutix ∷ cryptomus ∷ heleket ∷ cryptopay ∷ freekassa
    ∷ mulenpay ∷ paymaster ∷ platega ∷ robokassa ∷ urlpay ∷ wata ∷ rollypay ∷ []

abbrev pub optional : Option (List ℕ) → JsonValue
optional none = null
optional (some s) = str s

abbrev pub uuid_items : (ℕ → List ℕ) → List ℕ → Elements
uuid_items text [] = no_elements
uuid_items text (u ∷ us) = element (str (text u)) (uuid_items text us)

abbrev pub uuid_or_null : (ℕ → List ℕ) → Option ℕ → JsonValue
uuid_or_null text none = null
uuid_or_null text (some u) = str (text u)

module _ (codecs : Codecs) where
  unfoldable pub pricing_fields : PriceDetails → Entries
  pricing_fields p = entry "original_amount" (str (codecs.decimal_text p.original_amount)) (
      entry "discount_percent" (int p.discount_percent)
        (entry "final_amount" (str (codecs.decimal_text p.final_amount)) no_entries))

  unfoldable pub plan_fields : PlanSnapshot → Entries
  plan_fields p = entry "id" (int p.id) (
      entry "name" (str p.name) (
        entry "tag" (optional p.tag) (
          entry "type" (str (plan_type_value p.type)) (
            entry "traffic_limit_strategy" (str (codecs.strategy_text p.traffic_limit_strategy)) (
              entry "traffic_limit" (int p.traffic_limit) (
                entry "device_limit" (int p.device_limit) (
                  entry "duration" (int p.duration) (
                    entry "internal_squads" (array (uuid_items codecs.uuid_text p.internal_squads))
                      (entry "external_squad" (uuid_or_null codecs.uuid_text p.external_squad)
                        (entry "is_trial" (bool p.is_trial) no_entries))))))))))

  unfoldable pub build_resolved_payment_snapshot : ResolvedPayment → Entries
  unfolding pricing_fields plan_fields
  build_resolved_payment_snapshot t = entry "version" (int 1) (
      entry "user_id" (int t.user_id) (
        entry "purchase_type" (str (purchase_type_value t.purchase_type)) (
          entry "gateway_type" (str (gateway_value t.gateway_type)) (
            entry "gateway_display_name" (optional t.gateway_display_name) (
              entry "payment_method" (optional t.payment_method) (
                entry "pricing" (dict (pricing_fields t.pricing)) (
                  entry "currency" (str (currency_value t.currency))
                    (entry "plan" (dict (plan_fields t.plan_snapshot)) no_entries))))))))
