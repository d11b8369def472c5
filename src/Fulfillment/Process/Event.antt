-- ===== src/Fulfillment/Process/Event.antt =====
-- An event of a provider, and the ways its processing ends
-- (src/application/use_cases/gateways/commands/payment.py).
use remnashop.Prelude.{ℕ, Text, Bool, not, ◌||◌, Option, none, some, ◌==◌, leb, if◌then◌else◌}
use remnashop.Fulfillment.Row.{Status}

-- `ProcessPaymentDto`
pub record PaymentEvent : Type 0 where
  pub payment_id : ℕ
  pub new_status : Status
  pub gateway_type : Text
  pub selected_payment_method : Option Text
  pub defer_unreachable_fulfillment : Bool

-- PaymentTransactionNotReadyError, PaymentEventNotAppliedError, TransactionOwnerUnavailableError, an
-- IntegrityError of a CHECK, the RuntimeErrors, PaymentFulfillmentDeferredError, PurchaseError; the
-- ValueError and TransactionNotRetryableError are of `RetryFailedTransaction`
pub data ProcessError : Type 0 where
  not_ready not_applied owner_unavailable refused unexpected deferred purchase_failed : ProcessError
  not_found not_retryable : ProcessError

-- `str.strip`, `len` and `str.isprintable`; a text is empty where its length is 0
pub record PyText : Type 0 where
  pub strip : Text → Text
  pub len : Text → ℕ
  pub is_printable : Text → Bool

-- `FULFILLMENT_LEASE`
abbrev pub fulfillment_lease : ℕ
fulfillment_lease = 1800000000

-- how the first transaction ends: nothing is left to do, the claim is won, or an alert or a notice
-- is sent; with whether the payment method was in conflict
pub data Next : Type 0 where
  finished : Next
  fulfil escalate notify_refund : Bool → Next

-- `normalize_platega_payment_method` of a text: none where it raises
unfoldable pub normalize_platega_payment_method : PyText → Text → Option (Option Text)
normalize_platega_payment_method py value =
    let method = py.strip value in
    if py.len method == 0
    then some none
    else if not (leb (py.len method) 64) || not (py.is_printable method)
    then none
    else some (some method)
