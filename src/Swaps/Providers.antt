-- ===== src/Swaps/Providers.antt =====
-- The clients of the exchanges (sthrip/services/exchange_providers.py). The exchanges are parameters:
-- what each answers to an order and to a question about one. Of an answer that is not the expected
-- one, only that it is not is kept.
use text.Mathlib.Text.{◌==◌ as str_eq}
use sthrip.Base.{ℕ, String, Option, none, some, List, [], ◌∷◌, Bool, ◌==◌, ◌||◌, if◌then◌else◌}
use sthrip.Base.Int.{ℤ}
use sthrip.Channel.Service.{is_empty}

-- The common vocabulary (`STATUS_WAITING`, …).
pub data ExchangeStatus : Type 0 where
  waiting confirming exchanging sending finished failed expired : ExchangeStatus

-- What `httpx` gives back: nothing, or an HTTP status with a body, which may not be JSON.
pub data Reply (A : Type 0) : Type 0 where
  unreachable : Reply A
  replied : ℕ → Option A → Reply A

-- A call of a client: its answer, an `ExchangeProviderError`, or the `ValueError` of a body that is
-- not JSON.
pub data Answer (A : Type 0) : Type 0 where
  answer : A → Answer A
  provider_error value_error : Answer A

-- An amount in a body, as a text.
pub data Figure : Type 0 where
  amount : ℤ → Figure
  empty unreadable : Figure

-- The fields of a body that the clients read; each exchange has two names for some of them.
pub record CreatedBody : Type 0 where
  pub id : Option String
  pub transaction_id : Option String
  pub address : Option String
  pub other_address : Option String

pub record StatusBody : Type 0 where
  pub status : String
  pub amount : Option Figure
  pub other_amount : Option Figure

pub record OrderRequest : Type 0 where
  pub from_currency : ℕ
  pub from_amount : ℤ
  pub to_currency : ℕ
  pub to_address : String

pub record Placed : Type 0 where
  pub external_order_id : String
  pub deposit_address : String
  pub provider : String

pub record Report : Type 0 where
  pub status : ExchangeStatus
  pub to_amount : Option Figure

-- The outside world of the two clients. `configured` is whether CHANGENOW_API_KEY is set.
pub record Exchanges : Type 0 where
  pub configured : Bool
  pub changenow_create : OrderRequest → Reply CreatedBody
  pub changenow_status : String → Reply StatusBody
  pub sideshift_create : OrderRequest → Reply CreatedBody
  pub sideshift_status : String → Reply StatusBody

-- `x or y`: a text that is missing or empty gives way.
abbrev pub or_text : Option String → Option String → Option String
or_text none y = y
or_text (some s) y = if is_empty s then y else some s

-- `if not order_id or not deposit_address: raise …`
abbrev pub placed_with : String → Option String → Option String → Answer Placed
placed_with provider none _ = Answer.provider_error
placed_with provider (some _) none = Answer.provider_error
placed_with provider (some id) (some address) =
    if is_empty id || is_empty address
    then Answer.provider_error
    else Answer.answer
        (record { external_order_id = id; deposit_address = address; provider = provider })

-- The body of an answer whose HTTP status is accepted.
abbrev pub read : {A B : Type 0} → (ℕ → Bool) → (A → Answer B) → Reply A → Answer B
read good f Reply.unreachable = Answer.provider_error
read good f (Reply.replied code none) =
    if good code then Answer.value_error else Answer.provider_error
read good f (Reply.replied code (some body)) = if good code then f body else Answer.provider_error

-- The table of an exchange's statuses; one that is not there counts as waiting.
abbrev pub status_map : List (String × ExchangeStatus) → String → ExchangeStatus
status_map [] s = ExchangeStatus.waiting
status_map ((t, x) ∷ rest) s = if str_eq t s then x else status_map rest s

abbrev pub changenow_statuses : List (String × ExchangeStatus)
changenow_statuses =
    ("new", ExchangeStatus.waiting)
    ∷ ("waiting", ExchangeStatus.waiting)
    ∷ ("confirming", ExchangeStatus.confirming)
    ∷ ("exchanging", ExchangeStatus.exchanging)
    ∷ ("sending", ExchangeStatus.sending)
    ∷ ("finished", ExchangeStatus.finished)
    ∷ ("failed", ExchangeStatus.failed)
    ∷ ("refunded", ExchangeStatus.failed)
    ∷ ("expired", ExchangeStatus.expired)
    ∷ ("verifying", ExchangeStatus.confirming)
    ∷ ("hold", ExchangeStatus.confirming)
    ∷ []

abbrev pub sideshift_statuses : List (String × ExchangeStatus)
sideshift_statuses =
    ("waiting", ExchangeStatus.waiting)
    ∷ ("pending", ExchangeStatus.waiting)
    ∷ ("processing", ExchangeStatus.confirming)
    ∷ ("review", ExchangeStatus.confirming)
    ∷ ("settled", ExchangeStatus.finished)
    ∷ ("complete", ExchangeStatus.finished)
    ∷ ("refunding", ExchangeStatus.failed)
    ∷ ("refunded", ExchangeStatus.failed)
    ∷ ("failed", ExchangeStatus.failed)
    ∷ ("expired", ExchangeStatus.expired)
    ∷ []

abbrev pub or_figure : Option Figure → Option Figure → Option Figure
or_figure none y = y
or_figure (some x) y = some x

abbrev pub report_with : List (String × ExchangeStatus) → StatusBody → Answer Report
report_with statuses b = Answer.answer (record {
  status = status_map statuses b.status;
  to_amount = or_figure b.amount b.other_amount;
})

module _ (world : Exchanges) where
  unfoldable pub changenow_create_order : OrderRequest → Answer Placed
  changenow_create_order r =
      if world.configured
      then read (λ code. code == 200)
          (λ (b : CreatedBody).
            placed_with "changenow" (or_text b.id b.transaction_id)
              (or_text b.address b.other_address))
          (world.changenow_create r)
      else Answer.provider_error

  unfoldable pub sideshift_create_order : OrderRequest → Answer Placed
  sideshift_create_order r =
      read (λ code. code == 200 || code == 201)
        (λ (b : CreatedBody). placed_with "sideshift" b.id b.address) (world.sideshift_create r)

  unfoldable pub changenow_order_status : String → Answer Report
  changenow_order_status id =
      if world.configured
      then read (λ code. code == 200) (report_with changenow_statuses) (world.changenow_status id)
      else Answer.provider_error

  unfoldable pub sideshift_order_status : String → Answer Report
  sideshift_order_status id =
      read (λ code. code == 200) (report_with sideshift_statuses) (world.sideshift_status id)

  -- ChangeNOW, and SideShift after a provider error.
  unfoldable pub create_order_with_fallback : OrderRequest → Answer Placed
  unfolding changenow_create_order sideshift_create_order
  create_order_with_fallback r = elim (changenow_create_order r) [
    | Answer.answer p ↦ Answer.answer p
    | Answer.value_error ↦ Answer.value_error
    | Answer.provider_error ↦ sideshift_create_order r
  ]
