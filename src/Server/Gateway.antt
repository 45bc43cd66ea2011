-- ===== src/Server/Gateway.antt =====
-- The routing of app/server/llm_gateway_service.py: the bench of the box ("heket"), the roles, and
-- which backend answers a chat. Times are whole seconds and money is in whole units.
use graphling.Prelude.{
  Text, is_set, or_text, ℕ, suc, ◌+◌, Bool, true, false, not, ◌&&◌, Option, none, some, [], ◌∷◌,
  ◌⊎◌, inl, inr, ltb, leb, ◌==◌, if◌then◌else◌,
}

-- Why heket is not used: a bench's reason, or "overflow".
pub data Reason : Type 0 where
  down : Reason
  timeout : Reason
  server_error : Reason
  digest_mismatch : Reason
  warming : Reason
  overflow : Reason

-- down_until, which may be math.inf
pub data Until : Type 0 where
  at : ℕ → Until
  forever : Until

pub record HeketState : Type 0 where
  pub down_until : Until
  pub down_reason : Option Reason
  pub inflight : ℕ

abbrev pub mark_down : Reason → Until → HeketState → HeketState
mark_down reason until state = record state { down_until = until; down_reason = some reason }

abbrev pub mark_up : HeketState → HeketState
mark_up state = record state { down_until = at 0; down_reason = none }

-- fallback_provider; `other_provider` is any other text.
pub data Provider : Type 0 where
  anthropic : Provider
  openai : Provider
  other_provider : Provider

pub record Settings : Type 0 where
  pub heket_chat_model : Text
  pub heket_classify_model : Text
  pub heket_small_chat_model : Text
  pub fallback_chat_model : Text
  pub fallback_classify_model : Text
  pub fallback_small_chat_model : Text
  pub fallback_provider : Provider
  pub anthropic_api_key : Text
  pub openai_api_key : Text
  pub llm_max_inflight : ℕ
  pub fallback_daily_usd_cap : ℕ

-- "claude-haiku-5-5" and "gpt-4o-mini"
unfoldable pub default_fallback : Provider → Text
default_fallback anthropic =
    b'c' ∷ b'l' ∷ b'a' ∷ b'u' ∷ b'd' ∷ b'e' ∷ b'-' ∷ b'h' ∷ b'a' ∷ b'i' ∷ b'k' ∷ b'u' ∷ b'-' ∷ b'5'
    ∷ b'-' ∷ b'5' ∷ []
default_fallback openai =
    b'g' ∷ b'p' ∷ b't' ∷ b'-' ∷ b'4' ∷ b'o' ∷ b'-' ∷ b'm' ∷ b'i' ∷ b'n' ∷ b'i' ∷ []
default_fallback other_provider = []

pub data RoleName : Type 0 where
  alice_chat : RoleName
  alice_classify : RoleName
  alice_chat_small : RoleName
  unknown : RoleName

pub record Role : Type 0 where
  pub heket_model : Text
  pub think : Bool
  pub fallback_model : Text

-- roles().get(name)
unfoldable pub role_of : Settings → RoleName → Option Role
unfolding default_fallback
role_of settings alice_chat = some (record {
  heket_model = settings.heket_chat_model;
  think = true;
  fallback_model =
      or_text settings.fallback_chat_model (default_fallback settings.fallback_provider);
})
role_of settings alice_classify = some (record {
  heket_model = settings.heket_classify_model;
  think = false;
  fallback_model =
      or_text settings.fallback_classify_model (default_fallback settings.fallback_provider);
})
role_of settings alice_chat_small = some (record {
  heket_model = or_text settings.heket_small_chat_model settings.heket_chat_model;
  think = false;
  fallback_model =
      or_text settings.fallback_small_chat_model
        (or_text settings.fallback_chat_model (default_fallback settings.fallback_provider));
})
role_of settings unknown = none

abbrev fallback_of : Provider → Settings → Bool
fallback_of anthropic settings = is_set settings.anthropic_api_key
fallback_of openai settings = is_set settings.openai_api_key
fallback_of other_provider settings = false

unfoldable pub fallback_configured : Settings → Bool
fallback_configured settings = fallback_of settings.fallback_provider settings

-- What the query of the day's hosted spend answers: the sum, or `none` where it raises. No spend is
-- read then, so that a chat goes on.
unfoldable pub fallback_spend_today_usd : Option ℕ → ℕ
fallback_spend_today_usd none = 0
fallback_spend_today_usd (some sum) = sum

unfoldable pub fallback_budget_exhausted : Settings → Option ℕ → Bool
unfolding fallback_spend_today_usd
fallback_budget_exhausted settings reading =
    not (settings.fallback_daily_usd_cap == 0)
    && leb settings.fallback_daily_usd_cap (fallback_spend_today_usd reading)

abbrev before : ℕ → Until → Bool
before now (at until) = ltb now until
before now forever = true

abbrev or_down : Option Reason → Reason
or_down none = down
or_down (some reason) = reason

unfoldable pub skip_heket_reason : Settings → ℕ → HeketState → Option Reason
skip_heket_reason settings now state =
    if before now state.down_until
    then some (or_down state.down_reason)
    else (if not (settings.llm_max_inflight == 0) && leb settings.llm_max_inflight state.inflight
        then some overflow
        else none)

-- What sending the request to heket comes to.
pub data Sent : Type 0 where
  timed_out : Sent
  transport_failed : Sent
  answered : ℕ → Sent

-- `inl` is HeketFailed, `inr` the status that is relayed; the request then occupies the box.
unfoldable pub open_heket : Sent → HeketState → HeketState × (Reason ⊎ ℕ)
open_heket timed_out state = (state, inl timeout)
open_heket transport_failed state = (state, inl down)
open_heket (answered status) state =
    if leb 500 status
    then (state, inl server_error)
    else (record state { inflight = suc state.inflight }, inr status)

pub data Outcome : Type 0 where
  unknown_role : Outcome
  from_heket : ℕ → Role → Outcome
  from_fallback : Provider → Reason → Role → Outcome
  no_backend : Reason → Outcome

-- A call: the clock at its start and after a failure, what heket answers if it is asked, and the
-- database's answer to the first query of the day's hosted spend and to the last.
pub record Chat : Type 0 where
  pub role_name : RoleName
  pub started : ℕ
  pub failed_at : ℕ
  pub sent : Sent
  pub spent_first : Option ℕ
  pub spent_last : Option ℕ

-- if fallback_reason == "overflow" and await fallback_budget_exhausted(): fallback_reason = None
unfoldable pub wait_for_slot : Settings → Option ℕ → Option Reason → Option Reason
unfolding fallback_budget_exhausted
wait_for_slot settings spent (some overflow) =
    if fallback_budget_exhausted settings spent then none else some overflow
wait_for_slot settings spent (some reason) = some reason
wait_for_slot settings spent none = none

unfoldable pub open_fallback : Settings → Option ℕ → Role → Reason → Outcome
unfolding fallback_configured fallback_budget_exhausted
open_fallback settings spent role reason =
    if fallback_configured settings
    then (if fallback_budget_exhausted settings spent
        then no_backend reason
        else from_fallback settings.fallback_provider reason role)
    else no_backend reason

-- DOWN_FOR_S
abbrev pub down_for_s : ℕ
down_for_s = 30

unfoldable pub after_heket :
    Settings → Chat → Role → HeketState × (Reason ⊎ ℕ) → HeketState × Outcome
unfolding open_fallback
after_heket settings chat role (state, inl reason) = (
  mark_down reason (at (chat.failed_at + down_for_s)) state,
  open_fallback settings chat.spent_last role reason,
)
after_heket settings chat role (state, inr status) = (state, from_heket status role)

unfoldable pub open_role : Settings → Chat → HeketState → Role → HeketState × Outcome
unfolding skip_heket_reason wait_for_slot open_heket after_heket open_fallback
open_role settings chat state role =
    elim (wait_for_slot settings chat.spent_first (skip_heket_reason settings chat.started state)) [
      | none ↦ after_heket settings chat role (open_heket chat.sent state)
      | some reason ↦ (state, open_fallback settings chat.spent_last role reason)
    ]

unfoldable pub open_chat : Settings → Chat → HeketState → HeketState × Outcome
unfolding role_of open_role
open_chat settings chat state = elim (role_of settings chat.role_name) [
  | none ↦ (state, unknown_role)
  | some role ↦ open_role settings chat state role
]
