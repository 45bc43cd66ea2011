-- ===== src/Tests/ServerTests.antt =====
-- The guards of app/server/ on short sequences of calls.
use graphling.Prelude.{
  Text, Option, ℕ, ◌≡◌, refl, ◌≤◌, List, [], ◌∷◌, ◌++◌, length, arith, some, none, Bool,
}
use graphling.Server.RateLimiter.{new_limiter, accepted}
use graphling.Server.RateWindow.{in_window}
use graphling.Server.RateBound.{length-accepted-le}
use graphling.Server.DailyCounter.{Added, new_counter, total, add_all, added_on, total-add_all}
use graphling.Server.ToolCallIds.{
  ToolCall, Message, assistant, tool, other, with_ids, pair_from, results, unnamed,
  with_tool_call_ids, call_id, with_tool_call_ids-idempotent, pair_from-in_order,
}
use graphling.Server.Probe.{Running, TagsAnswer, tags_of, probe_once}
use graphling.Server.Verdict.{fit, verdict}
use graphling.Server.ProbeGate.{Gated, probe_once-Gated}
use graphling.Server.UexBudget.{Limits, spend, Counted, spend-Counted}
use graphling.Server.Gateway.{
  HeketState, at, Settings, anthropic, Chat, alice_chat, timed_out, answered, role_of, open_chat,
  Role, skip_heket_reason,
}
use graphling.Server.Routing.{
  Affordable, AllPassedOver, open_chats, fails, open_chat-Affordable, open_chat-PassedOver,
}

-- (key, time)
abbrev five_calls : List (ℕ × ℕ)
five_calls = (1, 0) ∷ (1, 3) ∷ (2, 4) ∷ (1, 5) ∷ (1, 10) ∷ []

refusal_test : accepted 1 (new_limiter 2 10) five_calls ≡ 0 ∷ 3 ∷ 10 ∷ []
unfolding accepted
refusal_test = refl

length-accepted-le_example : length (in_window 10 10 (accepted 1 (new_limiter 2 10) five_calls)) ≤ 2
length-accepted-le_example =
    length-accepted-le 2 10 1 five_calls 10 (omega arith)
      (omega arith, (omega arith, (omega arith, (omega arith, (omega arith, tt)))))

abbrev limits : Limits
limits = record { uex_daily_call_limit = 20; uex_call_margin = 4 }

spend-Counted_example : Counted limits 3 2 ((3, 14) ∷ []) (spend limits 3 2 ((3, 14) ∷ []))
spend-Counted_example = spend-Counted limits 3 2 ((3, 14) ∷ [])

abbrev settings : Settings
settings = record {
  heket_chat_model = 103 ∷ [];
  heket_classify_model = 103 ∷ [];
  heket_small_chat_model = [];
  fallback_chat_model = 104 ∷ [];
  fallback_classify_model = 104 ∷ [];
  fallback_small_chat_model = [];
  fallback_provider = anthropic;
  anthropic_api_key = 107 ∷ [];
  openai_api_key = [];
  llm_max_inflight = 2;
  fallback_daily_usd_cap = 5;
}

abbrev idle : HeketState
idle = record { down_until = at 0; down_reason = none; inflight = 0 }

-- The box times out at 130, and would answer the next chat.
abbrev broken_chat : Chat
broken_chat = record {
  role_name = alice_chat;
  started = 100;
  failed_at = 130;
  sent = timed_out;
  spent_first = some 1;
  spent_last = some 1;
}

abbrev next_chat : Chat
next_chat = record broken_chat { started = 140; sent = answered 200 }

abbrev chat_role : Role
chat_role = record { heket_model = 103 ∷ []; think = Bool.true; fallback_model = 104 ∷ [] }

role_test : role_of settings alice_chat ≡ some chat_role
unfolding role_of
role_test = refl

asked_test : skip_heket_reason settings 100 idle ≡ none
unfolding skip_heket_reason
asked_test = refl

fails_test : fails timed_out ≡ Bool.true
unfolding fails
fails_test = refl

open_chat-Affordable_example :
    Affordable settings (some 1) ((open_chat settings broken_chat idle).1)
open_chat-Affordable_example = open_chat-Affordable settings broken_chat idle

-- Another follows once the first is passed over, where the spend cannot be read.
abbrev third_chat : Chat
third_chat = record next_chat { started = 159; spent_last = none }

open_chat-PassedOver_example :
    AllPassedOver
      (open_chat settings broken_chat idle).0
      (open_chats settings (next_chat ∷ third_chat ∷ []) (open_chat settings broken_chat idle).0)
open_chat-PassedOver_example =
    open_chat-PassedOver settings broken_chat (next_chat ∷ third_chat ∷ []) idle chat_role role_test
      asked_test fails_test (omega arith, (omega arith, tt))

-- Two keys over two days.
abbrev two_days : List Added
two_days =
    record { key = 1; amount = 5; today = 3 }
    ∷ record { key = 1; amount = 7; today = 4 }
    ∷ record { key = 2; amount = 9; today = 4 }
    ∷ []

total-add_all_example : (total 1 4 (add_all two_days new_counter)).1 ≡ added_on 1 4 two_days
total-add_all_example =
    total-add_all 1 4 two_days (omega arith, (omega arith, (omega arith, omega arith)))

abbrev two_calls : List ToolCall
two_calls =
    record { id = []; function = b'f' ∷ [] } ∷ record { id = b'x' ∷ []; function = b'g' ∷ [] } ∷ []

abbrev turn : List Message
turn = assistant two_calls [] ∷ tool [] (b'r' ∷ []) ∷ tool [] (b's' ∷ []) ∷ other [] ∷ []

turn_test :
    with_tool_call_ids turn
    ≡ assistant
        (record { id = call_id 0 0; function = b'f' ∷ [] }
          ∷ record { id = b'x' ∷ []; function = b'g' ∷ [] }
          ∷ [])
        []
      ∷ tool (call_id 0 0) (b'r' ∷ [])
      ∷ tool (b'x' ∷ []) (b's' ∷ [])
      ∷ other []
      ∷ []
unfolding with_tool_call_ids call_id
turn_test = refl

with_tool_call_ids-idempotent_example :
    with_tool_call_ids (with_tool_call_ids turn) ≡ with_tool_call_ids turn
with_tool_call_ids-idempotent_example = with_tool_call_ids-idempotent turn

pair_from-in_order_example :
    pair_from 0 []
      (assistant two_calls [] ∷ (unnamed ((b'r' ∷ []) ∷ (b's' ∷ []) ∷ []) ++ other [] ∷ []))
    ≡ assistant (with_ids 0 0 two_calls) []
      ∷ (results (with_ids 0 0 two_calls) ((b'r' ∷ []) ∷ (b's' ∷ []) ∷ [])
          ++ pair_from 3 [] (other [] ∷ []))
pair_from-in_order_example =
    pair_from-in_order 0 [] (record { id = []; function = b'f' ∷ [] })
      (record { id = b'x' ∷ []; function = b'g' ∷ [] } ∷ []) [] ((b'r' ∷ []) ∷ (b's' ∷ []) ∷ [])
      (other [] ∷ []) refl

-- The box has "g:latest", the only model of the roles, and it is loaded.
abbrev latest : Text
latest = b'g' ∷ b':' ∷ b'l' ∷ b'a' ∷ b't' ∷ b'e' ∷ b's' ∷ b't' ∷ []

abbrev box_tags : TagsAnswer
box_tags = tags_of (record { name = latest; digest = b'a' ∷ b'b' ∷ [] } ∷ [])

abbrev box_running : Option (List Running)
box_running = some (record { name = latest; model = latest } ∷ [])

verdict_test : verdict settings (b'a' ∷ []) box_tags box_running ≡ fit
unfolding verdict
verdict_test = refl

probe_once-Gated_example :
    Gated settings 50 idle
      (verdict settings (b'a' ∷ []) box_tags box_running)
      (probe_once settings (b'a' ∷ []) box_tags box_running idle)
probe_once-Gated_example = probe_once-Gated settings (b'a' ∷ []) box_tags box_running idle 50
