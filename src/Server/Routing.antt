-- ===== src/Server/Routing.antt =====
-- Who answers a chat (`open_chat` of app/server/llm_gateway_service.py): the fallback's budget, and the
-- bench of a box that has failed.
use graphling.Prelude.{
  ℕ, ◌+◌, ◌<◌, ◌≡◌, refl, Bool, true, false, none, some, ◌⊎◌, inl, inr, leb, arith, lt→ltb,
  Bool-cases, Option-cases, subst, sym, ◌==◌, ==_iff, Option, List, [], ◌∷◌, All,
}
use graphling.Server.Gateway.{
  Reason, down, timeout, server_error, digest_mismatch, warming, overflow, at, HeketState,
  mark_down, Settings, Role, role_of, fallback_configured, fallback_budget_exhausted,
  fallback_spend_today_usd, skip_heket_reason, Sent, timed_out, transport_failed, answered,
  open_heket, Outcome, from_heket, from_fallback, Chat, wait_for_slot, open_fallback, after_heket,
  open_role, open_chat, down_for_s,
}

-- What lets a chat cost money: no cap, a spend that was read and is below it, or a query that failed.
abbrev pub Payable : Settings → Option ℕ → Type 0
Payable settings reading =
    (settings.fallback_daily_usd_cap ≡ 0)
    ⊎ ((reading ≡ none)
        ⊎ ((sum : ℕ) × (reading ≡ some sum) × (sum < settings.fallback_daily_usd_cap)))

-- What must hold where an outcome costs money.
abbrev pub Affordable : Settings → Option ℕ → Outcome → Type 0
Affordable settings reading (from_fallback provider reason role) =
    (fallback_configured settings ≡ true)
    × (settings.fallback_provider ≡ provider)
    × Payable settings reading
Affordable settings reading _ = Path ℕ 0 0

-- The cap of a budget that is not exhausted.
within_cap :
    (settings : Settings) (reading : Option ℕ)
    → fallback_budget_exhausted settings reading ≡ false
    → Payable settings reading
unfolding fallback_budget_exhausted fallback_spend_today_usd
within_cap settings none h = inr (inl refl)
within_cap settings (some sum) h = elim (Bool-cases (settings.fallback_daily_usd_cap == 0)) [
  | inl e ↦ inl ((==_iff settings.fallback_daily_usd_cap 0).0 e)
  | inr e ↦ inr (inr (sum, refl, ground (arith, e, h)))
]

open_fallback-Affordable :
    (settings : Settings) (spent : Option ℕ) (role : Role) (reason : Reason)
    → Affordable settings spent (open_fallback settings spent role reason)
unfolding open_fallback
open_fallback-Affordable settings spent role reason =
    elim (Bool-cases (fallback_configured settings)) [
      | inr f ↦ rw f refl
      | inl f ↦ elim (Bool-cases (fallback_budget_exhausted settings spent)) [
        | inl g ↦ rw (f, g) refl
        | inr g ↦ rw (f, g) (f, refl, within_cap settings spent g)
      ]
    ]

after_heket-Affordable :
    (settings : Settings) (chat : Chat) (role : Role) (sent : HeketState × (Reason ⊎ ℕ))
    → Affordable settings chat.spent_last ((after_heket settings chat role sent).1)
unfolding after_heket
after_heket-Affordable settings chat role (state, inl reason) =
    open_fallback-Affordable settings chat.spent_last role reason
after_heket-Affordable settings chat role (state, inr status) = refl

open_role-Affordable :
    (settings : Settings) (chat : Chat) (state : HeketState) (role : Role)
    → Affordable settings chat.spent_last ((open_role settings chat state role).1)
unfolding open_role
open_role-Affordable settings chat state role =
    elim (Option-cases
      (wait_for_slot settings chat.spent_first (skip_heket_reason settings chat.started state))) [
        | inl e ↦
            rw (e, Affordable)
              (after_heket-Affordable settings chat role (open_heket chat.sent state))
        | inr (reason, e) ↦
            rw (e, Affordable) (open_fallback-Affordable settings chat.spent_last role reason)
      ]

-- A chat goes to a hosted provider only where that provider is the one set and its key is set, and no
-- cap is set, or the last query of the day's hosted spend answered with less than the cap, or that query
-- failed, in which case the cap is not enforced.
pub open_chat-Affordable :
    (settings : Settings) (chat : Chat) (state : HeketState)
    → Affordable settings chat.spent_last ((open_chat settings chat state).1)
unfolding open_chat
open_chat-Affordable settings chat state = elim (Option-cases (role_of settings chat.role_name)) [
  | inl e ↦ rw (e, Affordable) refl
  | inr (role, e) ↦ rw (e, Affordable) (open_role-Affordable settings chat state role)
]

-- Is heket's answer one that benches it?
unfoldable pub fails : Sent → Bool
fails timed_out = true
fails transport_failed = true
fails (answered status) = leb 500 status

-- Is it a relay of heket's?
unfoldable pub is_from_heket : Outcome → Bool
is_from_heket (from_heket status role) = true
is_from_heket _ = false

-- A bench's reason is waited out, whatever the budget.
unfoldable is_overflow : Reason → Bool
is_overflow overflow = true
is_overflow _ = false

-- What heket's failing answer is turned into.
open_heket-fails :
    (sent : Sent) (state : HeketState)
    → fails sent ≡ true
    → (reason : Reason) × (is_overflow reason ≡ false)
      × (open_heket sent state ≡ (state, inl reason))
unfolding fails open_heket is_overflow
open_heket-fails timed_out state h = (timeout, refl, refl)
open_heket-fails transport_failed state h = (down, refl, refl)
open_heket-fails (answered status) state h = (server_error, refl, rw h refl)

-- A role that heket is asked for, and that it fails.
open_role-benches :
    (settings : Settings) (chat : Chat) (state : HeketState) (role : Role)
    → fails chat.sent ≡ true
    → skip_heket_reason settings chat.started state ≡ none
    → (reason : Reason) × (is_overflow reason ≡ false)
      × ((open_role settings chat state role).0
          ≡ mark_down reason (at (chat.failed_at + down_for_s)) state)
unfolding open_role wait_for_slot after_heket
open_role-benches settings chat state role failing asked =
    let (reason, plain, e) = open_heket-fails chat.sent state failing in
    (reason, plain, rw (open_role, asked, wait_for_slot, e) refl)

wait_for_slot-plain :
    (settings : Settings) (spent : Option ℕ) (reason : Reason)
    → is_overflow reason ≡ false
    → wait_for_slot settings spent (some reason) ≡ some reason
unfolding wait_for_slot is_overflow
wait_for_slot-plain settings spent overflow h = absurd (let z : ⊥ = cc in z)
wait_for_slot-plain settings spent down h = refl
wait_for_slot-plain settings spent timeout h = refl
wait_for_slot-plain settings spent server_error h = refl
wait_for_slot-plain settings spent digest_mismatch h = refl
wait_for_slot-plain settings spent warming h = refl

-- The state is kept, and heket is not who answers.
abbrev pub PassedOver : HeketState → HeketState × Outcome → Type 0
PassedOver state result = (result.0 ≡ state) × (is_from_heket (result.1) ≡ false)

open_fallback-passes :
    (settings : Settings) (spent : Option ℕ) (role : Role) (reason : Reason)
    → is_from_heket (open_fallback settings spent role reason) ≡ false
unfolding open_fallback is_from_heket
open_fallback-passes settings spent role reason = elim (Bool-cases (fallback_configured settings)) [
  | inr f ↦ rw f refl
  | inl f ↦ elim (Bool-cases (fallback_budget_exhausted settings spent)) [
    | inl g ↦ rw (f, g) refl
    | inr g ↦ rw (f, g) refl
  ]
]

skip_heket_reason-mark_down :
    (settings : Settings) (now until : ℕ) (reason : Reason) (state : HeketState)
    → now < until
    → skip_heket_reason settings now (mark_down reason (at until) state) ≡ some reason
unfolding skip_heket_reason
skip_heket_reason-mark_down settings now until reason state early = rw (lt→ltb now until early) refl

open_role-passes :
    (settings : Settings) (chat : Chat) (state : HeketState) (role : Role) (reason : Reason)
    (until : ℕ)
    → is_overflow reason ≡ false
    → chat.started < until
    → PassedOver
        (mark_down reason (at until) state)
        (open_role settings chat (mark_down reason (at until) state) role)
unfolding open_role
open_role-passes settings chat state role reason until plain early =
    rw
      (
        open_role,
        skip_heket_reason-mark_down settings chat.started until reason state early,
        wait_for_slot-plain settings chat.spent_first reason plain,
      )
      (refl, open_fallback-passes settings chat.spent_last role reason)

open_chat-passes :
    (settings : Settings) (chat : Chat) (state : HeketState) (reason : Reason) (until : ℕ)
    → is_overflow reason ≡ false
    → chat.started < until
    → PassedOver
        (mark_down reason (at until) state)
        (open_chat settings chat (mark_down reason (at until) state))
unfolding open_chat is_from_heket
open_chat-passes settings chat state reason until plain early =
    elim (Option-cases (role_of settings chat.role_name)) [
      | inl e ↦ rw (e, open_chat) (refl, refl)
      | inr (role, e) ↦
          rw (e, open_chat) (open_role-passes settings chat state role reason until plain early)
    ]

-- The chats of a list one after the other, with no probe between.
unfoldable pub open_chats : Settings → List Chat → HeketState → HeketState × List Outcome
unfolding open_chat
open_chats settings [] state = (state, [])
open_chats settings (chat ∷ chats) state =
    let (after, outcome) = open_chat settings chat state in
    let (last, outcomes) = open_chats settings chats after in (last, outcome ∷ outcomes)

-- The state is kept, and heket answers none of them.
abbrev pub AllPassedOver : HeketState → HeketState × List Outcome → Type 0
AllPassedOver state (after, outcomes) =
    (after ≡ state) × All (λ outcome. is_from_heket outcome ≡ false) outcomes

open_chats-pass :
    (settings : Settings) (chats : List Chat) (state : HeketState) (reason : Reason) (until : ℕ)
    → is_overflow reason ≡ false
    → All (λ (chat : Chat). chat.started < until) chats
    → AllPassedOver
        (mark_down reason (at until) state)
        (open_chats settings chats (mark_down reason (at until) state))
unfolding open_chats
open_chats-pass settings [] state reason until plain early = (refl, tt)
open_chats-pass settings (chat ∷ chats) state reason until plain (early, rest) =
    let (kept, passed) = open_chat-passes settings chat state reason until plain early in
    let h = open_chats-pass settings chats state reason until plain rest in
    let h' =
      subst
        (λ after.
          AllPassedOver (mark_down reason (at until) state) (open_chats settings chats after))
        (sym kept) h in
    (h'.0, (passed, h'.1))

-- Where a chat of a known role asks heket and heket times out, breaks or answers 500 or more, the chats
-- that follow with no probe between, each starting within 30 s of the failure, do not ask heket: they
-- leave the state as it is, and another backend or none answers each of them.
pub open_chat-PassedOver :
    (settings : Settings) (chat : Chat) (chats : List Chat) (state : HeketState) (role : Role)
    → role_of settings chat.role_name ≡ some role
    → skip_heket_reason settings chat.started state ≡ none
    → fails chat.sent ≡ true
    → All (λ (next : Chat). next.started < chat.failed_at + down_for_s) chats
    → let after = (open_chat settings chat state).0 in
      AllPassedOver after (open_chats settings chats after)
unfolding open_chat
open_chat-PassedOver settings chat chats state role known asked failing early =
    let (reason, plain, e) = open_role-benches settings chat state role failing asked in
    let until : ℕ = chat.failed_at + down_for_s in
    let marked : (open_chat settings chat state).0 ≡ mark_down reason (at until) state =
      rw (open_chat, known, e) refl in
    subst (λ after. AllPassedOver after (open_chats settings chats after)) (sym marked)
      (open_chats-pass settings chats state reason until plain early)
