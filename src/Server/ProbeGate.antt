-- ===== src/Server/ProbeGate.antt =====
-- What a probe lets through (`probe_once` of app/server/llm_gateway_service.py).
use graphling.Prelude.{
  Text, ℕ, ◌≡◌, refl, sym, ◌∙◌, Bool, true, false, not, ◌&&◌, Option, none, some, List, [], ◌∷◌,
  ◌==◌, if◌then◌else◌, arith, Bool-cases, inl, inr, leb, ltb,
}
use graphling.Server.Gateway.{
  down, digest_mismatch, warming, overflow, forever, HeketState, mark_down, mark_up, Settings,
  skip_heket_reason,
}
use graphling.Server.Probe.{
  Running, TagsAnswer, http_error, not_json, tags_of, digest_matches, cold_models, warm_or_bench,
  probe_once,
}
use graphling.Server.Verdict.{
  Verdict, raises, bench, fit, verdict, is_pinned, no_models, no_models-is_warm,
  digest_matches-is_pinned,
}

-- Are as many requests in flight as may be?
unfoldable pub is_full : Settings → HeketState → Bool
is_full settings state =
    not (settings.llm_max_inflight == 0) && leb settings.llm_max_inflight state.inflight

-- Why a chat at the time is kept from the box after the probe: for the verdict's reason, or where the
-- box is fit, only if it is full.
abbrev pub Gated : Settings → ℕ → HeketState → Verdict → Option (HeketState × List Text) → Type 0
Gated settings now state raises result = result ≡ none
Gated settings now state (bench reason) result =
    (after : HeketState × List Text) × (result ≡ some after)
    × (skip_heket_reason settings now after.0 ≡ some reason)
Gated settings now state fit result =
    (after : HeketState × List Text) × (result ≡ some after)
    × (skip_heket_reason settings now after.0
        ≡ (if is_full settings state then some overflow else none))

open_unless_full :
    (settings : Settings) (now : ℕ) (state : HeketState)
    → skip_heket_reason settings now (mark_up state)
      ≡ (if is_full settings state then some overflow else none)
unfolding skip_heket_reason is_full
open_unless_full settings now state =
    let started : ltb now 0 ≡ false = ground arith in rw started refl

warm_or_bench-Gated :
    (settings : Settings) (now : ℕ) (cold : List Text) (state : HeketState)
    → Gated settings now state
        (if no_models cold then fit else bench warming)
        (some (warm_or_bench cold state))
unfolding no_models skip_heket_reason
warm_or_bench-Gated settings now [] state =
    ((mark_up state, []), refl, open_unless_full settings now state)
warm_or_bench-Gated settings now (model ∷ cold) state =
    ((mark_down warming forever state, model ∷ cold), refl, refl)

-- After a probe, a chat at any time: where the request for the tags failed, the chat model's digest is
-- not the pinned one, or /api/ps answers without a model of a role, the chat is kept from the box for
-- that reason; where none of these holds, which an unreadable /api/ps leaves so, it is kept from the box
-- only if as many requests are in flight as may be. Tags that are not JSON make the probe raise.
pub probe_once-Gated :
    (settings : Settings) (pin : Text) (tags : TagsAnswer) (running : Option (List Running))
    (state : HeketState) (now : ℕ)
    → Gated settings now state
        (verdict settings pin tags running)
        (probe_once settings pin tags running state)
unfolding probe_once verdict skip_heket_reason
probe_once-Gated settings pin http_error running state now =
    ((mark_down down forever state, []), refl, refl)
probe_once-Gated settings pin not_json running state now = refl
probe_once-Gated settings pin (tags_of tags) running state now =
    elim (Bool-cases (is_pinned settings pin tags)) [
      | inl e ↦
          let f : digest_matches settings pin tags ≡ true =
            digest_matches-is_pinned settings pin tags ∙ e in
          rw (e, f, sym (no_models-is_warm settings running))
            (warm_or_bench-Gated settings now (cold_models settings running) state)
      | inr e ↦
          let f : digest_matches settings pin tags ≡ false =
            digest_matches-is_pinned settings pin tags ∙ e in
          rw (e, f) ((mark_down digest_mismatch forever state, []), refl, refl)
    ]
