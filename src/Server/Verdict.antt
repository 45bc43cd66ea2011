-- ===== src/Server/Verdict.antt =====
-- What a probe finds out about the box (`probe_once` and `cold_models` of
-- app/server/llm_gateway_service.py).
use graphling.Prelude.{
  Text, text_eqb, ◌≡◌, refl, ◌∙◌, Bool, true, false, ◌&&◌, ◌||◌, Option, none, some, List, [], ◌∷◌,
  ◌++◌, any, if◌then◌else◌, Bool-cases, inl, inr,
}
use graphling.Server.Gateway.{Reason, down, digest_mismatch, warming, Settings}
use graphling.Server.Probe.{
  Tag, Running, TagsAnswer, http_error, not_json, tags_of, tagged, digest_of, startswith,
  digest_matches, is_loaded, heket_models, cold_of, cold_models,
}

-- The digest of the last model of the name.
unfoldable last_digest : Text → List Tag → Option Text
last_digest wanted [] = none
last_digest wanted (tag ∷ tags) = elim (last_digest wanted tags) [
  | some digest ↦ some digest
  | none ↦ if text_eqb tag.name wanted then some tag.digest else none
]

abbrev or_empty : Option Text → Text → Text
or_empty none text = text
or_empty (some digest) text = digest

-- Does the chat model have the pinned digest?
unfoldable pub is_pinned : Settings → Text → List Tag → Bool
unfolding last_digest tagged
is_pinned settings pin tags =
    startswith (or_empty (last_digest (tagged settings.heket_chat_model) tags) []) pin

-- Does /api/ps list the model, by either name?
unfoldable pub lists : List Running → Text → Bool
unfolding tagged
lists running model =
    any (λ r. text_eqb r.name (tagged model) || text_eqb r.model (tagged model)) running

-- The small chat role uses the chat model where it has none of its own.
abbrev lists_small : List Running → Text → Text → Bool
lists_small running chat [] = lists running chat
lists_small running chat (c ∷ model) = lists running (c ∷ model)

-- Are the models of the three roles loaded, for all that is known? They count as loaded where /api/ps
-- cannot be read.
unfoldable pub is_warm : Settings → Option (List Running) → Bool
unfolding lists
is_warm settings none = true
is_warm settings (some running) =
    lists running settings.heket_chat_model
    && lists running settings.heket_classify_model
    && lists_small running settings.heket_chat_model settings.heket_small_chat_model

pub data Verdict : Type 0 where
  raises : Verdict
  bench : Reason → Verdict
  fit : Verdict

-- What the answers of the box say of it.
unfoldable pub verdict : Settings → Text → TagsAnswer → Option (List Running) → Verdict
unfolding is_pinned is_warm
verdict settings pin http_error running = bench down
verdict settings pin not_json running = raises
verdict settings pin (tags_of tags) running =
    if is_pinned settings pin tags
    then (if is_warm settings running then fit else bench warming)
    else bench digest_mismatch

digest_of-last :
    (wanted digest : Text) (tags : List Tag)
    → digest_of wanted digest tags ≡ or_empty (last_digest wanted tags) digest
unfolding digest_of last_digest
digest_of-last wanted digest [] = refl
digest_of-last wanted digest (tag ∷ tags) =
    digest_of-last wanted (if text_eqb tag.name wanted then tag.digest else digest) tags
    ∙ one (last_digest wanted tags) (text_eqb tag.name wanted)
  where
    one :
        (found : Option Text) (same : Bool)
        → or_empty found (if same then tag.digest else digest)
          ≡ or_empty
              (elim found [ some d ↦ some d | none ↦ if same then some tag.digest else none ])
              digest
    one (some d) same = refl
    one none true = refl
    one none false = refl

pub digest_matches-is_pinned :
    (settings : Settings) (pin : Text) (tags : List Tag)
    → digest_matches settings pin tags ≡ is_pinned settings pin tags
unfolding digest_matches is_pinned
digest_matches-is_pinned settings pin tags =
    rw (digest_of-last (tagged settings.heket_chat_model) [] tags) refl

is_loaded-lists :
    (model : Text) (running : List Running) → is_loaded (tagged model) running ≡ lists running model
unfolding is_loaded lists
is_loaded-lists model [] = refl
is_loaded-lists model (r ∷ running) = rw (is_loaded-lists model running) refl

unfoldable pub no_models : List Text → Bool
no_models [] = true
no_models (model ∷ models) = false

no_models-append : (cold : List Text) (model : Text) → no_models (cold ++ model ∷ []) ≡ false
unfolding no_models
no_models-append [] model = refl
no_models-append (other ∷ cold) model = refl

-- A model that is cold stays in the list.
no_models-cold :
    (running : List Running) (models cold : List Text)
    → no_models cold ≡ false
    → no_models (cold_of running models cold) ≡ false
unfolding cold_of
no_models-cold running [] cold h = h
no_models-cold running (model ∷ models) cold h =
    elim (Bool-cases (is_loaded (tagged model) running || any (text_eqb (tagged model)) cold)) [
      | inl e ↦ rw e (no_models-cold running models cold h)
      | inr e ↦ rw e (
          no_models-cold running models (cold ++ tagged model ∷ [])
            (no_models-append cold (tagged model)))
    ]

unfoldable all_listed : List Running → List Text → Bool
all_listed running [] = true
all_listed running (model ∷ models) = lists running model && all_listed running models

no_models-all_listed :
    (running : List Running) (models : List Text)
    → no_models (cold_of running models []) ≡ all_listed running models
unfolding cold_of all_listed no_models
no_models-all_listed running [] = refl
no_models-all_listed running (model ∷ models) = elim (Bool-cases (lists running model)) [
  | inl e ↦
      let f : is_loaded (tagged model) running ≡ true = is_loaded-lists model running ∙ e in
      rw (e, f) (no_models-all_listed running models)
  | inr e ↦
      let f : is_loaded (tagged model) running ≡ false = is_loaded-lists model running ∙ e in
      rw (e, f) (no_models-cold running models (tagged model ∷ []) refl)
]

three : (a b c : Bool) → (a && (b && (c && true))) ≡ (a && b && c)
three false b c = refl
three true false c = refl
three true true false = refl
three true true true = refl

-- The models of the three roles.
all_listed-roles :
    (running : List Running) (chat classify small : Text)
    → all_listed running (chat ∷ classify ∷ (elim small [ [] ↦ chat | c ∷ model ↦ c ∷ model ]) ∷ [])
      ≡ (lists running chat && lists running classify && lists_small running chat small)
unfolding all_listed
all_listed-roles running chat classify [] =
    three (lists running chat) (lists running classify) (lists running chat)
all_listed-roles running chat classify (c ∷ small) =
    three (lists running chat) (lists running classify) (lists running (c ∷ small))

pub no_models-is_warm :
    (settings : Settings) (running : Option (List Running))
    → no_models (cold_models settings running) ≡ is_warm settings running
unfolding cold_models is_warm no_models
no_models-is_warm settings none = refl
no_models-is_warm settings (some running) =
    no_models-all_listed running (heket_models settings)
    ∙ all_listed-roles running settings.heket_chat_model settings.heket_classify_model
        settings.heket_small_chat_model
