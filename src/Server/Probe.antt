-- ===== src/Server/Probe.antt =====
-- The health probe of the box (`probe_once`, `_tagged` and `cold_models` of
-- app/server/llm_gateway_service.py). What the box answers is an argument, and the models to warm up are
-- returned.
use graphling.Prelude.{
  Text, text_eqb, Bool, true, false, ◌&&◌, ◌||◌, Option, none, some, List, [], ◌∷◌, ◌++◌, ◌==◌, any,
  if◌then◌else◌,
}
use graphling.Server.Gateway.{
  down, digest_mismatch, warming, forever, HeketState, mark_down, mark_up, Settings,
}

-- A model of /api/tags: its name and its digest.
pub record Tag : Type 0 where
  pub name : Text
  pub digest : Text

-- A model of /api/ps, by its two names.
pub record Running : Type 0 where
  pub name : Text
  pub model : Text

unfoldable pub tagged : Text → Text
tagged model =
    if any (λ c. c == b':') model
    then model
    else model ++ b':' ∷ b'l' ∷ b'a' ∷ b't' ∷ b'e' ∷ b's' ∷ b't' ∷ []

-- The digest of the last model of the name.
unfoldable pub digest_of : Text → Text → List Tag → Text
digest_of wanted digest [] = digest
digest_of wanted digest (tag ∷ tags) =
    digest_of wanted (if text_eqb tag.name wanted then tag.digest else digest) tags

-- text.startswith(start)
abbrev pub startswith : Text → Text → Bool
startswith text [] = true
startswith [] (a ∷ start) = false
startswith (b ∷ text) (a ∷ start) = b == a && startswith text start

-- `pin` is heket_model_digest; an empty one pins nothing.
unfoldable pub digest_matches : Settings → Text → List Tag → Bool
unfolding tagged digest_of
digest_matches settings pin tags =
    startswith (digest_of (tagged settings.heket_chat_model) [] tags) pin

unfoldable pub is_loaded : Text → List Running → Bool
is_loaded tag [] = false
is_loaded tag (r ∷ running) = text_eqb r.name tag || text_eqb r.model tag || is_loaded tag running

-- The heket models of the three roles, in the order of `roles`.
abbrev pub heket_models : Settings → List Text
heket_models settings = settings.heket_chat_model ∷ settings.heket_classify_model ∷ small_model ∷ []
  where
    small_model : Text
    small_model = elim settings.heket_small_chat_model [
      | [] ↦ settings.heket_chat_model
      | c ∷ model ↦ c ∷ model
    ]

-- The models of the list that are not loaded, each once.
unfoldable pub cold_of : List Running → List Text → List Text → List Text
unfolding tagged is_loaded
cold_of running [] cold = cold
cold_of running (model ∷ models) cold = cold_of running models (
    if is_loaded (tagged model) running || any (text_eqb (tagged model)) cold
    then cold
    else cold ++ tagged model ∷ [])

unfoldable pub cold_models : Settings → Option (List Running) → List Text
unfolding cold_of
cold_models settings none = []
cold_models settings (some running) = cold_of running (heket_models settings) []

abbrev pub warm_or_bench : List Text → HeketState → HeketState × List Text
warm_or_bench [] state = (mark_up state, [])
warm_or_bench (model ∷ cold) state = (mark_down warming forever state, model ∷ cold)

-- What /api/tags comes to: an httpx.HTTPError, a body that `response.json()` cannot read, which raises a
-- ValueError, or the models.
pub data TagsAnswer : Type 0 where
  http_error : TagsAnswer
  not_json : TagsAnswer
  tags_of : List Tag → TagsAnswer

-- `none` where the probe raises, with the state as it was; `running` is `none` where /api/ps cannot be
-- read.
unfoldable pub probe_once :
    Settings
    → Text
    → TagsAnswer
    → Option (List Running)
    → HeketState
    → Option (HeketState × List Text)
unfolding digest_matches cold_models
probe_once settings pin http_error running state = some (mark_down down forever state, [])
probe_once settings pin not_json running state = none
probe_once settings pin (tags_of tags) running state = some (
    if digest_matches settings pin tags
    then warm_or_bench (cold_models settings running) state
    else (mark_down digest_mismatch forever state, []))
