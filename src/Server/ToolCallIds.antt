-- ===== src/Server/ToolCallIds.antt =====
-- app/server/tool_call_ids.py: ids that pair tool calls with tool results. A text is a list of code
-- points, and an id that is missing is the empty text, which the code's tests treat alike.
use graphling.Prelude.{
  Text, text_eqb, text_eqb_refl, ℕ, suc, ◌+◌, ◌≡◌, refl, sym, ap, ◌∙◌, pos, List, [], ◌∷◌, ◌++◌,
  map, length, if◌then◌else◌, arith,
}
use graphling.Cargo.Sizes.{str}

pub record ToolCall : Type 0 where
  pub id : Text
  pub function : Text

-- A message by its role, with what else it holds as `content`.
pub data Message : Type 0 where
  assistant : List ToolCall → (content : Text) → Message
  tool : (tool_call_id : Text) → (content : Text) → Message
  other : (content : Text) → Message

-- f"call_{index}_{position}"
unfoldable pub call_id : ℕ → ℕ → Text
unfolding str
call_id index position =
    b'c' ∷ b'a' ∷ b'l' ∷ b'l' ∷ b'_' ∷ (str (pos index) ++ b'_' ∷ str (pos position))

-- tool_call.get("id") or f"call_{index}_{position}"
unfoldable pub id_or_made : Text → ℕ → ℕ → Text
unfolding call_id
id_or_made [] index position = call_id index position
id_or_made (c ∷ id) index position = c ∷ id

unfoldable pub with_ids : ℕ → ℕ → List ToolCall → List ToolCall
unfolding id_or_made
with_ids index position [] = []
with_ids index position (call ∷ calls) =
    record call { id = id_or_made call.id index position } ∷ with_ids index (position + 1) calls

-- if id in pending_ids: pending_ids.remove(id)
unfoldable pub remove_first : Text → List Text → List Text
remove_first id [] = []
remove_first id (p ∷ pending) = if text_eqb p id then pending else p ∷ remove_first id pending

-- if not message.get("tool_call_id") and pending_ids: message["tool_call_id"] = pending_ids[0]
unfoldable pub id_or_pending : Text → List Text → Text
id_or_pending [] [] = []
id_or_pending [] (p ∷ pending) = p
id_or_pending (c ∷ id) pending = c ∷ id

abbrev pub ids : List ToolCall → List Text
ids = map (λ call. call.id)

-- The loop, from `index` on.
unfoldable pub pair_from : ℕ → List Text → List Message → List Message
unfolding with_ids remove_first id_or_pending
pair_from index pending [] = []
pair_from index pending (assistant [] content ∷ messages) =
    assistant [] content ∷ pair_from (index + 1) pending messages
pair_from index pending (assistant (call ∷ calls) content ∷ messages) =
    let named = with_ids index 0 (call ∷ calls) in
    assistant named content ∷ pair_from (index + 1) (ids named) messages
pair_from index pending (tool id content ∷ messages) =
    let id' = id_or_pending id pending in
    tool id' content ∷ pair_from (index + 1) (remove_first id' pending) messages
pair_from index pending (other content ∷ messages) =
    other content ∷ pair_from (index + 1) pending messages

unfoldable pub with_tool_call_ids : List Message → List Message
unfolding pair_from
with_tool_call_ids messages = pair_from 0 [] messages

id_or_made-id_or_made :
    (id : Text) (index position : ℕ)
    → id_or_made (id_or_made id index position) index position ≡ id_or_made id index position
unfolding id_or_made call_id
id_or_made-id_or_made [] index position = refl
id_or_made-id_or_made (c ∷ id) index position = refl

with_ids-with_ids :
    (index position : ℕ) (calls : List ToolCall)
    → with_ids index position (with_ids index position calls) ≡ with_ids index position calls
unfolding with_ids
with_ids-with_ids index position [] = refl
with_ids-with_ids index position (call ∷ calls) =
    rw (id_or_made-id_or_made call.id index position, with_ids-with_ids index (position + 1) calls)
      refl

length-with_ids :
    (index position : ℕ) (calls : List ToolCall)
    → length (with_ids index position calls) ≡ length calls
unfolding with_ids
length-with_ids index position [] = refl
length-with_ids index position (call ∷ calls) = ap suc (length-with_ids index (position + 1) calls)

id_or_pending-id_or_pending :
    (id : Text) (pending : List Text)
    → id_or_pending (id_or_pending id pending) pending ≡ id_or_pending id pending
unfolding id_or_pending
id_or_pending-id_or_pending [] [] = refl
id_or_pending-id_or_pending [] ([] ∷ pending) = refl
id_or_pending-id_or_pending [] ((c ∷ p) ∷ pending) = refl
id_or_pending-id_or_pending (c ∷ id) pending = refl

pair_from-pair_from :
    (index : ℕ) (pending : List Text) (messages : List Message)
    → pair_from index pending (pair_from index pending messages) ≡ pair_from index pending messages
unfolding pair_from
pair_from-pair_from index pending [] = refl
pair_from-pair_from index pending (assistant [] content ∷ messages) =
    ap (λ ms. assistant [] content ∷ ms) (pair_from-pair_from (index + 1) pending messages)
pair_from-pair_from index pending (assistant (call ∷ calls) content ∷ messages) =
    let named = with_ids index 0 (call ∷ calls) in
    rw (id_or_made-id_or_made call.id index 0, with_ids-with_ids index 1 calls)
      (ap (λ ms. assistant named content ∷ ms)
        (pair_from-pair_from (index + 1) (ids named) messages))
pair_from-pair_from index pending (tool id content ∷ messages) =
    rw (id_or_pending-id_or_pending id pending) (
      ap (λ ms. tool (id_or_pending id pending) content ∷ ms)
        (pair_from-pair_from (index + 1) (remove_first (id_or_pending id pending) pending)
          messages))
pair_from-pair_from index pending (other content ∷ messages) =
    ap (λ ms. other content ∷ ms) (pair_from-pair_from (index + 1) pending messages)

-- The results of calls, in the order of the calls.
abbrev pub results : List ToolCall → List Text → List Message
results [] contents = []
results calls [] = []
results (call ∷ calls) (content ∷ contents) = tool call.id content ∷ results calls contents

-- Results that name no call, by their contents.
abbrev pub unnamed : List Text → List Message
unnamed = map (λ content. tool [] content)

id_or_pending-cons : (p : Text) (pending : List Text) → id_or_pending [] (p ∷ pending) ≡ p
unfolding id_or_pending
id_or_pending-cons p pending = refl

remove_first-cons : (p : Text) (pending : List Text) → remove_first p (p ∷ pending) ≡ pending
unfolding remove_first
remove_first-cons p pending = rw (text_eqb_refl p) refl

pair_from-unnamed :
    (index : ℕ) (calls : List ToolCall) (contents : List Text) (rest : List Message)
    → length contents ≡ length calls
    → pair_from index (ids calls) (unnamed contents ++ rest)
      ≡ results calls contents ++ pair_from (index + length contents) [] rest
unfolding pair_from
pair_from-unnamed index [] [] rest h = ap (λ i. pair_from i [] rest) (ground arith)
pair_from-unnamed index [] (content ∷ contents) rest h = absurd (let z : ⊥ = ground arith in z)
pair_from-unnamed index (call ∷ calls) [] rest h = absurd (let z : ⊥ = ground arith in z)
pair_from-unnamed index (call ∷ calls) (content ∷ contents) rest h =
    rw (id_or_pending-cons call.id (ids calls), remove_first-cons call.id (ids calls))
      (ap (λ ms. tool call.id content ∷ ms)
        (pair_from-unnamed (index + 1) calls contents rest (ground arith)
          ∙ ap (λ i. results calls contents ++ pair_from i [] rest) (omega arith)))

-- To name the ids a second time changes nothing.
pub with_tool_call_ids-idempotent :
    (messages : List Message)
    → with_tool_call_ids (with_tool_call_ids messages) ≡ with_tool_call_ids messages
unfolding with_tool_call_ids
with_tool_call_ids-idempotent messages = pair_from-pair_from 0 [] messages

-- Wherever a message with tool calls is followed by as many results that name no call, each result gets
-- the id of the call in its place, ids that were still pending are dropped, and none is left for the
-- messages after them.
pub pair_from-in_order :
    (index : ℕ) (pending : List Text) (call : ToolCall) (calls : List ToolCall) (content : Text)
    (contents : List Text) (rest : List Message)
    → length contents ≡ length (call ∷ calls)
    → pair_from index pending (assistant (call ∷ calls) content ∷ (unnamed contents ++ rest))
      ≡ assistant (with_ids index 0 (call ∷ calls)) content
        ∷ (results (with_ids index 0 (call ∷ calls)) contents
            ++ pair_from (index + 1 + length contents) [] rest)
unfolding pair_from
pair_from-in_order index pending call calls content contents rest h =
    let named = with_ids index 0 (call ∷ calls) in
    ap (λ ms. assistant named content ∷ ms)
      (pair_from-unnamed (index + 1) named contents rest
        (h ∙ sym (length-with_ids index 0 (call ∷ calls))))
