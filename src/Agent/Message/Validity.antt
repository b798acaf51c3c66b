-- ===== src/Agent/Message/Validity.antt =====
-- What `validateModelMessage` of internal/manageragent/model.go accepts.
use longhub_manager.Common.{
  ◌≤◌, ◌≡◌, refl, sym, ◌≢◌, ◌↔◌, false, List, [], ◌∷◌, map, Text, lit, text_eq_iff, is_empty,
  length, All, ok, arith,
}
use longhub_manager.Agent.Message.{
  ToolCall, Message, max_model_message_bytes, max_responses_state_bytes, max_model_tool_calls,
  max_argument_bytes, state_bytes, malformed_call, seen_id, check_calls, validate_model_message,
}

-- A call that the engine can answer: it has an id and a name, and bounded arguments.
pub record IsCall (call : ToolCall) : Type 0 where
  pub has_id : call.id ≢ []
  pub is_function : call.type ≡ lit "function"
  pub has_name : call.name ≢ []
  pub fits : length call.arguments ≤ max_argument_bytes

abbrev pub Distinct : List Text → Type 0
Distinct [] = Unit
Distinct (x ∷ xs) = All (λ y. x ≢ y) xs × Distinct xs

abbrev pub ids : List ToolCall → List Text
ids = map (λ call. call.id)

-- An assistant message within the bounds whose calls are well formed and have distinct ids.
pub record IsModelMessage (m : Message) : Type 0 where
  pub from_assistant : m.role ≡ lit "assistant"
  pub content_fits : length m.content ≤ max_model_message_bytes
  pub calls_fit : length m.tool_calls ≤ max_model_tool_calls
  pub state_fits : state_bytes m.response_items ≤ max_responses_state_bytes
  pub calls : All IsCall m.tool_calls
  pub distinct : Distinct (ids m.tool_calls)

not-empty : (s : Text) → (is_empty s ≡ false) ↔ (s ≢ [])
not-empty [] = (λ h. cc, λ h. absurd (h refl))
not-empty (x ∷ xs) = (λ h e. cc, λ h. refl)

-- The first guard of the loop rejects exactly the malformed calls.
pub malformed_call-false : (c : ToolCall) → (malformed_call c ≡ false) ↔ IsCall c
unfolding malformed_call
malformed_call-false c = (
  λ h. record {
    has_id = (not-empty c.id).0 (ground arith);
    is_function = ground (arith, text_eq_iff c.type (lit "function"));
    has_name = (not-empty c.name).0 (ground arith);
    fits = ground arith;
  },
  λ v. ground (
    arith,
    (not-empty c.id).1 v.has_id,
    (not-empty c.name).1 v.has_name,
    text_eq_iff c.type (lit "function"),
  ),
)

-- No call has an id that was seen.
abbrev Unseen : List Text → List ToolCall → Type 0
Unseen seen = All (λ c. seen_id c.id seen ≡ false)

Unseen-cons :
    (x : Text) (seen : List Text) (cs : List ToolCall)
    → Unseen (x ∷ seen) cs ↔ (All (λ y. x ≢ y) (ids cs) × Unseen seen cs)
unfolding seen_id
Unseen-cons x seen [] = (λ h. (tt, tt), λ h. tt)
Unseen-cons x seen (c ∷ cs) =
    let rest = Unseen-cons x seen cs in
    (
      λ h.
          let (ne, apart) = rest.0 h.1 in
          ((λ e. cc (h.0, (text_eq_iff c.id x).1 (sym e)), ne), (ground (arith, h.0), apart)),
      λ h. (ground (arith, h.0.0, text_eq_iff c.id x, h.1.0), rest.1 (h.0.1, h.1.1)),
    )

check_calls_sound :
    (seen : List Text) (cs : List ToolCall)
    → check_calls seen cs ≡ ok tt
    → All IsCall cs × Distinct (ids cs) × Unseen seen cs
unfolding check_calls
check_calls_sound seen [] h = (tt, tt, tt)
check_calls_sound seen (c ∷ cs) h =
    let (calls, distinct, unseen) = check_calls_sound (c.id ∷ seen) cs (ground arith) in
    let (ne, apart) = (Unseen-cons c.id seen cs).0 unseen in
    (((malformed_call-false c).0 (ground arith), calls), (ne, distinct), (ground arith, apart))

check_calls_complete :
    (seen : List Text) (cs : List ToolCall)
    → All IsCall cs
    → Distinct (ids cs)
    → Unseen seen cs
    → check_calls seen cs ≡ ok tt
unfolding check_calls
check_calls_complete seen [] v d u = refl
check_calls_complete seen (c ∷ cs) v d u =
    rw ((malformed_call-false c).1 v.0, u.0)
      (check_calls_complete (c.id ∷ seen) cs v.1 d.1 ((Unseen-cons c.id seen cs).1 (d.0, u.1)))

none_seen : (cs : List ToolCall) → Unseen [] cs
unfolding seen_id
none_seen [] = tt
none_seen (c ∷ cs) = (refl, none_seen cs)

calls_checked :
    (m m' : Message) → validate_model_message m ≡ ok m' → check_calls [] m.tool_calls ≡ ok tt
unfolding validate_model_message
calls_checked m m' h = ground arith

-- The check accepts exactly the assistant messages within the bounds whose calls are well formed
-- and have distinct ids, and returns them unchanged.
pub validate_model_message_iff :
    (m m' : Message) → (validate_model_message m ≡ ok m') ↔ (IsModelMessage m × (m' ≡ m))
unfolding validate_model_message
validate_model_message_iff m m' = (
  λ h.
      let (calls, distinct, _) = check_calls_sound [] m.tool_calls (calls_checked m m' h) in
      (
        record {
          from_assistant = ground (arith, text_eq_iff m.role (lit "assistant"));
          content_fits = ground arith;
          calls_fit = ground arith;
          state_fits = ground arith;
          calls = calls;
          distinct = distinct;
        },
        ground arith,
      ),
  λ (v, e). ground (
    arith,
    e,
    v.content_fits,
    v.calls_fit,
    v.state_fits,
    (text_eq_iff m.role (lit "assistant")).1 v.from_assistant,
    check_calls_complete [] m.tool_calls v.calls v.distinct (none_seen m.tool_calls),
  ),
)
