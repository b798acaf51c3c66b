-- ===== src/Agent/Rounds/Transcript.antt =====
-- A session's messages as a conversation that a model accepts: the calls of an assistant message
-- are answered, each once and in order, before anything else is said.
use mathlib.Core.Path.{subst}
use longhub_manager.Common.{
  ◌≡◌, refl, true, false, Option, none, some, List, [], ◌∷◌, ◌++◌, Text, lit, text_eq, text_eq_iff,
  text_eq_refl, arith, Option-cases, ℕ, zero, suc, ◌-◌, drop, leb, length, Bool-cases,
  if◌then◌else◌, Bool-cases, inl, inr,
}
use longhub_manager.Agent.Message.{ToolCall, Message, plain}
use longhub_manager.Agent.Message.Validity.{ids}
use longhub_manager.Agent.Session.{Pending, Session}
use longhub_manager.Agent.Turn.{tool_message, from_user, compact}

-- The ids of calls that a message leaves open, after ids that were open before it; `none` where the
-- message may not stand there.
unfoldable pub say : List Text → Message → Option (List Text)
say [] m =
    if text_eq m.role (lit "user")
    then some []
    else if text_eq m.role (lit "assistant")
    then some (ids m.tool_calls)
    else none
say (id ∷ open_ids) m =
    if text_eq m.role (lit "tool")
    then (if text_eq m.tool_call_id id then some open_ids else none)
    else none

-- The ids that are open after the messages.
unfoldable pub said : List Text → List Message → Option (List Text)
said open_ids [] = some open_ids
said open_ids (m ∷ ms) = elim (say open_ids m) [ none ↦ none | some next ↦ said next ms ]

-- The calls that a session owes an answer: those that wait for an approval.
abbrev pub owed : Option Pending → List Text
owed none = []
owed (some pending) = pending.call.id ∷ ids pending.remaining

abbrev pub IsTranscript : Session → Type 0
IsTranscript s = said [] s.messages ≡ some (owed s.pending)

said_one : (next : List Text) (m : Message) → said next (m ∷ []) ≡ say next m
unfolding said
said_one next m = ground arith

-- One more message is said where the others end.
pub said-append :
    (open_ids : List Text) (xs : List Message) (m : Message) (next : List Text)
    → said open_ids xs ≡ some next
    → said open_ids (xs ++ m ∷ []) ≡ say next m
unfolding said
said-append open_ids [] m next h = ground (arith, said_one next m)
said-append open_ids (x ∷ xs) m next h = elim (Option-cases (say open_ids x)) [
  | inl e ↦ ground (arith, e)
  | inr (l, e) ↦ rw (e, said) (said-append l xs m next (ground (arith, e)))
]

-- The answer to the first open call.
pub say-answer :
    (call : ToolCall) (content : Text) (l : List Text)
    → say (call.id ∷ l) (tool_message call content) ≡ some l
unfolding say
say-answer call content l = rw (text_eq_refl (lit "tool"), text_eq_refl call.id)

pub say-user : (content : Text) → say [] (plain (lit "user") content) ≡ some []
unfolding say
say-user content = rw (text_eq_refl (lit "user"))

assistant_not_user : text_eq (lit "assistant") (lit "user") ≡ false
unfolding text_eq lit
assistant_not_user = refl

pub say-assistant : (m : Message) → m.role ≡ lit "assistant" → say [] m ≡ some (ids m.tool_calls)
unfolding say
say-assistant m h = rw (h, assistant_not_user, text_eq_refl (lit "assistant"))

user_not_tool : text_eq (lit "user") (lit "tool") ≡ false
unfolding text_eq lit
user_not_tool = refl

say-user_late :
    (id : Text) (open_ids : List Text) (m : Message)
    → text_eq m.role (lit "user") ≡ true
    → say (id ∷ open_ids) m ≡ none
unfolding say
say-user_late id open_ids m e = rw ((text_eq_iff m.role (lit "user")).0 e, user_not_tool)

-- A user message may stand only where no call is open.
said-user :
    (open_ids : List Text) (m : Message) (ms : List Message) (l : List Text)
    → text_eq m.role (lit "user") ≡ true
    → said open_ids (m ∷ ms) ≡ some l
    → said [] (m ∷ ms) ≡ some l
unfolding said
said-user [] m ms l e h = h
said-user (id ∷ open_ids) m ms l e h = cc (h, say-user_late id open_ids m e)

-- A conversation that is in order stays so from its first user message on.
pub said-from_user :
    (open_ids : List Text) (ms : List Message) (l : List Text) (u : Message) (us : List Message)
    → from_user ms ≡ u ∷ us
    → said open_ids ms ≡ some l
    → said [] (u ∷ us) ≡ some l
unfolding from_user said
said-from_user open_ids [] l u us f h = cc
said-from_user open_ids (m ∷ ms) l u us f h = elim (Bool-cases (text_eq m.role (lit "user"))) [
  | inl e ↦
      subst (λ x. said [] x ≡ some l) {x = m ∷ ms} {y = u ∷ us} (ground (arith, f, e))
        (said-user open_ids m ms l e h)
  | inr e ↦ elim (Option-cases (say open_ids m)) [
    | inl none_said ↦ ground (arith, none_said)
    | inr (x, next) ↦ said-from_user x ms l u us (ground (arith, f, e)) (ground (arith, h, next))
  ]
]

pub said-drop :
    (n : ℕ) (open_ids : List Text) (ms : List Message) (l : List Text)
    → said open_ids ms ≡ some l
    → (mid : List Text) × (said mid (drop n ms) ≡ some l)
unfolding said
said-drop zero open_ids ms l h = (open_ids, h)
said-drop (suc n) open_ids [] l h = (open_ids, h)
said-drop (suc n) open_ids (m ∷ ms) l h = elim (Option-cases (say open_ids m)) [
  | inl e ↦ ground (arith, e)
  | inr (x, e) ↦ said-drop n x ms l (ground (arith, e))
]

-- Compaction keeps a conversation in order.
pub said-compact :
    (ms : List Message) (l : List Text) → said [] ms ≡ some l → said [] (compact ms) ≡ some l
unfolding compact
said-compact ms l h = elim (Bool-cases (leb (length ms) 80)) [
  | inl small ↦ rw (small, compact) h
  | inr large ↦
      let (mid, h') = said-drop (length ms - 80) [] ms l h in
      rw (large, compact) (kept (from_user (drop (length ms - 80) ms)) refl mid h')
]
  where
    kept :
        (rest : List Message)
        → from_user (drop (length ms - 80) ms) ≡ rest
        → (mid : List Text) → said mid (drop (length ms - 80) ms) ≡ some l
        → said [] (elim rest [ [] ↦ ms | m ∷ r ↦ m ∷ r ]) ≡ some l
    kept [] e mid h' = h
    kept (u ∷ us) e mid h' = said-from_user mid _ l u us e h'
