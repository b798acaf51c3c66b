-- ===== src/Agent/Turn/Limits.antt =====
-- The bounds of a turn's data: what a tool's result and a long conversation are cut to.
use longhub_manager.Common.{
  ℕ, zero, suc, ◌-◌, ◌≤◌, ◌<◌, ◌≡◌, refl, ◌⊎◌, inl, inr, true, false, List, [], ◌∷◌, ◌++◌, Text,
  lit, text_eq, valid_utf8, length, take, drop, length-drop, ltb, leb, ltb→le, ltb→lt, leb→le,
  Bool-cases, arith, leb→lt, All, sym, ap, ◌∙◌,
}
use mathlib.Core.Bool.{false≢true}
use native.Mathlib.Decide.{dec_lt}
use longhub_manager.Agent.Message.{Message}
use longhub_manager.Agent.Session.{max_tool_result_bytes, max_session_messages}
use longhub_manager.Agent.Turn.{from_user, compact, valid_end, truncate_result, truncation_note}

valid_end-le : (s : Text) (n : ℕ) → valid_end s n ≤ n
unfolding valid_end
valid_end-le s zero = omega arith
valid_end-le s (suc n) = ground (arith, valid_end-le s n)

valid_end-valid : (s : Text) (n : ℕ) → valid_utf8 (take (valid_end s n) s) ≡ true
unfolding valid_end
valid_end-valid s zero = unfold valid_utf8 in refl
valid_end-valid s (suc n) = elim (Bool-cases (valid_utf8 (take (suc n) s))) [
  | inl q ↦ rw (q, valid_end) q
  | inr q ↦ rw (q, valid_end) (valid_end-valid s n)
]

-- Nothing longer that fits is valid.
valid_end-longest : (s : Text) (n k : ℕ) → k ≤ n → valid_utf8 (take k s) ≡ true → k ≤ valid_end s n
unfolding valid_end
valid_end-longest s zero k h v = h
valid_end-longest s (suc n) k h v = elim (Bool-cases (valid_utf8 (take (suc n) s))) [
  | inl q ↦ rw (q, valid_end) h
  | inr q ↦
      rw (q, valid_end)
        (elim (dec_lt k (suc n)) [
          | yes below ↦ valid_end-longest s n k (omega arith) v
          | no above ↦
              let e : k ≡ suc n = omega arith in
              absurd (false≢true (sym q ∙ (ap (λ i. valid_utf8 (take i s)) (sym e) ∙ v)))
        ])
]

-- A tool result of at most 32 KiB stays as it is, and only a longer one is cut: it becomes its longest
-- valid UTF-8 prefix of at most 32 KiB, with a note.
pub truncate_result_lem :
    (s : Text)
    → ((length s ≤ max_tool_result_bytes) × (truncate_result s ≡ s))
      ⊎ ((n : ℕ) × (max_tool_result_bytes < length s)
          × (n ≤ max_tool_result_bytes)
          × (truncate_result s ≡ take n s ++ truncation_note)
          × (valid_utf8 (take n s) ≡ true)
          × ((k : ℕ) → k ≤ max_tool_result_bytes → valid_utf8 (take k s) ≡ true → k ≤ n))
unfolding truncate_result
truncate_result_lem s = elim (Bool-cases (ltb max_tool_result_bytes (length s))) [
  | inr q ↦ inl (ltb→le _ _ q, rw (q, truncate_result))
  | inl q ↦ inr (
    valid_end s max_tool_result_bytes,
    ltb→lt _ _ q,
    valid_end-le s max_tool_result_bytes,
    rw (q, truncate_result),
    valid_end-valid s max_tool_result_bytes,
    valid_end-longest s max_tool_result_bytes,
  )
]

-- The conversation starts with a message of the user.
abbrev pub StartsWithUser : List Message → Type 0
StartsWithUser [] = ⊥
StartsWithUser (m ∷ ms) = text_eq m.role (lit "user") ≡ true

abbrev pub NoUser : List Message → Type 0
NoUser = All (λ m. text_eq m.role (lit "user") ≡ false)

-- The rest from the first user message on is a tail of the list; there is none without such a message.
from_user-cases :
    (ms : List Message)
    → ((from_user ms ≡ []) × NoUser ms)
      ⊎ ((k : ℕ) × (from_user ms ≡ drop k ms) × NoUser (take k ms) × StartsWithUser (drop k ms))
unfolding from_user
from_user-cases [] = inl (refl, tt)
from_user-cases (m ∷ ms) = elim (Bool-cases (text_eq m.role (lit "user"))) [
  | inl q ↦ inr (0, rw q, tt, q)
  | inr q ↦ elim (from_user-cases ms) [
    | inl (e, none) ↦ inl (rw q e, (q, none))
    | inr (k, e, before, starts) ↦ inr (suc k, rw q e, (q, before), starts)
  ]
]

abbrev cut : List Message → List Message
cut ms = drop (length ms - max_session_messages) ms

compact-none :
    (ms : List Message)
    → leb (length ms) max_session_messages ≡ false
    → from_user (cut ms) ≡ []
    → compact ms ≡ ms
unfolding compact
compact-none ms q e = rw (q, e)

compact-some :
    (ms rest : List Message)
    → leb (length ms) max_session_messages ≡ false
    → from_user (cut ms) ≡ rest
    → StartsWithUser rest
    → compact ms ≡ rest
unfolding compact
compact-some ms [] q e h = absurd h
compact-some ms (u ∷ us) q e h = rw (q, e)

-- Compaction leaves a conversation of at most 80 messages as it is, and a longer one too where none
-- of its last 80 messages is the user's. Any other longer one it cuts to what follows from the first
-- user message among the last 80 on, which is not empty and has at most 80 messages.
pub compact_lem :
    (ms : List Message)
    → ((length ms ≤ max_session_messages) × (compact ms ≡ ms))
      ⊎ (((max_session_messages < length ms)
            × NoUser (drop (length ms - max_session_messages) ms)
            × (compact ms ≡ ms))
          ⊎ ((k : ℕ) × (max_session_messages < length ms)
              × NoUser (take k (drop (length ms - max_session_messages) ms))
              × (compact ms ≡ drop k (drop (length ms - max_session_messages) ms))
              × StartsWithUser (compact ms)
              × (length (compact ms) ≤ max_session_messages)))
compact_lem ms = elim (Bool-cases (leb (length ms) max_session_messages)) [
  | inl q ↦ inl (leb→le _ _ q, unfold compact in rw q)
  | inr q ↦ inr (elim (from_user-cases (cut ms)) [
    | inl (e, none) ↦ inl (leb→lt _ _ q, none, compact-none ms q e)
    | inr (k, e, before, starts) ↦
        let same = compact-some ms (drop k (cut ms)) q e starts in
        inr (
          k,
          leb→lt _ _ q,
          before,
          same,
          rw same starts,
          rw same (
              omega
                (arith, length-drop k (cut ms), length-drop (length ms - max_session_messages) ms)),
        )
  ])
]
