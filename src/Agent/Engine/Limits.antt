-- ===== src/Agent/Engine/Limits.antt =====
-- The bounds of an `Engine`: the number of sessions, and the names of its tools.
use longhub_manager.Common.{
  suc, ◌≤◌, ◌<◌, ◌≡◌, refl, Bool, true, false, ◌||◌, Option, none, some, List, Text, is_empty,
  is_blank, contains_byte, trim_space, length, ltb, Result, ok, err, ◌>>=◌, Bool-cases, inl, inr,
  arith,
}
use longhub_manager.Agent.Message.{ToolDefinition}
use longhub_manager.Agent.Session.{
  ToolSpec, TurnResponse, Session, Ports, max_user_message_bytes, max_sessions,
}
use longhub_manager.Agent.Turn.{M}
use longhub_manager.Agent.Engine.{
  Sessions, Engine, find_session, evict, prune, new_session, open_session, on_session, finish_turn,
  run_turn, turn_with_events,
}
use longhub_manager.Agent.Engine.Table.{length-delete, length-evict, length-update, length-prune}

abbrev pub Fits : Sessions → Type 0
Fits table = length table ≤ max_sessions

module _ (p : Ports) (specs : List (Text × ToolSpec)) (tools : List ToolDefinition) where
  open p use {Env}

  new_session-Fits :
      (e : Engine Env) → Fits e.sessions → Fits (new_session p specs tools e).1.sessions
  unfolding new_session
  new_session-Fits e h = go (p.random_id e.env).0 refl
    where
      room : length (evict (suc (length e.sessions)) e.sessions) < max_sessions
      room = length-evict (suc (length e.sessions)) e.sessions (omega arith)

      go :
          (a : Result Text Text)
          → (p.random_id e.env).0 ≡ a
          → Fits (new_session p specs tools e).1.sessions
      go (err x) q = rw (q, new_session) (omega (arith, room))
      go (ok id) q =
          rw (q, new_session)
            (omega (arith, room, length-delete id (evict (suc (length e.sessions)) e.sessions)))

  prune-Fits : (e : Engine Env) → Fits e.sessions → Fits (prune p specs tools e).1.sessions
  unfolding prune
  prune-Fits e h = omega (arith, length-prune _ e.sessions)

  open_session-Fits :
      (id : Text) (e : Engine Env)
      → Fits e.sessions
      → Fits (open_session p specs tools id e).1.sessions
  unfolding open_session ◌>>=◌
  open_session-Fits id e h = elim (Bool-cases (is_blank id)) [
    | inl q ↦
        rw (q, open_session, ◌>>=◌) (new_session-Fits (prune p specs tools e).1 (prune-Fits e h))
    | inr q ↦ rw (q, open_session, ◌>>=◌) (prune-Fits e h)
  ]

  on_session-Fits :
      {A : Type 0} (id : Text) (m : Session → M Env A) (e : Engine Env)
      → Fits e.sessions
      → Fits (on_session p specs tools id m e).1.sessions
  unfolding on_session
  on_session-Fits id m e h = go (find_session id e.sessions) refl
    where
      go :
          (o : Option Session)
          → find_session id e.sessions ≡ o
          → Fits (on_session p specs tools id m e).1.sessions
      go none q = rw (q, on_session) h
      go (some s) q = rw (q, on_session) (omega (arith, length-update id _ e.sessions))

  finish_turn-Fits :
      (is_new : Bool) (id : Text) (a : Result Text TurnResponse) (e : Engine Env)
      → Fits e.sessions
      → Fits (finish_turn p specs tools is_new id a e).1.sessions
  unfolding finish_turn
  finish_turn-Fits is_new id (ok x) e h = h
  finish_turn-Fits false id (err x) e h = h
  finish_turn-Fits true id (err x) e h = omega (arith, length-delete id e.sessions)

  run_turn-Fits :
      (is_new : Bool) (message : Text) (a : Result Text Text) (e : Engine Env)
      → Fits e.sessions
      → Fits (run_turn p specs tools is_new message a e).1.sessions
  unfolding run_turn
  run_turn-Fits is_new message (err x) e h = h
  run_turn-Fits is_new message (ok id) e h =
      finish_turn-Fits is_new id _ _ (on_session-Fits id _ e h)

  -- A turn leaves at most 32 sessions in the table if it finds at most 32.
  pub turn_with_events-Fits :
      (session_id user_message : Text) (e : Engine Env)
      → Fits e.sessions
      → Fits (turn_with_events p specs tools session_id user_message e).1.sessions
  unfolding turn_with_events
  turn_with_events-Fits session_id user_message e h =
      elim (Bool-cases (refused (trim_space user_message))) [
        | inl q ↦ rw (q, turn_with_events) h
        | inr q ↦
            rw (q, turn_with_events)
              (run_turn-Fits (is_blank session_id) (trim_space user_message) _ _
                (open_session-Fits session_id e h))
      ]
    where
      refused : Text → Bool
      refused message =
          is_empty message || ltb max_user_message_bytes (length message) || contains_byte 0 message
