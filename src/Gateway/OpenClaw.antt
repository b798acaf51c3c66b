-- ===== src/Gateway/OpenClaw.antt =====
-- The controller of the gateway over the command line of OpenClaw: `OpenClawGatewayController` and the
-- parsers of its output in internal/runtime/gateway.go, with what they use of adapter.go and
-- command_discovery.go.
pub mod Commands
pub mod ReadOnly
mod Examples
use longhub_manager.Common.{
  ℕ, Bool, true, false, not, ◌&&◌, ◌||◌, ◌==◌, Option, none, some, List, [], ◌∷◌, ◌++◌, Text,
  if◌then◌else◌, Result, ok, err, lit, text_eq, is_empty, trim_space,
}
use longhub_manager.Gateway.Task.{TaskError, TaskObservation}
use longhub_manager.Gateway.Control.{
  GatewayObservation, GatewayHealth, health_unknown, healthy, unhealthy, Controller,
}

-- A member of a JSON object, where only booleans and strings are read.
pub data JsonValue : Type 0 where
  json_boolean : Bool → JsonValue
  json_string : Text → JsonValue
  json_other : JsonValue

-- The libraries: a JSON object by its members, lower case, all matches of the pattern of state words,
-- and the version in a text by its pattern.
pub record OutputFormats : Type 0 where
  pub decode_object : Text → Option (List (Text × JsonValue))
  pub to_lower : Text → Text
  pub state_words : Text → List Text
  pub find_version : Text → Option Text

-- What a command gave: its output and the text of its error, if it failed.
abbrev pub Output : Type 0
Output = Text × Option Text

-- `CommandRunner`: the command on the path, the resolver of a runner that has one, and a command.
pub record Runner : Type 1 where
  pub Env : Type 0
  pub look_path : Text → Env → Result Text Text × Env
  pub resolve : Option (Env → Result Text Text × Env)
  pub run : Text → List Text → Env → Output × Env

-- `strings.Contains`
unfoldable pub has_prefix : Text → Text → Bool
has_prefix s [] = true
has_prefix [] (c ∷ p) = false
has_prefix (a ∷ s) (c ∷ p) = a == c && has_prefix s p

unfoldable pub contains : Text → Text → Bool
unfolding has_prefix
contains [] p = has_prefix [] p
contains (a ∷ s) p = has_prefix (a ∷ s) p || contains s p

abbrev one_of : List Text → Text → Bool
one_of [] s = false
one_of (w ∷ words) s = text_eq s w || one_of words s

abbrev any_of : (Text → Bool) → List Text → Bool
any_of test [] = false
any_of test (w ∷ words) = test w || any_of test words

abbrev any_contained : List Text → Text → Bool
any_contained [] s = false
any_contained (w ∷ words) s = contains s w || any_contained words s

-- The first of the keys whose member is a boolean, or a string
unfoldable pub member : Text → List (Text × JsonValue) → JsonValue
member key [] = json_other
member key ((k, v) ∷ object) = if text_eq k key then v else member key object

abbrev boolean_of : JsonValue → Option Bool
boolean_of (json_boolean b) = some b
boolean_of _ = none

abbrev string_of : JsonValue → Option Text
string_of (json_string s) = some s
string_of _ = none

unfoldable pub first_boolean : List Text → List (Text × JsonValue) → Option Bool
unfolding member
first_boolean [] object = none
first_boolean (key ∷ keys) object = elim (boolean_of (member key object)) [
  | some b ↦ some b
  | none ↦ first_boolean keys object
]

unfoldable pub strings_at : List Text → List (Text × JsonValue) → List Text
unfolding member
strings_at [] object = []
strings_at (key ∷ keys) object =
    let rest = strings_at keys object in
    elim (string_of (member key object)) [ some s ↦ s ∷ rest | none ↦ rest ]

abbrev negative_words : List Text
negative_words =
    lit "stopped"
    ∷ lit "inactive"
    ∷ lit "offline"
    ∷ lit "failed"
    ∷ lit "disabled"
    ∷ lit "not running"
    ∷ []

-- A parsed state is whether the gateway runs and whether this is known.
abbrev pub Running : Type 0
Running = Bool × Bool

module _ (f : OutputFormats) where
  -- `parseGatewayStateWord`
  unfoldable pub parse_gateway_state_word : Text → Running
  parse_gateway_state_word value =
      let word = f.to_lower (trim_space value) in
      if one_of (lit "running" ∷ lit "active" ∷ lit "online" ∷ lit "ready" ∷ []) word
      then (true, true)
      else if one_of negative_words word
      then (false, true)
      else (false, false)

  -- The words of a text: a negative one decides.
  unfoldable pub parse_state_words : List Text → Running
  parse_state_words words =
      if any_of (one_of (negative_words ++ lit "not installed" ∷ [])) words
      then (false, true)
      else if any_of
          (one_of
            (lit "running" ∷ lit "active" ∷ lit "online" ∷ lit "listening" ∷ lit "ready" ∷ []))
          words
      then (true, true)
      else (false, false)

  abbrev text_running : Text → Running
  unfolding parse_state_words
  text_running s = parse_state_words (f.state_words (f.to_lower s))

  unfoldable pub state_string : Text → List Text → Running
  unfolding parse_gateway_state_word text_running
  state_string s (value ∷ _) = parse_gateway_state_word value
  state_string s [] = text_running s

  unfoldable pub object_running : Text → List (Text × JsonValue) → Running
  unfolding first_boolean strings_at state_string
  object_running s object =
      elim (first_boolean (lit "running" ∷ lit "active" ∷ lit "online" ∷ []) object) [
        | some b ↦ (b, true)
        | none ↦ state_string s (strings_at (lit "status" ∷ lit "state" ∷ []) object)
      ]

  -- `parseGatewayRunning`
  unfoldable pub parse_gateway_running : Text → Running
  unfolding object_running text_running
  parse_gateway_running output =
      let s = trim_space output in
      if is_empty s then (false, false) else elim (f.decode_object s) [
        | some object ↦ object_running s object
        | none ↦ text_running s
      ]

  -- `parseHealthWord`
  unfoldable pub parse_health_word : Text → GatewayHealth × Bool
  unfolding contains
  parse_health_word value =
      let word = f.to_lower (trim_space value) in
      if any_contained
        (lit "unhealthy"
          ∷ lit "not healthy"
          ∷ lit "failed"
          ∷ lit "error"
          ∷ lit "not ready"
          ∷ lit "not online"
          ∷ lit "offline"
          ∷ [])
        word
      then (unhealthy, true)
      else if contains word (lit "healthy")
          || text_eq word (lit "ok")
          || contains word (lit "ready")
          || contains word (lit "online")
      then (healthy, true)
      else (health_unknown, false)

  -- The first string that is known, and the whole text if there is none
  unfoldable pub health_strings : Text → List Text → GatewayHealth × Bool
  unfolding parse_health_word
  health_strings s [] = parse_health_word s
  health_strings s (value ∷ values) =
      let rest = health_strings s values in
      let (health, known) = parse_health_word value in if known then (health, true) else rest

  unfoldable pub object_health : Text → List (Text × JsonValue) → GatewayHealth × Bool
  unfolding first_boolean strings_at health_strings
  object_health s object =
      elim (first_boolean (lit "ok" ∷ lit "healthy" ∷ lit "ready" ∷ []) object) [
        | some b ↦ (if b then healthy else unhealthy, true)
        | none ↦
            health_strings s (strings_at (lit "status" ∷ lit "state" ∷ lit "health" ∷ []) object)
      ]

  -- `parseGatewayHealth`
  unfoldable pub parse_gateway_health : Text → GatewayHealth × Bool
  unfolding object_health parse_health_word
  parse_gateway_health output =
      let s = trim_space output in
      if is_empty s then (health_unknown, false) else elim (f.decode_object s) [
        | some object ↦ object_health s object
        | none ↦ parse_health_word s
      ]
