-- ===== src/Gateway/Task.antt =====
-- The one scheduled task that the manager may register: how it is written, read and recognised, in
-- internal/runtime/process_control.go.
use longhub_manager.Common.{
  ℕ, ◌+◌, ◌*◌, ◌%◌, Bool, true, false, not, ◌&&◌, ◌||◌, Option, none, some, List, [], ◌∷◌, ◌++◌,
  Text, length, map, ltb, leb, ◌==◌, if◌then◌else◌, Result, ok, err, lit, text_eq, is_empty,
  contains_byte, trim_space, valid_utf8,
}

pub data Ownership : Type 0 where
  owned_unknown owned_externally owned_by_longhub owned_unsupported : Ownership

abbrev pub is_longhub : Ownership → Bool
is_longhub owned_by_longhub = true
is_longhub _ = false

-- `ScheduledTaskObservation`
pub record TaskObservation : Type 0 where
  pub ownership : Ownership
  pub task_present : Bool
  pub task_path_valid : Bool
  pub marker_valid : Bool
  pub action_valid : Bool
  pub error_code : Text

-- The errors of the file; `context_done` is an expired or cancelled context.
pub data TaskError : Type 0 where
  control_unavailable task_not_found task_inspection_failed identity_mismatch : TaskError
  foreign_owner operation_failed invalid_command context_done : TaskError
  other_task_error : Text → TaskError

pub record TaskDefinition : Type 0 where
  pub task_path : Text
  pub owner_marker : Text
  pub action_command : Text
  pub action_arguments : Text

-- What the XML decoder reads of a document.
pub record Document : Type 0 where
  pub root_name : Text
  pub description : Text
  pub uri : Text
  pub execs : List (Text × Text)

-- The libraries: `xml` decoding of one strict document and whether the text ends there, escaping,
-- `utf16.Decode` as UTF-8, and the folding of letters.
pub record TaskFormats : Type 0 where
  pub decode_document : Text → Option (Document × Bool)
  pub escape_text : Text → Option Text
  pub decode_utf16 : List ℕ → Text
  pub equal_fold : Text → Text → Bool
  pub to_lower : Text → Text

abbrev pub task_path_name : Text
task_path_name = lit "\\LongHub\\OpenClaw Gateway"

abbrev pub owner_marker_text : Text
owner_marker_text = lit "longhub/manager-gateway/v2"

abbrev pub autostart_arguments : Text
autostart_arguments = lit "--autostart-gateway"

abbrev max_task_bytes : ℕ
max_task_bytes = 128 * 1024

-- The 16-bit units of a text of even length
unfoldable pub little_endian_units : Text → List ℕ
little_endian_units (a ∷ b ∷ s) = (a + 256 * b) ∷ little_endian_units s
little_endian_units _ = []

unfoldable pub big_endian_units : Text → List ℕ
big_endian_units (a ∷ b ∷ s) = (256 * a + b) ∷ big_endian_units s
big_endian_units _ = []

unfoldable pub drop_mark : Text → Text
drop_mark (a ∷ b ∷ c ∷ s) = if a == 239 && b == 187 && c == 191 then s else a ∷ b ∷ c ∷ s
drop_mark s = s

unfoldable pub slashes : Text → Text
slashes s = map (λ c. if c == b'/' then 92 else c) s

-- What follows the last backslash
unfoldable pub after_last : Text → Text → Text
after_last base [] = base
after_last base (c ∷ s) = if c == 92 then after_last s s else after_last base s

module _ (t : TaskFormats) where
  abbrev in_units : (Text → List ℕ) → Text → Result TaskError Text
  in_units units s =
      if length s % 2 == 0 then ok (t.decode_utf16 (units s)) else err task_inspection_failed

  -- The byte order mark of UTF-16, if there is one
  unfoldable pub decode_marked : Text → Result TaskError Text
  unfolding little_endian_units big_endian_units
  decode_marked (a ∷ b ∷ s) =
      if a == 255 && b == 254
      then in_units little_endian_units s
      else if a == 254 && b == 255
      then in_units big_endian_units s
      else ok (a ∷ b ∷ s)
  decode_marked s = ok s

  -- UTF-16 without a mark, by the bytes that are zero
  unfoldable pub decode_unmarked : Text → Result TaskError Text
  unfolding little_endian_units big_endian_units
  decode_unmarked (a ∷ b ∷ c ∷ d ∷ s) =
      if b == 0 && d == 0 && a == b'<' && not (c == 0)
      then in_units little_endian_units (a ∷ b ∷ c ∷ d ∷ s)
      else if a == 0 && c == 0 && b == b'<' && not (d == 0)
      then in_units big_endian_units (a ∷ b ∷ c ∷ d ∷ s)
      else ok (a ∷ b ∷ c ∷ d ∷ s)
  decode_unmarked s = ok s

  abbrev then_text : Result TaskError Text → (Text → Result TaskError Text) → Result TaskError Text
  then_text (ok s) g = g s
  then_text (err e) g = err e

  abbrev plain_text : Text → Result TaskError Text
  plain_text s =
      if contains_byte 0 s || not (valid_utf8 s) then err task_inspection_failed else ok s

  -- `normalizeScheduledTaskXML`
  unfoldable pub normalize_scheduled_task_xml : Text → Result TaskError Text
  unfolding drop_mark decode_marked decode_unmarked
  normalize_scheduled_task_xml s =
      if length s == 0 || ltb max_task_bytes (length s)
      then err task_inspection_failed
      else then_text (then_text (decode_marked (drop_mark s)) decode_unmarked) plain_text

  -- Exactly one action
  unfoldable pub definition_of : Document → List (Text × Text) → Result TaskError TaskDefinition
  definition_of d ((command, arguments) ∷ []) = ok (record {
    task_path = d.uri;
    owner_marker = d.description;
    action_command = command;
    action_arguments = arguments;
  })
  definition_of d _ = err task_inspection_failed

  unfoldable pub read_document : Option (Document × Bool) → Result TaskError TaskDefinition
  unfolding definition_of
  read_document none = err task_inspection_failed
  read_document (some (d, at_end)) =
      if not (t.equal_fold d.root_name (lit "Task")) || not at_end
      then err task_inspection_failed
      else definition_of d d.execs

  -- `ParseScheduledTaskXML`
  unfoldable pub parse_scheduled_task_xml : Text → Result TaskError TaskDefinition
  unfolding normalize_scheduled_task_xml read_document
  parse_scheduled_task_xml s = elim (normalize_scheduled_task_xml s) [
    | err _ ↦ err task_inspection_failed
    | ok xml ↦ read_document (t.decode_document xml)
  ]

  -- `windowsTaskPathEqual`
  unfoldable pub windows_task_path_equal : Text → Text → Bool
  unfolding slashes
  windows_task_path_equal actual expected =
      text_eq actual (trim_space actual)
      && text_eq expected (trim_space expected)
      && not (is_empty (slashes actual))
      && t.equal_fold (slashes actual) (slashes expected)

  abbrev is_letter : ℕ → Bool
  is_letter c = leb b'A' c && leb c b'Z' || leb b'a' c && leb c b'z'

  -- `isAbsoluteWindowsPath`
  unfoldable pub is_absolute_windows_path : Text → Bool
  is_absolute_windows_path (a ∷ b ∷ c ∷ _) = b == b':' && (c == 92 || c == b'/') && is_letter a
  is_absolute_windows_path _ = false

  abbrev has_control : Text → Bool
  has_control s =
      contains_byte 0 s
      || contains_byte 13 s
      || contains_byte 10 s
      || contains_byte 9 s
      || contains_byte 34 s

  abbrev is_manager_name : Text → Bool
  is_manager_name base =
      text_eq base (lit "longhubmanager.exe") || text_eq base (lit "longhub-manager.exe")

  -- `validLongHubGatewayTaskAction`
  unfoldable pub valid_task_action : Text → Text → Bool
  unfolding is_absolute_windows_path slashes after_last
  valid_task_action command arguments =
      text_eq command (trim_space command)
      && text_eq arguments (trim_space arguments)
      && not (is_empty command)
      && not (has_control command)
      && is_absolute_windows_path command
      && is_manager_name (t.to_lower (after_last (slashes command) (slashes command)))
      && text_eq (trim_space arguments) autostart_arguments

  -- The definition is that of the one task of the manager.
  unfoldable pub is_ours : TaskDefinition → Bool
  unfolding windows_task_path_equal valid_task_action
  is_ours d =
      windows_task_path_equal d.task_path task_path_name
      && text_eq d.owner_marker owner_marker_text
      && valid_task_action d.action_command d.action_arguments

  unfoldable pub task_xml : Text → Text
  task_xml command =
      lit "<?xml version=\"1.0\" encoding=\"UTF-8\"?>\n"
      ++ lit
          "<Task version=\"1.2\" xmlns=\"http://schemas.microsoft.com/windows/2004/02/mit/task\">\n"
      ++ lit "  <RegistrationInfo>\n    <Description>"
      ++ owner_marker_text
      ++ lit "</Description>\n    <URI>"
      ++ task_path_name
      ++ lit "</URI>\n  </RegistrationInfo>\n"
      ++ lit "  <Triggers>\n    <LogonTrigger>\n      <Enabled>true</Enabled>\n"
      ++ lit "    </LogonTrigger>\n  </Triggers>\n  <Settings>\n"
      ++ lit "    <MultipleInstancesPolicy>IgnoreNew</MultipleInstancesPolicy>\n"
      ++ lit "    <DisallowStartIfOnBatteries>false</DisallowStartIfOnBatteries>\n"
      ++ lit "    <StopIfGoingOnBatteries>false</StopIfGoingOnBatteries>\n"
      ++ lit "    <AllowHardTerminate>true</AllowHardTerminate>\n"
      ++ lit "    <StartWhenAvailable>true</StartWhenAvailable>\n"
      ++ lit "    <AllowStartOnDemand>true</AllowStartOnDemand>\n"
      ++ lit "    <Enabled>true</Enabled>\n    <Hidden>false</Hidden>\n"
      ++ lit "    <ExecutionTimeLimit>PT0S</ExecutionTimeLimit>\n"
      ++ lit "    <RestartOnFailure>\n      <Interval>PT1M</Interval>\n      <Count>3</Count>\n"
      ++ lit "    </RestartOnFailure>\n  </Settings>\n  <Actions Context=\"Author\">\n"
      ++ lit "    <Exec>\n      <Command>"
      ++ command
      ++ lit "</Command>\n      <Arguments>"
      ++ autostart_arguments
      ++ lit "</Arguments>\n    </Exec>\n  </Actions>\n</Task>"

  -- What is written is read again before it is given away.
  unfoldable pub checked_xml : Text → Text → Result TaskError Text
  unfolding parse_scheduled_task_xml is_ours
  checked_xml command xml = elim (parse_scheduled_task_xml xml) [
    | err _ ↦ err invalid_command
    | ok d ↦ if is_ours d && text_eq d.action_command command then ok xml else err invalid_command
  ]

  -- `BuildLongHubGatewayTaskXML`
  unfoldable pub build_task_xml : Text → Result TaskError Text
  unfolding checked_xml valid_task_action task_xml
  build_task_xml command =
      if not (valid_task_action command autostart_arguments)
      then err invalid_command
      else elim (t.escape_text command) [
        | none ↦ err invalid_command
        | some escaped ↦ checked_xml command (task_xml escaped)
      ]
