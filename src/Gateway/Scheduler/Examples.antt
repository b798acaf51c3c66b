-- ===== src/Gateway/Scheduler/Examples.antt =====
-- A scheduler whose world is the XML that it shows of the task, and the changes that were asked of it.
use longhub_manager.Common.{
  ◌≡◌, refl, inr, true, List, Option, none, some, [], ◌∷◌, Text, Result, ok, err, lit, text_eq,
  arith, sym, ap, trim_space, contains_byte, valid_utf8,
}
use longhub_manager.Gateway.Task.{
  TaskError, task_not_found, TaskFormats, task_path_name, owner_marker_text, autostart_arguments,
  build_task_xml,
}
use longhub_manager.Gateway.Scheduler.{
  Scheduler, Lifecycle, ensure_scheduled_task, remove_scheduled_task,
}
use longhub_manager.Gateway.Scheduler.Knowledge.{IsTaskStore}
use longhub_manager.Gateway.Scheduler.Ensuring.{
  Change, registering, deleting, IsChangeLog, EnsureEffect, ensure_scheduled_task_lem,
}
use longhub_manager.Gateway.Scheduler.Removal.{RemoveEffect, remove_scheduled_task_lem}

abbrev command : Text
command = lit "C:\\LongHub\\longhub-manager.exe"

-- Every document is that of the task with this command.
abbrev formats : TaskFormats
formats = record {
  decode_document = λ s. some (
    record {
      root_name = lit "Task";
      description = owner_marker_text;
      uri = task_path_name;
      execs = (command, autostart_arguments) ∷ [];
    },
    true,
  );
  escape_text = λ s. some s;
  decode_utf16 = λ units. units;
  equal_fold = text_eq;
  to_lower = λ s. s;
}

abbrev found : Option Text → Result TaskError Text
found none = err task_not_found
found (some xml) = ok xml

abbrev World : Type 0
World = Option Text × List Change

-- A registered task is shown in the words of the scheduler.
abbrev lifecycle : Lifecycle World
lifecycle = record {
  register = λ path xml w. (none, (some (lit "<Task version='1.2'/>"), registering path xml ∷ w.1));
  delete = λ path w. (none, (none, deleting path ∷ w.1));
}

abbrev scheduler : Scheduler
scheduler = record {
  Env = World;
  context_error = λ w. none;
  query = λ path w. (found w.0, w);
  lifecycle = some lifecycle;
}

found_ok : (task : Option Text) (xml : Text) → found task ≡ ok xml → task ≡ some xml
found_ok none xml h = absurd (ground (arith, h))
found_ok (some x) xml h = ground (arith, h)

found_missing : (task : Option Text) → found task ≡ err task_not_found → task ≡ none
found_missing none h = refl
found_missing (some x) h = absurd (ground (arith, h))

abbrev given : Option (Lifecycle World) → Lifecycle World
given none = lifecycle
given (some l) = l

registers :
    (l : Lifecycle World) (path xml : Text) (w : World)
    → scheduler.lifecycle ≡ some l
    → (l.register path xml w).1.1 ≡ registering path xml ∷ w.1
registers l path xml w h = rw (sym (ap given h)) refl

deletes :
    (l : Lifecycle World) (path : Text) (w : World)
    → scheduler.lifecycle ≡ some l
    → (l.delete path w).1 ≡ (none, deleting path ∷ w.1)
deletes l path w h = rw (sym (ap given h)) refl

abbrev scheduler-IsTaskStore : IsTaskStore scheduler
scheduler-IsTaskStore = record {
  task = λ w. w.0;
  query_keeps = λ w. refl;
  query_found = λ w xml h. found_ok w.0 xml h;
  query_missing = λ w h. found_missing w.0 h;
  delete_effect = λ l w h. inr (ap (λ x. x.0) (deletes l task_path_name w h));
  delete_done = λ l w h _. ap (λ x. x.0) (deletes l task_path_name w h);
}

abbrev scheduler-IsChangeLog : IsChangeLog scheduler
scheduler-IsChangeLog = record {
  changes = λ w. w.1;
  query_asks_none = λ path w. refl;
  register_asks = λ l path xml w h. registers l path xml w h;
  delete_asks = λ l path w h. ap (λ x. x.1) (deletes l path w h);
}

abbrev no_task : World
no_task = (none, [])

-- A task is registered where there is none.
registered_once : (ensure_scheduled_task formats scheduler command no_task).0 ≡ none
unfolding ensure_scheduled_task build_task_xml text_eq lit trim_space contains_byte valid_utf8
registered_once = refl

ensure_scheduled_task_lem_example :
    EnsureEffect formats scheduler scheduler-IsTaskStore scheduler-IsChangeLog command no_task
      (ensure_scheduled_task formats scheduler command no_task)
ensure_scheduled_task_lem_example =
    ensure_scheduled_task_lem formats scheduler scheduler-IsTaskStore scheduler-IsChangeLog command
      no_task

remove_scheduled_task_lem_example :
    RemoveEffect formats scheduler scheduler-IsTaskStore
      (some (lit "<Task/>"))
      (remove_scheduled_task formats scheduler (some (lit "<Task/>"), []))
remove_scheduled_task_lem_example =
    remove_scheduled_task_lem formats scheduler scheduler-IsTaskStore (some (lit "<Task/>"), [])
