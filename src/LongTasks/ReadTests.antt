-- ===== src/LongTasks/ReadTests.antt =====
-- The task of the tests as its scope lists it, and as a scope without a caller sees it.
use plastic_wan.Base.{◌≡◌, refl, true, none, some, [], any, ◌==◌, ok, sort}
use plastic_wan.LongTasks.Rows.{Service, invocation_scope, scoped, task_scope}
use plastic_wan.LongTasks.Write.{cancel}
use plastic_wan.LongTasks.Read.{list_rows, list, cancel-listed}
use plastic_wan.LongTasks.Tests.{alarm_scope, one_task, one_task-IsConsistent, by_agent, sample}

shown : any (λ row. row.0 == 1) (list_rows alarm_scope one_task) ≡ true
unfolding list_rows sort
shown = refl

cancel-listed_example : (s' : Service) × (cancel alarm_scope 1 by_agent 9 one_task ≡ ok (s', true))
cancel-listed_example =
    cancel-listed alarm_scope 1 by_agent 9 one_task one_task-IsConsistent refl shown

-- An anonymous caller of a live invocation gets nothing; the plugin's own scope gets the task.
nothing_for_anonymous : list sample (invocation_scope "alarm" 7 3 none) one_task ≡ ok []
unfolding list list_rows
nothing_for_anonymous = refl

one_for_plugin : list_rows (scoped "alarm" 7) one_task ≡ one_task.tasks
unfolding list_rows sort
one_for_plugin = refl

one_for_bridge : list_rows (task_scope "alarm" 7 (some 3)) one_task ≡ one_task.tasks
unfolding list_rows sort
one_for_bridge = refl
