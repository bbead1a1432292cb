-- ===== src/Queue/Tests.antt =====
-- The queue on a small database: a batch of one conversation from its window to its answer.
use plastic_wan.Base.{
  ◌≡◌, refl, Bool, true, false, some, List, [], ◌∷◌, update_rows, modify, matches, sort,
  insert_sorted, Result, ok, err,
}
use plastic_wan.LongTasks.Due
use plastic_wan.LongTasks.Write.{is_pending}
use plastic_wan.Sleep.State.{active_sleep_until}
use plastic_wan.Queue.Tables.{BucketState, Bucket, Invocation}
use plastic_wan.Queue.Snapshot.{
  above_cutoff, is_history, newest_first, revised, history_rows, current_row, current_of,
  by_sequence, current_rows, next_sequence, insert_snapshots, snapshot_invocation,
}
use plastic_wan.Queue.Insert.{
  is_collecting, is_queued_bucket, is_running_bucket, is_queued, is_running, chat_of,
  telegram_chat_of, resolve_chat_config, is_chat_paused, insert_join, start_bucket, queue_state,
  close_bucket, close_invocation, attach_bucket_to_invocation, new_invocation, insert_invocation,
  mark_bucket_skipped, newest_running, running_invocation, chat_running,
}
use plastic_wan.Queue.Due.{
  holds_chat, is_chat_free, is_due_bucket, by_deadline, due_buckets, defer_bucket, inject,
  attach_open, gated, attach_bucket, queue_open, queue_gated, queue_bucket, in_round,
  process_bucket, process_buckets, process_due,
}
use plastic_wan.Queue.Receipts.{
  receipt_row, joined_rows, by_creation, pending_receipts, receipt_cancel_reason, suppress, claim,
  receipt_bucket, link_receipt, inject_completion, attach_receipt, start_receipt, claim_receipt,
  cannot_attach, deliver, suppress_pending, process_receipt, process_receipts, settle_tasks,
  process_tasks_due,
}
use plastic_wan.Queue.Clearing.{
  is_claimed, is_claimed_by, end_queued, claimed_queued, claimed_rows, suppress_claimed,
  suppress_row, suppress_rows, suppress_invalid_queued_receipts, is_exempt, by_id, has_chat,
  sleeping_rows, handle, handle_claimed, skip_row, skip_rows, skip_queued_invocations,
}
use plastic_wan.Queue.Release.{
  uninjected_row, uninjected_rows, is_claimed_in, suppress_released, hand_on_receipt,
  release_bucket, release_buckets, release_uninjected_buckets,
}
use plastic_wan.Queue.Recovery.{
  is_unknown, stop_invocation, stop_invocations, joined_unknown, opened_unknown, stop_buckets,
  has_claim, is_claimed_queued, abort_claimed, close_claims, is_stale, expire, expire_all,
  expire_stale, stop_joined, stop_others, recover,
}
use plastic_wan.Queue.Scheduler.{
  OutcomeState, thrown_outcome, carries_receipt, is_chat_idle, is_candidate, receipts_first,
  candidate, start_invocation, launch, clear_queued, launch_queued, end_invocation, end_bucket,
  persist_outcome, close_joined, started_at_of, is_in_chat, push_deadlines, chat_result,
  finish_invocation,
}
use plastic_wan.Queue.Collect.{
  conversation_under, collecting_bucket, open_bucket, last_received, is_adoptable, insert_messages,
  adopt_pending, next_number, add_message, open_for, append_to_bucket,
}
use plastic_wan.Queue.Pause.{
  chat_under, internal_chat_id, is_uninjected, is_pausable, is_queued_in, is_claimed_queued_in,
  pause_chat, pause, resume,
}
use plastic_wan.Participation.Gate.{rule_for}
use plastic_wan.Queue.CatchUp.{
  RevisionKind, StartupRow, Participations, is_eligible_human, in_session, selected,
  triggered_conversations, participation_blocks, skip_reason, catch_up_bucket, number_messages,
  open_catch_up, catch_up_messages, catch_up_conversations, finish_startup_catch_up,
}
use plastic_wan.Queue.Placing.{Placed}
use plastic_wan.Queue.Sound.{Sound}
use plastic_wan.Queue.Actions.{
  Process, process_both, loop_round, finish_run, Action, start, loop_once, finish, collect,
  catch_up, pause_for, resume_for, StepError, step, run,
}
use plastic_wan.Queue.Steps.{run-Sound}
use plastic_wan.Queue.Samples.{
  small, waiting_process, waiting_state-Sound, waiting_state-Placed, taken,
}

abbrev unrestricted_chats : Participations
unrestricted_chats = record {
  rules = [];
  local_time = λ timezone now. record { weekday = 1; minutes = 0 };
  attention = [];
  sticker_trigger_enabled = false;
}

abbrev missed : StartupRow
missed = record {
  id = 8;
  conversation_id = 1;
  chat_id = 5;
  telegram_chat_id = 900;
  is_private = false;
  telegram_message_id = 71;
  telegram_date = 328;
  received_at = 329;
  visible = true;
  sent_by_bot = false;
  kind = RevisionKind.other_kind;
  has_content = true;
  by_bot = false;
}

-- The start, a message, the rounds before and after the deadline, the end of the run, a pause,
-- the next message and a catch-up.
abbrev day : List Action
day =
    start 50
    ∷ collect 5 0 taken 55 true
    ∷ loop_once 60 60 (λ k. 61) 3
    ∷ loop_once 199 200 (λ k. 201) 3
    ∷ finish 1 1 (record { state = OutcomeState.completed; reason = "done" }) 300
    ∷ pause_for 900 310
    ∷ resume_for 900 320
    ∷ collect 5 0 taken 330 true
    ∷ catch_up unrestricted_chats (missed ∷ []) (some 325) 325 340
    ∷ []

abbrev or_else : Result StepError Process → Process → Process
or_else (ok q) p = q
or_else (err e) p = p

abbrev final : Process
final = or_else (run small day waiting_process) waiting_process

run-Sound_example : Sound final.state × Placed final.state
unfolding active_sleep_until is_pending Due.process_due Due.complete_each Due.due_rows Due.is_due
    Due.wake_if update_rows modify matches sort insert_sorted above_cutoff is_history newest_first
    revised history_rows current_row current_of by_sequence current_rows next_sequence
    insert_snapshots snapshot_invocation is_collecting is_queued_bucket is_running_bucket is_queued
    is_running chat_of telegram_chat_of resolve_chat_config is_chat_paused insert_join start_bucket
    queue_state close_bucket close_invocation attach_bucket_to_invocation new_invocation
    insert_invocation mark_bucket_skipped newest_running running_invocation chat_running holds_chat
    is_chat_free is_due_bucket by_deadline due_buckets defer_bucket inject attach_open gated
    attach_bucket queue_open queue_gated queue_bucket in_round process_bucket process_buckets
    process_due receipt_row joined_rows by_creation pending_receipts receipt_cancel_reason suppress
    claim receipt_bucket link_receipt inject_completion attach_receipt start_receipt claim_receipt
    cannot_attach deliver suppress_pending process_receipt process_receipts settle_tasks
    process_tasks_due is_claimed is_claimed_by end_queued claimed_queued claimed_rows
    suppress_claimed suppress_row suppress_rows suppress_invalid_queued_receipts is_exempt by_id
    has_chat sleeping_rows handle handle_claimed skip_row skip_rows skip_queued_invocations
    uninjected_row uninjected_rows is_claimed_in suppress_released hand_on_receipt release_bucket
    release_buckets release_uninjected_buckets is_unknown stop_invocation stop_invocations
    joined_unknown opened_unknown stop_buckets has_claim is_claimed_queued abort_claimed
    close_claims is_stale expire expire_all expire_stale stop_joined stop_others recover
    thrown_outcome carries_receipt is_chat_idle is_candidate receipts_first candidate
    start_invocation launch clear_queued launch_queued end_invocation end_bucket persist_outcome
    close_joined started_at_of is_in_chat push_deadlines chat_result finish_invocation process_both
    loop_round finish_run conversation_under collecting_bucket open_bucket last_received
    is_adoptable insert_messages adopt_pending next_number add_message open_for append_to_bucket
    chat_under internal_chat_id is_uninjected is_pausable is_queued_in is_claimed_queued_in
    pause_chat pause resume is_eligible_human in_session selected triggered_conversations
    participation_blocks rule_for skip_reason catch_up_bucket number_messages open_catch_up
    catch_up_messages catch_up_conversations finish_startup_catch_up step run
run-Sound_example =
    run-Sound small day waiting_process final waiting_state-Sound waiting_state-Placed refl

abbrev is_completed : BucketState → Bool
is_completed BucketState.completed = true
is_completed _ = false

-- The batch has been answered, by the first invocation, the next message waits in the
-- second bucket, and the catch-up has queued the second invocation.
answered :
    (matches (λ (b : Bucket). is_completed b.state) 1 final.state.buckets ≡ true)
    × (final.active ≡ [])
    × (matches (λ (b : Bucket). is_collecting b.state) 2 final.state.buckets ≡ true)
    × (matches (λ (i : Invocation). is_queued i.state) 2 final.state.invocations ≡ true)
unfolding active_sleep_until is_pending Due.process_due Due.complete_each Due.due_rows Due.is_due
    Due.wake_if update_rows modify matches sort insert_sorted above_cutoff is_history newest_first
    revised history_rows current_row current_of by_sequence current_rows next_sequence
    insert_snapshots snapshot_invocation is_collecting is_queued_bucket is_running_bucket is_queued
    is_running chat_of telegram_chat_of resolve_chat_config is_chat_paused insert_join start_bucket
    queue_state close_bucket close_invocation attach_bucket_to_invocation new_invocation
    insert_invocation mark_bucket_skipped newest_running running_invocation chat_running holds_chat
    is_chat_free is_due_bucket by_deadline due_buckets defer_bucket inject attach_open gated
    attach_bucket queue_open queue_gated queue_bucket in_round process_bucket process_buckets
    process_due receipt_row joined_rows by_creation pending_receipts receipt_cancel_reason suppress
    claim receipt_bucket link_receipt inject_completion attach_receipt start_receipt claim_receipt
    cannot_attach deliver suppress_pending process_receipt process_receipts settle_tasks
    process_tasks_due is_claimed is_claimed_by end_queued claimed_queued claimed_rows
    suppress_claimed suppress_row suppress_rows suppress_invalid_queued_receipts is_exempt by_id
    has_chat sleeping_rows handle handle_claimed skip_row skip_rows skip_queued_invocations
    uninjected_row uninjected_rows is_claimed_in suppress_released hand_on_receipt release_bucket
    release_buckets release_uninjected_buckets is_unknown stop_invocation stop_invocations
    joined_unknown opened_unknown stop_buckets has_claim is_claimed_queued abort_claimed
    close_claims is_stale expire expire_all expire_stale stop_joined stop_others recover
    thrown_outcome carries_receipt is_chat_idle is_candidate receipts_first candidate
    start_invocation launch clear_queued launch_queued end_invocation end_bucket persist_outcome
    close_joined started_at_of is_in_chat push_deadlines chat_result finish_invocation process_both
    loop_round finish_run conversation_under collecting_bucket open_bucket last_received
    is_adoptable insert_messages adopt_pending next_number add_message open_for append_to_bucket
    chat_under internal_chat_id is_uninjected is_pausable is_queued_in is_claimed_queued_in
    pause_chat pause resume is_eligible_human in_session selected triggered_conversations
    participation_blocks rule_for skip_reason catch_up_bucket number_messages open_catch_up
    catch_up_messages catch_up_conversations finish_startup_catch_up step run
answered = (refl, refl, refl, refl)
