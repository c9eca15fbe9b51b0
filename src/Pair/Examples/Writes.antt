-- ===== src/Pair/Examples/Writes.antt =====
-- Writes through the coordinator on a concrete pair (replication/fixed-pair/src/coordinator.rs).
use terrapi_vault.Common.{
  bool_eq, option_eq, list_eq, string_eq, nat_eq, checked_add, ◌≡◌, refl, true,
}
use terrapi_vault.Pair.Model.{identity_eq, checkpoint_eq, receipt_eq}
use terrapi_vault.Pair.Store.{
  checksum, validate, check_entry_size, decode, write_entry, from_applied, matches_request,
  decode_receipt, get_receipt, add_receipt, insert_for, save, validate_entry, journal_length,
}
use terrapi_vault.Pair.Checkpoints.{
  check_receipts, receipt_digest_from, check_base, walk_entry, walk_entries, calculate, current,
  is_verified, advance, checkpoint_at, confirm_checkpoint,
}
use terrapi_vault.Pair.Operations.{
  capture, replay_data, apply_changeset, prepare_entry, prepare_as, prepare, stage_as, stage,
  decide_entry, decide, apply_local, apply, abort_as, abort, orphan, receipt_as, receipt,
  completed_as, completed_result,
}
use terrapi_vault.Pair.Run.{Run, return, lift, on_primary, on_secondary}
use terrapi_vault.Pair.Protocol.{
  compare_entries, check_peer, check_primary_base, check_secondary_base, check_bases,
  compare_journals, check_unchanged, resolve, resolve_all, resolve_journal, recover, commit_entry,
  commit_new, commit,
}
use terrapi_vault.Pair.Pages.{
  journal_head, summary, validate_rows, validate_page, read_rows, journal_page,
}
use terrapi_vault.Pair.Coordinator.{
  not_accepted, WriteFailure, refused, replied, ◌>>=◌, unavailable, or_unavailable, reject_if,
  prepare_step, decide_step, reconcile, reconcile_step, receipt_reply, admit, settle, write,
}
use terrapi_vault.Pair.Outcome.{Refused}
use terrapi_vault.Pair.Examples.{numbers, add_one, lost_once, coordinator, no_constraint}
use terrapi_vault.Pair.Outcome.Writes.{write-Refused}

abbrev stage_lost : WriteFailure
stage_lost = record {
  status_code = 503;
  operation_id = "op-1";
  outcome = not_accepted;
  retry_same_operation_id = true;
  reason = "peer_unavailable_or_recovery_required";
}

write_refused :
    (write numbers (lost_once 12) no_constraint 0 add_one coordinator).1 ≡ refused stage_lost
unfolding checksum validate check_entry_size decode write_entry from_applied matches_request
    decode_receipt get_receipt add_receipt insert_for save validate_entry journal_length checked_add
    check_receipts receipt_digest_from check_base walk_entry walk_entries calculate current
    is_verified advance checkpoint_at confirm_checkpoint capture replay_data apply_changeset
    prepare_entry prepare_as prepare stage_as stage decide_entry decide apply_local apply abort_as
    abort orphan receipt_as receipt completed_as completed_result journal_head summary validate_rows
    validate_page read_rows journal_page return lift on_primary on_secondary ◌>>=◌ compare_entries
    check_peer check_primary_base check_secondary_base check_bases compare_journals check_unchanged
    resolve resolve_all resolve_journal recover commit_entry commit_new commit unavailable
    or_unavailable reject_if prepare_step decide_step reconcile reconcile_step receipt_reply admit
    settle write terrapi_vault.Pair.Run.◌>>=◌
write_refused = refl

write_replied :
    (write numbers (lost_once 30) no_constraint 0 add_one coordinator).1
    ≡ replied (record { operation_id = "op-1"; sequence = 1 })
unfolding checksum validate check_entry_size decode write_entry from_applied matches_request
    decode_receipt get_receipt add_receipt insert_for save validate_entry journal_length checked_add
    check_receipts receipt_digest_from check_base walk_entry walk_entries calculate current
    is_verified advance checkpoint_at confirm_checkpoint capture replay_data apply_changeset
    prepare_entry prepare_as prepare stage_as stage decide_entry decide apply_local apply abort_as
    abort orphan receipt_as receipt completed_as completed_result journal_head summary validate_rows
    validate_page read_rows journal_page return lift on_primary on_secondary ◌>>=◌ compare_entries
    check_peer check_primary_base check_secondary_base check_bases compare_journals check_unchanged
    resolve resolve_all resolve_journal recover commit_entry commit_new commit unavailable
    or_unavailable reject_if prepare_step decide_step reconcile reconcile_step receipt_reply admit
    settle write terrapi_vault.Pair.Run.◌>>=◌
write_replied = refl

write-Refused_example :
    Refused numbers
      (lost_once 12)
      no_constraint
      0
      add_one
      coordinator
      stage_lost
      (write numbers (lost_once 12) no_constraint 0 add_one coordinator).0
write-Refused_example =
    write-Refused numbers (lost_once 12) no_constraint 0 add_one coordinator stage_lost
      write_refused
