-- ===== src/Pair/Examples/Commits.antt =====
-- Commits and recoveries on a concrete pair, whole and cut off (replication/fixed-pair/src/lib.rs).
use terrapi_vault.Common.{
  bool_eq, option_eq, list_eq, string_eq, nat_eq, ok, checked_add, ℕ, ◌≡◌, refl, sym, subst, inl,
  none, List, [], ◌∷◌, arith,
}
use terrapi_vault.Pair.Model.{identity_eq, applied, Entry, checkpoint_eq, receipt_eq}
use terrapi_vault.Pair.Store.{
  checksum, validate, check_entry_size, decode, write_entry, from_applied, matches_request,
  decode_receipt, get_receipt, add_receipt, insert_for, save, validate_entry, journal_length,
}
use terrapi_vault.Pair.Checkpoints.{
  check_receipts, receipt_digest_from, check_base, walk_entry, walk_entries, calculate, current,
  is_verified, advance, checkpoint_at, confirm_checkpoint,
}
use terrapi_vault.Pair.Operations.{
  capture, replay_data, apply_changeset, prepare_entry, prepare_as, prepare, stage_as, stage,
  decide_entry, decide, apply_local, apply, abort_as, abort, orphan, receipt_as, receipt,
  completed_as, completed_result,
}
use terrapi_vault.Pair.Run.{World, return, lift, on_primary, on_secondary, ◌>>=◌}
use terrapi_vault.Pair.Protocol.{
  compare_entries, check_peer, check_primary_base, check_secondary_base, check_bases,
  compare_journals, check_unchanged, resolve, resolve_all, resolve_journal, recover, commit_entry,
  commit_new, commit,
}
use terrapi_vault.Pair.History.{In}
use terrapi_vault.Pair.Agreement.{Paired, agreed}
use terrapi_vault.Pair.Pages.{
  JournalHead, journal_head, summary, validate_rows, validate_page, read_rows, journal_page,
}
use terrapi_vault.Pair.Safety.Recover.{Settled}
use terrapi_vault.Pair.Commit.{
  recover-Paired, recover-Settled, commit-Paired, commit-Committed, Decided, commit-Decided,
}
use terrapi_vault.Pair.Comparison.{compare_journals_terminates}
use terrapi_vault.Pair.Examples.{cluster_one, numbers, fresh_pair, add_one, all_delivered, cut_at}
use terrapi_vault.Pair.Safety.Fresh.{Committed}

fresh-Paired : Paired numbers cluster_one fresh_pair.first_copy fresh_pair.second_copy
fresh-Paired = agreed [] [] [] record {
  history = (refl, refl);
  here = record {
    plays = refl;
    serves = refl;
    baseless = refl;
    logs = refl;
    views = refl;
    keeps = refl;
  };
  there = record {
    plays = refl;
    serves = refl;
    baseless = refl;
    logs = refl;
    views = refl;
    keeps = refl;
  };
}

commit_result :
    (commit numbers all_delivered add_one fresh_pair).1
    ≡ ok (record { operation_id = "op-1"; sequence = 1 })
unfolding checksum validate check_entry_size decode write_entry from_applied matches_request
    decode_receipt get_receipt add_receipt insert_for save validate_entry journal_length checked_add
    check_receipts receipt_digest_from check_base walk_entry walk_entries calculate current
    is_verified advance checkpoint_at confirm_checkpoint capture replay_data apply_changeset
    prepare_entry prepare_as prepare stage_as stage decide_entry decide apply_local apply abort_as
    abort orphan receipt_as receipt completed_as completed_result journal_head summary validate_rows
    validate_page read_rows journal_page return lift on_primary on_secondary ◌>>=◌ compare_entries
    check_peer check_primary_base check_secondary_base check_bases compare_journals check_unchanged
    resolve resolve_all resolve_journal recover commit_entry commit_new commit
commit_result = refl

-- The commit cut off when the reply to the decision is lost, and when that of the secondary's apply is.
abbrev cut_decided : World ℕ (List ℕ)
cut_decided = (commit numbers (cut_at 10) add_one fresh_pair).0

abbrev cut_applied : World ℕ (List ℕ)
cut_applied = (commit numbers (cut_at 11) add_one fresh_pair).0

cut_decided-Paired : Paired numbers cluster_one cut_decided.first_copy cut_decided.second_copy
cut_decided-Paired = commit-Paired numbers cluster_one (cut_at 10) add_one fresh_pair fresh-Paired

-- Recovery completes the decided operation.
recover_result : (recover numbers all_delivered cut_decided).1 ≡ ok 1
unfolding checksum validate check_entry_size decode write_entry from_applied matches_request
    decode_receipt get_receipt add_receipt insert_for save validate_entry journal_length checked_add
    check_receipts receipt_digest_from check_base walk_entry walk_entries calculate current
    is_verified advance checkpoint_at confirm_checkpoint capture replay_data apply_changeset
    prepare_entry prepare_as prepare stage_as stage decide_entry decide apply_local apply abort_as
    abort orphan receipt_as receipt completed_as completed_result journal_head summary validate_rows
    validate_page read_rows journal_page return lift on_primary on_secondary ◌>>=◌ compare_entries
    check_peer check_primary_base check_secondary_base check_bases compare_journals check_unchanged
    resolve resolve_all resolve_journal recover commit_entry commit_new commit
recover_result = refl

abbrev first_entry : Entry ℕ
first_entry = record {
  batch = add_one;
  sequence = 1;
  before = "none";
  after = "one";
  changeset = 1 ∷ [];
  digest = "one";
  state = applied;
}

half_way : cut_applied.second_copy.replication_log ≡ first_entry ∷ []
unfolding checksum validate check_entry_size decode write_entry from_applied matches_request
    decode_receipt get_receipt add_receipt insert_for save validate_entry journal_length checked_add
    check_receipts receipt_digest_from check_base walk_entry walk_entries calculate current
    is_verified advance checkpoint_at confirm_checkpoint capture replay_data apply_changeset
    prepare_entry prepare_as prepare stage_as stage decide_entry decide apply_local apply abort_as
    abort orphan receipt_as receipt completed_as completed_result journal_head summary validate_rows
    validate_page read_rows journal_page return lift on_primary on_secondary ◌>>=◌ compare_entries
    check_peer check_primary_base check_secondary_base check_bases compare_journals check_unchanged
    resolve resolve_all resolve_journal recover commit_entry commit_new commit
half_way = refl

recover-Settled_example :
    Settled numbers cluster_one all_delivered
      (recover numbers all_delivered cut_decided).0.first_copy
      (recover numbers all_delivered cut_decided).0.second_copy
recover-Settled_example =
    recover-Settled numbers cluster_one all_delivered cut_decided 1 cut_decided-Paired
      recover_result

recover-Paired_example :
    Paired numbers cluster_one
      (recover numbers (cut_at 20) cut_decided).0.first_copy
      (recover numbers (cut_at 20) cut_decided).0.second_copy
recover-Paired_example =
    recover-Paired numbers cluster_one (cut_at 20) cut_decided cut_decided-Paired

commit-Paired_example :
    Paired numbers cluster_one
      (commit numbers (cut_at 9) add_one fresh_pair).0.first_copy
      (commit numbers (cut_at 9) add_one fresh_pair).0.second_copy
commit-Paired_example = commit-Paired numbers cluster_one (cut_at 9) add_one fresh_pair fresh-Paired

commit-Committed_example :
    Committed numbers cluster_one add_one
      (record { operation_id = "op-1"; sequence = 1 })
      (commit numbers all_delivered add_one fresh_pair).0.first_copy
      (commit numbers all_delivered add_one fresh_pair).0.second_copy
commit-Committed_example =
    commit-Committed numbers cluster_one all_delivered add_one fresh_pair
      (record { operation_id = "op-1"; sequence = 1 }) fresh-Paired commit_result

commit-Decided_example : Decided numbers cluster_one first_entry cut_applied.first_copy
commit-Decided_example =
    commit-Decided numbers cluster_one (cut_at 11) add_one fresh_pair first_entry fresh-Paired
      (subst (In first_entry) (sym half_way) (inl refl)) refl

-- The head of a journal with one entry.
abbrev head_one : JournalHead
head_one = record {
  base = none;
  identity = cluster_one;
  revision = 3;
  read_generation = 7;
  length = 1;
}

compare_journals_terminates_example :
    ¬ ((compare_journals numbers all_delivered head_one head_one 1 0 0 cut_applied).1 ≡ ok none)
compare_journals_terminates_example =
    compare_journals_terminates numbers all_delivered head_one head_one 1 0 0 cut_applied
      (omega arith) (omega arith)
