-- ===== src/Recovery/Examples/Journals.antt =====
-- The theorems about replication/recovery/src/decision.rs at a concrete journal.
use mathlib.Core.List.{Memᴰ}
use terrapi_vault.Common.{
  Result, err, ok, is_blank, checked_add, ◌≡◌, refl, ◌⊎◌, inl, inr, true, Option, none, some, List,
  [], ◌∷◌,
}
use terrapi_vault.Recovery.Model.{validate_baseline, new, extends, validate_plan, step}
use terrapi_vault.Recovery.Jws.{
  validate_profile, split, three_parts, signed_part, decode, select_key,
}
use terrapi_vault.Recovery.Grant.{
  has_purpose, has_scope, in_window, is_reserved, check_claims, trusted_key, validate_claims,
  verify,
}
use terrapi_vault.Recovery.Decision.{
  Scope, Prepared, Request, check_prepared, validate_request, Record, CommittedDecision, Policy,
  Codec, IsFaithful,
}
use terrapi_vault.Recovery.Decision.Store.{Db, is_history, check_scope, read_row, read, save}
use terrapi_vault.Recovery.Decision.Journal.{
  position, first_record, acknowledge, complete, decide_first, decide_on, decide,
}
use terrapi_vault.Recovery.Decision.Journal.Moves.{
  Call, deciding, acknowledging, completing, perform, attempt, run,
}
use terrapi_vault.Recovery.Decision.Journal.Refine.{Refines, perform-Move}
use terrapi_vault.Recovery.Decision.Journal.Kept.{Later, run-Later}
use terrapi_vault.Recovery.Decision.Journal.Explain.{Explained, run-Explained}
use terrapi_vault.Recovery.Examples.{lost_pair, replacement}
use terrapi_vault.Recovery.Examples.Grants.{jws, profile, ctx, parse_claims, token}

abbrev scope : Scope
scope = record { install = "i1"; region = "r1"; profile = profile; baseline = lost_pair }

-- A text is the value that it was written from.
abbrev Json : Type 0
Json = Record ⊎ Scope

abbrev read_scope_text : Json → Result Scope
read_scope_text (inl r) = err "json"
read_scope_text (inr s) = ok s

abbrev read_record_text : Json → Result Record
read_record_text (inl r) = ok r
read_record_text (inr s) = err "json"

abbrev codec : Codec Json
codec = record {
  write_scope = inr;
  read_scope = read_scope_text;
  write_record = inl;
  read_record = read_record_text;
  json_len = λ t. 900;
  json_sha256 = λ t. 5;
  token_sha256 = λ t. 6;
}

codec-IsFaithful : IsFaithful codec
codec-IsFaithful = record { scope_back = λ s. refl; record_back = λ r. refl }

abbrev candidate_ready : Prepared
candidate_ready = record { member = 23; generation = 32; checkpoint = 41 }

abbrev survivor_ready : Prepared
survivor_ready = record { member = 22; generation = 31; checkpoint = 41 }

abbrev request : Request
request = record { id = 61; plan = replacement; prepared = (candidate_ready, survivor_ready) }

abbrev policy : Policy
policy = record {
  continuity = λ m s. ok tt;
  context = λ s r. ok ctx;
  prepared = λ s r. ok tt;
  applied = λ s d m. ok tt;
}

abbrev handle : CommittedDecision
handle = record { request = request; token_digest = 6; grant_id = 71 }

abbrev empty_journal : Db Json
empty_journal = record { format = 2; scope_json = inr scope; row = none }

abbrev calls : List Call
calls =
    deciding request token policy
    ∷ acknowledging handle candidate_ready policy
    ∷ completing request 81 policy
    ∷ acknowledging handle survivor_ready policy
    ∷ completing request 81 policy
    ∷ []

abbrev completed_record : Record
completed_record = record {
  request = request;
  token = token;
  grant_id = 71;
  acknowledgements = (true, true);
  completion = some 81;
}

abbrev shown : Db Json → Result (Option Record)
shown = read codec scope

-- What a run of the journal computes with.
journal_code : Unit {0}
unfolding run attempt perform decide decide_first decide_on acknowledge complete save read
    check_scope read_row is_history first_record position validate_request check_prepared verify
    trusted_key validate_claims check_claims has_purpose has_scope in_window is_reserved split
    three_parts signed_part decode select_key validate_profile step new validate_plan
    validate_baseline extends is_blank checked_add
journal_code = tt

empty_shown : shown empty_journal ≡ ok none
unfolding read check_scope read_row
empty_shown = refl

final_shown :
    shown (run codec scope jws parse_claims empty_journal calls) ≡ ok (some completed_record)
unfolding journal_code
final_shown = refl

run-Explained_example : Explained codec scope jws parse_claims (λ x. Memᴰ x calls) completed_record
run-Explained_example =
    run-Explained codec scope jws parse_claims codec-IsFaithful empty_journal calls completed_record
      empty_shown final_shown

abbrev decided_journal : Db Json
decided_journal =
    run codec scope jws parse_claims empty_journal (deciding request token policy ∷ [])

decided_shown : shown decided_journal ≡ ok (some (first_record request token 71))
unfolding journal_code
decided_shown = refl

run-Later_example :
    (s : Record) × (shown (run codec scope jws parse_claims decided_journal calls) ≡ ok (some s))
    × Later (first_record request token 71) s
run-Later_example =
    run-Later codec scope jws parse_claims codec-IsFaithful decided_journal calls
      (first_record request token 71) decided_shown

deciding_performed :
    perform codec scope jws parse_claims (deciding request token policy) empty_journal
    ≡ ok decided_journal
unfolding journal_code
deciding_performed = refl

perform-Move_example :
    Refines codec scope codec-IsFaithful jws parse_claims
      (deciding request token policy)
      none
      decided_journal
perform-Move_example =
    perform-Move codec scope codec-IsFaithful jws parse_claims (deciding request token policy)
      empty_journal decided_journal none empty_shown deciding_performed
