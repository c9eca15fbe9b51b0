-- ===== src/Recovery/Examples/Transitions.antt =====
-- The theorems about replication/recovery/src/transition.rs at a concrete journal.
use terrapi_vault.Recovery.Examples.Grants.{jws as grant_jws, token}
use terrapi_vault.Common.{
  bool_eq, option_eq, list_eq, string_eq, nat_eq, Result, err, ok, is_blank, neither, checked_add,
  ℕ, ◌≡◌, refl, ◌⊎◌, inl, inr, false, none, some, [], ◌∷◌, arith,
}
use terrapi_vault.Recovery.Model.{baseline_eq, plan_eq}
use terrapi_vault.Recovery.Jws.{
  Profile, profile_eq, validate_profile, split, three_parts, signed_part, decode, select_key,
}
use terrapi_vault.Recovery.Transition.{
  Checkpoint, checkpoint_eq, Participant, Request, MaintenanceAbort, JournalScope, valid_text,
  valid_checkpoint, valid_target, bad_base, invalid_request, validate_request, validate_abort,
}
use terrapi_vault.Recovery.Transition.Tokens.{
  Trust, Claims, Crates, Verified, token_type, abort_token_type, has_purpose, has_lifetime,
  request_digest, abort_digest, signed_payload, verify_common, verify_issuance, verify_historical,
  verify_abort, verify_abort_issuance, verify_abort_historical,
}
use terrapi_vault.Recovery.Transition.Store.{
  Record, Codec, Loss, Db, abort_in_scope, read_scope, format_two_state, ensure_journal_format,
  read_abort_table, read_aborts, mark_journal_format_two, save, save_abort,
}
use terrapi_vault.Recovery.Transition.Walk.{
  History, chain_to, next_revision, request_in_scope, chain, skip_aborts, rest_aborts, take_record,
  step_row, walk_rows, read_with_revision, read,
}
use terrapi_vault.Recovery.Transition.Walk.Gapless.{Gapless, read-Gapless}
use terrapi_vault.Recovery.Transition.Journal.{
  Committed, CommittedMaintenanceAbort, Policy, committed_abort, decide_next, decide_on, decide,
}
use terrapi_vault.Recovery.Transition.Windows.{
  Issued, verify_issuance-Issued, verify_historical-issuance,
}
use terrapi_vault.Recovery.Transition.Decided.{Decided, decide-Decided}
use terrapi_vault.Recovery.Transition.Closing.{
  next_target, abort_target, max_revision, abort_on, abort,
}
use terrapi_vault.Recovery.Transition.Cancelled.{Cancelled, abort-Cancelled}

abbrev anchor : Checkpoint
anchor = record { sequence = 10; digest = 3 }

abbrev primary : Participant
primary = record {
  member = 21;
  generation = 31;
  old_base = none;
  target = record { sequence = 20; digest = 4 };
  plan = 41;
  publication = 51;
}

abbrev secondary : Participant
secondary = record {
  member = 22;
  generation = 32;
  old_base = none;
  target = record { sequence = 20; digest = 4 };
  plan = 41;
  publication = 52;
}

abbrev compaction : Request
compaction = record {
  format = 1;
  id = 61;
  authority_id = 62;
  revision = 5;
  install = "i1";
  region = "r1";
  scope = 63;
  schema = 64;
  membership = 65;
  source_anchor = anchor;
  participants = (primary, secondary);
}

abbrev profile : Profile
profile = record { issuer = "vesta"; audience = "pair"; token_type = token_type }

abbrev trust : Trust
trust = record { profile = profile; keys = ("k1", 7 ∷ []) ∷ []; max_lifetime = 300 }

abbrev journal_scope : JournalScope
journal_scope = record {
  install = "i1";
  region = "r1";
  profile = profile;
  scope = 63;
  schema = 64;
  membership = 65;
  source_anchor = anchor;
  authority_id = 62;
  initial_revision = 5;
}

abbrev claims : Claims Request
claims = record {
  version = 1;
  iss = "vesta";
  aud = "pair";
  action = "compact_pair";
  certificate_id = 71;
  iat = 900;
  nbf = 950;
  exp = 1100;
  request = compaction;
  request_digest = 81;
}

abbrev crates : Crates
crates = record {
  jws = record grant_jws {
    parse_header = λ b. some (record { alg = "ES256"; kid = "k1"; typ = token_type });
  };
  parse_claims = λ b. some claims;
  parse_abort_claims = λ b. none;
  request_sha256 = λ q. 81;
  abort_sha256 = λ a. 82;
  token_sha256 = λ t. 83;
}

abbrev evidence : Verified
evidence = record { request = compaction; certificate_id = 71; token_digest = 83 }

issued_now : verify_issuance crates trust token compaction 1000 ≡ ok evidence
unfolding verify_issuance verify_common signed_payload request_digest has_purpose has_lifetime
    validate_request invalid_request valid_text valid_checkpoint valid_target bad_base
    validate_profile is_blank split three_parts signed_part decode select_key
issued_now = refl

verify_issuance-Issued_example : Issued crates trust token compaction 1000 evidence
verify_issuance-Issued_example =
    verify_issuance-Issued crates trust token compaction 1000 evidence issued_now

verify_historical-issuance_example : verify_historical crates trust token compaction ≡ ok evidence
verify_historical-issuance_example =
    verify_historical-issuance crates trust token compaction 1000 evidence issued_now

-- A text is the value that it was written from.
abbrev Json : Type 0
Json = Record ⊎ JournalScope

abbrev parse_scope_text : Json → Result JournalScope
parse_scope_text (inl r) = err "json"
parse_scope_text (inr s) = ok s

abbrev parse_record_text : Json → Result Record
parse_record_text (inl r) = ok r
parse_record_text (inr s) = err "json"

abbrev codec : Codec Json
codec = record {
  json_len = λ t. 900;
  json_chars = λ t. 900;
  json_sha256 = λ t. 5;
  write_scope = inr;
  parse_object = λ t. ok (none, t);
  parse_scope = parse_scope_text;
  with_marker = λ t. t;
  write_record = inl;
  parse_record = parse_record_text;
  write_abort = λ r. inr journal_scope;
  parse_abort = λ t. err "json";
}

abbrev no_loss : Loss ℕ
no_loss = record {
  validate_successor_parent = λ l t s. ok tt;
  successor_parent_exists = λ l. ok false;
  loss_record_exists = λ l t. ok false;
  format_two_rows = λ l. false;
}

abbrev agreeing : Policy
agreeing = record {
  continuity = λ m s q. ok tt;
  prepared = λ s q p. ok tt;
  applied = λ s d p. ok tt;
  historical_completion = λ s a b. ok tt;
  abort_applicable = λ s a. ok tt;
}

abbrev empty_db : Db Json ℕ
empty_db = record {
  scope_row = inr journal_scope;
  head_revision = 4;
  history = [];
  aborts = none;
  loss = 0;
}

abbrev decided_record : Record
decided_record = record {
  request = compaction;
  token = token;
  acknowledgements = neither;
  completion = none;
}

abbrev decided_db : Db Json ℕ
decided_db = record {
  scope_row = inr journal_scope;
  head_revision = 5;
  history = (5, (inl decided_record, 5)) ∷ [];
  aborts = none;
  loss = 0;
}

abbrev handle : Committed
handle = record {
  request = compaction;
  token = token;
  token_digest = 83;
  certificate_id = 71;
  acknowledgements = neither;
  completion = none;
}

decided_now :
    decide codec no_loss crates journal_scope trust compaction token 1000 agreeing empty_db
    ≡ ok (decided_db, handle)
unfolding decide decide_on decide_next save read read_with_revision read_aborts read_abort_table
    ensure_journal_format read_scope format_two_state walk_rows rest_aborts chain chain_to
    next_revision request_in_scope verify_issuance verify_common signed_payload request_digest
    has_purpose has_lifetime validate_request invalid_request valid_text valid_checkpoint
    valid_target bad_base validate_profile is_blank split three_parts signed_part decode select_key
decided_now = refl

decide-Decided_example :
    Decided codec no_loss crates journal_scope trust compaction token 1000 agreeing empty_db
      decided_db
decide-Decided_example =
    decide-Decided codec no_loss crates journal_scope trust compaction token 1000 agreeing empty_db
      decided_db handle decided_now

abbrev decided_history : History
decided_history = record {
  head = some decided_record;
  completed = none;
  ids = 61 ∷ [];
  aborts = [];
  consumed = some 5;
  last_revision = 5;
}

decided_read : read codec no_loss crates journal_scope trust decided_db ≡ ok decided_history
unfolding read read_with_revision read_aborts read_abort_table ensure_journal_format read_scope
    format_two_state walk_rows step_row skip_aborts take_record rest_aborts chain chain_to
    next_revision checked_add request_in_scope verify_historical verify_common signed_payload
    request_digest has_purpose has_lifetime validate_request invalid_request valid_text
    valid_checkpoint valid_target bad_base validate_profile is_blank split three_parts signed_part
    decode select_key
decided_read = refl

read-Gapless_example : Gapless codec no_loss crates journal_scope trust decided_db decided_history
read-Gapless_example =
    read-Gapless codec no_loss crates journal_scope trust decided_db decided_history (omega arith)
      decided_read

-- The attempt at the next revision, never decided, is cancelled.
abbrev cancellation : MaintenanceAbort
cancellation = record {
  format = 2;
  id = 91;
  authority_id = 62;
  revision = 5;
  install = "i1";
  region = "r1";
  scope = 63;
  schema = 64;
  membership = 65;
  aborted_request = 81;
  aborted_request_id = 61;
  aborted_revision = 5;
  decided = false;
  source_anchor = anchor;
}

abbrev abort_claims : Claims MaintenanceAbort
abort_claims = record {
  version = 1;
  iss = "vesta";
  aud = "pair";
  action = "abort_compact_pair";
  certificate_id = 92;
  iat = 900;
  nbf = 950;
  exp = 1100;
  request = cancellation;
  request_digest = 82;
}

abbrev abort_crates : Crates
abort_crates = record crates {
  jws = record grant_jws {
    parse_header = λ b. some (record { alg = "ES256"; kid = "k1"; typ = abort_token_type });
  };
  parse_abort_claims = λ b. some abort_claims;
}

abbrev cancelled_db : Db Json ℕ
cancelled_db = record {
  scope_row = inr journal_scope;
  head_revision = 5;
  history = [];
  aborts = some ((5, (inr journal_scope, 5)) ∷ []);
  loss = 0;
}

abbrev cancelled_handle : CommittedMaintenanceAbort
cancelled_handle = record {
  abort = cancellation;
  token = token;
  token_digest = 83;
  certificate_id = 92;
}

cancelled_now :
    abort codec no_loss abort_crates journal_scope trust cancellation token 1000 agreeing empty_db
    ≡ ok (cancelled_db, cancelled_handle)
unfolding abort abort_on abort_target next_target max_revision abort_in_scope committed_abort
    save_abort mark_journal_format_two read read_with_revision read_aborts read_abort_table
    ensure_journal_format read_scope format_two_state walk_rows rest_aborts checked_add
    verify_abort_issuance verify_abort_historical verify_abort signed_payload abort_digest
    has_purpose has_lifetime validate_abort valid_text valid_checkpoint validate_profile is_blank
    split three_parts signed_part decode select_key
cancelled_now = refl

abort-Cancelled_example :
    Cancelled codec no_loss abort_crates journal_scope trust cancellation token 1000 agreeing
      empty_db cancelled_db
abort-Cancelled_example =
    abort-Cancelled codec no_loss abort_crates journal_scope trust cancellation token 1000 agreeing
      empty_db cancelled_db cancelled_handle cancelled_now
