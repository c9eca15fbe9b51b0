-- ===== src/Recovery/Transition/Walk.antt =====
-- The walk over the whole transition journal, `read_with_revision`
-- (replication/recovery/src/transition.rs).
pub mod Consumed
pub mod Gapless
use terrapi_vault.Common.{
  ltb, leb, eqb, if◌then◌else◌, ◌==◌, option_beq, option_eq, string_eq, nat_eq, Result, ok, ensure,
  ok_or, ◌>>=◌, ◌>>◌, both, checked_add, ℕ, ◌-◌, Bool, true, false, not, ◌&&◌, Option, none, some,
  List, [], ◌∷◌,
}
use terrapi_vault.Recovery.Model.{Id256, decided, install, member}
use terrapi_vault.Recovery.Jws.{profile_beq}
use terrapi_vault.Recovery.Transition.{
  checkpoint_eq, Participant, Request, MaintenanceAbort, JournalScope, is_zero,
}
use terrapi_vault.Recovery.Transition.Tokens.{Trust, Crates, request_digest, verify_historical}
use terrapi_vault.Recovery.Transition.Store.{
  Record, AbortRecord, Codec, Loss, Row, Db, max_record, has_id, ensure_journal_format, read_aborts,
}

pub record History : Type 0 where
  pub head : Option Record
  pub completed : Option Record
  pub ids : List Id256
  pub aborts : List (ℕ × AbortRecord)
  pub consumed : Option ℕ
  pub last_revision : ℕ

-- The variables of the walk.
pub record Walk : Type 0 where
  pub pending : List (ℕ × AbortRecord)
  pub effective : Option Record
  pub completed : Option Record
  pub consumed : Option ℕ
  pub selected : Option Record
  pub ids : List Id256

-- `record.completion.is_none_or(..)`
abbrev pub completion_fits : Record → Option Id256 → Bool
completion_fits r none = true
completion_fits r (some id) = not (is_zero id) && both r.acknowledgements

abbrev pub is_completed : Record → Bool
is_completed r = elim r.completion [ none ↦ false | some _ ↦ true ]

-- `effective.is_none_or(|r| r.completion.is_some())`
abbrev pub none_open : Option Record → Bool
none_open none = true
none_open (some r) = is_completed r

-- `m.old_base.as_ref() == Some(&p.request.participants[0].target)` for both members
unfoldable pub chains_to : Request → Request → Bool
chains_to q p =
    (q.participants.0.old_base == some p.participants.0.target)
    && (q.participants.1.old_base == some p.participants.0.target)

abbrev pub same_member : Participant → Participant → Bool
same_member a b = eqb a.member b.member && eqb a.generation b.generation

unfoldable pub same_members : Request → Request → Bool
same_members q p =
    same_member q.participants.0 p.participants.0 && same_member q.participants.1 p.participants.1

unfoldable pub chain_to : Option Record → Request → (expected : ℕ) → Result (Unit {0})
unfolding chains_to same_members
chain_to none q expected = ensure (eqb q.revision expected) "initial transition revision mismatch"
chain_to (some p) q expected = do
  ensure (is_completed p && eqb q.revision expected && chains_to q p.request)
      "transition chain mismatch"
  ensure (not (eqb q.id p.request.id) && same_members q p.request)
      "transition membership history mismatch"

module _ (scope : JournalScope) where
  -- The next free revision.
  unfoldable pub next_revision : Option ℕ → Result ℕ
  next_revision none = ok scope.initial_revision
  next_revision (some r) = ok_or (checked_add r 1) "transition revision overflow"

  -- `undecided_abort`
  unfoldable pub undecided_abort : AbortRecord → Option ℕ → Option Record → Result (Unit {0})
  unfolding next_revision
  undecided_abort r consumed effective = do
    expected ← next_revision consumed
    ensure (not r.abort.decided && eqb r.abort.aborted_revision expected)
        "transition abort sequencing"
    ensure (none_open effective) "decided transition must be aborted first"

  unfoldable pub request_in_scope : Request → Bool
  request_in_scope q =
      (q.install == scope.install)
      && (q.region == scope.region)
      && eqb q.scope scope.scope
      && eqb q.schema scope.schema
      && eqb q.membership scope.membership
      && (q.source_anchor == scope.source_anchor)
      && eqb q.authority_id scope.authority_id

  -- `chain`
  unfoldable pub chain : Option Record → Option ℕ → Request → Result (Unit {0})
  unfolding request_in_scope next_revision chain_to
  chain effective previous_revision q = do
    ensure (request_in_scope q) "transition scope binding"
    expected ← next_revision previous_revision
    chain_to effective q expected

  -- The inner loop: the aborts below `revision` were never decided.
  unfoldable pub skip_aborts : ℕ → Walk → List (ℕ × AbortRecord) → Result Walk
  unfolding undecided_abort
  skip_aborts revision w [] = ok (record w { pending = [] })
  skip_aborts revision w ((a, r) ∷ pending) =
      if ltb a revision
      then (do
        undecided_abort r w.consumed w.effective
        skip_aborts revision (record w { consumed = some a }) pending)
      else ok (record w { pending = (a, r) ∷ pending })

  -- The loop after the rows: what is left was never decided.
  unfoldable pub rest_aborts : Walk → List (ℕ × AbortRecord) → Result Walk
  unfolding undecided_abort
  rest_aborts w [] = ok (record w { pending = [] })
  rest_aborts w ((a, r) ∷ pending) = do
    undecided_abort r w.consumed w.effective
    rest_aborts (record w { consumed = some a }) pending

module _ (crates : Crates) where
  -- `decided_abort`
  unfoldable pub decided_abort : Trust → MaintenanceAbort → Record → Result (Unit {0})
  decided_abort trust a r = do
    ensure
        (a.decided
          && not (is_completed r)
          && not (both r.acknowledgements)
          && eqb a.aborted_revision r.request.revision
          && eqb a.aborted_request_id r.request.id)
        "maintenance abort target mismatch"
    digest ← request_digest crates trust r.request
    ensure (eqb a.aborted_request digest) "maintenance abort target mismatch"

  -- A record becomes the effective head, unless an abort took its revision.
  unfoldable pub take_record : Trust → Record → Walk → List (ℕ × AbortRecord) → Result Walk
  unfolding decided_abort
  take_record trust r w [] =
      ok (record w {
        effective = some r;
        completed = if is_completed r then some r else w.completed;
      })
  take_record trust r w ((a, x) ∷ pending) =
      if eqb a r.request.revision
      then (do decided_abort trust x.abort r; ok (record w { pending = pending }))
      else ok (record w {
        effective = some r;
        completed = if is_completed r then some r else w.completed;
      })

module _ {J L : Type 0} (codec : Codec J) (loss : Loss L) (crates : Crates) (scope : JournalScope)
    (trust : Trust) where
  -- One round of the loop over the rows.
  unfoldable pub step_row : Option ℕ → Walk → Row J → Result Walk
  unfolding skip_aborts chain take_record
  step_row revision w₀ (rev, (json, digest)) = do
    w ← skip_aborts scope rev w₀ w₀.pending
    ensure (leb (codec.json_len json) max_record) "transition record limit"
    ensure (eqb digest (codec.json_sha256 json)) "transition record integrity"
    r ← codec.parse_record json
    ensure (completion_fits r r.completion) "invalid transition completion"
    ensure (eqb rev r.request.revision) "transition revision mismatch"
    verify_historical crates trust r.token r.request
    ensure (not (has_id r.request.id w.ids)) "duplicate transition request id"
    chain scope w.effective w.consumed r.request
    take_record crates trust r
        (record w {
          ids = r.request.id ∷ w.ids;
          selected = if option_beq revision (some r.request.revision) then some r else w.selected;
          consumed = some rev;
        })
        w.pending

  unfoldable pub walk_rows : Option ℕ → Walk → List (Row J) → Result Walk
  unfolding step_row
  walk_rows revision w [] = ok w
  walk_rows revision w (row ∷ rows) = do
    next ← step_row revision w row
    walk_rows revision next rows

  abbrev pub start : List (ℕ × AbortRecord) → Walk
  start aborts = record {
    pending = aborts;
    effective = none;
    completed = none;
    consumed = none;
    selected = none;
    ids = [];
  }

  abbrev pub last_of : Option ℕ → ℕ
  last_of none = scope.initial_revision - 1
  last_of (some r) = r

  -- `read_with_revision`
  unfoldable pub read_with_revision : Db J L → Option ℕ → Result (History × Option Record)
  unfolding walk_rows rest_aborts
  read_with_revision db revision = do
    ensure (profile_beq trust.profile scope.profile) "transition trust profile mismatch"
    loss.validate_successor_parent db.loss trust scope
    ensure_journal_format codec loss crates scope db
    aborts ← read_aborts codec loss crates scope trust db
    w₁ ← walk_rows revision (start aborts) db.history
    w ← rest_aborts scope w₁ w₁.pending
    ensure (eqb db.head_revision (last_of w.consumed)) "transition head mismatch"
    ok (
      record {
        head = w.effective;
        completed = w.completed;
        ids = w.ids;
        aborts = aborts;
        consumed = w.consumed;
        last_revision = last_of w.consumed;
      },
      w.selected,
    )

  -- `read`
  unfoldable pub read : Db J L → Result History
  unfolding read_with_revision
  read db = do found ← read_with_revision db none; ok found.0
