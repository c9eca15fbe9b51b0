-- ===== src/Pair/Protocol.antt =====
-- Commit of an operation on both copies, and the recovery that comes before it
-- (`recover` and `commit` of replication/fixed-pair/src/lib.rs). The loops run on fuel.
use terrapi_vault.Common.{
  ltb, leb, eqb, if◌then◌else◌, PartialEq, ◌==◌, bool_eq, option_eq, list_eq, string_eq, nat_eq,
  Result, err, ok, ok_or, length, at, ℕ, zero, suc, ◌+◌, ◌-◌, Bool, true, false, not, ◌&&◌, ◌||◌,
  Option, none, some, List, [], ◌∷◌,
}
use terrapi_vault.Pair.Model.{
  identity_eq, primary, secondary, role_beq, Batch, prepared, applied, state_beq, Entry, Checkpoint,
  checkpoint_eq, WriteResult, receipt_eq,
}
use terrapi_vault.Pair.Tables.{Adapter, max_page_entries, is_empty, base_sequence}
use terrapi_vault.Pair.Checkpoints.{current, checkpoint_at, confirm_checkpoint}
use terrapi_vault.Pair.Operations.{prepare, stage, decide, apply, abort, receipt, completed_result}
use terrapi_vault.Pair.Pages.{
  JournalHead, head_beq, Summary, journal_head, summary, validate_page, journal_page,
}
use terrapi_vault.Pair.Run.{
  Fault, Run, return, lift, on_primary, on_secondary, reading, writing, ◌>>=◌, ◌>>◌, require,
  finished,
}

abbrev pub minimum : ℕ → ℕ → ℕ
minimum a b = if leb a b then a else b

abbrev pub is_some : {A : Type 0} → Option A → Bool
is_some none = false
is_some (some _) = true

-- The check of one page of both journals: the entries agree, and the prefix that both have applied
-- grows.
unfoldable pub compare_entries : {C : Type 0} → (a b : List (Entry C)) → ℕ → Result ℕ
compare_entries (a ∷ a_rest) (b ∷ b_rest) applied_prefix =
    if a.digest == b.digest
    then compare_entries a_rest b_rest (
        if eqb applied_prefix (a.sequence - 1)
          && state_beq a.state applied
          && state_beq b.state applied
        then suc applied_prefix
        else applied_prefix)
    else err "divergent journals"
compare_entries _ _ applied_prefix = ok applied_prefix

-- The agreement of two summaries.
abbrev pub same_pair : Summary → Summary → Bool
same_pair ps ss =
    role_beq ps.role primary
    && role_beq ss.role secondary
    && (ps.membership == ss.membership)
    && (ps.head.identity == ss.head.identity)

abbrev pub durable : Summary → Bool
durable s = eqb s.synchronous 2 && (s.journal_mode == "wal") && not (is_empty s.cipher_version)

module _ {C V : Type 0} ⦃change_eq : PartialEq C⦄ (adapter : Adapter C V) (fault : ℕ → Fault) where
  unfoldable pub check_peer : Option ℕ → Run C V (Unit {0})
  check_peer none = return tt
  check_peer (some expected) = do
    member ← on_secondary fault (reading (λ n. n.profile.member_identity))
    require (member == some expected) "recovered replica identity mismatch"

  unfoldable pub check_primary_base : Option Checkpoint → Run C V (Unit {0})
  check_primary_base none = lift (err "missing primary base")
  check_primary_base (some base) = do
    at ← on_secondary fault (reading (λ n. checkpoint_at adapter n base.sequence))
    require (at == base) "primary base differs from secondary history"

  unfoldable pub check_secondary_base : ℕ → Option Checkpoint → Run C V (Unit {0})
  check_secondary_base length none = return tt
  check_secondary_base length (some base) = do
    require (leb base.sequence length) "secondary base differs from primary history"
    at ← on_primary fault (reading (λ n. checkpoint_at adapter n base.sequence))
    require (at == base) "secondary base differs from primary history"

  unfoldable pub check_bases : JournalHead → JournalHead → Run C V (Unit {0})
  check_bases p s =
      if is_some p.base
        && (not (is_some s.base) || ltb (base_sequence s.base) (base_sequence p.base))
      then check_primary_base p.base
      else check_secondary_base s.length s.base

  -- `while cursor < ss.head.length`
  unfoldable pub compare_journals :
      (ph sh : JournalHead) (fuel cursor applied_prefix : ℕ) → Run C V (Option ℕ)
  compare_journals ph sh zero cursor applied_prefix =
      return (if ltb cursor sh.length then none else some applied_prefix)
  compare_journals ph sh (suc fuel) cursor applied_prefix =
      if ltb cursor sh.length
      then (do
        let limit = minimum (sh.length - cursor) max_page_entries
        a ← on_primary fault (reading (λ n. journal_page adapter n ph cursor limit))
        b ← on_secondary fault (reading (λ n. journal_page adapter n sh cursor limit))
        lift (validate_page adapter a ph cursor limit)
        lift (validate_page adapter b sh cursor limit)
        next ← lift (compare_entries a.entries b.entries applied_prefix)
        compare_journals ph sh fuel (cursor + minimum (length a.entries) (length b.entries)) next)
      else return (some applied_prefix)

  unfoldable pub check_unchanged : (ph sh : JournalHead) → Run C V (Unit {0})
  check_unchanged ph sh = do
    head ← on_primary fault (reading (journal_head adapter))
    require (head_beq head ph) "journal changed during comparison"
    s ← on_secondary fault (reading (summary adapter))
    require (head_beq s.head sh) "journal changed during comparison"

  -- One entry above the applied prefix: an undecided one is taken back on both copies, the
  -- secondary first, and a decided one completed on both. The count of completed ones.
  unfoldable pub resolve : Entry C → ℕ → Run C V ℕ
  resolve e completed =
      if state_beq e.state prepared
      then (do
        on_secondary fault (writing (abort adapter e.batch.operation_id))
        on_primary fault (writing (abort adapter e.batch.operation_id))
        return completed)
      else (do
        on_secondary fault (writing (stage adapter e))
        on_secondary fault (writing (apply adapter e))
        on_primary fault (writing (apply adapter e))
        return (suc completed))

  -- `for e in page.entries`, with the cursor.
  unfoldable pub resolve_all : List (Entry C) → (cursor completed : ℕ) → Run C V (ℕ × ℕ)
  resolve_all [] cursor completed = return (cursor, completed)
  resolve_all (e ∷ entries) cursor completed = do
    count ← resolve e completed
    resolve_all entries e.sequence count

  -- `while cursor < ps.head.length`
  unfoldable pub resolve_journal : (target fuel cursor completed : ℕ) → Run C V (Option ℕ)
  resolve_journal target zero cursor completed =
      return (if ltb cursor target then none else some completed)
  resolve_journal target (suc fuel) cursor completed =
      if ltb cursor target
      then (do
        head ← on_primary fault (reading (journal_head adapter))
        page ← on_primary fault (reading (λ n. journal_page adapter n head cursor max_page_entries))
        (next, count) ← resolve_all page.entries cursor completed
        resolve_journal target fuel next count)
      else return (some completed)

  unfoldable pub recover : Run C V ℕ
  recover = do
    ps ← on_primary fault (reading (summary adapter))
    ss ← on_secondary fault (reading (summary adapter))
    require (ps.schema_contract == ss.schema_contract) "replica schema contract mismatch"
    require (same_pair ps ss) "pair mismatch"
    peer ← on_primary fault (reading (λ n. n.profile.recovery_peer))
    check_peer peer
    require (durable ps && durable ss) "durability profile mismatch"
    require (leb ss.head.length ps.head.length) "secondary ahead of primary journal"
    let pf = base_sequence ps.head.base
    let sf = base_sequence ss.head.base
    let cursor = if leb sf pf then pf else sf
    require (leb cursor ss.head.length) "secondary below active base; explicit snapshot required"
    check_bases ps.head ss.head
    prefix ← compare_journals ps.head ss.head ss.head.length cursor cursor
    applied_prefix ← finished prefix
    check_unchanged ps.head ss.head
    count ← resolve_journal ps.head.length ps.head.length applied_prefix 0
    completed ← finished count
    checkpoint ← on_primary fault (reading (λ n. current adapter n true))
    on_secondary fault (writing (confirm_checkpoint adapter checkpoint))
    return completed

  -- The commit of the entry that `prepare` gave.
  unfoldable pub commit_entry : Entry C → Run C V WriteResult
  commit_entry e = do
    on_secondary fault (writing (stage adapter e))
    decision ← on_primary fault (decide adapter e.batch.operation_id)
    on_secondary fault (writing (apply adapter decision))
    on_primary fault (writing (apply adapter decision))
    r ← on_primary fault (reading (λ n. receipt adapter n e.batch.operation_id))
    written ← lift (ok_or r "missing committed receipt")
    return written.result

  -- The commit after recovery, for an operation that has no result yet.
  unfoldable pub commit_new : Batch C → Run C V WriteResult
  commit_new batch = do e ← on_primary fault (prepare adapter batch); commit_entry e

  abbrev pub commit_as : Batch C → Option WriteResult → Run C V WriteResult
  commit_as batch none = commit_new batch
  commit_as batch (some result) = return result

  unfoldable pub commit : Batch C → Run C V WriteResult
  commit batch = do
    recover
    result ← on_primary fault (reading (λ n. completed_result adapter n batch))
    commit_as batch result
