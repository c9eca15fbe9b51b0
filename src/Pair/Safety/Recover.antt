-- ===== src/Pair/Safety/Recover.antt =====
-- Recovery and commit as a whole (`recover` and `commit` of replication/fixed-pair/src/lib.rs).
use terrapi_vault.Common.{
  ltb, leb, if◌then◌else◌, if-cases, PartialEq, ◌==◌, bool_eq, option_eq, list_eq, string_eq,
  nat_eq, Result, err, ok, ensure, bind-eq-ok, ensure-eq-ok, check-eq-ok, ok_injective, at, ℕ, zero,
  suc, ◌+◌, ◌-◌, ◌≡◌, refl, subst, true, not, ◌&&◌, ◌||◌, Option, none, some, List, arith,
}
use terrapi_vault.Common.Lists.{length}
use terrapi_vault.Pair.Model.{
  Identity, identity_eq, secondary, role_beq, prepared, decided, Entry, Checkpoint, checkpoint_eq,
  OperationReceipt, receipt_eq,
}
use terrapi_vault.Pair.Tables.{Adapter, Node, max_page_entries, base_sequence}
use terrapi_vault.Pair.Checkpoints.{current, checkpoint_at, confirm_checkpoint}
use terrapi_vault.Pair.Operations.{with_state}
use terrapi_vault.Pair.Run.{
  Fault, Run, return, lift, on_primary, on_secondary, reading, writing, ◌>>=◌, ◌>>◌, finished,
}
use terrapi_vault.Pair.Protocol.{
  minimum, is_some, compare_entries, same_pair, durable, check_peer, check_primary_base,
  check_secondary_base, check_bases, compare_journals, check_unchanged, recover,
}
use terrapi_vault.Pair.Agreement.{Copy, Agreed, Paired, agreed, offered, staged, half_applied}
use terrapi_vault.Pair.Hoare.{
  Assertion, Triple, Sound, return-Triple, lift-Triple, weaken-Triple, bind-Triple,
}
use terrapi_vault.Pair.Safety.Calls.{
  read_primary-Triple, read_secondary-Triple, write_secondary-Triple,
}
use terrapi_vault.Pair.Pages.{
  JournalHead, head_beq, journal_head, summary, validate_page, journal_page,
}
use terrapi_vault.Pair.Safety.Rows.{current_open}
use terrapi_vault.Pair.Safety.Resolve.{Sound-Paired}
use terrapi_vault.Pair.Safety.Reconcile.{resolve_journal-Triple}

module _ {C V : Type 0} ⦃change_eq : PartialEq C⦄ (adapter : Adapter C V) (identity : Identity)
    (fault : ℕ → Fault) where
  -- A program that leaves paired copies paired.
  abbrev Keeps : {T : Type 0} → Run C V T → Type 0
  Keeps m = Triple adapter identity (Paired adapter identity) m (λ _. Paired adapter identity)

  read_primary-Keeps : {T : Type 0} (f : Node C V → Result T) → Keeps (on_primary fault (reading f))
  read_primary-Keeps f =
      weaken-Triple adapter identity (Paired adapter identity) _ _ (λ _. Paired adapter identity)
        (read_primary-Triple adapter identity fault (Paired adapter identity) f
          (Sound-Paired adapter identity fault))
        (λ t p s h. h.1)

  read_secondary-Keeps :
      {T : Type 0} (f : Node C V → Result T) → Keeps (on_secondary fault (reading f))
  read_secondary-Keeps f =
      weaken-Triple adapter identity (Paired adapter identity) _ _ (λ _. Paired adapter identity)
        (read_secondary-Triple adapter identity fault (Paired adapter identity) f
          (Sound-Paired adapter identity fault))
        (λ t p s h. h.1)

  lift-Keeps : {T : Type 0} (r : Result T) → Keeps (lift r)
  lift-Keeps r =
      weaken-Triple adapter identity (Paired adapter identity) _ _ (λ _. Paired adapter identity)
        (lift-Triple adapter identity (Paired adapter identity) r
          (Sound-Paired adapter identity fault))
        (λ t p s h. h.1)

  return-Keeps : {T : Type 0} (t : T) → Keeps (return t)
  return-Keeps t =
      weaken-Triple adapter identity (Paired adapter identity) _ _ (λ _. Paired adapter identity)
        (return-Triple adapter identity (Paired adapter identity) t
          (Sound-Paired adapter identity fault))
        (λ u p s h. h.1)

  finished-Keeps : {T : Type 0} (o : Option T) → Keeps (finished o)
  finished-Keeps none = lift-Keeps (err "out of fuel")
  finished-Keeps (some t) = return-Keeps t

  check_peer-Keeps : (o : Option ℕ) → Keeps (check_peer adapter fault o)
  unfolding check_peer
  check_peer-Keeps none = return-Keeps tt
  check_peer-Keeps (some expected) =
      bind-Triple adapter identity (read_secondary-Keeps (λ n. n.profile.member_identity))
        (λ member.
          lift-Keeps (ensure (member == some expected) "recovered replica identity mismatch"))

  check_bases-Keeps : (p s : JournalHead) → Keeps (check_bases adapter fault p s)
  unfolding check_bases check_primary_base check_secondary_base
  check_bases-Keeps p s =
      if-cases (λ (m : Run C V (Unit {0})). Keeps m)
        (is_some p.base
          && (not (is_some s.base) || ltb (base_sequence s.base) (base_sequence p.base)))
        (λ _. primary_base p.base) (λ _. secondary_base s.length s.base)
    where
      primary_base : (o : Option Checkpoint) → Keeps (check_primary_base adapter fault o)
      primary_base none = lift-Keeps (err "missing primary base")
      primary_base (some base) =
          bind-Triple adapter identity
            (read_secondary-Keeps (λ n. checkpoint_at adapter n base.sequence))
            (λ at. lift-Keeps (ensure (at == base) "primary base differs from secondary history"))

      secondary_base :
          (length : ℕ) (o : Option Checkpoint) → Keeps (check_secondary_base adapter fault length o)
      secondary_base length none = return-Keeps tt
      secondary_base length (some base) =
          bind-Triple adapter identity
            (lift-Keeps
              (ensure (leb base.sequence length) "secondary base differs from primary history"))
            (λ _.
              bind-Triple adapter identity
                (read_primary-Keeps (λ n. checkpoint_at adapter n base.sequence))
                (λ at.
                  lift-Keeps (ensure (at == base) "secondary base differs from primary history")))

  compare_journals-Keeps :
      (ph sh : JournalHead) (fuel cursor applied_prefix : ℕ)
      → Keeps (compare_journals adapter fault ph sh fuel cursor applied_prefix)
  unfolding compare_journals
  compare_journals-Keeps ph sh zero cursor applied_prefix =
      return-Keeps (if ltb cursor sh.length then none else some applied_prefix)
  compare_journals-Keeps ph sh (suc fuel) cursor applied_prefix =
      let limit = minimum (sh.length - cursor) max_page_entries in
      if-cases (λ (m : Run C V (Option ℕ)). Keeps m) (ltb cursor sh.length)
        (λ _.
          bind-Triple adapter identity
            (read_primary-Keeps (λ n. journal_page adapter n ph cursor limit))
            (λ a.
              bind-Triple adapter identity
                (read_secondary-Keeps (λ n. journal_page adapter n sh cursor limit))
                (λ b.
                  bind-Triple adapter identity
                    (lift-Keeps (validate_page adapter a ph cursor limit))
                    (λ _.
                      bind-Triple adapter identity
                        (lift-Keeps (validate_page adapter b sh cursor limit))
                        (λ _.
                          bind-Triple adapter identity
                            (lift-Keeps (compare_entries a.entries b.entries applied_prefix))
                            (λ next.
                              compare_journals-Keeps ph sh fuel
                                (cursor + minimum (length a.entries) (length b.entries)) next))))))
        (λ _. return-Keeps (some applied_prefix))

  check_unchanged-Keeps : (ph sh : JournalHead) → Keeps (check_unchanged adapter fault ph sh)
  unfolding check_unchanged
  check_unchanged-Keeps ph sh =
      bind-Triple adapter identity (read_primary-Keeps (journal_head adapter)) (λ head.
        bind-Triple adapter identity
          (lift-Keeps (ensure (head_beq head ph) "journal changed during comparison"))
          (λ _.
            bind-Triple adapter identity (read_secondary-Keeps (summary adapter))
              (λ s. lift-Keeps (ensure (head_beq s.head sh) "journal changed during comparison"))))

  -- Both copies hold the same applied history and nothing else.
  abbrev pub Settled : Assertion adapter identity
  Settled p s =
      (log : List (Entry C)) × (view : V) × (receipts : List OperationReceipt) × Agreed adapter
        identity log view receipts p s

  Sound-Settled : Sound adapter identity Settled
  Sound-Settled p s (log, view, receipts, h) = agreed log view receipts h

  -- A primary that gives a quiescent checkpoint has nothing open.
  current-Settled :
      (p s : Node C V) (checkpoint : Checkpoint)
      → Paired adapter identity p s
      → current adapter p true ≡ ok checkpoint
      → Settled p s
  current-Settled p s checkpoint (agreed log view receipts h) r = (log, view, receipts, h)
  current-Settled p s checkpoint (offered log view receipts e h) r = absurd (
      current_open adapter identity (with_state adapter prepared e) p checkpoint h.here refl
        h.pending.bounded (let n = h.pending.numbered in ground arith) r)
  current-Settled p s checkpoint (staged log view receipts at e h) r = absurd (
      current_open adapter identity (with_state adapter at e) p checkpoint h.here h.open_state
        h.pending.bounded (let n = h.pending.numbered in ground arith) r)
  current-Settled p s checkpoint (half_applied log view receipts e next h) r = absurd (
      current_open adapter identity (with_state adapter decided e) p checkpoint h.here refl
        h.pending.bounded (let n = h.pending.numbered in ground arith) r)

  confirm_lem :
      (checkpoint : Checkpoint) (p s s' : Node C V)
      → Settled p s
      → confirm_checkpoint adapter checkpoint s ≡ ok s'
      → Settled p s'
  unfolding confirm_checkpoint
  confirm_lem checkpoint p s s' (log, view, receipts, h) r =
      let (_, r1) =
        ensure-eq-ok (role_beq s.role secondary && (checkpoint.identity == s.identity)) _ _ r in
      let (_, r2) = check-eq-ok s.profile.staging_idle _ r1 in
      let (actual, _, r3) = bind-eq-ok (current adapter s true) _ r2 in
      let (_, r4) = ensure-eq-ok (actual == checkpoint) _ _ r3 in
      let c = h.there in
      (
        log,
        view,
        receipts,
        record {
          history = h.history;
          here = h.here;
          there =
              subst (Copy adapter identity secondary log view receipts) (ok_injective _ s' r4)
                record {
                  plays = c.plays;
                  serves = c.serves;
                  baseless = c.baseless;
                  logs = c.logs;
                  views = c.views;
                  keeps = c.keeps;
                };
        },
      )

  -- The end of recovery: equal checkpoints.
  confirm-Triple :
      (completed : ℕ)
      → Triple adapter identity
          (Paired adapter identity)
          (on_primary fault (reading (λ n. current adapter n true)) >>= λ checkpoint.
            on_secondary fault (writing (confirm_checkpoint adapter checkpoint))
            >> return completed)
          (λ _. Settled)
  confirm-Triple completed =
      bind-Triple adapter identity
        (weaken-Triple adapter identity (Paired adapter identity) _ _ (λ _. Settled)
          (read_primary-Triple adapter identity fault (Paired adapter identity)
            (λ n. current adapter n true) (Sound-Paired adapter identity fault))
          (λ checkpoint p s h. current-Settled p s checkpoint h.1 h.0))
        (λ checkpoint.
          bind-Triple adapter identity
            (write_secondary-Triple adapter identity fault Settled Settled
              (confirm_checkpoint adapter checkpoint) Sound-Settled Sound-Settled
              (λ p s s' h r. confirm_lem checkpoint p s s' h r))
            (λ _.
              weaken-Triple adapter identity Settled _ _ (λ _. Settled)
                (return-Triple adapter identity Settled completed Sound-Settled) (λ u p s h. h.1)))

  pub recover-Triple :
      Triple adapter identity (Paired adapter identity) (recover adapter fault) (λ _. Settled)
  unfolding recover
  recover-Triple = bind-Triple adapter identity (read_primary-Keeps (summary adapter)) (λ ps.
      bind-Triple adapter identity (read_secondary-Keeps (summary adapter)) (λ ss.
        bind-Triple adapter identity
          (lift-Keeps
            (ensure (ps.schema_contract == ss.schema_contract) "replica schema contract mismatch"))
          (λ _.
            bind-Triple adapter identity (lift-Keeps (ensure (same_pair ps ss) "pair mismatch"))
              (λ _.
                bind-Triple adapter identity (read_primary-Keeps (λ n. n.profile.recovery_peer))
                  (λ peer. bind-Triple adapter identity (check_peer-Keeps peer) (λ _.
                    bind-Triple adapter identity
                      (lift-Keeps (ensure (durable ps && durable ss) "durability profile mismatch"))
                      (λ _.
                        bind-Triple adapter identity
                          (lift-Keeps (
                            ensure (leb ss.head.length ps.head.length)
                              "secondary ahead of primary journal"))
                          (λ _.
                            let pf = base_sequence ps.head.base in
                            let sf = base_sequence ss.head.base in
                            let cursor = if leb sf pf then pf else sf in
                            bind-Triple adapter identity
                              (lift-Keeps (
                                ensure (leb cursor ss.head.length)
                                  "secondary below active base; explicit snapshot required"))
                              (λ _.
                                bind-Triple adapter identity (check_bases-Keeps ps.head ss.head)
                                  (λ _.
                                    bind-Triple adapter identity
                                      (compare_journals-Keeps ps.head ss.head ss.head.length cursor
                                        cursor)
                                      (λ prefix.
                                        bind-Triple adapter identity (finished-Keeps prefix)
                                          (λ applied_prefix.
                                            bind-Triple adapter identity
                                              (check_unchanged-Keeps ps.head ss.head)
                                              (λ _.
                                                bind-Triple adapter identity
                                                  (resolve_journal-Triple adapter identity fault
                                                    ps.head.length ps.head.length applied_prefix 0)
                                                  (λ count.
                                                    bind-Triple adapter identity
                                                      (finished-Keeps count)
                                                      (λ completed.
                                                        confirm-Triple completed)))))))))))))))
