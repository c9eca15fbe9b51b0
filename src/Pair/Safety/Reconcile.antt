-- ===== src/Pair/Safety/Reconcile.antt =====
-- The loop of recovery over the pages of the journal (replication/fixed-pair/src/lib.rs).
use terrapi_vault.Common.{
  ltb, if◌then◌else◌, if-cases, PartialEq, bool_eq, option_eq, list_eq, string_eq, nat_eq, ok, at,
  ℕ, zero, suc, ◌≡◌, refl, sym, subst, inl, inr, Option, none, some, List, [], ◌∷◌,
}
use terrapi_vault.Common.Lists.{length, All}
use terrapi_vault.Pair.Model.{
  Identity, identity_eq, Role, primary, secondary, State, prepared, decided, applied, Entry,
  checkpoint_eq, OperationReceipt, receipt_eq,
}
use terrapi_vault.Pair.Tables.{Adapter, Node, max_page_entries}
use terrapi_vault.Pair.Operations.{with_state}
use terrapi_vault.Pair.Run.{Fault, World, Run, return}
use terrapi_vault.Pair.Protocol.{resolve, resolve_all, resolve_journal}
use terrapi_vault.Pair.Effects.{receipt_of}
use terrapi_vault.Pair.History.{Numbered, In, with_sequence-In}
use terrapi_vault.Pair.Agreement.{
  Pending, History, Copy, Agreed, Paired, agreed, offered, staged, half_applied, Numbered-History,
  applied-History,
}
use terrapi_vault.Pair.Hoare.{
  Assertion, After, Triple, Sound, return-Triple, weaken-Triple, bind-Triple,
}
use terrapi_vault.Pair.Safety.Calls.{read_primary-Triple, Sound-Agreed}
use terrapi_vault.Pair.Pages.{JournalHead, JournalPage, journal_head, journal_page}
use terrapi_vault.Pair.Safety.Rows.{Among, validate_rows-Among, journal_page-Copy}
use terrapi_vault.Pair.Safety.Resolve.{
  Sound-Paired, Knows, resolve_known-Triple, Standing, Sound-Standing, resolve_tip-Triple,
}

module _ {C V : Type 0} ⦃change_eq : PartialEq C⦄ (adapter : Adapter C V) (identity : Identity)
    (fault : ℕ → Fault) (log : List (Entry C)) (view : V) (receipts : List OperationReceipt) where
  -- An entry below the open one is known to both copies.
  Knows-Copy :
      (role : Role) (x e : Entry C) (v : V) (rs : List OperationReceipt) (n : Node C V)
      → Numbered log
      → x.sequence ≡ suc (length log)
      → In e log
      → Copy adapter identity role (x ∷ log) v rs n
      → Knows adapter identity fault e n
  Knows-Copy role x e v rs n h s m c =
      (role, x ∷ log, v, rs, c, with_sequence-In e (x ∷ log) (s, h) (inr m))

  Knows-base :
      (role : Role) (e : Entry C) (n : Node C V)
      → Numbered log
      → In e log
      → Copy adapter identity role log view receipts n
      → Knows adapter identity fault e n
  Knows-base role e n h m c = (role, log, view, receipts, c, with_sequence-In e log h m)

  known_below :
      (e x : Entry C) (at : State) (p s : Node C V)
      → In x log
      → Standing adapter identity fault log view receipts e at p s
      → Knows adapter identity fault x p × Knows adapter identity fault x s
  known_below e x at p s m (inl (_, h)) =
      let n = Numbered-History adapter identity log view receipts h.history in
      (
        Knows-Copy primary (with_state adapter prepared e) x view receipts p n h.pending.numbered m
            h.here,
        Knows-base secondary x s n m h.there,
      )
  known_below e x at p s m (inr (inl h)) =
      let n = Numbered-History adapter identity log view receipts h.history in
      (
        Knows-Copy primary (with_state adapter at e) x view receipts p n h.pending.numbered m
            h.here,
        Knows-Copy secondary (with_state adapter prepared e) x view receipts s n h.pending.numbered
            m h.there,
      )
  known_below e x at p s m (inr (inr (_, (next, h)))) =
      let n = Numbered-History adapter identity log view receipts h.history in
      (
        Knows-Copy primary (with_state adapter decided e) x view receipts p n h.pending.numbered m
            h.here,
        Knows-Copy secondary (with_state adapter applied e) x next (receipt_of adapter e ∷ receipts)
            s n h.pending.numbered m h.there,
      )

  history_of :
      (e : Entry C) (at : State) (p s : Node C V)
      → Standing adapter identity fault log view receipts e at p s
      → History adapter identity log view receipts × Pending adapter identity log e
  history_of e at p s (inl (_, h)) = (h.history, h.pending)
  history_of e at p s (inr (inl h)) = (h.history, h.pending)
  history_of e at p s (inr (inr (_, (_, h)))) = (h.history, h.pending)

  return-Paired :
      {T : Type 0} (P : Assertion adapter identity) (t : T)
      → Sound adapter identity P
      → Triple adapter identity P (return t) (λ _. Paired adapter identity)
  return-Paired P t sound =
      weaken-Triple adapter identity P (return t) (λ u p s. (u ≡ t) × P p s)
        (λ _. Paired adapter identity) (return-Triple adapter identity P t sound)
        (λ u p s h. sound p s h.1)

  resolve_all-Standing :
      (e : Entry C) (at : State) (rows : List (Entry C)) (cursor completed : ℕ)
      → History adapter identity log view receipts
      → Among log (with_state adapter at e) rows
      → Triple adapter identity
          (Standing adapter identity fault log view receipts e at)
          (resolve_all adapter fault rows cursor completed)
          (λ _. Paired adapter identity)
  unfolding resolve_all
  resolve_all-Standing e at [] cursor completed h m =
      return-Paired (Standing adapter identity fault log view receipts e at) (cursor, completed)
        (Sound-Standing adapter identity fault log view receipts e at)
  resolve_all-Standing e at (x ∷ rows) cursor completed h (inl (m, rest)) =
      bind-Triple adapter identity
        (resolve_known-Triple adapter identity fault
          (Standing adapter identity fault log view receipts e at) x completed
          (Sound-Standing adapter identity fault log view receipts e at)
          (λ p s k. known_below e x at p s m k)
          (applied-History adapter identity log view receipts x h m))
        (λ count. resolve_all-Standing e at rows x.sequence count h rest)
  resolve_all-Standing e at (x ∷ rows) cursor completed h (inr (same, last)) =
      let tip : Triple adapter identity (Standing adapter identity fault log view receipts e at)
          (resolve adapter fault x completed) (λ _. Paired adapter identity) =
        subst
          (λ y.
            Triple adapter identity (Standing adapter identity fault log view receipts e at)
              (resolve adapter fault y completed) (λ _. Paired adapter identity))
          (sym same) (resolve_tip-Triple adapter identity fault log view receipts e at completed) in
      bind-Triple adapter identity tip (λ count.
        subst
          (λ l.
            Triple adapter identity (Paired adapter identity)
              (resolve_all adapter fault l x.sequence count) (λ _. Paired adapter identity))
          (sym last)
          (return-Paired (Paired adapter identity) (x.sequence, count)
            (Sound-Paired adapter identity fault)))

  resolve_all-Agreed :
      (rows : List (Entry C)) (cursor completed : ℕ)
      → History adapter identity log view receipts
      → All (λ x. In x log) rows
      → Triple adapter identity
          (Agreed adapter identity log view receipts)
          (resolve_all adapter fault rows cursor completed)
          (λ _. Paired adapter identity)
  unfolding resolve_all
  resolve_all-Agreed [] cursor completed h m =
      return-Paired (Agreed adapter identity log view receipts) (cursor, completed)
        (Sound-Agreed adapter identity log view receipts)
  resolve_all-Agreed (x ∷ rows) cursor completed h (m, rest) =
      let n = Numbered-History adapter identity log view receipts h in
      bind-Triple adapter identity
        (resolve_known-Triple adapter identity fault (Agreed adapter identity log view receipts) x
          completed (Sound-Agreed adapter identity log view receipts)
          (λ p s k. (Knows-base primary x p n m k.here, Knows-base secondary x s n m k.there))
          (applied-History adapter identity log view receipts x h m))
        (λ count. resolve_all-Agreed rows x.sequence count h rest)

  -- The entries of a page that was read just now.
  resolve_page-Standing :
      (e : Entry C) (at : State) (head : JournalHead) (cursor completed : ℕ) (page : JournalPage C)
      → (w : World C V)
      → Standing adapter identity fault log view receipts e at w.first_copy w.second_copy
      → Copy adapter identity primary (with_state adapter at e ∷ log) view receipts w.first_copy
      → journal_page adapter w.first_copy head cursor max_page_entries ≡ ok page
      → After adapter identity
          (λ _. Paired adapter identity)
          (resolve_all adapter fault page.entries cursor completed w)
  resolve_page-Standing e at head cursor completed page w k c r =
      let (h, pending) = history_of e at w.first_copy w.second_copy k in
      let (inside, valid) =
        journal_page-Copy adapter identity w.first_copy head cursor max_page_entries page c r in
      let among =
        validate_rows-Among adapter head.identity log (with_state adapter at e) cursor 0
          page.entries (pending.numbered, Numbered-History adapter identity log view receipts h)
          inside valid in
      (resolve_all-Standing e at page.entries cursor completed h among).run_from w k

module _ {C V : Type 0} ⦃change_eq : PartialEq C⦄ (adapter : Adapter C V) (identity : Identity)
    (fault : ℕ → Fault) where
  resolve_page :
      (head : JournalHead) (cursor completed : ℕ) (page : JournalPage C) (w : World C V)
      → Paired adapter identity w.first_copy w.second_copy
      → journal_page adapter w.first_copy head cursor max_page_entries ≡ ok page
      → After adapter identity
          (λ _. Paired adapter identity)
          (resolve_all adapter fault page.entries cursor completed w)
  resolve_page head cursor completed page w (agreed log view receipts h) r =
      (resolve_all-Agreed adapter identity fault log view receipts page.entries cursor completed
          h.history
          (journal_page-Copy adapter identity w.first_copy head cursor max_page_entries page h.here
            r).0).run_from
        w h
  resolve_page head cursor completed page w (offered log view receipts e h) r =
      resolve_page-Standing adapter identity fault log view receipts e prepared head cursor
        completed page w (inl (refl, h)) h.here r
  resolve_page head cursor completed page w (staged log view receipts at e h) r =
      resolve_page-Standing adapter identity fault log view receipts e at head cursor completed page
        w (inr (inl h)) h.here r
  resolve_page head cursor completed page w (half_applied log view receipts e next h) r =
      resolve_page-Standing adapter identity fault log view receipts e decided head cursor completed
        page w (inr (inr (refl, (next, h)))) h.here r

  pub resolve_journal-Triple :
      (target fuel cursor completed : ℕ)
      → Triple adapter identity
          (Paired adapter identity)
          (resolve_journal adapter fault target fuel cursor completed)
          (λ _. Paired adapter identity)
  unfolding resolve_journal
  resolve_journal-Triple target zero cursor completed =
      weaken-Triple adapter identity (Paired adapter identity) _ _ (λ _. Paired adapter identity)
        (return-Triple adapter identity (Paired adapter identity)
          (if ltb cursor target then none else some completed)
          (Sound-Paired adapter identity fault))
        (λ u p s h. h.1)
  resolve_journal-Triple target (suc fuel) cursor completed =
      if-cases
        (λ (m : Run C V (Option ℕ)).
          Triple adapter identity (Paired adapter identity) m (λ _. Paired adapter identity))
        (ltb cursor target)
        (λ _.
          bind-Triple adapter identity
            (read_primary-Triple adapter identity fault (Paired adapter identity)
              (journal_head adapter) (Sound-Paired adapter identity fault))
            (λ head.
              bind-Triple adapter identity
                (read_primary-Triple adapter identity fault
                  (λ p s. (journal_head adapter p ≡ ok head) × Paired adapter identity p s)
                  (λ n. journal_page adapter n head cursor max_page_entries) (λ p s h. h.1))
                (λ page.
                  bind-Triple adapter identity {Q = λ _. Paired adapter identity}
                    (record {
                      run_from = λ w h. resolve_page head cursor completed page w h.1.1 h.0;
                    })
                    (λ done. resolve_journal-Triple target fuel done.0 done.1))))
        (λ _.
          weaken-Triple adapter identity (Paired adapter identity) (return (some completed)) _
            (λ _. Paired adapter identity)
            (return-Triple adapter identity (Paired adapter identity) (some completed)
              (Sound-Paired adapter identity fault))
            (λ u p s h. h.1))
