-- ===== src/Tasks/Batch.antt =====
-- Two schedulers that claim from the outbox.
use wbme.Common.{
  All, ℕ, Bool, true, false, not, ◌&&◌, ◌+◌, ◌*◌, ◌<◌, some, List, [], ◌∷◌, String, ◌≡◌, ◌≢◌, ◌≤◌,
  ◌⊎◌, refl, sym, ap, ◌∙◌, subst, inl, inr, arith, Distinct, Bool-cases, str_eq, eq_iff,
  if◌then◌else◌, any, keep_if, order_by, any_of_take, any-order_by, any_of_keep_if,
}
use wbme.Tasks.Types.{TaskType, Task, task_enqueue_lease_seconds}
use wbme.Tasks.Ops.{
  Table, load_task_by_uuid, is_candidate, candidates, is_listed, lease_row, lease_end,
  is_terminal_task_status, claim_outbox_batch, older,
}
use wbme.Tasks.Rows.{
  Op, queue, claim, renew, succeed, time_out, fail, cancel, release, insert, row_after, op_test,
  op_row, run, claim_batch, apply, load-apply, apply-Distinct, listed-is_candidate, load-uuid,
}

-- A batch that a claim returned holds the task.
abbrev pub holds : String → List Task → Bool
holds uuid = any (λ c. str_eq c.task_uuid uuid)

holds_of_listed :
    (uuid : String) (cs rows : List Task)
    → holds uuid (keep_if (is_listed cs) rows) ≡ true
    → holds uuid cs ≡ true
holds_of_listed uuid cs [] h = absurd (cc)
holds_of_listed uuid cs (r ∷ rows) h = elim (Bool-cases (is_listed cs r)) [
  | inr k ↦ holds_of_listed uuid cs rows (rw k at h)
  | inl k ↦ elim (Bool-cases (str_eq r.task_uuid uuid)) [
    | inl same ↦ subst (λ u. holds u cs ≡ true) ((eq_iff r.task_uuid uuid).0 same) k
    | inr other ↦ holds_of_listed uuid cs rows (ground arith)
  ]
]

load_of_holds :
    (uuid : String) (t : Table)
    → holds uuid t ≡ true
    → (r : Task) × (load_task_by_uuid uuid t ≡ some r)
unfolding load_task_by_uuid
load_of_holds uuid [] h = absurd (cc)
load_of_holds uuid (r ∷ t) h = elim (Bool-cases (str_eq r.task_uuid uuid)) [
  | inl k ↦ (r, rw k refl)
  | inr k ↦ let (s, e) = load_of_holds uuid t (rw k at h) in (s, rw k e)
]

holds_of_candidates :
    (locked : String → Bool) (replayable : TaskType → Bool) (now n : ℕ) (uuid : String) (t : Table)
    → holds uuid (candidates locked replayable now n t) ≡ true
    → holds uuid t ≡ true
holds_of_candidates locked replayable now n uuid t h =
    let test = λ (r : Task). is_candidate replayable now r && not (locked r.task_uuid) in
    any_of_keep_if (λ c. str_eq c.task_uuid uuid) test t
      (sym (any-order_by (λ c. str_eq c.task_uuid uuid) older (keep_if test t))
        ∙ any_of_take (λ c. str_eq c.task_uuid uuid) n (order_by older (keep_if test t)) h)

-- The task has ended, or its lease lasts until `until` at least.
abbrev IsLeased : ℕ → Task → Type 0
IsLeased until r =
    (is_terminal_task_status r.status ≡ true)
    ⊎ ((e : ℕ) × (r.lease_expires_at ≡ some e) × (until ≤ e))

-- A call that leaves the enqueue lease of the task alone: nobody queues or releases this task,
-- claims and renewals are not made before `now`, and batches are claimed before `until`.
abbrev pub KeepsLease : String → (now until : ℕ) → Op → Type 0
KeepsLease uuid now until (queue u owner) = u ≢ uuid
KeepsLease uuid now until (release u owner attempts text time) = u ≢ uuid
KeepsLease uuid now until (claim u owner time) = now ≤ time
KeepsLease uuid now until (renew u owner time) = now ≤ time
KeepsLease uuid now until (claim_batch locked owner replayable time n) = time < until
KeepsLease uuid now until _ = Unit

IsLeased-not_candidate :
    (replayable : TaskType → Bool) (until later : ℕ) (r : Task)
    → later < until
    → IsLeased until r
    → is_candidate replayable later r ≡ false
unfolding is_candidate is_terminal_task_status
IsLeased-not_candidate replayable until later r h (inl ended) = ground arith
IsLeased-not_candidate replayable until later r h (inr (e, same, lasts)) = ground arith

-- A leased task is in no batch.
not_listed :
    (locked : String → Bool) (owner : String) (replayable : TaskType → Bool) (until later n : ℕ)
    (uuid : String) (t : Table) (r : Task)
    → later < until
    → Distinct (λ s. s.task_uuid) t
    → load_task_by_uuid uuid t ≡ some r
    → IsLeased until r
    → is_listed (candidates locked replayable later n t) r ≡ false
not_listed locked owner replayable until later n uuid t r h d e leased =
    elim (Bool-cases (is_listed (candidates locked replayable later n t) r)) [
      | inl k ↦ absurd (
          ground (
            arith,
            listed-is_candidate locked replayable later n uuid t r d e k,
            IsLeased-not_candidate replayable until later r h leased,
          ))
      | inr k ↦ k
    ]

module _ (uuid : String) (now until : ℕ) where
  after_hit :
      (op : Op) (t : Table) (r : Task)
      → (op_test op t r ≡ true → IsLeased until (op_row op r))
      → IsLeased until r
      → IsLeased until (row_after op t r)
  after_hit op t r f g = elim (Bool-cases (op_test op t r)) [ inl k ↦ rw k (f k) | inr k ↦ rw k g ]

  other_task :
      (u : String) (t : Table) (r : Task)
      → load_task_by_uuid uuid t ≡ some r
      → u ≢ uuid
      → str_eq r.task_uuid u ≡ false
  other_task u t r e h = ground (arith, load-uuid uuid t r e, eq_iff r.task_uuid u)

  IsLeased-row_after :
      (op : Op) (t : Table) (r : Task)
      → until ≤ now + task_enqueue_lease_seconds * 1000
      → KeepsLease uuid now until op
      → Distinct (λ s. s.task_uuid) t
      → load_task_by_uuid uuid t ≡ some r
      → IsLeased until r
      → IsLeased until (row_after op t r)
  unfolding is_terminal_task_status
  IsLeased-row_after (queue u owner) t r w k d e g =
      after_hit (queue u owner) t r (λ h. absurd (ground (arith, other_task u t r e k))) g
  IsLeased-row_after (release u owner attempts text time) t r w k d e g =
      after_hit (release u owner attempts text time) t r
        (λ h. absurd (ground (arith, other_task u t r e k))) g
  IsLeased-row_after (claim u owner time) t r w k d e g =
      after_hit (claim u owner time) t r (λ h. inr (lease_end time, refl, omega arith)) g
  IsLeased-row_after (renew u owner time) t r w k d e g =
      after_hit (renew u owner time) t r (λ h. inr (lease_end time, refl, omega arith)) g
  IsLeased-row_after (succeed u owner time) t r w k d e g =
      after_hit (succeed u owner time) t r (λ h. inl refl) g
  IsLeased-row_after (time_out time) t r w k d e g = after_hit (time_out time) t r (λ h. inl refl) g
  IsLeased-row_after (fail u owner text time) t r w k d e g =
      after_hit (fail u owner text time) t r (λ h. inl refl) g
  IsLeased-row_after (cancel u owner time) t r w k d e g =
      after_hit (cancel u owner time) t r (λ h. inl refl) g
  IsLeased-row_after (claim_batch locked owner replayable time n) t r w k d e g =
      rw (not_listed locked owner replayable until time n uuid t r k d e g) g
  IsLeased-row_after (insert input time created) t r w k d e g = g

  -- The lease lasts through a history.
  IsLeased-run :
      (ops : List Op) (t : Table) (r : Task)
      → until ≤ now + task_enqueue_lease_seconds * 1000
      → All (KeepsLease uuid now until) ops
      → Distinct (λ s. s.task_uuid) t
      → load_task_by_uuid uuid t ≡ some r
      → IsLeased until r
      → (s : Task) × (load_task_by_uuid uuid (run ops t) ≡ some s)
        × IsLeased until s
        × Distinct (λ c. c.task_uuid) (run ops t)
  unfolding run
  IsLeased-run [] t r w k d e g = (r, e, g, d)
  IsLeased-run (op ∷ ops) t r w k d e g =
      IsLeased-run ops (apply op t) (row_after op t r) w k.1 (apply-Distinct op t d)
        (load-apply op uuid t r e) (IsLeased-row_after op t r w k.0 d e g)

  -- A task that is leased and not in the next batch.
  not_in_batch :
      (locked : String → Bool) (owner : String) (replayable : TaskType → Bool) (later n : ℕ)
      (t : Table) (r : Task)
      → later < until
      → Distinct (λ s. s.task_uuid) t
      → load_task_by_uuid uuid t ≡ some r
      → IsLeased until r
      → holds uuid (claim_outbox_batch locked owner replayable later n t).1 ≡ false
  unfolding claim_outbox_batch
  not_in_batch locked owner replayable later n t r h d e g =
      let cs = candidates locked replayable later n t in
      elim (Bool-cases (holds uuid (claim_outbox_batch locked owner replayable later n t).1)) [
        | inr k ↦ k
        | inl k ↦
            let listed : is_listed cs r ≡ true = rw (load-uuid uuid t r e) (
              holds_of_listed uuid cs (claim_outbox_batch locked owner replayable later n t).0 k) in
            absurd (cc (listed, not_listed locked owner replayable until later n uuid t r h d e g))
      ]

-- What one scheduler claimed at `now` is in no batch that is claimed less than the enqueue lease
-- (120 seconds) later, whatever else happens in between, as long as nobody marks the task as queued
-- or releases it, every batch in between is claimed before the lease ends, and no claim or renewal of
-- a worker has a clock behind `now`; in a table with distinct uuids.
pub claim_outbox_batch_disjoint :
    (locked locked' : String → Bool) (owner owner' : String)
    (replayable replayable' : TaskType → Bool) (now later until n n' : ℕ) (ops : List Op)
    (t : Table) (uuid : String)
    → Distinct (λ r. r.task_uuid) t
    → until ≤ now + task_enqueue_lease_seconds * 1000
    → later < until
    → All (KeepsLease uuid now until) ops
    → holds uuid (claim_outbox_batch locked owner replayable now n t).1 ≡ true
    → holds uuid
        (claim_outbox_batch locked' owner' replayable' later n'
          (run ops (claim_outbox_batch locked owner replayable now n t).0)).1
      ≡ false
unfolding claim_outbox_batch apply
claim_outbox_batch_disjoint locked locked' owner owner' replayable replayable' now later until n n'
      ops t uuid d w h k held =
    let op = claim_batch locked owner replayable now n in
    let cs = candidates locked replayable now n t in
    let first : holds uuid cs ≡ true = holds_of_listed uuid cs (apply op t) held in
    let (r, found) =
      load_of_holds uuid t (holds_of_candidates locked replayable now n uuid t first) in
    let named : r.task_uuid ≡ uuid = load-uuid uuid t r found in
    let listed : is_listed cs r ≡ true = rw named first in
    let moved : load_task_by_uuid uuid (apply op t) ≡ some (lease_row owner now r) =
      load-apply op uuid t r found
      ∙ ap (λ b. some (if b then lease_row owner now r else r)) listed in
    let (s, es, g, d') =
      IsLeased-run uuid now until ops (apply op t) (lease_row owner now r) w k
        (apply-Distinct op t d) moved (inr (_, refl, w)) in
    not_in_batch uuid now until locked' owner' replayable' later n' (run ops (apply op t)) s h d' es
      g
