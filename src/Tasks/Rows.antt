-- ===== src/Tasks/Rows.antt =====
-- Histories: any sequence of the table's operations, by any processes. What an operation does to
-- the row of one task.
use wbme.Common.{
  ℕ, Bool, true, false, not, ◌&&◌, Option, none, some, List, [], ◌∷◌, ◌++◌, String, ◌≡◌, refl, sym,
  ap, ◌∙◌, subst, ◌≢◌, ◌⊎◌, inl, inr, arith, if◌then◌else◌, str_eq, eq_iff, any, keep_if, order_by,
  update_where, All, Distinct, All-imp, All-append, All-take, All-order_by, All-keep_if_test,
  Distinct-update_where, Bool-cases, Option-cases,
}
use mathlib.Core.Option.{some-injective}
use wbme.Tasks.Types.{TaskType, Task, CreatePendingTaskInput}
use wbme.Tasks.Ops.{
  Table, load_task_by_uuid, mark_queued, queue_test, queue_row, claim_running, claim_test,
  claim_row, renew_running_lease, held_test, renew_row, fail_timed_out_tasks, timed_out_test,
  time_out_row, mark_succeeded, succeed_row, mark_failed, fail_row, mark_cancelled, cancel_test,
  cancel_row, release_enqueue_lease, enqueue_test, release_row, is_candidate, older, candidates,
  is_listed, lease_row, claim_outbox_batch, pending_task, insert_pending_task_sql,
}

pub load-uuid :
    (uuid : String) (t : Table) (r : Task) → load_task_by_uuid uuid t ≡ some r → r.task_uuid ≡ uuid
unfolding load_task_by_uuid
load-uuid uuid [] r e = absurd (cc)
load-uuid uuid (s ∷ t) r e = ground (arith, eq_iff s.task_uuid uuid, load-uuid uuid t r)

-- One call of an operation, with the arguments that the caller chooses.
pub data Op : Type 0 where
  queue : (uuid owner : String) → Op
  claim renew succeed : (uuid owner : String) (now : ℕ) → Op
  time_out : (now : ℕ) → Op
  fail : (uuid owner : String) (last_error : List ℕ) (now : ℕ) → Op
  cancel : (uuid : String) (owner : Option String) (now : ℕ) → Op
  release : (uuid owner : String) (attempts : ℕ) (last_error : List ℕ) (now : ℕ) → Op
  claim_batch :
      (locked : String → Bool) (owner : String) (replayable : TaskType → Bool) (now batch_size : ℕ)
      → Op
  insert : (input : CreatePendingTaskInput) (now created : ℕ) → Op

unfoldable pub apply : Op → Table → Table
apply (queue uuid owner) t = (mark_queued uuid owner t).0
apply (claim uuid owner now) t = (claim_running uuid owner now t).0
apply (renew uuid owner now) t = (renew_running_lease uuid owner now t).0
apply (succeed uuid owner now) t = (mark_succeeded uuid owner now t).0
apply (time_out now) t = (fail_timed_out_tasks now t).0
apply (fail uuid owner last_error now) t = (mark_failed uuid owner last_error now t).0
apply (cancel uuid owner now) t = (mark_cancelled uuid owner now t).0
apply (release uuid owner attempts last_error now) t =
    (release_enqueue_lease uuid owner attempts last_error now t).0
apply (claim_batch locked owner replayable now batch_size) t =
    (claim_outbox_batch locked owner replayable now batch_size t).0
apply (insert input now created) t = (insert_pending_task_sql input now created t).0

unfoldable pub run : List Op → Table → Table
run [] t = t
run (op ∷ ops) t = run ops (apply op t)

-- The rows that an operation changes, and how.
abbrev pub op_test : Op → Table → Task → Bool
op_test (queue uuid owner) t = queue_test uuid owner
op_test (claim uuid owner now) t = claim_test uuid owner now
op_test (renew uuid owner now) t = held_test uuid owner
op_test (succeed uuid owner now) t = held_test uuid owner
op_test (time_out now) t = timed_out_test now
op_test (fail uuid owner last_error now) t = held_test uuid owner
op_test (cancel uuid owner now) t = cancel_test uuid owner
op_test (release uuid owner attempts last_error now) t = enqueue_test uuid owner
op_test (claim_batch locked owner replayable now batch_size) t =
    is_listed (candidates locked replayable now batch_size t)
op_test (insert input now created) t = λ r. false

abbrev pub op_row : Op → Task → Task
op_row (queue uuid owner) r = queue_row r
op_row (claim uuid owner now) r = claim_row owner now r
op_row (renew uuid owner now) r = renew_row now r
op_row (succeed uuid owner now) r = succeed_row now r
op_row (time_out now) r = time_out_row now r
op_row (fail uuid owner last_error now) r = fail_row last_error now r
op_row (cancel uuid owner now) r = cancel_row now r
op_row (release uuid owner attempts last_error now) r = release_row attempts last_error now r
op_row (claim_batch locked owner replayable now batch_size) r = lease_row owner now r
op_row (insert input now created) r = r

abbrev pub row_after : Op → Table → Task → Task
row_after op t r = if op_test op t r then op_row op r else r

op_row-uuid : (op : Op) (r : Task) → (op_row op r).task_uuid ≡ r.task_uuid
op_row-uuid (queue uuid owner) r = refl
op_row-uuid (claim uuid owner now) r = refl
op_row-uuid (renew uuid owner now) r = refl
op_row-uuid (succeed uuid owner now) r = refl
op_row-uuid (time_out now) r = refl
op_row-uuid (fail uuid owner last_error now) r = refl
op_row-uuid (cancel uuid owner now) r = refl
op_row-uuid (release uuid owner attempts last_error now) r = refl
op_row-uuid (claim_batch locked owner replayable now batch_size) r = refl
op_row-uuid (insert input now created) r = refl

module _ (p : Task → Bool) (f : Task → Task)
    (same : (r : Task) → (f r).task_uuid ≡ r.task_uuid) where
  load-update_where :
      (uuid : String) (t : Table) (r : Task)
      → load_task_by_uuid uuid t ≡ some r
      → load_task_by_uuid uuid (update_where p f t) ≡ some (if p r then f r else r)
  unfolding load_task_by_uuid
  load-update_where uuid [] r e = absurd (cc)
  load-update_where uuid (s ∷ t) r e = ground (arith, same s, load-update_where uuid t r)

  load-update_where-none :
      (uuid : String) (t : Table)
      → load_task_by_uuid uuid t ≡ none
      → load_task_by_uuid uuid (update_where p f t) ≡ none
  unfolding load_task_by_uuid
  load-update_where-none uuid [] e = refl
  load-update_where-none uuid (s ∷ t) e = ground (arith, same s, load-update_where-none uuid t)

load-append :
    (uuid : String) (t : Table) (new : Task) (r : Task)
    → load_task_by_uuid uuid t ≡ some r
    → load_task_by_uuid uuid (t ++ new ∷ []) ≡ some r
unfolding load_task_by_uuid
load-append uuid [] new r e = absurd (cc)
load-append uuid (s ∷ t) new r e = ground (arith, load-append uuid t new r)

never : (f : Task → Task) (t : Table) → update_where (λ _. false) f t ≡ t
never f [] = refl
never f (r ∷ t) = ap (◌∷◌ r) (never f t)

-- An insertion that finds the uuid free.
abbrev pub Inserts : Op → Table → Type 0
Inserts op t =
    (input : CreatePendingTaskInput) × (now : ℕ) × (created : ℕ) × (op ≡ insert input now created)
    × (apply op t ≡ t ++ pending_task input now created ∷ [])
    × (any (λ r. str_eq r.task_uuid input.task_uuid) t ≡ false)

-- A taken uuid makes an insertion a repetition: it changes nothing and says so.
insert_taken :
    (input : CreatePendingTaskInput) (now created : ℕ) (t : Table)
    → any (λ r. str_eq r.task_uuid input.task_uuid) t ≡ true
    → (insert_pending_task_sql input now created t).0 ≡ t
unfolding insert_pending_task_sql
insert_taken input now created t e = rw e refl

insert_free :
    (input : CreatePendingTaskInput) (now created : ℕ) (t : Table)
    → any (λ r. str_eq r.task_uuid input.task_uuid) t ≡ false
    → (insert_pending_task_sql input now created t).0 ≡ t ++ pending_task input now created ∷ []
unfolding insert_pending_task_sql
insert_free input now created t e = rw e refl

-- Every operation is one conditional update, or such an insertion.
pub apply-cases :
    (op : Op) (t : Table) → (apply op t ≡ update_where (op_test op t) (op_row op) t) ⊎ Inserts op t
unfolding apply mark_queued claim_running renew_running_lease mark_succeeded fail_timed_out_tasks
    mark_failed mark_cancelled release_enqueue_lease claim_outbox_batch insert_pending_task_sql
apply-cases (queue uuid owner) t = inl refl
apply-cases (claim uuid owner now) t = inl refl
apply-cases (renew uuid owner now) t = inl refl
apply-cases (succeed uuid owner now) t = inl refl
apply-cases (time_out now) t = inl refl
apply-cases (fail uuid owner last_error now) t = inl refl
apply-cases (cancel uuid owner now) t = inl refl
apply-cases (release uuid owner attempts last_error now) t = inl refl
apply-cases (claim_batch locked owner replayable now batch_size) t = inl refl
apply-cases (insert input now created) t =
    elim (Bool-cases (any (λ r. str_eq r.task_uuid input.task_uuid) t)) [
      | inl e ↦ inl (insert_taken input now created t e ∙ sym (never (λ r. r) t))
      | inr e ↦ inr (input, now, created, refl, insert_free input now created t e, e)
    ]

-- A task keeps its row; the row changes as `row_after` says.
pub load-apply :
    (op : Op) (uuid : String) (t : Table) (r : Task)
    → load_task_by_uuid uuid t ≡ some r
    → load_task_by_uuid uuid (apply op t) ≡ some (row_after op t r)
load-apply op uuid t r e = elim (apply-cases op t) [
  | inl h ↦ rw h (load-update_where (op_test op t) (op_row op) (op_row-uuid op) uuid t r e)
  | inr (input, now, created, same, h, _) ↦ rw h (
      load-append uuid t (pending_task input now created) r e
      ∙ ap (λ o. some (row_after o t r)) (sym same))
]

load-append_none :
    (uuid : String) (t : Table) (new s : Task)
    → load_task_by_uuid uuid t ≡ none
    → load_task_by_uuid uuid (t ++ new ∷ []) ≡ some s
    → s ≡ new
unfolding load_task_by_uuid
load-append_none uuid [] new s e h = ground arith
load-append_none uuid (x ∷ t) new s e h = ground (arith, load-append_none uuid t new s)

-- A row that is found after an operation was there before, or has just been inserted.
pub load-apply_inv :
    (op : Op) (uuid : String) (t : Table) (s : Task)
    → load_task_by_uuid uuid (apply op t) ≡ some s
    → ((r : Task) × (load_task_by_uuid uuid t ≡ some r) × (s ≡ row_after op t r))
      ⊎ ((input : CreatePendingTaskInput) × (now : ℕ) × (created : ℕ) × (s
            ≡ pending_task input now created))
load-apply_inv op uuid t s h = elim (Option-cases (load_task_by_uuid uuid t)) [
  | inr (r, e) ↦ inl (r, e, some-injective s (row_after op t r) (sym h ∙ load-apply op uuid t r e))
  | inl e ↦ elim (apply-cases op t) [
    | inl same ↦ absurd (
        cc (
          load-update_where-none (op_test op t) (op_row op) (op_row-uuid op) uuid t e,
          ap (load_task_by_uuid uuid) same,
        ))
    | inr (input, now, created, _, same, _) ↦ inr (
      input,
      now,
      created,
      load-append_none uuid t (pending_task input now created) s e
          (ap (load_task_by_uuid uuid) (sym same) ∙ h),
    )
  ]
]

-- Distinct uuids stay distinct.
Distinct-append :
    (t : Table) (new : Task)
    → any (λ r. str_eq r.task_uuid new.task_uuid) t ≡ false
    → Distinct (λ r. r.task_uuid) t
    → Distinct (λ r. r.task_uuid) (t ++ new ∷ [])
Distinct-append [] new e d = (tt, tt)
Distinct-append (r ∷ t) new e d = (
  All-append (λ s. s.task_uuid ≢ r.task_uuid) t (new ∷ []) d.0
      ((λ p. ground (arith, eq_iff r.task_uuid new.task_uuid)), tt),
  Distinct-append t new (ground arith) d.1,
)

pub apply-Distinct :
    (op : Op) (t : Table) → Distinct (λ r. r.task_uuid) t → Distinct (λ r. r.task_uuid) (apply op t)
apply-Distinct op t d = elim (apply-cases op t) [
  | inl h ↦
      rw h
        (Distinct-update_where (λ r. r.task_uuid) (op_test op t) (op_row op) (op_row-uuid op) t d)
  | inr (input, now, created, same, h, e) ↦
      rw h (Distinct-append t (pending_task input now created) e d)
]

All-load {ℓ} :
    (P : Task → Type ℓ) (uuid : String) (t : Table) (r : Task)
    → All P t
    → load_task_by_uuid uuid t ≡ some r
    → P r
unfolding load_task_by_uuid
All-load P uuid [] r h e = absurd (cc)
All-load P uuid (s ∷ t) r h e = elim (Bool-cases (str_eq s.task_uuid uuid)) [
  | inl k ↦ subst P (some-injective s r (rw (k, load_task_by_uuid) at e)) h.0
  | inr k ↦ All-load P uuid t r h.1 (rw (k, load_task_by_uuid) at e)
]

-- Where uuids are distinct, the row that is found is the only one with its uuid.
load_unique :
    (uuid : String) (t : Table) (r : Task)
    → Distinct (λ s. s.task_uuid) t
    → load_task_by_uuid uuid t ≡ some r
    → All (λ c. c.task_uuid ≡ r.task_uuid → c ≡ r) t
unfolding load_task_by_uuid
load_unique uuid [] r d e = tt
load_unique uuid (s ∷ t) r d e = elim (Bool-cases (str_eq s.task_uuid uuid)) [
  | inl k ↦
      let same : s ≡ r = some-injective s r (rw (k, load_task_by_uuid) at e) in
      (
        (λ _. same),
        All-imp (λ c. c.task_uuid ≢ s.task_uuid) (λ c. c.task_uuid ≡ r.task_uuid → c ≡ r) t
            (λ c f g. absurd (f (g ∙ ap (λ q. q.task_uuid) (sym same)))) d.0,
      )
  | inr k ↦
      let later : load_task_by_uuid uuid t ≡ some r = rw (k, load_task_by_uuid) at e in
      (
        (λ f. absurd (All-load (λ c. c.task_uuid ≢ s.task_uuid) uuid t r d.0 later (sym f))),
        load_unique uuid t r d.1 later,
      )
]

any-listed {ℓ} :
    (Q : Type ℓ) (cs : List Task) (r : Task)
    → All (λ c. c.task_uuid ≡ r.task_uuid → Q) cs
    → is_listed cs r ≡ true
    → Q
any-listed Q [] r h e = absurd (cc)
any-listed Q (c ∷ cs) r h e = elim (Bool-cases (str_eq c.task_uuid r.task_uuid)) [
  | inl k ↦ h.0 ((eq_iff c.task_uuid r.task_uuid).0 k)
  | inr k ↦ any-listed Q cs r h.1 (rw k at e)
]

-- Where uuids are distinct, a row that a claim takes was itself a candidate, and not locked.
pub listed-is_candidate :
    (locked : String → Bool) (replayable : TaskType → Bool) (now batch_size : ℕ) (uuid : String)
    (t : Table) (r : Task)
    → Distinct (λ s. s.task_uuid) t
    → load_task_by_uuid uuid t ≡ some r
    → is_listed (candidates locked replayable now batch_size t) r ≡ true
    → (is_candidate replayable now r && not (locked r.task_uuid)) ≡ true
listed-is_candidate locked replayable now batch_size uuid t r d e listed =
    any-listed ((test r) ≡ true) (candidates locked replayable now batch_size t) r
      (All-take P batch_size (order_by older (keep_if test t)) (
        All-order_by P older (keep_if test t) (
          All-keep_if_test P test t (
            All-imp (λ c. c.task_uuid ≡ r.task_uuid → c ≡ r) (λ c. test c ≡ true → P c) t
              (λ c same passes k. subst (λ q. test q ≡ true) (same k) passes)
              (load_unique uuid t r d e)))))
      listed
  where
    test : Task → Bool
    test c = is_candidate replayable now c && not (locked c.task_uuid)

    P : Task → Type 0
    P c = c.task_uuid ≡ r.task_uuid → test r ≡ true
