-- ===== src/Workforce/Decisions.antt =====
-- A leave's decision, once and for all, and what it takes from the balance.
use Prim.Native.String.{String}
use biz_saathi.Prelude.{
  ℕ, ◌≡◌, ◌≢◌, refl, true, false, ◌&&◌, Option, some, List, [], ◌∷◌, ◌++◌, arith, ltb, ◌==◌, All,
  Bool-cases, Option-cases, inl, inr,
}
use biz_saathi.Table.{find_first, find_first_sound, count_where, update_where}
use biz_saathi.Table.Keys.{
  DistinctKeys, named, same_row, find_first-update_other, DistinctKeys-update, DistinctKeys-snoc,
  find_first-snoc,
}
use biz_saathi.Workforce.{Staff, Leave, StaffDb}
use biz_saathi.Workforce.Leaves.{
  ApplyLeaveDto, is_pending, present_between, new_leave, apply, pending_leave, approval, rejection,
  approve, reject,
}

-- One request of a tenant; a new id is not in use.
pub data LeaveRequest (tenant : ℕ) (db : StaffDb) : StaffDb → Type 0 where
  applies :
      (id : ℕ) (dto : ApplyLeaveDto)
      → All (λ l. l.id ≢ id) db.leaves
      → LeaveRequest tenant db (apply id tenant dto db).1
  approves : (id user : ℕ) → LeaveRequest tenant db (approve tenant id user db).1
  rejects :
      (id user : ℕ) (note : Option String)
      → LeaveRequest tenant db (reject tenant id user note db).1

pub data LeaveRequests (db : StaffDb) : StaffDb → Type 0 where
  start : LeaveRequests db db
  after :
      {tenant : ℕ} {a b : StaffDb}
      → LeaveRequests db a
      → LeaveRequest tenant a b
      → LeaveRequests db b

abbrev pub leave_id : Leave → ℕ
leave_id l = l.id

-- What a request makes of the leaves.
data Change (before : List Leave) : List Leave → Type 0 where
  nothing : Change before before
  applied : (l : Leave) → All (λ x. x.id ≢ l.id) before → Change before (before ++ l ∷ [])
  decided :
      (tenant id : ℕ) (f : Leave → Leave) (l : Leave)
      → find_first (pending_leave tenant id) before ≡ some l
      → ((x : Leave) → (f x).id ≡ x.id)
      → Change before (update_where (named leave_id id) f before)

apply-Change :
    (id tenant : ℕ) (dto : ApplyLeaveDto) (db : StaffDb)
    → All (λ l. l.id ≢ id) db.leaves
    → Change db.leaves (apply id tenant dto db).1.leaves
unfolding apply
apply-Change id tenant dto db fresh =
    elim (Option-cases
      (find_first (λ (s : Staff). s.id == dto.staff_id && s.tenant_id == tenant) db.staff)) [
        | inl e ↦ rw e nothing
        | inr (s, e) ↦ elim (Bool-cases (ltb dto.to_date dto.from_date)) [
          | inl late ↦ rw e (rw late nothing)
          | inr order ↦
              elim (Bool-cases (
                ltb 0 (
                  count_where (present_between dto.staff_id dto.from_date dto.to_date)
                    db.attendances))) [
                      | inl worked ↦ rw e (rw order (rw worked nothing))
                      | inr free ↦
                          rw e (rw order (rw free (applied (new_leave id tenant dto) fresh)))
                    ]
        ]
      ]

approve-Change :
    (tenant id user : ℕ) (db : StaffDb) → Change db.leaves (approve tenant id user db).1.leaves
unfolding approve
approve-Change tenant id user db =
    elim (Option-cases (find_first (pending_leave tenant id) db.leaves)) [
      | inl e ↦ rw e nothing
      | inr (l, e) ↦ rw e (decided tenant id (approval user) l e (λ x. refl))
    ]

reject-Change :
    (tenant id user : ℕ) (note : Option String) (db : StaffDb)
    → Change db.leaves (reject tenant id user note db).1.leaves
unfolding reject
reject-Change tenant id user note db =
    elim (Option-cases (find_first (pending_leave tenant id) db.leaves)) [
      | inl e ↦ rw e nothing
      | inr (l, e) ↦ rw e (decided tenant id (rejection user note) l e (λ x. refl))
    ]

LeaveRequest-Change :
    {tenant : ℕ} {a b : StaffDb} → LeaveRequest tenant a b → Change a.leaves b.leaves
LeaveRequest-Change {tenant} {a} (applies id dto fresh) = apply-Change id tenant dto a fresh
LeaveRequest-Change {tenant} {a} (approves id user) = approve-Change tenant id user a
LeaveRequest-Change {tenant} {a} (rejects id user note) = reject-Change tenant id user note a

Change-distinct :
    {a b : List Leave} → Change a b → DistinctKeys leave_id a → DistinctKeys leave_id b
Change-distinct nothing d = d
Change-distinct {a} (applied l fresh) d = DistinctKeys-snoc leave_id a l fresh d
Change-distinct {a} (decided tenant id f l h keep) d = DistinctKeys-update leave_id id f a keep d

Change-kept :
    {a b : List Leave} (j : ℕ) (l : Leave)
    → Change a b
    → DistinctKeys leave_id a
    → find_first (named leave_id j) a ≡ some l
    → is_pending l.status ≡ false
    → find_first (named leave_id j) b ≡ some l
Change-kept j l nothing d h s = h
Change-kept {a} j l (applied new fresh) d h s = find_first-snoc leave_id (named leave_id j) a new h
Change-kept {a} j l (decided tenant id f old found keep) d h s =
    let pend : pending_leave tenant id old ≡ true =
      find_first_sound (pending_leave tenant id) a found in
    let here : named leave_id j l ≡ true = find_first_sound (named leave_id j) a h in
    let away : j ≢ id = λ e.
      let same : old ≡ l =
        same_row leave_id (pending_leave tenant id) (named leave_id j) a d found h (ground arith) in
      let open_ : is_pending old.status ≡ true = ground arith in ground arith in
    rw (find_first-update_other leave_id id j f a keep away) h

LeaveRequests-distinct :
    {a b : StaffDb}
    → LeaveRequests a b
    → DistinctKeys leave_id a.leaves
    → DistinctKeys leave_id b.leaves
LeaveRequests-distinct start d = d
LeaveRequests-distinct (after rs r) d =
    Change-distinct (LeaveRequest-Change r) (LeaveRequests-distinct rs d)

-- A leave that is approved, rejected or cancelled stays as it is, in every field, after any sequence
-- of requests to apply, approve and reject, of any tenants, accepted or refused.
pub decision_final :
    {a b : StaffDb} (j : ℕ) (l : Leave)
    → DistinctKeys leave_id a.leaves
    → LeaveRequests a b
    → find_first (named leave_id j) a.leaves ≡ some l
    → is_pending l.status ≡ false
    → find_first (named leave_id j) b.leaves ≡ some l
decision_final j l d start h s = h
decision_final j l d (after rs r) h s =
    Change-kept j l (LeaveRequest-Change r) (LeaveRequests-distinct rs d)
      (decision_final j l d rs h s) s
