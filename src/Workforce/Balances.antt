-- ===== src/Workforce/Balances.antt =====
-- What an approval takes from the balance of a staff member.
use mathlib.Core.Option.{some-injective}
use biz_saathi.Prelude.{
  ℕ, ◌+◌, ◌-◌, ◌≡◌, ◌≢◌, refl, sym, ap, ◌∙◌, false, ◌&&◌, some, List, [], ◌∷◌, arith, leb, ◌==◌,
  All, All-imp, if◌then◌else◌, Bool-cases, inl, inr,
}
use biz_saathi.Action.{ok}
use biz_saathi.Table.{find_first, find_first_sound, find_first-All, find_many, update_where}
use biz_saathi.Table.Keys.{DistinctKeys, named}
use biz_saathi.Workforce.{LeaveType, Staff, Leave, StaffDb}
use biz_saathi.Workforce.Leaves.{
  pending_leave, approval, approve, type_index, Balance, leave_balances, approved_in, used_by_type,
  get_balance,
}
use biz_saathi.Workforce.Decisions.{leave_id}

update_where-none :
    (k : ℕ) (f : Leave → Leave) (rows : List Leave)
    → All (λ y. y.id ≢ k) rows
    → update_where (named leave_id k) f rows ≡ rows
update_where-none k f [] h = refl
update_where-none k f (x ∷ xs) h =
    let other : named leave_id k x ≡ false = ground (arith, h.0) in
    rw other (ap (λ ys. x ∷ ys) (update_where-none k f xs h.1))

module _ (staff start_of_year end_of_year : ℕ) (type : LeaveType) where
  -- The days of one leave, if it counts once approved.
  abbrev pub counted : ℕ → Leave → ℕ
  counted tenant l =
      if (l.staff_id == staff
          && l.tenant_id == tenant
          && leb start_of_year l.from_date
          && leb l.from_date end_of_year)
        && type_index l.leave_type == type_index type
      then l.days
      else 0

  used_in : ℕ → List Leave → ℕ
  used_in tenant rows =
      used_by_type type (find_many (approved_in tenant staff start_of_year end_of_year) rows)

  used_in-step :
      (tenant : ℕ) (l : Leave) (rows : List Leave)
      → used_in tenant (l ∷ rows) ≡ (
          if approved_in tenant staff start_of_year end_of_year l
            && type_index l.leave_type == type_index type
          then l.days + used_in tenant rows
          else used_in tenant rows)
  unfolding used_in
  used_in-step tenant l rows =
      elim (Bool-cases (approved_in tenant staff start_of_year end_of_year l)) [
        | inl e ↦ rw e
        | inr e ↦ rw e
      ]

  -- A pending leave counts for nothing, and once approved for its days.
  used_in-approval :
      (tenant id user : ℕ) (rows : List Leave) {l : Leave}
      → DistinctKeys leave_id rows
      → find_first (pending_leave tenant id) rows ≡ some l
      → used_in tenant (update_where (named leave_id id) (approval user) rows)
        ≡ used_in tenant rows + counted tenant l
  used_in-approval tenant id user [] d h = cc
  used_in-approval tenant id user (x ∷ xs) {l} d h = elim (Bool-cases (named leave_id id x)) [
    | inl e ↦
        let same_id : x.id ≡ id = ground arith in
        let rest : update_where (named leave_id id) (approval user) xs ≡ xs =
          update_where-none id (approval user) xs
            (All-imp _ _ (λ y ne k. ne (k ∙ sym same_id)) xs d.0) in
        elim (Bool-cases (pending_leave tenant id x)) [
          | inl p ↦
              let is_l : x ≡ l = some-injective _ _ (rw p at h) in
              let before = used_in-step tenant x xs in
              let then_ = used_in-step tenant (approval user x) xs in
              rw e (rw rest (rw (before, then_) (rw (← is_l) (ground arith))))
          | inr p ↦
              let later : find_first (pending_leave tenant id) xs ≡ some l = rw p at h in
              let other : l.id ≢ x.id =
                find_first-All (λ y. y.id ≢ x.id) (pending_leave tenant id) xs d.0 later in
              let here = find_first_sound (pending_leave tenant id) xs later in
              absurd (other (ground arith))
        ]
    | inr e ↦
        let away : pending_leave tenant id x ≡ false = ground arith in
        let later : find_first (pending_leave tenant id) xs ≡ some l = rw away at h in
        let ih = used_in-approval tenant id user xs d.1 later in
        let before = used_in-step tenant x xs in
        let then_ = used_in-step tenant x (update_where (named leave_id id) (approval user) xs) in
        rw e (rw (before, then_) (rw ih (ground arith)))
  ]

abbrev balance_of : (tenant staff start_of_year end_of_year : ℕ) → List Leave → LeaveType → Balance
balance_of tenant staff start_of_year end_of_year rows type =
    let used =
      used_by_type type (find_many (approved_in tenant staff start_of_year end_of_year) rows) in
    record { total = leave_balances type; used = used; remaining = leave_balances type - used }

-- Once a pending leave is approved, the days that `getBalance` gives as used are more by the days of
-- the leave at its type, if it is of the same staff member and begins in the year, and no other type
-- changes; what remains is the total less the days used, and 0 when they exceed it.
pub approve_balance :
    (tenant id user staff start_of_year end_of_year : ℕ) (type : LeaveType) (db : StaffDb)
    {l : Leave} {member : Staff}
    → DistinctKeys leave_id db.leaves
    → find_first (pending_leave tenant id) db.leaves ≡ some l
    → find_first (λ (s : Staff). s.id == staff && s.tenant_id == tenant) db.staff ≡ some member
    → let after = (approve tenant id user db).1 in
      (old new : LeaveType → Balance) × ((get_balance tenant staff start_of_year end_of_year db).0
        ≡ ok old)
      × ((get_balance tenant staff start_of_year end_of_year after).0 ≡ ok new)
      × ((new type).used ≡ (old type).used + counted staff start_of_year end_of_year type tenant l)
      × ((new type).remaining ≡ leave_balances type - (new type).used)
unfolding get_balance approve used_in
approve_balance tenant id user staff start_of_year end_of_year type db d h m = (
  balance_of tenant staff start_of_year end_of_year db.leaves,
  balance_of tenant staff start_of_year end_of_year
      (update_where (named leave_id id) (approval user) db.leaves),
  rw m refl,
  rw h (rw m refl),
  used_in-approval staff start_of_year end_of_year type tenant id user db.leaves d h,
  refl,
)
