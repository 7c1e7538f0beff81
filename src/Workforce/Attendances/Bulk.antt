-- ===== src/Workforce/Attendances/Bulk.antt =====
-- `bulkMark` against `mark`, one record at a time.
use biz_saathi.Prelude.{
  ℕ, ◌+◌, ◌≤◌, ◌≡◌, refl, ap, false, Option, none, some, List, [], ◌∷◌, ◌++◌, arith, ltb, length,
  length-append, Option-cases, inl, inr,
}
use biz_saathi.Rounding.{Rounding}
use biz_saathi.Action.{ok}
use biz_saathi.Table.{find_first}
use biz_saathi.Workforce.{Staff, StaffDb}
use biz_saathi.Workforce.Attendances.{
  Time, AttendanceRecordDto, mark_data, mark, bulk_data, BulkResult, bulk_record, bulk_records,
  no_result, bulk_mark, staff_member,
}

-- A record with both times, or none.
pub data IsPaired : AttendanceRecordDto → Type 0 where
  both :
      {r : AttendanceRecordDto} (i o : Time)
      → r.check_in ≡ some i
      → r.check_out ≡ some o
      → IsPaired r
  neither : {r : AttendanceRecordDto} → r.check_in ≡ none → r.check_out ≡ none → IsPaired r

abbrev pub AllPaired : List AttendanceRecordDto → Type 0
AllPaired [] = Unit
AllPaired (r ∷ rs) = IsPaired r × AllPaired rs

-- One call of `mark` for each record, whatever it returns.
abbrev pub mark_each :
    Rounding → (today tenant user day : ℕ) → List AttendanceRecordDto → StaffDb → StaffDb
mark_each d today tenant user day [] db = db
mark_each d today tenant user day (r ∷ rs) db =
    mark_each d today tenant user day rs (mark d today tenant user day r db).1

paired_data : (d : Rounding) (r : AttendanceRecordDto) → IsPaired r → bulk_data d r ≡ mark_data d r
paired_data d r (both i o hi ho) = rw (hi, ho)
paired_data d r (neither hi ho) = rw (hi, ho)

-- One round, once it is known whether the staff member is found.
bulk_records-found :
    (d : Rounding) (tenant user day : ℕ) (x : AttendanceRecordDto) (rs : List AttendanceRecordDto)
    (r : BulkResult) (db : StaffDb) {found : Option Staff}
    → find_first (staff_member tenant x.staff_id) db.staff ≡ found
    → bulk_records d tenant user day (x ∷ rs) (r, db)
      ≡ bulk_records d tenant user day rs (bulk_record d tenant user day found x (r, db))
unfolding bulk_records
bulk_records-found d tenant user day x rs r db e =
    ap
      (λ (o : Option Staff).
        bulk_records d tenant user day rs (bulk_record d tenant user day o x (r, db)))
      e

module _ (d : Rounding) (today tenant user day : ℕ) (past : ltb today day ≡ false) where
  bulk_records-marks :
      (rs : List AttendanceRecordDto) (r : BulkResult) (db : StaffDb)
      → AllPaired rs
      → (bulk_records d tenant user day rs (r, db)).1 ≡ mark_each d today tenant user day rs db
  unfolding bulk_records mark
  bulk_records-marks [] r db h = refl
  bulk_records-marks (x ∷ rs) r db h =
      elim (Option-cases (find_first (staff_member tenant x.staff_id) db.staff)) [
        | inl e ↦
            rw (bulk_records-found d tenant user day x rs r db e)
              (rw (past, e) (bulk_records-marks rs _ db h.1))
        | inr (s, e) ↦
            rw (bulk_records-found d tenant user day x rs r db e)
              (rw (past, e) (rw (paired_data d x h.0) (bulk_records-marks rs _ _ h.1)))
      ]

bulk_records-count :
    (d : Rounding) (tenant user day : ℕ) (rs : List AttendanceRecordDto) (r : BulkResult)
    (db : StaffDb)
    → let out = (bulk_records d tenant user day rs (r, db)).0 in
      (out.marked + out.failed ≡ r.marked + r.failed + length rs)
      × (length out.errors + r.failed ≡ length r.errors + out.failed)
unfolding bulk_records
bulk_records-count d tenant user day [] r db = (omega arith, omega arith)
bulk_records-count d tenant user day (x ∷ rs) r db =
    elim (Option-cases (find_first (staff_member tenant x.staff_id) db.staff)) [
      | inl e ↦
          let r' = record r { failed = r.failed + 1; errors = r.errors ++ x.staff_id ∷ [] } in
          let (a, b) = bulk_records-count d tenant user day rs r' db in
          let more = length-append r.errors (x.staff_id ∷ []) in
          rw (bulk_records-found d tenant user day x rs r db e) (omega arith, omega arith)
      | inr (s, e) ↦
          let next = bulk_record d tenant user day (some s) x (r, db) in
          let (a, b) = bulk_records-count d tenant user day rs next.0 next.1 in
          rw (bulk_records-found d tenant user day x rs r db e) (omega arith, omega arith)
    ]

-- For a date that is not in the future and records with both times or none, `bulkMark` succeeds,
-- counts each record once, as marked or failed, with one error for each that failed, and leaves the
-- state that calling `mark` for each record in turn leaves.
pub bulk_mark_each :
    (d : Rounding) (today tenant user day : ℕ) (rs : List AttendanceRecordDto) (db : StaffDb)
    → day ≤ today
    → AllPaired rs
    → (r : BulkResult) × (bulk_mark d today tenant user day rs db
        ≡ (ok r, mark_each d today tenant user day rs db))
      × (r.marked + r.failed ≡ length rs)
      × (length r.errors ≡ r.failed)
unfolding bulk_mark
bulk_mark_each d today tenant user day rs db le h =
    let past : ltb today day ≡ false = ground arith in
    let (a, b) = bulk_records-count d tenant user day rs no_result db in
    (
      (bulk_records d tenant user day rs (no_result, db)).0,
      rw past (rw (bulk_records-marks d today tenant user day past rs no_result db h)),
      omega arith,
      omega arith,
    )
