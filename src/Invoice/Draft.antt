-- ===== src/Invoice/Draft.antt =====
-- `create`, `update`, `send` and `remove` of invoice.service.ts, and the queries and writes that
-- they share with the payments.
use Prim.Native.String.{String}
use text.Mathlib.Text.{◌==◌ as str_eq}
use biz_saathi.Prelude.{
  ℕ, Bool, true, false, not, ◌&&◌, Option, none, some, List, [], ◌∷◌, ◌++◌, map, if◌then◌else◌,
  ◌==◌, pos,
}
use biz_saathi.Rounding.{Rounding}
use biz_saathi.Gst.{summarize_invoice}
use biz_saathi.Action.{
  Action, not_found, forbidden, pure, gets, or_throw, throw_if, modify, ◌>>=◌, ◌>>◌,
}
use biz_saathi.Table.{find_first, update_where}
use biz_saathi.Records.{
  InvoiceStatus, Tenant, Customer, Invoice, Db, Job, generate_invoice_pdf, index_invoice,
  send_invoice_whatsapp, send_invoice_email, invoice_created, invoice_sent,
}
use biz_saathi.InvoiceNumber.{generate_next_invoice_number}
use biz_saathi.Invoice.{
  InvoiceItemDto, CreateInvoiceDto, UpdateInvoiceDto, or_default, or_keep, or_text, is_inter_state,
  process_item, amounts_of, is_draft,
}

abbrev pub has_id : ℕ → Invoice → Bool
has_id id inv = inv.id == id

-- `invoice.findFirst({ where: { id, tenantId } })`, and its 404.
unfoldable pub find_invoice : ℕ → ℕ → Action Db Invoice
find_invoice tenant id = do
  found ← gets (λ db. find_first (λ inv. has_id id inv && inv.tenant_id == tenant) db.invoices)
  or_throw found (not_found "Invoice not found")

-- `invoice.update({ where: { id }, data })`: the row as it is then.
unfoldable pub update_invoice : ℕ → (Invoice → Invoice) → Action Db Invoice
update_invoice id f = do
  modify (λ db. record db { invoices = update_where (has_id id) f db.invoices })
  found ← gets (λ db. find_first (has_id id) db.invoices)
  or_throw found (not_found "Record to update not found")

abbrev pub without : ℕ → List ℕ → List ℕ
without t [] = []
without t (u ∷ us) = let rest = without t us in if u == t then rest else u ∷ rest

-- `redis.del('dashboard:<tenant>')`.
unfoldable pub clear_dashboard : ℕ → Action Db (Unit {0})
clear_dashboard tenant = modify (λ db. record db { dashboards = without tenant db.dashboards })

unfoldable pub push : Job → Action Db (Unit {0})
push job = modify (λ db. record db { jobs = db.jobs ++ job ∷ [] })

-- `findUnique` of a tenant.
abbrev pub find_tenant : ℕ → Db → Option Tenant
find_tenant id db = find_first (λ t. t.id == id) db.tenants

abbrev pub find_customer : ℕ → Db → Option Customer
find_customer id db = find_first (λ c. c.id == id) db.customers

-- The row that `create` stores.
unfoldable pub new_invoice :
    Rounding → (id tenant : ℕ) → Option String → List ℕ → CreateInvoiceDto → Invoice
new_invoice d id tenant address number dto =
    let inter = is_inter_state dto.place_of_supply address in
    let items = map (process_item d inter) dto.items in
    let summary = summarize_invoice d (map amounts_of items) in
    record {
      id = id;
      tenant_id = tenant;
      invoice_number = number;
      customer_id = dto.customer_id;
      invoice_date = dto.invoice_date;
      due_date = dto.due_date;
      status = InvoiceStatus.draft;
      subtotal = summary.subtotal;
      total_cgst = summary.total_cgst;
      total_sgst = summary.total_sgst;
      total_igst = summary.total_igst;
      total_amount = summary.total_amount;
      paid_amount = pos 0;
      notes = dto.notes;
      terms_conditions = dto.terms_conditions;
      is_gst_invoice = or_default dto.is_gst_invoice true;
      place_of_supply = dto.place_of_supply;
      pdf_url = none;
      items = items;
    }

-- `create`; the database chooses the new id.
unfoldable pub create : Rounding → (id tenant : ℕ) → CreateInvoiceDto → Action Db Invoice
create d id tenant dto = do
  customer ← gets (λ db.
      find_first (λ c. c.id == dto.customer_id && c.tenant_id == tenant && c.is_active)
        db.customers)
  or_throw customer (not_found "Customer not found")
  owner ← gets (find_tenant tenant)
  seller ← or_throw owner (not_found "Tenant not found")
  number ← generate_next_invoice_number tenant dto.invoice_date
  let inv = new_invoice d id tenant seller.address number dto
  modify (λ db. record db { invoices = db.invoices ++ inv ∷ [] })
  clear_dashboard tenant
  push (generate_invoice_pdf id tenant)
  push (index_invoice tenant id)
  push (invoice_created tenant id)
  pure inv

-- The new items and totals of `update`, if the request has items.
unfoldable pub with_items :
    Rounding → Option String → UpdateInvoiceDto → Invoice → Invoice → Invoice
with_items d address dto old inv =
    let place = or_text dto.place_of_supply (or_text old.place_of_supply "") in
    let inter = is_inter_state (some place) address in
    let items = map (process_item d inter) dto.items in
    let summary = summarize_invoice d (map amounts_of items) in
    record inv {
      items = items;
      subtotal = summary.subtotal;
      total_cgst = summary.total_cgst;
      total_sgst = summary.total_sgst;
      total_igst = summary.total_igst;
      total_amount = summary.total_amount;
    }

abbrev pub has_items : List InvoiceItemDto → Bool
has_items [] = false
has_items _ = true

abbrev pub address_of : Option Tenant → Option String
address_of none = none
address_of (some t) = t.address

-- What `update` writes to the row that it found.
unfoldable pub edited : Rounding → Option String → UpdateInvoiceDto → Invoice → Invoice → Invoice
unfolding with_items
edited d address dto old inv =
    let basic = record inv {
      invoice_date = or_default dto.invoice_date inv.invoice_date;
      due_date = or_keep dto.due_date inv.due_date;
      is_gst_invoice = or_default dto.is_gst_invoice inv.is_gst_invoice;
      place_of_supply = or_keep dto.place_of_supply inv.place_of_supply;
      notes = or_keep dto.notes inv.notes;
      terms_conditions = or_keep dto.terms_conditions inv.terms_conditions;
    } in
    if has_items dto.items then with_items d address dto old basic else basic

-- `update`.
unfoldable pub update : Rounding → (tenant id : ℕ) → UpdateInvoiceDto → Action Db Invoice
update d tenant id dto = do
  inv ← find_invoice tenant id
  throw_if (not (is_draft inv.status)) (forbidden "Only DRAFT invoices can be edited")
  owner ← gets (find_tenant tenant)
  updated ← update_invoice id (edited d (address_of owner) dto inv)
  clear_dashboard tenant
  pure updated

-- The jobs of `send`, for the contacts that the customer has.
abbrev pub push_whatsapp : Option String → (id tenant : ℕ) → Action Db (Unit {0})
push_whatsapp none id tenant = pure tt
push_whatsapp (some phone) id tenant =
    if str_eq phone "" then pure tt else push (send_invoice_whatsapp id tenant phone)

abbrev pub push_email : Option String → (id tenant : ℕ) → Action Db (Unit {0})
push_email none id tenant = pure tt
push_email (some email) id tenant =
    if str_eq email "" then pure tt else push (send_invoice_email id tenant email)

abbrev pub contacts : Option Customer → Option String × Option String
contacts none = (none, none)
contacts (some c) = (c.phone, c.email)

-- `send`.
unfoldable pub send : (tenant id : ℕ) → Action Db Invoice
send tenant id = do
  inv ← find_invoice tenant id
  throw_if (not (is_draft inv.status)) (forbidden "Only DRAFT invoices can be sent")
  updated ← update_invoice id (λ i. record i { status = InvoiceStatus.sent })
  customer ← gets (find_customer updated.customer_id)
  push_whatsapp (contacts customer).0 updated.id tenant
  push_email (contacts customer).1 updated.id tenant
  push (invoice_sent tenant updated.id)
  pure updated

-- `remove`: a draft is cancelled, not deleted.
unfoldable pub remove : (tenant id : ℕ) → Action Db (Unit {0})
remove tenant id = do
  inv ← find_invoice tenant id
  throw_if (not (is_draft inv.status)) (forbidden "Only DRAFT invoices can be deleted")
  update_invoice id (λ i. record i { status = InvoiceStatus.cancelled })
  clear_dashboard tenant
