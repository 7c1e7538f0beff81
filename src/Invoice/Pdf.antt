-- ===== src/Invoice/Pdf.antt =====
-- `generatePdf` of invoice.service.ts. The PDF service, which lays the document out and uploads it,
-- is the argument `render`; a cached key keeps its value here for longer than its hour.
use Prim.Native.String.{String}
use text.Mathlib.Text.{◌==◌ as str_eq}
use biz_saathi.Prelude.{
  ℕ, ◌≡◌, refl, ap, ◌∙◌, Bool, true, false, not, ◌&&◌, Option, none, some, List, [], ◌∷◌, arith,
  if◌then◌else◌, ◌==◌, ==_refl, All, Bool-cases, Option-cases, inl, inr,
}
use biz_saathi.Action.{Action, ok, pure, gets, modify, ◌>>=◌, ◌>>◌}
use biz_saathi.Table.{find_first, update_where}
use biz_saathi.Records.{Tenant, Customer, Invoice, Db}
use biz_saathi.Invoice.{is_draft}
use biz_saathi.Invoice.Rows.{
  DistinctIds, at_tenant, found_only, find_invoice-some, update_invoice-found,
}
use biz_saathi.Invoice.Draft.{has_id, find_invoice, update_invoice, find_tenant, find_customer}

-- `url.split('?')[0]`, character by character.
abbrev pub before_query : String → String
before_query String.[] = String.[]
before_query (String.◌∷◌ c s) =
    let rest = before_query s in
    if str_eq (String.◌∷◌ c String.[]) "?" then String.[] else String.◌∷◌ c rest

-- The keys `invoice_pdf:<tenant>:<invoice>`.
abbrev pub cached_pdf : (tenant id : ℕ) → List (ℕ × ℕ × String) → Option String
cached_pdf tenant id [] = none
cached_pdf tenant id ((t, i, url) ∷ rest) =
    if t == tenant && i == id then some url else cached_pdf tenant id rest

-- A cached address counts if it is not empty and the invoice is no draft.
abbrev pub usable_pdf : Option String → Bool → Option String
usable_pdf none drafted = none
usable_pdf (some url) drafted = if not (str_eq url "") && not drafted then some url else none

abbrev pub keep_pdf : (tenant id : ℕ) → (drafted : Bool) → String → Action Db (Unit {0})
keep_pdf tenant id drafted url =
    if drafted
    then pure tt
    else modify (λ db. record db { pdf_urls = (tenant, id, url) ∷ db.pdf_urls })

-- The rest of `generatePdf`, with the cached address, if it counts.
unfoldable pub pdf_or_render :
    (Invoice → Option Tenant → Option Customer → String)
    → (tenant id : ℕ) → Invoice
    → Option String
    → Action Db String
pdf_or_render render tenant id inv (some url) = pure url
pdf_or_render render tenant id inv none = do
  owner ← gets (find_tenant tenant)
  customer ← gets (find_customer inv.customer_id)
  let url = render inv owner customer
  keep_pdf tenant id (is_draft inv.status) url
  update_invoice id (λ i. record i { pdf_url = some (before_query url) })
  pure url

-- `generatePdf`.
unfoldable pub generate_pdf :
    (Invoice → Option Tenant → Option Customer → String) → (tenant id : ℕ) → Action Db String
generate_pdf render tenant id = do
  inv ← find_invoice tenant id
  cached ← gets (λ db. cached_pdf tenant id db.pdf_urls)
  pdf_or_render render tenant id inv (usable_pdf cached (is_draft inv.status))

kept_row :
    (tenant id : ℕ) (f : Invoice → Invoice) (rows : List Invoice) {inv : Invoice}
    → ((x : Invoice) → at_tenant tenant id (f x) ≡ at_tenant tenant id x)
    → find_first (at_tenant tenant id) rows ≡ some inv
    → All (λ x. has_id id x ≡ true → x ≡ inv) rows
    → find_first (at_tenant tenant id) (update_where (has_id id) f rows) ≡ some (f inv)
kept_row tenant id f [] keep h only = cc
kept_row tenant id f (x ∷ xs) {inv} keep h only = elim (Bool-cases (at_tenant tenant id x)) [
  | inl e ↦
      let mine : has_id id x ≡ true = ground arith in
      let same : x ≡ inv = only.0 mine in rw mine (rw (keep x) (rw e (ap (λ y. some (f y)) same)))
  | inr e ↦
      let later : find_first (at_tenant tenant id) xs ≡ some inv = rw e at h in
      let rest = kept_row tenant id f xs keep later only.1 in
      elim (Bool-cases (has_id id x)) [
        | inl k ↦ rw k (rw (keep x) (rw e rest))
        | inr k ↦ rw k (rw e rest)
      ]
]

-- The state after a PDF has been laid out for an invoice that is no draft.
abbrev rendered : (tenant id : ℕ) → String → Db → Db
rendered tenant id url db = record db {
  pdf_urls = (tenant, id, url) ∷ db.pdf_urls;
  invoices =
      update_where (has_id id) (λ i. record i { pdf_url = some (before_query url) }) db.invoices;
}

module _ (render : Invoice → Option Tenant → Option Customer → String) (tenant id : ℕ) (db : Db)
    {inv : Invoice} (found : find_first (at_tenant tenant id) db.invoices ≡ some inv) where
  generate_pdf-cached :
      {url : String}
      → usable_pdf (cached_pdf tenant id db.pdf_urls) (is_draft inv.status) ≡ some url
      → generate_pdf render tenant id db ≡ (ok url, db)
  unfolding generate_pdf pdf_or_render
  generate_pdf-cached h = rw (find_invoice-some tenant id db found) (rw h refl)

  generate_pdf-new :
      DistinctIds db.invoices
      → is_draft inv.status ≡ false
      → usable_pdf (cached_pdf tenant id db.pdf_urls) (is_draft inv.status) ≡ none
      → let url = render inv (find_tenant tenant db) (find_customer inv.customer_id db) in
        generate_pdf render tenant id db ≡ (ok url, rendered tenant id url db)
  unfolding generate_pdf pdf_or_render
  generate_pdf-new d sent h =
      let url = render inv (find_tenant tenant db) (find_customer inv.customer_id db) in
      let f : Invoice → Invoice = λ i. record i { pdf_url = some (before_query url) } in
      let mid : Db = record db { pdf_urls = (tenant, id, url) ∷ db.pdf_urls } in
      rw (find_invoice-some tenant id db found)
        (rw h (rw sent (rw (update_invoice-found tenant id mid f d (λ x. refl) found) refl)))

cached_again :
    (tenant id : ℕ) (url : String) (rest : List (ℕ × ℕ × String)) (drafted : Bool)
    → drafted ≡ false
    → str_eq url "" ≡ false
    → usable_pdf (cached_pdf tenant id ((tenant, id, url) ∷ rest)) drafted ≡ some url
cached_again tenant id url rest drafted e k = rw (==_refl tenant) (rw (==_refl id) (rw (k, e) refl))

-- Once `generatePdf` has given an address for an invoice that is no draft, and it is not empty, the
-- next call gives the same address and writes nothing, whatever the PDF service would give.
pub pdf_repeats :
    (render again : Invoice → Option Tenant → Option Customer → String) (tenant id : ℕ) (db : Db)
    (inv : Invoice) (url : String)
    → DistinctIds db.invoices
    → find_first (at_tenant tenant id) db.invoices ≡ some inv
    → is_draft inv.status ≡ false
    → (generate_pdf render tenant id db).0 ≡ ok url
    → str_eq url "" ≡ false
    → let after = (generate_pdf render tenant id db).1 in
      generate_pdf again tenant id after ≡ (ok url, after)
pdf_repeats render again tenant id db inv url d found sent h real =
    elim (Option-cases (usable_pdf (cached_pdf tenant id db.pdf_urls) (is_draft inv.status))) [
      | inr (old, e) ↦
          let first = generate_pdf-cached render tenant id db found e in
          let same : old ≡ url = let k = rw first at h in cc in
          rw first (generate_pdf-cached again tenant id db found e ∙ ap (λ u. (ok u, db)) same)
      | inl e ↦
          let new = render inv (find_tenant tenant db) (find_customer inv.customer_id db) in
          let first = generate_pdf-new render tenant id db found d sent e in
          let same : new ≡ url = let k = rw first at h in cc in
          let f : Invoice → Invoice = λ i. record i { pdf_url = some (before_query new) } in
          let there =
            kept_row tenant id f db.invoices (λ x. refl) found
              (found_only tenant id db.invoices d found) in
          let nonempty : str_eq new "" ≡ false = rw same real in
          rw first (
            generate_pdf-cached again tenant id (rendered tenant id new db) there
              (cached_again tenant id new db.pdf_urls (is_draft inv.status) sent nonempty)
            ∙ ap (λ u. (ok u, rendered tenant id new db)) same)
    ]
