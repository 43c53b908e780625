-- ===== src/I18n/EnNames.antt =====
-- web/src/i18n.ts, the English catalogue, lines 298 to 443.
use vekst.Prelude.{List, [], ◌∷◌, Text}
use vekst.I18n.Message.{msg}

abbrev pub en_names : List (Text × Text)
en_names =
    msg "line.01" "Net sales"
    ∷ msg "line.02" "Cost of sales"
    ∷ msg "line.03" "Other cost of sales"
    ∷ msg "line.04" "Operating expenses"
    ∷ msg "line.05" "Other income and expenses"
    ∷ msg "line.06" "Financial result"
    ∷ msg "line.07" "Corporate income tax"
    ∷ msg "line.08" "Capital expenditure"
    ∷ msg "line.09" "Outside the P&L"
    ∷ msg "line.91" "Gross margin"
    ∷ msg "line.92" "Net margin"
    ∷ msg "line.93" "Contribution margin"
    ∷ msg "line.94" "Profit before tax"
    ∷ msg "line.95" "Net profit"
    ∷ msg "category.0101" "Software development"
    ∷ msg "category.02" "Cost of sales"
    ∷ msg "category.030101" "Promotion commission"
    ∷ msg "category.0401010101" "Salary"
    ∷ msg "category.0401010201" "1C Cloud"
    ∷ msg "category.0401010202" "Accounting services"
    ∷ msg "category.0401010203" "Audit"
    ∷ msg "category.0401010204" "Bank commission"
    ∷ msg "category.0401010205" "E-document workflow"
    ∷ msg "category.0401010206" "Time & attendance"
    ∷ msg "category.0401020101" "Salary"
    ∷ msg "category.0401020201" "Business trips"
    ∷ msg "category.0401020202" "Communication"
    ∷ msg "category.0401020203" "Domain"
    ∷ msg "category.0401020204" "Education"
    ∷ msg "category.0401020205" "File storage"
    ∷ msg "category.0401020206" "Hosting"
    ∷ msg "category.0401020207" "IT equipment repair"
    ∷ msg "category.0401020208" "Office rent"
    ∷ msg "category.0401020209" "Office supplies"
    ∷ msg "category.0401020210" "Small IT equipment"
    ∷ msg "category.0401020211" "Sport"
    ∷ msg "category.0401020212" "Stationery"
    ∷ msg "category.0401030101" "HR tools"
    ∷ msg "category.0401040101" "Claims"
    ∷ msg "category.0401040102" "Court"
    ∷ msg "category.0401040103" "Legal entity rent"
    ∷ msg "category.0401040104" "Legal — other"
    ∷ msg "category.0401040105" "Relocation"
    ∷ msg "category.0401050101" "Education"
    ∷ msg "category.0401050102" "HeadHunter"
    ∷ msg "category.0402010101" "Salary"
    ∷ msg "category.0402010201" "Content creation"
    ∷ msg "category.0402010202" "Google Ads"
    ∷ msg "category.0402010203" "MarTech tools"
    ∷ msg "category.0402010204" "Marketing channels"
    ∷ msg "category.0402010205" "Marketplace advertising"
    ∷ msg "category.0402010206" "Merch for employees"
    ∷ msg "category.0402010207" "SEO"
    ∷ msg "category.0402020101" "Salary"
    ∷ msg "category.0402020201" "Sales activities"
    ∷ msg "category.0402020202" "Sales tools"
    ∷ msg "category.0403" "Payroll tax to distribute"
    ∷ msg "category.0404" "Payroll to distribute"
    ∷ msg "category.0405010101" "Education"
    ∷ msg "category.0405010102" "Salary"
    ∷ msg "category.0405010201" "Design tools"
    ∷ msg "category.0405010202" "Production tools"
    ∷ msg "category.0405010203" "Salary"
    ∷ msg "category.0406" "Twoj StartUp"
    ∷ msg "category.050101" "Expenses compensation"
    ∷ msg "category.050102" "Expenses for 2022"
    ∷ msg "category.05010301" "1%, Hi-Tech Park"
    ∷ msg "category.05010302" "Advance tax"
    ∷ msg "category.05010303" "Hi-Tech Park membership"
    ∷ msg "category.05010304" "Other"
    ∷ msg "category.05010305" "VAT"
    ∷ msg "category.050104" "Tax fines"
    ∷ msg "category.050201" "CIT refund"
    ∷ msg "category.050202" "Return of payment"
    ∷ msg "category.060101" "Currency exchange"
    ∷ msg "category.060102" "Currency revaluation"
    ∷ msg "category.060201" "Interest received"
    ∷ msg "category.07" "Corporate income tax"
    ∷ msg "category.08" "Capital expenditure"
    ∷ msg "category.09" "Outside the P&L"
    ∷ msg "categoryBranch.0301" "Promotion"
    ∷ msg "categoryBranch.0401" "Administration"
    ∷ msg "categoryBranch.040101" "Finance"
    ∷ msg "categoryBranch.04010101" "Expenses"
    ∷ msg "categoryBranch.04010102" "Services"
    ∷ msg "categoryBranch.040102" "General management"
    ∷ msg "categoryBranch.04010201" "Expenses"
    ∷ msg "categoryBranch.04010202" "Services"
    ∷ msg "categoryBranch.040103" "HR"
    ∷ msg "categoryBranch.04010301" "Services"
    ∷ msg "categoryBranch.040104" "Legal"
    ∷ msg "categoryBranch.04010401" "Services"
    ∷ msg "categoryBranch.040105" "Recruiting"
    ∷ msg "categoryBranch.04010501" "Services"
    ∷ msg "categoryBranch.0402" "Marketing and sales"
    ∷ msg "categoryBranch.040201" "Marketing"
    ∷ msg "categoryBranch.04020101" "Expenses"
    ∷ msg "categoryBranch.04020102" "Services"
    ∷ msg "categoryBranch.040202" "Sales"
    ∷ msg "categoryBranch.04020201" "Expenses"
    ∷ msg "categoryBranch.04020202" "Services"
    ∷ msg "categoryBranch.0405" "Production"
    ∷ msg "categoryBranch.040501" "Developers"
    ∷ msg "categoryBranch.04050101" "Expenses"
    ∷ msg "categoryBranch.04050102" "Services"
    ∷ msg "categoryBranch.0501" "Other expenses"
    ∷ msg "categoryBranch.050103" "Other taxes"
    ∷ msg "categoryBranch.0502" "Other income"
    ∷ msg "categoryBranch.0601" "Exchange differences"
    ∷ msg "categoryBranch.0602" "Other financial income"
    ∷ msg "recon.title" "Reconciliation"
    ∷ msg "recon.opening" "Opening"
    ∷ msg "recon.in" "In"
    ∷ msg "recon.out" "Out"
    ∷ msg "recon.transfers" "Transfers"
    ∷ msg "recon.closing" "Closing"
    ∷ msg "stat.revenue" "Revenue"
    ∷ msg "stat.expenses" "Expenses"
    ∷ msg "stat.net" "Net result"
    ∷ msg "stat.unreviewed" "Awaiting review"
    ∷ msg "drilldown.close" "Close"
    ∷ msg "drilldown.date" "Date"
    ∷ msg "drilldown.description" "Description"
    ∷ msg "drilldown.amount" "Amount"
    ∷ msg "drilldown.category" "Category"
    ∷ msg "drilldown.layer" "Layer"
    ∷ msg "drilldown.confidence" "Confidence"
    ∷ msg "drilldown.evidence" "Match"
    ∷ msg "drilldown.operands" "Made up of"
    ∷ msg "drilldown.empty" "No transactions in this cell for this period."
    ∷ msg "drilldown.provenance" "Taxonomy {taxonomy} · ruleset {ruleset} · engine {engine}"
    ∷ []
