-- ===== src/Service/Simple/ByName.antt =====
-- Asking the simple service for attributes by their names.
use ippper_rs.Prelude.{String, ◌≡◌, sym, ap, ◌∙◌, false, List, [], ◌∷◌, select}
use ippper_rs.Ipp.Http.{ReqParts}
use ippper_rs.Ipp.External.{External}
use ippper_rs.Utils.{contains}
use ippper_rs.Service.Simple.Info.{PrinterInfo, JobInfo, Duration}
use ippper_rs.Service.Simple.PrinterAttributes.{printer_entries, printer_attributes}
use ippper_rs.Service.Simple.JobAttributes.{job_entries, job_attributes_for}
use ippper_rs.Service.Simple.RenderLaws.{push_all_lem, rendered-by_names}

module _ {P : Type 0} (ext : External P) (host basepath : String) (head : ReqParts)
    (uptime : Duration) (requested : List String) (no_all : contains requested "all" ≡ false)
    (no_template : contains requested "job-template" ≡ false) where
  -- A request for printer attributes that names no group of attributes ("all",
  -- "printer-description" or "job-template") gets exactly those attributes of the answer to "all"
  -- whose names it lists, in the same order.
  pub printer_attributes-by_names :
      (info : PrinterInfo)
      → contains requested "printer-description" ≡ false
      → printer_attributes ext host basepath info head uptime requested
        ≡ select
            (λ a. contains requested a.name)
            (printer_attributes ext host basepath info head uptime ("all" ∷ []))
  unfolding printer_attributes
  printer_attributes-by_names info no_group =
      let es = printer_entries ext host basepath info head uptime in
      push_all_lem "printer-description" requested [] es
      ∙ rendered-by_names "printer-description" requested no_all no_group no_template es
      ∙ ap (select (λ a. contains requested a.name))
          (sym (push_all_lem "printer-description" ("all" ∷ []) [] es))

  -- A request for job attributes that names no group of attributes ("all", "job-description" or
  -- "job-template") gets exactly those attributes of the answer to "all" whose names it lists, in
  -- the same order.
  pub job_attributes_for-by_names :
      (job : JobInfo)
      → contains requested "job-description" ≡ false
      → job_attributes_for ext host basepath head job requested uptime
        ≡ select
            (λ a. contains requested a.name)
            (job_attributes_for ext host basepath head job ("all" ∷ []) uptime)
  unfolding job_attributes_for
  job_attributes_for-by_names job no_group =
      let es = job_entries ext host basepath head job uptime in
      push_all_lem "job-description" requested [] es
      ∙ rendered-by_names "job-description" requested no_all no_group no_template es
      ∙ ap (select (λ a. contains requested a.name))
          (sym (push_all_lem "job-description" ("all" ∷ []) [] es))
