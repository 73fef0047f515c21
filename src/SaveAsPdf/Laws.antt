-- ===== src/SaveAsPdf/Laws.antt =====
-- What examples/save_as_pdf.rs saves.
use ippper_rs.Prelude.{
  ℕ, String, concat, ◌≡◌, ◌⊎◌, refl, sym, ap, subst, ◌∙◌, inl, inr, List, [], ◌++◌, Option, some,
}
use ippper_rs.Ipp.Enums.{aborted, completed}
use ippper_rs.Ipp.Attributes.{IppRequestResponse}
use ippper_rs.Ipp.Http.{ReqParts}
use ippper_rs.Ipp.External.{External, Documented}
use ippper_rs.Error.{Error, other, Result, error_text, IppResult}
use ippper_rs.Error
use ippper_rs.Service.Simple.Info.{JobInfo, SimpleIppDocument}
use ippper_rs.Service.Simple.State.{SimpleIppService}
use ippper_rs.Service.Simple.Documents.{Ambient, print_job}
use ippper_rs.Service.Simple.Accepted.{Outcome, Handled, asked_attributes, asked_document, made_job}
use ippper_rs.Service.Simple.Outcomes.{print_job-Outcome}
use ippper_rs.Stream.Poll.{IoResult, ok, err}
use ippper_rs.SaveAsPdf.{FileSystem, file_name, copied, created, handle_document, with_handler}

-- What tokio documents: `File::create` makes the file empty, and `io::copy` appends all that the
-- payload holds to the file, if they succeed. `path` is the name of an open file, `read` the content
-- of the file of a name.
pub record KeepsFiles {W F P : Type 0} (files : FileSystem W F P) (path : F → String)
    (read : W → String → Option (List ℕ)) (remaining : P → List ℕ) : Type 0 where
  pub create_lem :
      (name : String) (w w' : W) (file : F)
      → files.create name w ≡ (ok file, w')
      → (path file ≡ name) × (read w' name ≡ some [])
  pub copy_lem :
      (payload : P) (file : F) (w w' : W) (n : ℕ) (bs : List ℕ)
      → files.copy payload file w ≡ (ok n, w')
      → read w (path file) ≡ some bs
      → read w' (path file) ≡ some (bs ++ remaining payload)

module _ {W F P : Type 0} (files : FileSystem W F P) where
  -- The error with which the file could not be created, or not be written.
  abbrev pub FailsWith : P → W → String → Type 0
  FailsWith payload w e =
      ((files.create file_name w).0 ≡ err e)
      ⊎ ((file : F) × (w₁ : W) × (files.create file_name w ≡ (ok file, w₁))
          × ((files.copy payload file w₁).0 ≡ err e))

module _ {W F P : Type 0} (files : FileSystem W F P) (read : W → String → Option (List ℕ))
    (remaining : P → List ℕ) where
  -- How a job and the file are when its document has been handled.
  abbrev pub Saves : SimpleIppDocument P → W → JobInfo → W → Type 0
  Saves document w job w' =
      ((job.state ≡ completed)
        × (job.state_message ≡ "Completed")
        × (read w' file_name ≡ some (remaining document.payload)))
      ⊎ ((e : String) × (job.state ≡ aborted)
          × (job.state_message ≡ concat "Aborted: " e)
          × FailsWith files document.payload w e)

module _ {W F P : Type 0} {files : FileSystem W F P} {path : F → String}
    {read : W → String → Option (List ℕ)} {remaining : P → List ℕ}
    (keeps : KeepsFiles files path read remaining) (payload : P) (w : W) where
  -- What the handler's outcome means for the file.
  abbrev SaveOutcome : Result (Unit {0}) × W → Type 0
  SaveOutcome (Error.ok _, w') = read w' file_name ≡ some (remaining payload)
  SaveOutcome (Error.err m, w') = (e : String) × (m ≡ other e) × FailsWith files payload w e

  copied-SaveOutcome :
      (file : F) (w₁ : W) (answer : IoResult ℕ × W)
      → files.create file_name w ≡ (ok file, w₁)
      → files.copy payload file w₁ ≡ answer
      → SaveOutcome (copied files answer)
  copied-SaveOutcome file w₁ (err e, w') made failed =
      (e, refl, inr (file, w₁, made, ap (λ a. a.0) failed))
  copied-SaveOutcome file w₁ (ok n, w') made wrote =
      let (same, blank) = keeps.create_lem file_name w w₁ file made in
      ap (read w') (sym same)
      ∙ keeps.copy_lem payload file w₁ w' n [] wrote (ap (read w₁) same ∙ blank)

  created-SaveOutcome :
      (answer : IoResult F × W)
      → files.create file_name w ≡ answer
      → SaveOutcome (created files payload answer)
  created-SaveOutcome (err e, w') failed = (e, refl, inl (ap (λ a. a.0) failed))
  created-SaveOutcome (ok file, w₁) made =
      copied-SaveOutcome file w₁ (files.copy payload file w₁) made refl

module _ {W F P : Type 0} {ext : External P} (doc : Documented ext) {files : FileSystem W F P}
    {path : F → String} {read : W → String → Option (List ℕ)} {remaining : P → List ℕ}
    (keeps : KeepsFiles files path read remaining) (env : Ambient P) (head : ReqParts)
    (req : IppRequestResponse P) where
  Handled-Saves :
      (document : SimpleIppDocument P) (w : W) (handled : Result (Unit {0}) × W)
      (resp : IppRequestResponse P) (job : JobInfo)
      → SaveOutcome keeps document.payload w handled
      → Handled ext env req handled.0 resp job
      → Saves files read remaining document w job handled.1
  unfolding error_text
  Handled-Saves document w (Error.ok u, w') resp job saved h = inl (h.0, h.1, saved)
  Handled-Saves document w (Error.err m, w') resp job (e, same, fails) h =
      inr (e, h.0, h.1 ∙ ap (λ x. concat "Aborted: " (error_text ext x)) same, fails)

  -- A document that `print_job` accepts is handled by the example's handler, whatever the files
  -- are, if creating and writing files does as documented: either its job is completed, and the
  -- file then holds the document's payload, all of it and nothing else; or the file could not be
  -- created or not be written, and the job is aborted with the text of that error.
  pub print_job-Saves :
      (s : SimpleIppService) (w : W) (document : SimpleIppDocument P)
      → asked_document ext s (asked_attributes ext s req) req ≡ Error.ok document
      → let s' = (print_job ext (with_handler files env w) head req s).1 in
        Saves files read remaining document w
          (s'.cells s.allocated)
          (handle_document files document w).1
  unfolding handle_document
  print_job-Saves s w document asked =
      let (result, s') = print_job ext (with_handler files env w) head req s in
      let (more, spares, outcome) =
        print_job-Outcome ext doc req (with_handler files env w) head s in
      by_result result (made_job ext (with_handler files env w) s req) (s'.cells s.allocated)
        outcome
    where
      by_result :
          (result : IppResult P) (accepted job : JobInfo)
          → Outcome ext
              (with_handler files env w)
              req
              (asked_document ext s (asked_attributes ext s req) req)
              result
              accepted
              job
          → Saves files read remaining document w job (handle_document files document w).1
      by_result (Error.err m) accepted job (refused, same) = cc (asked, refused)
      by_result (Error.ok resp) accepted job (document', asked', kept, handled) =
          let same : document' ≡ document = cc (asked, asked') in
          subst (λ d. Saves files read remaining d w job (handle_document files d w).1) same
            (Handled-Saves document' w (handle_document files document' w) resp job
              (created-SaveOutcome keeps document'.payload w (files.create file_name w) refl)
              handled)
