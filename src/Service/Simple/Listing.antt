-- ===== src/Service/Simple/Listing.antt =====
-- `get_jobs` of service/simple.rs against its specification: the jobs that pass the filter, in the
-- order of the snapshot, up to the limit.
use ippper_rs.Prelude.{
  ℕ, ℤ, zero, suc, pos, negsuc, ◌-◌, ◌≡◌, refl, sym, ap, ◌∙◌, inl, inr, String, List, [], ◌∷◌, ◌++◌,
  map, Option, none, some, take, arith, leb, reaches, map_or, Bool-cases, true, false,
  if◌then◌else◌,
}
use mathlib.Core.List.{append-nil, append_assoc}
use ippper_rs.Ipp.Enums.{job_attributes, successful_ok}
use ippper_rs.Ipp.HashMap
use ippper_rs.Ipp.Attributes.{IppAttribute, IppAttributeGroup, IppRequestResponse}
use ippper_rs.Ipp.Http.{ReqParts}
use ippper_rs.Ipp.External.{External}
use ippper_rs.Model.{WhichJob, match_state, converted}
use ippper_rs.Service.Simple.Info.{JobInfo}
use ippper_rs.Service.Simple.JobAttributes.{job_attributes_for}
use ippper_rs.Service.Simple.State.{SimpleIppService}
use ippper_rs.Service.Simple.Responses.{push_group, basic_response}
use ippper_rs.Service.Simple.Documents.{Ambient}
use ippper_rs.Service.Simple.Handlers.{list_jobs, answer_jobs}

-- How many more jobs a limit allows after `count` jobs: one at least.
abbrev pub quota : ℤ → ℕ → ℕ
quota (pos x) count = if leb x (suc count) then 1 else x - count
quota (negsuc x) count = 1

abbrev pub bounded : Option ℤ → ℕ → List ℕ → List ℕ
bounded none count hs = hs
bounded (some x) count hs = take (quota x count) hs

-- The handles of the jobs that pass a filter.
abbrev pub matching : (ℕ → JobInfo) → WhichJob → List (ℤ × ℕ) → List ℕ
matching cells which [] = []
matching cells which ((k, h) ∷ rest) =
    let later = matching cells which rest in
    if match_state which (cells h).state then h ∷ later else later

take_nil : (n : ℕ) → take {A = ℕ} n [] ≡ []
take_nil zero = refl
take_nil (suc n) = refl

bounded_nil : (limit : Option ℤ) (count : ℕ) → bounded limit count [] ≡ []
bounded_nil none count = refl
bounded_nil (some x) count = take_nil (quota x count)

-- The last job that the limit allows, and one before it.
bounded_last :
    (limit : Option ℤ) (count h : ℕ) (hs : List ℕ)
    → map_or limit false (reaches (suc count)) ≡ true
    → bounded limit count (h ∷ hs) ≡ h ∷ []
bounded_last none count h hs e = cc
bounded_last (some (negsuc x)) count h hs e = refl
bounded_last (some (pos x)) count h hs e = rw e refl

quota-suc :
    (x : ℤ) (count : ℕ) → reaches (suc count) x ≡ false → quota x count ≡ suc (quota x (suc count))
quota-suc x count e = ground arith

bounded_more :
    (limit : Option ℤ) (count h : ℕ) (hs : List ℕ)
    → map_or limit false (reaches (suc count)) ≡ false
    → bounded limit count (h ∷ hs) ≡ h ∷ bounded limit (suc count) hs
bounded_more none count h hs e = refl
bounded_more (some x) count h hs e = ap (λ n. take n (h ∷ hs)) (quota-suc x count e)

module _ {P : Type 0} (ext : External P) (env : Ambient P) (head : ReqParts) (s : SimpleIppService)
    (requested : List String) where
  abbrev attrs : ℕ → ℕ → List IppAttribute
  attrs count h =
      job_attributes_for ext s.host s.basepath head (s.cells h) requested (env.uptime count)

  -- The attributes of a job, as they stand when it is the `count`-th to be listed.
  abbrev pub job_group : ℕ → ℕ → IppAttributeGroup
  job_group count h = record {
    tag = job_attributes;
    attributes = HashMap.extend [] (map (λ a. (a.name, a)) (attrs count h));
  }

  abbrev pub job_groups : ℕ → List ℕ → List IppAttributeGroup
  job_groups count [] = []
  job_groups count (h ∷ hs) = job_group count h ∷ job_groups (suc count) hs

  module _ (which : WhichJob) (limit : Option ℤ) where
    list_jobs_lem :
        (count : ℕ) (entries : List (ℤ × ℕ)) (resp : IppRequestResponse P)
        → (list_jobs ext env head s which limit requested count entries resp).attributes.groups
          ≡ resp.attributes.groups
            ++ job_groups count (bounded limit count (matching s.cells which entries))
    unfolding list_jobs push_group
    list_jobs_lem count [] resp =
        rw (bounded_nil limit count) (sym (append-nil resp.attributes.groups))
    list_jobs_lem count ((k, h) ∷ rest) resp =
        elim (Bool-cases (match_state which (s.cells h).state)) [
          | inr other ↦ rw (other, list_jobs) (list_jobs_lem count rest resp)
          | inl fits ↦ elim (Bool-cases (map_or limit false (reaches (suc count)))) [
            | inl full ↦
                rw (fits, full, bounded_last limit count h (matching s.cells which rest) full) refl
            | inr room ↦
                rw (fits, room, bounded_more limit count h (matching s.cells which rest) room)
                  (list_jobs_lem (suc count) rest
                      (push_group ext job_attributes (attrs count h) resp)
                    ∙ append_assoc resp.attributes.groups (job_group count h ∷ []) _)
          ]
        ]

    -- The answer to `get_jobs` for a filter holds, behind the groups of a basic response, one group
    -- of job attributes for each job of the snapshot that passes the filter, in the order of the
    -- snapshot and at most as many as the limit says; a limit below 1 counts as 1.
    pub answer_jobs-groups :
        (req : IppRequestResponse P)
        → (answer_jobs ext env head req s limit requested (converted which)).attributes.groups
          ≡ (basic_response ext req successful_ok).attributes.groups
            ++ job_groups 0
                (bounded limit 0 (matching s.cells which (ext.cache_iter s.job_snapshot)))
    unfolding answer_jobs
    answer_jobs-groups req = list_jobs_lem 0 (ext.cache_iter s.job_snapshot) _
