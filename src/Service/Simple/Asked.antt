-- ===== src/Service/Simple/Asked.antt =====
-- What a client reads in the answers of service/simple.rs to requests for attributes by their names.
use ippper_rs.Prelude.{
  ℕ, String, ◌≡◌, refl, ap, ◌∙◌, Bool, true, false, List, [], ◌∷◌, Option, none, some, arith,
  eq_iff, map, select, if◌then◌else◌, map_option, Bool-cases, inl, inr,
}
use ippper_rs.Ipp.Enums.{
  DelimiterTag, same_tag, operation_attributes, job_attributes, printer_attributes, successful_ok,
}
use ippper_rs.Ipp.Value.{IppValue, keyword, array}
use ippper_rs.Ipp.HashMap.{HashMap, get, extend, get-insert}
use ippper_rs.Ipp.Attributes.{IppAttribute, IppRequestResponse, find_value}
use ippper_rs.Ipp.Http.{ReqParts}
use ippper_rs.Ipp.External.{External, Documented}
use ippper_rs.Error.{ok, IppResult}
use ippper_rs.Utils.{get_ipp_attribute, get_requested_attributes, filter_map, contains}
use ippper_rs.Utils.Lookup.{get_ipp_attribute-eq-find_value}
use ippper_rs.Service.Simple.State.{SimpleIppService, find_job}
use ippper_rs.Service.Simple.Responses.{add_basic_attributes, basic_response, push_group}
use ippper_rs.Service.Simple.Documents.{Ambient}
use ippper_rs.Service.Simple.Handlers.{get_printer_attributes, get_job_attributes}
use ippper_rs.Service.Simple.Reports.{find_value-append}
use ippper_rs.Service.Simple.ByName.{printer_attributes-by_names, job_attributes_for-by_names}

-- The attributes under their names.
abbrev pub filed : List IppAttribute → HashMap IppAttribute
filed attrs = extend [] (map (λ a. (a.name, a)) attrs)

-- Filing some of the attributes, by their names, gives the entries of those names.
get-extend-select :
    (p : String → Bool) (n : String) (attrs : List IppAttribute) (m m' : HashMap IppAttribute)
    → get m n ≡ (if p n then get m' n else none)
    → get (extend m (map (λ a. (a.name, a)) (select (λ a. p a.name) attrs))) n
      ≡ (if p n then get (extend m' (map (λ a. (a.name, a)) attrs)) n else none)
unfolding extend
get-extend-select p n [] m m' e = e
get-extend-select p n (a ∷ attrs) m m' e = elim (Bool-cases (p a.name)) [
  | inl kept ↦ rw kept (
      get-extend-select p n attrs _ _
        (ground (arith, get-insert m a.name n a, get-insert m' a.name n a, eq_iff a.name n)))
  | inr left ↦
      rw left (
        get-extend-select p n attrs _ _ (ground (arith, get-insert m' a.name n a, eq_iff a.name n)))
]

module _ {P : Type 0} {ext : External P} (doc : Documented ext) where
  filter_map-keyword : (names : List String) → filter_map ext.as_keyword (map keyword names) ≡ names
  filter_map-keyword [] = refl
  filter_map-keyword (n ∷ names) =
      rw (doc.as_keyword_lem (keyword n)) (ap (λ t. n ∷ t) (filter_map-keyword names))

  -- The attributes that a request asks for.
  abbrev pub asked_for : IppRequestResponse P → Option IppValue
  asked_for req =
      get_ipp_attribute ext req.attributes operation_attributes ext.names.requested_attributes

  requested-names :
      (req : IppRequestResponse P) (names : List String)
      → asked_for req ≡ some (array (map keyword names))
      → get_requested_attributes ext req.attributes ≡ names
  unfolding get_requested_attributes
  requested-names req names asked =
      rw (asked, doc.iter_array (map keyword names)) (filter_map-keyword names)

  pub requested-all :
      (req : IppRequestResponse P)
      → asked_for req ≡ none
      → get_requested_attributes ext req.attributes ≡ "all" ∷ []
  unfolding get_requested_attributes
  requested-all req asked = rw asked refl

  -- What a response says of a printer or of a job under a name.
  abbrev pub said : DelimiterTag → IppRequestResponse P → String → Option IppValue
  said tag resp n = get_ipp_attribute ext resp.attributes tag n

  -- What a response says under a name is, if the name is among those that were asked for, what the
  -- response to a request that asks for nothing in particular says, and otherwise nothing.
  abbrev pub SaysAsked : List String → String → DelimiterTag → IppResult P → IppResult P → Type 0
  SaysAsked names n tag (ok resp) (ok resp') =
      said tag resp n ≡ (if contains names n then said tag resp' n else none)
  SaysAsked names n tag _ _ = ⊥

  module _ (tag : DelimiterTag) (other : same_tag operation_attributes tag ≡ false)
      (other' : same_tag tag operation_attributes ≡ false) (same : same_tag tag tag ≡ true) where
    basic_response-silent :
        (req : IppRequestResponse P) (n : String)
        → find_value (basic_response ext req successful_ok).attributes.groups tag n ≡ none
    unfolding basic_response add_basic_attributes
    basic_response-silent req n =
        doc.find-add _ operation_attributes tag _ n
        ∙ rw other (
            doc.find-add _ operation_attributes tag _ n
            ∙ rw other (doc.find-new_response _ _ _ tag n other'))

    abbrev answer_with : IppRequestResponse P → List IppAttribute → IppRequestResponse P
    answer_with req attrs = push_group ext tag attrs (basic_response ext req successful_ok)

    pub said-answer_with :
        (req : IppRequestResponse P) (attrs : List IppAttribute) (n : String)
        → said tag (answer_with req attrs) n ≡ map_option (λ a. a.value) (get (filed attrs) n)
    unfolding push_group
    said-answer_with req attrs n =
        get_ipp_attribute-eq-find_value doc _ tag n
        ∙ find_value-append (basic_response ext req successful_ok).attributes.groups _ tag n
            (basic_response-silent req n)
        ∙ rw same refl

    said-by_names :
        (req every : IppRequestResponse P) (names : List String) (attrs attrs' : List IppAttribute)
        (n : String)
        → attrs ≡ select (λ a. contains names a.name) attrs'
        → said tag (answer_with req attrs) n
          ≡ (if contains names n then said tag (answer_with every attrs') n else none)
    unfolding get
    said-by_names req every names attrs attrs' n e =
        said-answer_with req attrs n
        ∙ ap (λ t. map_option (λ a. a.value) (get (filed t) n)) e
        ∙ ap (map_option (λ a. a.value))
            (get-extend-select (contains names) n attrs' [] [] (ground arith))
        ∙ ground (arith, said-answer_with every attrs' n)

  module _ (env : Ambient P) (head : ReqParts) (req every : IppRequestResponse P)
      (names : List String) (s : SimpleIppService) (n : String)
      (asked : asked_for req ≡ some (array (map keyword names))) (all : asked_for every ≡ none)
      (no_all : contains names "all" ≡ false)
      (no_template : contains names "job-template" ≡ false) where
    -- The answer to `get_printer_attributes` with the names of some attributes, none of them the name
    -- of a group of attributes, gives for each name that it was asked for what the answer to a
    -- request without `requested-attributes` gives, and under any other name nothing.
    pub get_printer_attributes-SaysAsked :
        contains names "printer-description" ≡ false
        → SaysAsked names n printer_attributes
            (get_printer_attributes ext env head req s).0
            (get_printer_attributes ext env head every s).0
    unfolding get_printer_attributes
    get_printer_attributes-SaysAsked no_group =
        rw (requested-names req names asked, requested-all every all)
          (said-by_names printer_attributes refl refl refl req every names _ _ n (
            printer_attributes-by_names ext s.host s.basepath head (env.uptime 0) names no_all
              no_template s.info no_group))

    -- Of two requests to `get_job_attributes` that find the same job, one with the names of some
    -- attributes, none of them the name of a group of attributes, and one without
    -- `requested-attributes`: the answer to the first gives for each name that it asks for what the
    -- answer to the second gives, and under any other name nothing.
    pub get_job_attributes-SaysAsked :
        (h : ℕ)
        → contains names "job-description" ≡ false
        → find_job ext s req.attributes ≡ ok h
        → find_job ext s every.attributes ≡ ok h
        → SaysAsked names n job_attributes
            (get_job_attributes ext env head req s).0
            (get_job_attributes ext env head every s).0
    unfolding get_job_attributes
    get_job_attributes-SaysAsked h no_group found found' =
        rw
          (
            found,
            found',
            get_job_attributes,
            requested-names req names asked,
            requested-all every all,
          )
          (said-by_names job_attributes refl refl refl req every names _ _ n (
            job_attributes_for-by_names ext s.host s.basepath head (env.uptime 0) names no_all
              no_template (s.cells h) no_group))
