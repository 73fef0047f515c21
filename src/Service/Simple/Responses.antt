-- ===== src/Service/Simple/Responses.antt =====
-- The responses that the operations of service/simple.rs build.
use ippper_rs.Prelude.{List, [], ◌∷◌, ◌++◌, map}
use ippper_rs.Ipp.Enums.{DelimiterTag, operation_attributes, job_attributes, StatusCode}
use ippper_rs.Ipp.Value.{charset, natural_language}
use ippper_rs.Ipp.HashMap
use ippper_rs.Ipp.Attributes.{IppAttribute, attribute, IppRequestResponse}
use ippper_rs.Ipp.Http.{ReqParts}
use ippper_rs.Ipp.External.{External}
use ippper_rs.Service.Simple.Info.{JobInfo}
use ippper_rs.Service.Simple.JobAttributes.{lite_job_attributes_for}
use ippper_rs.Service.Simple.State.{SimpleIppService}

module _ {P : Type 0} (ext : External P) where
  -- The charset and the language.
  unfoldable pub add_basic_attributes : IppRequestResponse P → IppRequestResponse P
  add_basic_attributes resp =
      let r₁ =
        ext.add resp.attributes operation_attributes
          (attribute ext.names.attributes_charset (charset "utf-8")) in
      record resp {
        attributes =
            ext.add r₁ operation_attributes
              (attribute ext.names.attributes_natural_language (natural_language "en"));
      }

  -- `new_response` for the request, then `add_basic_attributes`.
  unfoldable pub basic_response : IppRequestResponse P → StatusCode → IppRequestResponse P
  basic_response req status =
      add_basic_attributes (ext.new_response req.header.version status req.header.request_id)

  -- A group that holds the attributes under their names, pushed behind the groups of a response.
  unfoldable pub push_group :
      DelimiterTag → List IppAttribute → IppRequestResponse P → IppRequestResponse P
  push_group tag attrs resp = record resp {
    attributes = record {
      groups =
          resp.attributes.groups
          ++ record { tag = tag; attributes = HashMap.extend [] (map (λ a. (a.name, a)) attrs) }
            ∷ [];
    };
  }

  -- The response that describes a job.
  unfoldable pub job_response :
      SimpleIppService → ReqParts → JobInfo → IppRequestResponse P → IppRequestResponse P
  job_response s head job resp =
      push_group job_attributes (lite_job_attributes_for ext s.host s.basepath head job)
        (add_basic_attributes resp)
