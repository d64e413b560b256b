-- ===== src/Mcp/Tools/Schemas.antt =====
-- browserd/mcp/mcp_tool.cc: the schemas of the arguments of tools.
use browserd.Shared.{String, List, [], ◌∷◌, map, if◌then◌else◌, ◌==◌}
use browserd.Platform.Json.{Json}

module _ (J : Json) where
  open J use {Dict, set, empty, of_string, of_dict, of_list}

  pub image_content : String → String → List J.Value
  image_content base64_data mime_type =
      of_dict (
        set (set (set empty "type" (of_string "image")) "data" (of_string base64_data)) "mimeType"
          (of_string mime_type))
      ∷ []

  -- A schema with its properties, and the keys that are required, if there are any.
  unfoldable pub schema_object : Dict → List String → Dict
  schema_object properties [] =
      set (set empty "type" (of_string "object")) "properties" (of_dict properties)
  schema_object properties (r ∷ rs) =
      set (set (set empty "type" (of_string "object")) "properties" (of_dict properties)) "required"
        (of_list (map of_string (r ∷ rs)))

  abbrev described : String → String → Dict
  described type desc =
      let prop = set empty "type" (of_string type) in
      if desc == "" then prop else set prop "description" (of_string desc)

  pub schema_string : String → Dict
  schema_string desc = described "string" desc

  pub schema_int : String → Dict
  schema_int desc = described "integer" desc

  pub schema_bool : String → Dict
  schema_bool desc = described "boolean" desc
