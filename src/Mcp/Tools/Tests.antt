-- ===== src/Mcp/Tools/Tests.antt =====
-- The tool that types into an element, called without a text.
use browserd.Shared.{String, ◌≡◌, refl, some, []}
use mathlib.Core.List.Memᴰ
use browserd.Platform.Json.{ℤ}
use browserd.Platform.Samples.{json}
use browserd.Platform.Samples.Pages.{urls}
use browserd.Core.Screenshot.{Bytes}
use browserd.Mcp.Server
use browserd.Mcp.Tools.Registry
use browserd.Mcp.Tools.Registry.{handler_number}
use browserd.Mcp.Tools.Schemas
use browserd.Mcp.Tools.Required

abbrev number : ℤ → String
number i = "1"

abbrev base64_encode : Bytes → String
base64_encode bytes = "AA=="

abbrev server : Server.Server json
server = Server.new_server json

register_tools-find_example :
    (t : Server.ToolDef json) × (properties : json.Dict) × (Server.find_tool json
        (Registry.register_tools json (record server { tools = [] })).tools
        (Required.name_of Registry.type)
      ≡ some t)
    × (t.handler ≡ handler_number Registry.type)
    × (t.input_schema ≡ Schemas.schema_object json properties (Required.required_of Registry.type))
register_tools-find_example =
    Required.register_tools-find urls json number base64_encode Registry.type server

abbrev args : json.Dict
args = json.set json.empty "ref" (json.of_string "e12")

handle-Refuses_example :
    Required.Refuses urls (Required.handle urls json number base64_encode Registry.type args)
handle-Refuses_example =
    Required.handle-Refuses urls json number base64_encode Registry.type args "text"
      (Memᴰ.tail (Memᴰ.head refl)) refl
