-- ===== src/Mcp/Protocol.antt =====
-- mcp_server/protocol.py: JSON-RPC messages, their answers, and the loop over the client's lines.
pub mod Answers
mod Tests
use py_bike_router.Base.{
  String, Option, none, some, List, [], ◌∷◌, ◌++◌, Bool, true, false, not, ◌&&◌, str_eq, contains,
  if◌then◌else◌, Result, ok, err,
}
use py_bike_router.Base.Int.{ℤ, negsuc}
use py_bike_router.Base.Json.{
  Json, Items, Fields, null, boolean, integer, array, object, nil, cons, end, field, get,
  get_or_null,
}
use py_bike_router.Base.Text.{is_blank, concat}

abbrev pub parse_error : ℤ
parse_error = negsuc 32_699

abbrev pub invalid_request : ℤ
invalid_request = negsuc 32_599

abbrev pub method_not_found : ℤ
method_not_found = negsuc 32_600

abbrev pub invalid_params : ℤ
invalid_params = negsuc 32_601

abbrev pub supported_versions : List String
supported_versions = "2025-06-18" ∷ "2025-03-26" ∷ "2024-11-05" ∷ []

-- What `ToolProvider.call` raises: `KeyError`, or another exception.
pub data ToolFailure : Type 0 where
  key_error : ToolFailure
  raised : String → ToolFailure

-- The server: its tools, and `dumps` for the text of a tool's result.
pub record McpServer : Type 0 where
  pub definitions : Items
  pub call : String → Fields → Result ToolFailure (Json × Bool)
  pub info : Json
  pub instructions : Option String
  pub dumps : Json → String

abbrev pub error : Json → ℤ → String → Json
error id code message = object (
    field "jsonrpc" (Json.text "2.0") (
      field "id" id (
        field "error"
          (object (field "code" (integer code) (field "message" (Json.text message) end))) end)))

abbrev pub response : Json → Json → Json
response id result =
    object (field "jsonrpc" (Json.text "2.0") (field "id" id (field "result" result end)))

-- wanted if wanted in SUPPORTED_VERSIONS else SUPPORTED_VERSIONS[0]
abbrev pub agreed_version : Json → String
agreed_version (Json.text wanted) =
    if contains wanted supported_versions then wanted else "2025-06-18"
agreed_version _ = "2025-06-18"

abbrev pub instructions_field : Option String → Fields
instructions_field none = end
instructions_field (some s) = if str_eq s "" then end else field "instructions" (Json.text s) end

abbrev pub initialize : McpServer → Json → Fields → Json
initialize server id params = response id (
    object (
      field "protocolVersion" (Json.text (agreed_version (get_or_null "protocolVersion" params))) (
        field "capabilities"
          (object (field "tools" (object (field "listChanged" (boolean false) end)) end))
          (field "serverInfo" server.info (instructions_field server.instructions)))))

abbrev pub list_tools : McpServer → Json → Json
list_tools server id = response id (object (field "tools" (array server.definitions) end))

abbrev pub tool_result : McpServer → Json → Json → Bool → Json
tool_result server id data_ is_error = response id (
    object (
      field "content"
        (array (
          cons
            (object
              (field "type" (Json.text "text") (field "text" (Json.text (server.dumps data_)) end)))
            nil))
        (field "structuredContent" data_ (field "isError" (boolean is_error) end))))

abbrev pub tool_failed : Json
tool_failed =
    object (field "error" (Json.text "the tool failed unexpectedly; see the server's log") end)

abbrev pub called : McpServer → Json → String → Result ToolFailure (Json × Bool) → Json
called server id name (ok (data_, is_error)) = tool_result server id data_ is_error
called server id name (err ToolFailure.key_error) =
    error id invalid_params (concat "unknown tool: " name)
called server id name (err (ToolFailure.raised e)) = tool_result server id tool_failed true

-- params.get("arguments", {})
abbrev pub arguments_of : Fields → Json
arguments_of params = elim (get "arguments" params) [ none ↦ object end | some v ↦ v ]

abbrev pub call_with : McpServer → Json → Json → Json → Json
call_with server id (Json.text name) (object arguments) =
    called server id name (server.call name arguments)
call_with server id _ _ = error id invalid_params "tools/call needs a name and arguments"

abbrev pub call_tool : McpServer → Json → Fields → Json
call_tool server id params = call_with server id (get_or_null "name" params) (arguments_of params)

-- The dictionary of the handlers.
unfoldable pub dispatch : McpServer → String → Json → Fields → Json
dispatch server method id params =
    if str_eq method "initialize"
    then initialize server id params
    else if str_eq method "ping"
    then response id (object end)
    else if str_eq method "tools/list"
    then list_tools server id
    else if str_eq method "tools/call"
    then call_tool server id params
    else error id method_not_found (concat "method not found: " method)

-- `params or {}`, where `params` is an object or missing; any other kind is refused.
abbrev pub params_of : Json → Option Fields
params_of null = some end
params_of (object fs) = some fs
params_of _ = none

abbrev pub is_text : Json → String → Bool
is_text (Json.text s) expected = str_eq s expected
is_text _ expected = false

abbrev pub with_params : McpServer → String → Json → Option Fields → Json
with_params server method id none = error id invalid_params "params must be an object"
with_params server method id (some params) = dispatch server method id params

-- The method's name is known; a message without an identifier is a notification.
abbrev pub with_id : McpServer → String → Fields → Option Json → Option Json
with_id server method fs none = none
with_id server method fs (some id) =
    some (with_params server method id (params_of (get_or_null "params" fs)))

abbrev pub with_method : McpServer → Fields → Json → Option Json
with_method server fs (Json.text method) =
    if is_text (get_or_null "jsonrpc" fs) "2.0"
    then with_id server method fs (get "id" fs)
    else some (error (get_or_null "id" fs) invalid_request "not a JSON-RPC 2.0 request")
with_method server fs _ =
    some (error (get_or_null "id" fs) invalid_request "not a JSON-RPC 2.0 request")

unfoldable pub handle : McpServer → Json → Option Json
unfolding dispatch
handle server (object fs) = with_method server fs (get_or_null "method" fs)
handle server _ = some (error null invalid_request "a JSON-RPC message is an object (no batches)")

-- `loads` is `json.loads`: `none` for the errors that the loop catches.
module _ (loads : String → Option Json) where
  abbrev pub answer : McpServer → Option Json → Option Json
  answer server none = some (error null parse_error "invalid JSON")
  answer server (some message) = handle server message

  abbrev pub answered : Option Json → List Json → List Json
  answered none rest = rest
  answered (some r) rest = r ∷ rest

  -- The messages that the loop writes for the client's lines.
  unfoldable pub serve : McpServer → List String → List Json
  unfolding handle is_blank
  serve server [] = []
  serve server (line ∷ lines) =
      let rest = serve server lines in
      if is_blank line then rest else answered (answer server (loads line)) rest
