-- ===== src/Mcp/Protocol/Tests.antt =====
-- The theorems on the MCP protocol at a server with one tool.
use py_bike_router.Base.{
  String, Option, none, some, List, [], ◌∷◌, false, str_eq, if◌then◌else◌, ok,
}
use py_bike_router.Base.Int.{ℤ}
use py_bike_router.Base.Json.{Json, null, integer, object, nil, end, field}
use py_bike_router.Mcp.Protocol.{McpServer, handle, serve}
use py_bike_router.Mcp.Protocol.Answers.{
  AnswersTo, AnswerAll, id_of, is_notification, awaited, handle-AnswersTo, serve-AnswerAll,
}

abbrev server : McpServer
server = record {
  definitions = nil;
  call = λ name arguments. ok (null, false);
  info = null;
  instructions = none;
  dumps = λ v. "null";
}

-- A `ping` with the identifier 7, and a notification.
abbrev ping : Json
ping = object (
    field "jsonrpc" (Json.text "2.0")
      (field "id" (integer (ℤ.pos 7)) (field "method" (Json.text "ping") end)))

abbrev initialized : Json
initialized =
    object (
      field "jsonrpc" (Json.text "2.0")
        (field "method" (Json.text "notifications/initialized") end))

abbrev loads : String → Option Json
loads line =
    if str_eq line "ping"
    then some ping
    else if str_eq line "initialized"
    then some initialized
    else none

abbrev lines : List String
lines = "initialized" ∷ "" ∷ "ping" ∷ "{" ∷ []

handle-AnswersTo_example : AnswersTo (is_notification ping) (id_of ping) (handle server ping)
handle-AnswersTo_example = handle-AnswersTo server ping

serve-AnswerAll_example : AnswerAll (awaited loads lines) (serve loads server lines)
serve-AnswerAll_example = serve-AnswerAll loads server lines
