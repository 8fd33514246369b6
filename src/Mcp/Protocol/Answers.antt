-- ===== src/Mcp/Protocol/Answers.antt =====
-- mcp_server/protocol.py: every request is answered once, and a notification never.
use py_bike_router.Base.{
  ◌≡◌, refl, ◌⊎◌, inl, inr, Bool-cases, String, Option, none, some, List, [], ◌∷◌, Bool, true,
  false, ◌&&◌, str_eq, if◌then◌else◌, Result, ok, err,
}
use py_bike_router.Base.Int.{ℤ}
use py_bike_router.Base.Json.{Json, Fields, null, object, get, get_or_null}
use py_bike_router.Base.Text.{is_blank}
use py_bike_router.Mcp.Protocol.{
  McpServer, ToolFailure, error, response, called, call_with, arguments_of, dispatch, params_of,
  is_text, with_params, with_id, with_method, handle, answer, answered, serve,
}

-- The identifier that an answer to a message repeats.
abbrev pub id_of : Json → Json
id_of (object fs) = get_or_null "id" fs
id_of _ = null

abbrev pub is_missing : Option Json → Bool
is_missing none = true
is_missing (some v) = false

abbrev has_name : Json → Bool
has_name (Json.text s) = true
has_name _ = false

-- A JSON-RPC 2.0 request without an identifier.
abbrev pub is_notification : Json → Bool
is_notification (object fs) =
    has_name (get_or_null "method" fs)
    && is_text (get_or_null "jsonrpc" fs) "2.0"
    && is_missing (get "id" fs)
is_notification _ = false

-- A JSON-RPC answer: a result or an error, for the request with this identifier.
abbrev pub Answers : Json → Json → Type 0
Answers id r =
    ((result : Json) × (r ≡ response id result))
    ⊎ ((code : ℤ) × (message : String) × (r ≡ error id code message))

abbrev pub AnswersTo : (notification : Bool) → Json → Option Json → Type 0
AnswersTo true id r = r ≡ none
AnswersTo false id r = (a : Json) × (r ≡ some a) × Answers id a

called-Answers :
    (server : McpServer) (id : Json) (name : String) (r : Result ToolFailure (Json × Bool))
    → Answers id (called server id name r)
called-Answers server id name (ok (d, e)) = inl (_, refl)
called-Answers server id name (err ToolFailure.key_error) = inr (_, _, refl)
called-Answers server id name (err (ToolFailure.raised e)) = inl (_, refl)

call_with-Answers :
    (server : McpServer) (id name arguments : Json)
    → Answers id (call_with server id name arguments)
call_with-Answers server id (Json.text name) (object arguments) =
    called-Answers server id name (server.call name arguments)
call_with-Answers server id name arguments = inr (_, _, refl)

dispatch-Answers :
    (server : McpServer) (method : String) (id : Json) (params : Fields)
    → Answers id (dispatch server method id params)
unfolding dispatch
dispatch-Answers server method id params = elim (Bool-cases (str_eq method "initialize")) [
  | inl e ↦ rw e (inl (_, refl))
  | inr e ↦ elim (Bool-cases (str_eq method "ping")) [
    | inl f ↦ rw (e, f) (inl (_, refl))
    | inr f ↦ elim (Bool-cases (str_eq method "tools/list")) [
      | inl g ↦ rw (e, f, g) (inl (_, refl))
      | inr g ↦ elim (Bool-cases (str_eq method "tools/call")) [
        | inl h ↦
            rw (e, f, g, h)
              (call_with-Answers server id (get_or_null "name" params) (arguments_of params))
        | inr h ↦ rw (e, f, g, h) (inr (_, _, refl))
      ]
    ]
  ]
]

with_params-Answers :
    (server : McpServer) (method : String) (id : Json) (params : Option Fields)
    → Answers id (with_params server method id params)
with_params-Answers server method id none = inr (_, _, refl)
with_params-Answers server method id (some params) = dispatch-Answers server method id params

with_id-AnswersTo :
    (server : McpServer) (method : String) (fs : Fields) (id : Option Json)
    → AnswersTo (is_missing id) (elim id [ none ↦ null | some v ↦ v ]) (with_id server method fs id)
with_id-AnswersTo server method fs none = refl
with_id-AnswersTo server method fs (some id) =
    (_, refl, with_params-Answers server method id (params_of (get_or_null "params" fs)))

with_method-AnswersTo :
    (server : McpServer) (fs : Fields) (method : Json)
    → AnswersTo
        (has_name method && is_text (get_or_null "jsonrpc" fs) "2.0" && is_missing (get "id" fs))
        (get_or_null "id" fs)
        (with_method server fs method)
with_method-AnswersTo server fs (Json.text method) =
    elim (Bool-cases (is_text (get_or_null "jsonrpc" fs) "2.0")) [
      | inl e ↦ rw e (with_id-AnswersTo server method fs (get "id" fs))
      | inr e ↦ rw e (_, refl, inr (_, _, refl))
    ]
with_method-AnswersTo server fs method = (_, refl, inr (_, _, refl))

-- The server does not answer a notification, whatever its method is. It answers any other message,
-- even one that is no request at all, with one JSON-RPC result or error that repeats the message's
-- identifier, or has the identifier null where the message has none.
pub handle-AnswersTo :
    (server : McpServer) (message : Json)
    → AnswersTo (is_notification message) (id_of message) (handle server message)
unfolding handle
handle-AnswersTo server (object fs) = with_method-AnswersTo server fs (get_or_null "method" fs)
handle-AnswersTo server message = (_, refl, inr (_, _, refl))

-- The identifiers of the messages that are to be answered, in the order of the lines. Text that is no
-- JSON is answered with the identifier null.
abbrev pub await_answer : Option Json → List Json → List Json
await_answer none ids = null ∷ ids
await_answer (some m) ids = if is_notification m then ids else id_of m ∷ ids

module _ (loads : String → Option Json) where
  abbrev pub awaited : List String → List Json
  awaited [] = []
  awaited (line ∷ lines) =
      let rest = awaited lines in
      let more = await_answer (loads line) rest in if is_blank line then rest else more

abbrev pub AnswerAll : List Json → List Json → Type 0
AnswerAll [] [] = Unit
AnswerAll (id ∷ ids) (r ∷ rs) = Answers id r × AnswerAll ids rs
AnswerAll _ _ = ⊥

module _ (loads : String → Option Json) where
  answer-awaited :
      (server : McpServer) (b : Bool) (id : Json) (r : Option Json) (ids rs : List Json)
      → AnswersTo b id r
      → AnswerAll ids rs
      → AnswerAll (if b then ids else id ∷ ids) (answered loads r rs)
  answer-awaited server true id r ids rs h hs = rw h hs
  answer-awaited server false id r ids rs (a, e, h) hs = rw e (h, hs)

  line-awaited :
      (server : McpServer) (m : Option Json) (ids rs : List Json)
      → AnswerAll ids rs
      → AnswerAll (await_answer m ids) (answered loads (answer loads server m) rs)
  line-awaited server none ids rs hs = (inr (_, _, refl), hs)
  line-awaited server (some m) ids rs hs =
      answer-awaited server (is_notification m) (id_of m) (handle server m) ids rs
        (handle-AnswersTo server m) hs

  -- The loop writes one answer for each line that needs one and nothing else, in the order of the
  -- lines: blank lines and notifications need none, and a line that is no JSON needs one as well.
  pub serve-AnswerAll :
      (server : McpServer) (lines : List String)
      → AnswerAll (awaited loads lines) (serve loads server lines)
  unfolding serve
  serve-AnswerAll server [] = tt
  serve-AnswerAll server (line ∷ lines) = elim (Bool-cases (is_blank line)) [
    | inl e ↦ rw e (serve-AnswerAll server lines)
    | inr e ↦ rw e (line-awaited server (loads line) _ _ (serve-AnswerAll server lines))
  ]
