-- ===== src/Request.antt =====
-- util-request/src/request.ts: HTTP requests with one retry. The library `got` is the parameter
-- `send`: from the function called, the URL and the options it makes the next response or fails.
pub mod Retry
use lp_clients.Base.{
  ◌≡◌, Bool, true, false, ◌&&◌, not, Option, none, some, String, str_eq, if◌then◌else◌, Task, pure,
  throw, ◌>>=◌, Failure, error, Result, ok, err,
}
use Prim.Native.String.{◌++◌}
use lp_clients.Platform.Values.{
  Value, undefined, bool, str, arr, obj, Items, nil, Fields, end, field, truthy, is_json_object,
  get, assign, to_text,
}

-- What the module takes from `got`: the function for GET, for POST, and the general one.
pub data GotFn : Type 0 where
  get_fn post_fn got_fn : GotFn

-- `statusCode` is a number, hence known by its text.
pub record Response : Type 0 where
  pub body : Value
  pub status_code : String
  pub status_message : Value
  pub headers : Fields

-- `opts`, which may be missing: `Object.assign` passes over `undefined`.
abbrev own_fields : Option Fields → Fields
own_fields none = end
own_fields (some fs) = fs

unfoldable pub request_options : Option Fields → Fields
request_options opts = assign (assign (field "headers" (arr nil) end) (own_fields opts)) (
    field "encoding" (str "utf8")
      (field "json" (bool true) (field "throwHttpErrors" (bool false) end)))

-- `${statusCode} - ${statusMessage || ""}`
abbrev status_line : Response → Result String → Failure
status_line r (ok s) = error (r.status_code ++ (" - " ++ s))
status_line r (err e) = e

abbrev thrown : Result String → Failure
thrown (ok s) = error s
thrown (err e) = e

abbrev error_field : Value → Value
error_field (obj fs) = get "error" fs
error_field _ = undefined

-- What is thrown for a status other than 200. A conversion to text may throw in its place.
unfoldable pub failure_of : Response → Failure
unfolding is_json_object truthy to_text
failure_of r =
    if is_json_object r.body && truthy (error_field r.body)
    then thrown (to_text (error_field r.body))
    else status_line r (to_text (if truthy r.status_message then r.status_message else str ""))

module _ {W : Type 0} (send : GotFn → String → Fields → Task W Response) where
  -- The end of `doRequest`, when there is no further try.
  unfoldable pub conclude : Response → Task W Response
  conclude r = if not (str_eq r.status_code "200") then throw (failure_of r) else pure r

  -- `doRequest` with `secondTry`.
  unfoldable pub second_request : GotFn → String → Option Fields → Task W Response
  unfolding conclude
  second_request f url opts = do response ← send f url (request_options opts); conclude response

  -- `doRequest` as it is called from outside, without `secondTry`.
  unfoldable pub do_request : GotFn → String → Option Fields → Task W Response
  unfolding second_request conclude
  do_request f url opts = do
    response ← send f url (request_options opts)
    if str_eq response.status_code "503" then second_request f url opts else conclude response

  unfoldable pub get_request : String → Option Fields → Task W Response
  get_request url opts = do_request get_fn url opts

  unfoldable pub post_request : String → Option Fields → Task W Response
  post_request url opts = do_request post_fn url opts

  unfoldable pub request : String → Fields → Task W Response
  request url opts = do_request got_fn url (some opts)
