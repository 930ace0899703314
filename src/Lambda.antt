-- ===== src/Lambda.antt =====
-- src/test_aws_lambda.cpp, and the same functions in src/test.cpp: the endpoint of the database client
-- and the handler of an invocation.
pub mod Endpoint
pub mod Handler
pub mod Main
pub mod Lifecycle
mod Tests
use example.Base.{
  ℕ, zero, suc, ◌+◌, ◌≤◌, ◌<◌, ◌≡◌, Bool, true, false, Option, none, some, List, [], ◌∷◌, ◌++◌, leb,
  ltb, if◌then◌else◌, length, Text, codes, eq_text,
}
use example.Base.Slices.{take, zeroed}

-- A write of bytes into a `char` array from its start; `none` is a write past its end.
unfoldable pub write_bytes : Text → Text → Option Text
write_bytes buffer [] = some buffer
write_bytes [] (b ∷ bytes) = none
write_bytes (x ∷ buffer) (b ∷ bytes) = elim (write_bytes buffer bytes) [
  | none ↦ none
  | some rest ↦ some (b ∷ rest)
]

-- The `std::string` of a `char` array: its bytes up to the first zero.
abbrev pub c_string : Text → Text
c_string [] = []
c_string (zero ∷ buffer) = []
c_string (suc c ∷ buffer) = suc c ∷ c_string buffer

abbrev pub buffer_size : ℕ
buffer_size = 128

abbrev pub port_suffix : Text
port_suffix = codes ":4566"

-- `sprintf(buffer, "%s:4566", hostname)`: the text and its closing zero.
unfoldable pub sprintf_endpoint : Text → Text → Option Text
unfolding write_bytes
sprintf_endpoint buffer hostname = write_bytes buffer (hostname ++ (port_suffix ++ (0 ∷ [])))

-- `getEndpoint`, for the value of LOCALSTACK_HOSTNAME; `none` is undefined behaviour.
unfoldable pub get_endpoint : Option Text → Option Text
unfolding sprintf_endpoint
get_endpoint none = some (codes "localhost:4566")
get_endpoint (some hostname) = elim (sprintf_endpoint (zeroed buffer_size) hostname) [
  | none ↦ none
  | some buffer ↦ some (c_string buffer)
]

pub data Scheme : Type 0 where
  http https : Scheme

-- The fields of the client's configuration and credentials that the program sets.
pub record DynamoDbClient : Type 0 where
  pub region : Text
  pub scheme : Scheme
  pub endpoint_override : Text
  pub access_key_id : Text
  pub secret_key : Text

unfoldable pub create_dynamo_db_client : Option Text → Text → Text → Text → Option DynamoDbClient
unfolding get_endpoint
create_dynamo_db_client hostname region access_key_id secret_key = elim (get_endpoint hostname) [
  | none ↦ none
  | some endpoint ↦ some (record {
    region = region;
    scheme = http;
    endpoint_override = endpoint;
    access_key_id = access_key_id;
    secret_key = secret_key;
  })
]

-- The values of `nlohmann::json` that the handler builds. The order of an object's keys is left to
-- `dump`.
mutual
  pub data Json : Type 0 where
    null : Json
    number : ℕ → Json
    string : Text → Json
    array : List Text → Json
    object : Fields → Json

  pub data Fields : Type 0 where
    end : Fields
    field : Text → Json → Fields → Fields

-- `j[key]` read, which is null where there is no such key.
unfoldable pub find_field : Text → Fields → Json
find_field key end = null
find_field key (field k v fs) = if eq_text k key then v else find_field key fs

unfoldable pub set_field : Text → Json → Fields → Fields
set_field key w end = field key w end
set_field key w (field k v fs) =
    if eq_text k key then field k w fs else field k v (set_field key w fs)

abbrev pub fields_of : Json → Fields
fields_of (object fs) = fs
fields_of _ = end

-- `j[key]` and `j[key] = w`; a null becomes an object. The handler indexes nulls and objects only.
unfoldable pub index : Json → Text → Json
unfolding find_field
index j key = find_field key (fields_of j)

unfoldable pub assign : Text → Json → Json → Json
unfolding set_field
assign key w j = object (set_field key w (fields_of j))

-- What `ListTables` comes back with.
pub data ListTablesOutcome : Type 0 where
  tables : List Text → ListTablesOutcome
  failed : Text → ListTablesOutcome

pub data InvocationResponse : Type 0 where
  succeeded : Text → Text → InvocationResponse
  failure : Text → Text → InvocationResponse

-- `j` at the end of the handler, for each outcome.
unfoldable pub reply_json : ListTablesOutcome → Json
unfolding assign index
reply_json (failed message) = assign (codes "statusCode") (number 500) null
reply_json (tables all_tables) =
    let j₁ = assign (codes "statusCode") (number 200) null in
    let j₂ =
      assign (codes "body")
        (assign (codes "list_tables") (array all_tables) (index j₁ (codes "body"))) j₁ in
    assign (codes "body")
      (assign (codes "text") (string (codes "cpp's list api")) (index j₂ (codes "body"))) j₂

-- The handler that main runs; `dump` is the library's.
unfoldable pub handler : (Json → Text) → ListTablesOutcome → InvocationResponse
unfolding reply_json
handler dump (failed message) = failure (dump (reply_json (failed message))) message
handler dump (tables all_tables) =
    succeeded (dump (reply_json (tables all_tables))) (codes "application/json")
