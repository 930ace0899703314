-- ===== src/Lambda/Handler.antt =====
-- src/test_aws_lambda.cpp: the answer of the handler.
use example.Base.{◌≡◌, refl, List, Text, codes}
use example.Lambda.{
  Json, null, number, string, array, tables, failed, succeeded, failure, index, reply_json, handler,
}

-- The number of the status code, the table list and the text that a reply carries.
abbrev pub status_code : Json → Json
status_code j = index j (codes "statusCode")

abbrev pub body_field : Text → Json → Json
body_field key j = index (index j (codes "body")) key

-- A reply to a successful query is a success of type application/json with status code 200, all the
-- tables and the text in its body; a reply to a failed one is a failure that carries the error's own
-- message, with status code 500 and no body.
pub handler_cases :
    (dump : Json → Text) (all_tables : List Text) (message : Text)
    → ((j : Json) × (handler dump (tables all_tables)
          ≡ succeeded (dump j) (codes "application/json"))
        × (status_code j ≡ number 200)
        × (body_field (codes "list_tables") j ≡ array all_tables)
        × (body_field (codes "text") j ≡ string (codes "cpp's list api")))
      × ((j : Json) × (handler dump (failed message) ≡ failure (dump j) message)
          × (status_code j ≡ number 500)
          × (index j (codes "body") ≡ null))
unfolding handler index
handler_cases dump all_tables message = (
  (reply_json (tables all_tables), refl, refl, refl, refl),
  (reply_json (failed message), refl, refl, refl),
)
