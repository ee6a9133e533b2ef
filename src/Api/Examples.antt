-- ===== src/Api/Examples.antt =====
-- Tests of the endpoints, and their theorems at concrete inputs.
use fastapi_realtime_chat_ba.Prelude.{
  String, some, none, [], ◌∷◌, ◌≡◌, refl, arith, ◌⊎◌, inl, strip, is_space,
}
use fastapi_realtime_chat_ba.Errors.{ok}
use fastapi_realtime_chat_ba.Externals.{Externals}
use fastapi_realtime_chat_ba.Auth.{
  is_user_char, is_user_id, text_claim, JwtPackage, fine, verify, mint_token, minted_claims,
}
use fastapi_realtime_chat_ba.Storage.{Signer}
use fastapi_realtime_chat_ba.Chat.Session.{Session}
use fastapi_realtime_chat_ba.Chat.Common.{SendMessageRequest}
use fastapi_realtime_chat_ba.Chat.Send.{SendInputs}
use fastapi_realtime_chat_ba.Chat.Fixture.{settings, nothing, inputs, hello}
use fastapi_realtime_chat_ba.Api.{
  answered, reply_of, HttpRequest, upload_key, demo_token, demo_route,
}
use fastapi_realtime_chat_ba.Api.Schemas.{
  checked_body, has_request_content, valid_send, PresignRequest, PresignResponse, TokenOut,
}
use fastapi_realtime_chat_ba.Api.Validated.{Checked, valid_send-Checked}
use fastapi_realtime_chat_ba.Api.Demo.{demo_token_verifies}

-- every token is alice's
abbrev package_of_alice : JwtPackage
package_of_alice = record {
  decode = λ now c. fine (("sub", text_claim "alice") ∷ []);
  signing_key = λ url token. fine "public";
  encode = λ claims secret. "token";
}

abbrev request : HttpRequest
request = record { jwt = package_of_alice; seconds = 100; credentials = some "token"; errors = [] }

-- a body of blanks, with an attachment
abbrev blank : SendMessageRequest
blank = record hello { body = some " "; attachment_key = some "u/alice/7" }

valid_blank : valid_send blank ≡ some (record blank { body = none })
unfolding valid_send has_request_content checked_body is_user_id is_user_char strip is_space
valid_blank = refl

valid_send-Checked_example : Checked blank (record blank { body = none })
valid_send-Checked_example = valid_send-Checked blank (record blank { body = none }) valid_blank

-- neither a body nor an attachment
rejected_blank : valid_send (record blank { attachment_key = none }) ≡ none
unfolding valid_send has_request_content checked_body is_user_id is_user_char strip is_space
rejected_blank = refl

abbrev alone : SendInputs
alone = inputs 100 7 nothing

abbrev signer : Signer
signer endpoint policy = some (record { url = "http://localhost/bucket"; fields = policy.fields })

abbrev same_text : String → String
same_text t = t

abbrev upload : PresignRequest
upload = record { filename = "a.png"; content_type = "image/png; q=1"; size = 10 }

abbrev granted_response : PresignResponse
granted_response = record {
  url = "http://localhost/bucket";
  fields = ("Content-Type", "image/png") ∷ [];
  key = upload_key "alice" 7 "image/png";
  expires_in = 600;
  max_bytes = 100;
}

-- every token decodes to the claims of the demo's token
abbrev demo_request : HttpRequest
demo_request = record {
  jwt = record {
    decode = λ now c. fine (minted_claims 100 "alice" 43200 "sub" none none);
    signing_key = λ url token. fine "public";
    encode = λ claims secret. "token";
  };
  seconds = 100;
  credentials = none;
  errors = [];
}

abbrev demo_answer : TokenOut
demo_answer = record {
  access_token = "token";
  token_type = "bearer";
  user_id = "alice";
  expires_in = 43200;
}

served : demo_route none demo_request settings "alice" ≡ answered 200 demo_answer
unfolding demo_route demo_token reply_of mint_token
served = refl

demo_token_verifies_example :
    (verify demo_request.jwt settings 200 "token" ≡ ok "alice")
    × ((◌≡◌ {A = String} "alice" "alice") ⊎ (◌≡◌ {A = String} "alice" "bob"))
demo_token_verifies_example =
    demo_token_verifies none demo_request settings "alice" demo_answer 200 served refl refl refl
      refl refl (inl refl) (inl refl) (omega arith) (omega arith)
      (λ c expires issued a b d e f g h i k l m. refl)
