-- ===== src/Tests/Codec.antt =====
-- A small encoder of JSON, and decoders that know the texts of the requests they are given.
use svc_web_analyzer.Prelude.{
  String, ◌<>◌, ◌≡◌, subst, arith, eq_refl, refl, true, false, Option, none, some, str_eq,
  if◌then◌else◌,
}
use svc_web_analyzer.Domain.{
  AnalysisOptions, AnalysisRequestPayload, Payload, Priority, generic, request,
}
use svc_web_analyzer.Domain.Errors.{decimal}
use svc_web_analyzer.Worker.{
  Json, JsonFields, JsonItems, MessageCodec, array, bool, field, item, no_fields, no_items, null,
  number, object, text,
}

abbrev quoted : String → String
quoted s = "\"" <> s <> "\""

unfoldable mutual
  pub encode : Json → String
  encode null = "null"
  encode (bool true) = "true"
  encode (bool false) = "false"
  encode (number s) = s
  encode (text s) = quoted s
  encode (array items) = "[" <> encode_items items <> "]"
  encode (object fields) = "{" <> encode_fields fields <> "}"

  pub encode_items : JsonItems → String
  encode_items no_items = ""
  encode_items (item j rest) = encode j <> "," <> encode_items rest

  pub encode_fields : JsonFields → String
  encode_fields no_fields = ""
  encode_fields (field name j rest) = quoted name <> ":" <> encode j <> "," <> encode_fields rest

abbrev priority_text : Priority → String
priority_text Priority.low = "low"
priority_text Priority.normal = "normal"
priority_text Priority.high = "high"
priority_text Priority.urgent = "urgent"

abbrev options_json : AnalysisOptions → Json
options_json o = object (
    field "include_headings" (bool o.include_headings) (
      field "check_links" (bool o.check_links) (
        field "detect_forms" (bool o.detect_forms)
          (field "timeout" (number (decimal o.timeout)) no_fields))))

abbrev pub request_json : AnalysisRequestPayload → Json
request_json q = object (
    field "analysis_id" (text q.analysis_id) (
      field "url" (text q.url) (
        field "options" (options_json q.options) (
          field "priority" (text (priority_text q.priority))
            (field "created_at" (text (decimal q.created_at)) no_fields)))))

abbrev pub payload_json : Payload → Json
payload_json (request q) = request_json q
payload_json (generic s) = text s

abbrev pub message_json : Json → Json
message_json body = object (field "body" body no_fields)

-- the decoder that knows the text of this value
abbrev pub decode_as {ℓ} : {A : Type ℓ} → Json → A → String → Option A
decode_as j a s = if str_eq s (encode j) then some a else none

abbrev pub codec : AnalysisRequestPayload → MessageCodec
codec q = record {
  unmarshal_message = decode_as (message_json (request_json q)) (request_json q);
  marshal_message = λ j. some (encode (message_json j));
  marshal_any = λ j. some (encode j);
  unmarshal_request = decode_as (request_json q) q;
}

pub decode_as-encode {ℓ} :
    {A : Type ℓ} (j : Json) (a : A) {s : String}
    → some (encode j) ≡ some s
    → decode_as j a s ≡ some a
decode_as-encode j a {s} said =
    let same : encode j ≡ s = ground (arith, said) in
    subst (λ t. decode_as j a t ≡ some a) same (rw (eq_refl (encode j)) refl)
