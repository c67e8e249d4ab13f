-- ===== src/Framing/RequestTests.antt =====
-- daemon/protocol.py: a request to list a directory, and one whose operation is a list.
use astral_project.Base.{
  ℕ, ◌<◌, ◌≡◌, refl, ◌⊎◌, inr, true, false, none, some, [], ◌∷◌, arith, if◌then◌else◌, ◌==◌, nat_eq,
  string_eq, list_beq, list_eq, option_eq, pair_eq, ok, err, all, contains, codes, pos, int_eq,
}
use astral_project.Framing.Request.{
  Request, string, array, integer, type_error, parse_request, client_request, allowed_operations,
  bare_operations, client_result, make_response, in_texts, at_key, invalid_response,
  rejected_request,
}
use astral_project.Base.Dict.{get}
use astral_project.Grant.Payload.{same_set}
use astral_project.Framing.Requests.{
  IsIdentifier, parse-client_request, parse_sound, client-make_response,
}

abbrev listing : Request ℕ
listing = record {
  request_id = codes "r1";
  cancellation_id = codes "c1";
  operation = codes "ls";
  payload = some 5;
}

short_id : (c : ℕ) → c < 128 → IsIdentifier (c ∷ 49 ∷ [])
short_id c h = (refl, omega arith, (h, (omega arith, tt)))

listing_allowed : contains allowed_operations listing.operation ≡ true
unfolding contains list_beq
listing_allowed = refl

listing_bare : contains bare_operations listing.operation ≡ false
unfolding contains list_beq
listing_bare = refl

parse-client_request_example : parse_request (client_request listing) ≡ ok listing
parse-client_request_example =
    parse-client_request listing listing_allowed (short_id 114 (omega arith))
      (short_id 99 (omega arith)) (inr listing_bare)

parse_sound_example :
    (contains allowed_operations (codes "ls") ≡ true)
    × IsIdentifier (codes "r1")
    × IsIdentifier (codes "c1")
    × ((listing.payload ≡ none) ⊎ (contains bare_operations (codes "ls") ≡ false))
parse_sound_example = parse_sound (client_request listing) listing parse-client_request_example

unhashable :
    parse_request {O = ℕ} (
      (codes "cancellation_id", string (codes "c1"))
      ∷ (codes "kind", string (codes "request"))
      ∷ (codes "operation", array (1 ∷ []))
      ∷ (codes "request_id", string (codes "r1"))
      ∷ (codes "version", integer (pos 1))
      ∷ [])
    ≡ err type_error
unfolding parse_request in_texts at_key get same_set all contains list_beq
unhashable = refl

client-make_response_example : client_result (codes "r1") (make_response listing true 6) ≡ (
    if listing.request_id == codes "r1"
    then if true then ok 6 else err rejected_request
    else err invalid_response)
client-make_response_example = client-make_response listing (codes "r1") true 6
