-- ===== src/Routes/Token.antt =====
-- web/app/api/auth/token/route.ts: the exchange of the authorization code.
use signet_platform.Prelude.{
  ℕ, ◌≡◌, ap, sym, ◌∙◌, Bool, true, false, not, Option, none, some, List, [], ◌∷◌, ◌==◌,
  if◌then◌else◌,
}
use signet_platform.Prelude.Text.{Str, codes, truthy, is_empty}
use signet_platform.Effects.Failure.{Answer, returned, Result, ok, err, external}
use signet_platform.Effects.Json.{
  Json, null, bool, num, str, arr, obj, Fields, end, field, get_field, with_members,
}

-- `process.env`; Google's endpoint, which is sent a form and answers a JSON text or throws; and the
-- conversion that a form makes of its values.
pub record Server : Type 0 where
  pub client_id : Option Str
  pub client_secret : Option Str
  pub google : List (Str × Str) → Answer Json
  pub string_of : Json → Str

pub record Reply : Type 0 where
  pub status : ℕ
  pub body : Fields

-- A member of a value: `undefined` if it has no such member.
unfoldable pub member : Str → Json → Option Json
unfolding get_field
member k (obj fs) = get_field k fs
member k j = none

-- Whether a value is truthy.
unfoldable pub is_truthy : Option Json → Bool
is_truthy none = false
is_truthy (some null) = false
is_truthy (some (bool b)) = b
is_truthy (some (num n)) = not (n == 0)
is_truthy (some (str s)) = not (is_empty s)
is_truthy (some (arr a)) = true
is_truthy (some (obj a)) = true

-- A member that is `undefined` is left out of a JSON text.
abbrev pub json_field : Str → Option Json → Fields → Fields
json_field k v rest = elim v [ none ↦ rest | some j ↦ field k j rest ]

-- A form turns `undefined` into that word.
abbrev pub form_text : Server → Option Json → Str
form_text server v = elim v [ none ↦ codes "undefined" | some j ↦ server.string_of j ]

unfoldable pub token_form : Server → Str → Str → Json → List (Str × Str)
unfolding member
token_form server id secret request =
    (codes "client_id", id)
    ∷ (codes "client_secret", secret)
    ∷ (codes "code", form_text server (member (codes "code") request))
    ∷ (codes "code_verifier", form_text server (member (codes "code_verifier") request))
    ∷ (codes "grant_type", codes "authorization_code")
    ∷ (codes "redirect_uri", form_text server (member (codes "redirect_uri") request))
    ∷ []

abbrev not_configured : Reply
not_configured = record {
  status = 500;
  body =
      field (codes "error")
        (str (
          codes
            "Google sign-in is not configured. Set NEXT_PUBLIC_GOOGLE_CLIENT_ID and GOOGLE_CLIENT_SECRET."))
        end;
}

-- What is made of Google's answer.
unfoldable pub token_reply : Json → Reply
unfolding member is_truthy
token_reply tokens =
    let error = member (codes "error") tokens in
    if is_truthy error
    then record {
      status = 400;
      body =
          json_field (codes "error") error (
            json_field (codes "error_description") (member (codes "error_description") tokens) end);
    }
    else record {
      status = 200;
      body = json_field (codes "id_token") (member (codes "id_token") tokens) end;
    }

-- A result whose value goes on.
abbrev pub and_then : {A B : Type 0} → Result A → (A → Result B) → Result B
and_then (ok a) f = f a
and_then (err e) f = err e

-- `POST`: a request whose body is a JSON text. An error is one that the handler throws.
unfoldable pub exchange_token : Server → Answer Json → Result Reply
unfolding token_form token_reply
exchange_token server received = and_then (external received) λ body.
    and_then (with_members body) λ request. elim (truthy server.client_id) [
      | none ↦ ok not_configured
      | some id ↦ elim (truthy server.client_secret) [
        | none ↦ ok not_configured
        | some secret ↦
            and_then (external (server.google (token_form server id secret request)))
              λ answer. and_then (with_members answer) λ tokens. ok (token_reply tokens)
      ]
    ]

-- Two answers of Google that agree on the members that the browser may see.
abbrev pub AgreeOnShown : Json → Json → Type 0
AgreeOnShown j k =
    (member (codes "error") j ≡ member (codes "error") k)
    × (member (codes "error_description") j ≡ member (codes "error_description") k)
    × (member (codes "id_token") j ≡ member (codes "id_token") k)

token_reply-cong : (j k : Json) → AgreeOnShown j k → token_reply j ≡ token_reply k
unfolding token_reply
token_reply-cong j k (error, description, id_token) = rw (error, description, id_token)

-- A server with another secret, at which Google answers another text.
abbrev pub with_secret : Server → Str → (List (Str × Str) → Answer Json) → Server
with_secret server secret google = record server { client_secret = some secret; google = google }

exchanged :
    (server : Server) (id secret : Str) (request : Json) (fs : Fields)
    → truthy server.client_id ≡ some id
    → truthy server.client_secret ≡ some secret
    → with_members request ≡ ok request
    → server.google (token_form server id secret request) ≡ returned (obj fs)
    → exchange_token server (returned request) ≡ ok (token_reply (obj fs))
unfolding exchange_token with_members
exchanged server id secret request fs i s r g = rw (r, i, s, g)

-- The reply to the browser depends neither on the server's secret nor on any member of Google's
-- answer but its error, the description of the error and the identity token: two servers with
-- different secrets, at which Google answers objects that agree on these three, reply the same.
pub exchange_token-AgreeOnShown :
    (server : Server) (id secret other : Str) (google google_other : List (Str × Str) → Answer Json)
    (request : Json) (j k : Fields)
    → truthy server.client_id ≡ some id
    → truthy (some secret) ≡ some secret
    → truthy (some other) ≡ some other
    → with_members request ≡ ok request
    → google (token_form server id secret request) ≡ returned (obj j)
    → google_other (token_form server id other request) ≡ returned (obj k)
    → AgreeOnShown (obj j) (obj k)
    → exchange_token (with_secret server secret google) (returned request)
      ≡ exchange_token (with_secret server other google_other) (returned request)
unfolding token_form
exchange_token-AgreeOnShown server id secret other google google_other request j k i s t r g h a =
    exchanged (with_secret server secret google) id secret request j i s r g
    ∙ ap ok (token_reply-cong (obj j) (obj k) a)
    ∙ sym (exchanged (with_secret server other google_other) id other request k i t r h)
