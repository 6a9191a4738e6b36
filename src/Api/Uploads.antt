-- ===== src/Api/Uploads.antt =====
-- web/lib/api.ts: `nodeProxy` and `uploadFile`, which make requests of their own.
use signet_platform.Prelude.{ℕ, Option, none, some, [], ◌∷◌, ◌++◌, if◌then◌else◌, leb, ltb, ◌&&◌}
use signet_platform.Prelude.Text.{Str, codes, truthy}
use signet_platform.Effects.Failure.{Answer, external, upload_failed}
use signet_platform.Effects.Json.{Json, num, Fields, end, field}
use signet_platform.Effects.World.{Exec, ◌>>=◌, ◌>>◌, pure, raise, lift, await, called}
use signet_platform.Effects.Host.{Host, fetch}
use signet_platform.Api.{stored_token, read_answer}
use signet_platform.Api.Query.{Urls}
use signet_platform.Api.Endpoints.{Endpoint, call_of, text_field, maybe_field}
use signet_platform.Api.AppEndpoints.{send}

unfoldable pub node_proxy : Host → Str → Str → Option Json → Str → Exec Json
unfolding stored_token read_answer
node_proxy host node_url path body method = do
  token ← stored_token
  res ← fetch host (record {
    method = codes "POST";
    url = host.api_base ++ codes "/v1/node/proxy";
    headers =
        (codes "Content-Type", codes "application/json")
        ∷ (codes "x-node-url", node_url)
        ∷ (codes "x-node-path", path)
        ∷ (codes "x-node-method", method)
        ∷ elim (truthy token) [
          | none ↦ []
          | some t ↦ (codes "Authorization", codes "Bearer " ++ t) ∷ []
        ];
    body = body;
  })
  read_answer host res

-- A file of the browser: `put` is the status of a `PUT` of its bytes to an address, with its type.
pub record File : Type 0 where
  pub name : Str
  pub type_text : Str
  pub size : ℕ
  pub put : Str → Str → Answer ℕ

-- The two addresses of a presigned upload.
pub record Presigned : Type 0 where
  pub upload_url : Str
  pub public_url : Str

unfoldable pub content_type : File → Str
content_type file = elim (truthy (some file.type_text)) [
  | none ↦ codes "application/octet-stream"
  | some t ↦ t
]

unfoldable pub presign_fields : File → Str → Option Str → Option Str → Fields
unfolding content_type
presign_fields file org_id app_id scope = text_field (codes "org_id") org_id (
    maybe_field (codes "app_id") app_id (
      text_field (codes "filename") file.name (
        text_field (codes "content_type") (content_type file) (
          text_field (codes "scope") (elim scope [ none ↦ codes "misc" | some s ↦ s ])
            (field (codes "byte_size") (num file.size) end)))))

-- `as_presigned` takes the answer for the addresses that it stands for.
unfoldable pub upload_file :
    Host → Urls → (Json → Presigned) → File → Str → Option Str → Option Str → Exec Str
unfolding presign_fields
upload_file host urls as_presigned file org_id app_id scope = do
  answer ←
      send host (call_of urls (Endpoint.presign_upload (presign_fields file org_id app_id scope)))
  await (called (as_presigned answer).upload_url)
  status ← lift (external (file.put (as_presigned answer).upload_url (content_type file)))
  (if leb 200 status && ltb status 300
      then pure (as_presigned answer).public_url
      else raise (upload_failed status))
