-- ===== src/Secrets.antt =====
-- internal/adapter/secretmanager/client.go: the client of Secret Manager. The library is the parameter
-- `connect`, the result of making its client, and `access`, the payload of a secret version by its
-- name: none if the response has no payload.
use overload_party_matchmaki.Prelude.{
  Text, codes, text_eq, [], ◌∷◌, ◌++◌, Option, none, some, Result, ok, err, ◌>>=◌, if◌then◌else◌,
}

pub data SecretError : Type 0 where
  project_id_empty : SecretError
  new_client_failed : Text → SecretError
  access_failed : Text → Text → SecretError
  empty_payload : Text → SecretError

client_result : Result Text (Unit {0}) → Result SecretError (Unit {0})
client_result (ok u) = ok u
client_result (err e) = err (new_client_failed e)

-- NewClient; the client keeps its project.
unfoldable pub new_client : Result Text (Unit {0}) → Text → Result SecretError Text
unfolding client_result
new_client connect project_id =
    if text_eq project_id []
    then err project_id_empty
    else (do _ ← client_result connect; ok project_id)

unfoldable pub version_name : Text → Text → Text
version_name project_id secret_id =
    codes "projects/"
    ++ (project_id ++ (codes "/secrets/" ++ (secret_id ++ codes "/versions/latest")))

payload_result : Text → Result Text (Option Text) → Result SecretError Text
payload_result secret_id (err e) = err (access_failed secret_id e)
payload_result secret_id (ok none) = err (empty_payload secret_id)
payload_result secret_id (ok (some [])) = err (empty_payload secret_id)
payload_result secret_id (ok (some (c ∷ s))) = ok (c ∷ s)

-- AccessLatest
unfoldable pub access_latest :
    (Text → Result Text (Option Text)) → Text → Text → Result SecretError Text
unfolding version_name payload_result
access_latest access project_id secret_id =
    payload_result secret_id (access (version_name project_id secret_id))
