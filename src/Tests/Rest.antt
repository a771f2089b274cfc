-- ===== src/Tests/Rest.antt =====
-- The results on the REST client, over requests that are their URL.
use overload_party_matchmaki.Prelude.{ℕ, suc, pos, Text, codes, List, [], ◌∷◌, ok, err}
use overload_party_matchmaki.Rest.{Net}
use overload_party_matchmaki.Rest.Calls.{Doer, Editor}
use overload_party_matchmaki.Rest.Build.{Setting, http_client_option, request_editor_option}

abbrev plain : Net
plain = record {
  Error = ℕ;
  Url = Text;
  Wire = Text;
  parse_url = λ s. ok s;
  resolve = λ u p. ok u;
  url_text = λ u. u;
  new_request = λ m u b. ok u;
  add_header = λ r k v. r;
  marshal_enqueue = λ r. ok [];
  marshal_report = λ r. ok [];
  unmarshal_health = λ s. ok (record { circuit = codes "open"; status = codes "degraded" });
  unmarshal_size = λ s. ok (pos 2);
}

-- A doer that counts its calls and fails, and an editor that does nothing.
abbrev counting : Doer plain ℕ
counting = λ r w. (suc w, err 0)

abbrev editor : Editor plain ℕ
editor = λ r w. (w, ok r)

abbrev settings : List (Setting plain ℕ)
settings = request_editor_option editor ∷ http_client_option counting ∷ []
