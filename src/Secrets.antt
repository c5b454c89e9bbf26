-- ===== src/Secrets.antt =====
-- packages/core/src/secret-material-heuristics.ts, and assertNoSecretMaterial of
-- packages/core/src/reference-repository-security-utils.ts. A text is read by code points, and
-- `toLowerCase` is an argument.
use Prim.Native.Char.{Char, code}
use access_kit.Prelude.{
  ℕ, String, Bool, true, false, not, ◌&&◌, ◌||◌, List, [], ◌∷◌, ◌==◌, if◌then◌else◌, leb, some_by,
}
use access_kit.Domain.Json.{
  JsonRecord, end, field, Json, undefined, null, bool, num, text, arr, obj, Items, nil, cons,
}

-- Whether the first text begins the second.
unfoldable begins : String → String → Bool
begins String.[] t = true
begins (String.◌∷◌ c s) String.[] = false
begins (String.◌∷◌ c s) (String.◌∷◌ d t) =
    (leb (code c) (code d) && leb (code d) (code c)) && begins s t

-- Whether the second text has the first in it.
unfoldable occurs : String → String → Bool
unfolding begins
occurs word String.[] = begins word String.[]
occurs word (String.◌∷◌ c t) = begins word (String.◌∷◌ c t) || occurs word t

-- `\s` of a regular expression.
abbrev is_space : ℕ → Bool
is_space c =
    (leb 9 c && leb c 13)
    || ((leb 8192 c && leb c 8202)
        || some_by (λ s. leb s c && leb c s)
            (32 ∷ 160 ∷ 5760 ∷ 8232 ∷ 8233 ∷ 8239 ∷ 8287 ∷ 12288 ∷ 65279 ∷ []))

-- `-` and `_` are 45 and 95.
abbrev is_dropped : Char → Bool
is_dropped c = is_space (code c) || some_by (λ s. leb s (code c) && leb (code c) s) (45 ∷ 95 ∷ [])

-- `replaceAll(/[-_\s]/g, "")`.
unfoldable squeezed : String → String
squeezed String.[] = String.[]
squeezed (String.◌∷◌ c s) =
    let rest = squeezed s in if is_dropped c then rest else String.◌∷◌ c rest

abbrev sensitive_key_pattern : List String
sensitive_key_pattern =
    "secret" ∷ "token" ∷ "password" ∷ "credential" ∷ "accesskey" ∷ "privatekey" ∷ "signingkey"
    ∷ "hmackey" ∷ "encryptionkey" ∷ []

abbrev sensitive_key_names : List String
sensitive_key_names =
    "accesskey" ∷ "accesstoken" ∷ "apikey" ∷ "apisecret" ∷ "apitoken" ∷ "authtoken"
    ∷ "authorization" ∷ "bearertoken" ∷ "clientkey" ∷ "clientsecret" ∷ "cookie" ∷ "idtoken"
    ∷ "refreshtoken" ∷ "sessiontoken" ∷ "setcookie" ∷ "token" ∷ "tokenmaterial" ∷ "tokenvalue"
    ∷ "xapikey" ∷ []

module _ (lower : String → String) where
  unfoldable pub is_sensitive_key : String → Bool
  unfolding occurs squeezed
  is_sensitive_key key =
      let normalized = lower (squeezed key) in
      some_by (λ word. occurs word normalized) sensitive_key_pattern
      || some_by (λ name. name == normalized) sensitive_key_names

  -- assertNoSecretMaterial does not throw.
  unfoldable mutual
    pub no_secret_material : Json → Bool
    no_secret_material undefined = true
    no_secret_material null = true
    no_secret_material (bool b) = true
    no_secret_material (num n) = true
    no_secret_material (text s) = true
    no_secret_material (arr xs) = no_secret_items xs
    no_secret_material (obj r) = no_secret_fields r

    pub no_secret_items : Items → Bool
    no_secret_items nil = true
    no_secret_items (cons v vs) = no_secret_material v && no_secret_items vs

    pub no_secret_fields : JsonRecord → Bool
    no_secret_fields end = true
    no_secret_fields (field key v r) =
        not (is_sensitive_key key) && (no_secret_material v && no_secret_fields r)
